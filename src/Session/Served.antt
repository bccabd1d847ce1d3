-- ===== src/Session/Served.antt =====
-- A sound saturation session (src/pyelk/reasoning/session.py) stays sound while its scheduler runs and
-- its decision is taken, and the decision is about the contexts of the scheduler.
use py_elk.Prelude.{
  ℕ, ◌≡◌, ◌≤◌, refl, sym, subst, ◌∙◌, inl, inr, List, [], ◌∷◌, none, some, some-injective, In,
  Result, ok, err,
}
use py_elk.Ir.{CompiledOntology}
use py_elk.PropertyView.{PropertyView}
use py_elk.PropertySaturation.{PropertySaturation, property_view}
use py_elk.Context.{ContextState}
use py_elk.Rules.Index.{RuleDispatcher, rule_dispatcher}
use py_elk.Rules.Lookups.{IsSymmetric}
use py_elk.Saturation.Engine.{Engine}
use py_elk.Saturation.Steady.{IsClosed}
use py_elk.Saturation.Holds.{Holds}
use py_elk.Saturation.Routing.{At}
use py_elk.Saturation.Complete.{fewer_roots}
use py_elk.Saturation.Closure.{Stored}
use py_elk.Saturation.Queries.{run_all}
use py_elk.Saturation.Queries
use py_elk.Saturation.Queries.Ran.{Good, Ran, run-Ran, saturate_query_root-Ran}
use py_elk.Consistency.{ConsistencyState, evaluate_consistency}
use py_elk.Session.{stage_id, SaturationSession, run_engine, query_engine}
use py_elk.Session.Sound.{From, IsEngine}

-- What the scheduler stores is closed under the rules, and the roots have contexts.
abbrev pub Served : CompiledOntology → List ℕ → RuleDispatcher × Engine → Type 0
Served c roots (d, e) =
    ((v : PropertyView) × (rule_dispatcher c v ≡ ok d)
      × IsClosed c v d.owl_thing d.owl_nothing (Stored e))
    × ((r : ℕ) → In r roots → (z : ContextState) × At r z e)

-- The decision is what the consistency check says of the contexts of the scheduler, which has served
-- the roots.
abbrev pub IsCurrent : CompiledOntology → List ℕ → SaturationSession → Type 0
IsCurrent c roots s =
    (state : ConsistencyState) × (p : PropertySaturation) × (made : RuleDispatcher × Engine)
    × (s.decision ≡ some state)
    × (s.closure ≡ some p)
    × (s.scheduler ≡ some made)
    × (evaluate_consistency c p made.1.contexts ≡ ok state)
    × Served c roots made

-- The session has a current decision and has come at least to the stage.
abbrev pub Arrives : CompiledOntology → ℕ → SaturationSession → Type 0
Arrives c stage t = IsCurrent c [] t × (stage ≤ stage_id t.stage)

pub IsCurrent-none :
    (c : CompiledOntology) (roots : List ℕ) (s : SaturationSession)
    → IsCurrent c roots s
    → IsCurrent c [] s
IsCurrent-none c roots s (state, p, made, decision, closure, owned, evaluated, (closed, _)) =
    (state, p, made, decision, closure, owned, evaluated, (closed, λ r m. absurd m))

module _ (c : CompiledOntology) (saturate_properties : CompiledOntology → Result PropertySaturation)
    (fuel : ℕ)
    (lawful : (p : PropertySaturation)
      → saturate_properties c ≡ ok p
      → IsSymmetric (property_view p))
    (n : ℕ) where
  abbrev Sound : SaturationSession → Type 0
  Sound = From c saturate_properties n

  -- The scheduler has served the roots.
  abbrev pub Serves : List ℕ → RuleDispatcher → SaturationSession → Type 0
  Serves roots d t = (e : Engine) × (t.scheduler ≡ some (d, e)) × Served c roots (d, e)

  -- A good scheduler takes the place of the old one.
  rescheduled-Sound :
      (d : RuleDispatcher) (e e' : Engine) (s : SaturationSession)
      → Sound s
      → s.scheduler ≡ some (d, e)
      → Good d [] e'
      → ((r : ℕ) → (z : ContextState) × At r z e → (z : ContextState) × At r z e')
      → Sound (record s { scheduler = some (d, e') })
  rescheduled-Sound d e e' s h there good kept =
      let (v, made, sy, _) = h.0.scheduled (d, e) there in
      (
        record {
          closed = h.0.closed;
          scheduled = λ m q. subst (IsEngine c) (some-injective (d, e') m q) (v, made, sy, good);
          decided = h.0.decided;
          demanded = λ r asked.
              let (m, owned, found) = h.0.demanded r asked in
              let same : m ≡ (d, e) = some-injective m (d, e) (sym owned ∙ there) in
              (
                (d, e'),
                refl,
                kept r (
                    subst (λ (k : RuleDispatcher × Engine). (z : ContextState) × At r z k.1) same
                      found),
              );
        },
        h.1,
      )

  -- The scheduler was run.
  reschedule-Holds :
      {A : Type 0} (p : Result A × Engine) (roots : List ℕ) (d : RuleDispatcher) (e : Engine)
      (v : PropertyView) (s : SaturationSession)
      → Sound s
      → s.scheduler ≡ some (d, e)
      → rule_dispatcher c v ≡ ok d
      → Good d [] e
      → ((asked : List ℕ) → Good d asked e → Ran c v d asked roots p)
      → Holds
          (From c saturate_properties n)
          (λ _ t. Serves roots d t)
          (p.0, record s { scheduler = some (d, p.1) })
  reschedule-Holds (err x, e') roots d e v s h there made good ran =
      rescheduled-Sound d e e' s h there (ran [] good) (λ r found.
        (ran (r ∷ []) (
          good.0,
          fewer_roots d (r ∷ []) [] none e
              (λ q m. elim m [
                | inl same ↦ subst (λ k. (z : ContextState) × At k z e) (sym same) found
                | inr nowhere ↦ absurd nowhere
              ])
              good.1,
        )).1.demanded
          r (inl refl))
  reschedule-Holds (ok a, e') roots d e v s h there made good ran = (
    rescheduled-Sound d e e' s h there
        ((ran [] good).0.0, fewer_roots d [] roots none e' (λ r m. absurd m) (ran [] good).0.1)
        (λ r found.
          (ran (r ∷ []) (
            good.0,
            fewer_roots d (r ∷ []) [] none e
                (λ q m. elim m [
                  | inl same ↦ subst (λ k. (z : ContextState) × At k z e) (sym same) found
                  | inr nowhere ↦ absurd nowhere
                ])
                good.1,
          )).0.1.demanded
            r (inl refl)),
    (e', refl, ((v, made, (ran [] good).1), λ r m. (ran [] good).0.1.demanded r m)),
  )

  pub run_engine-Holds :
      (roots : List ℕ) (made : RuleDispatcher × Engine) (s : SaturationSession)
      → Sound s
      → s.scheduler ≡ some made
      → Holds
          (From c saturate_properties n)
          (λ _ t. Serves roots made.0 t)
          (run_engine c saturate_properties fuel roots made s)
  unfolding run_engine
  run_engine-Holds roots (d, e) s h there =
      let (v, made, sy, good) = h.0.scheduled (d, e) there in
      reschedule-Holds (run_all d fuel roots e) roots d e v s h there made good
        (λ asked k. run-Ran c v d made sy fuel asked roots e k)

  pub query_engine-Holds :
      (key : List ℕ) (root : ℕ) (made : RuleDispatcher × Engine) (s : SaturationSession)
      → Sound s
      → s.scheduler ≡ some made
      → Holds
          (From c saturate_properties n)
          (λ _ t. Serves (root ∷ []) made.0 t)
          (query_engine c saturate_properties fuel key root made s)
  unfolding query_engine
  query_engine-Holds key root (d, e) s h there =
      let (v, made, sy, good) = h.0.scheduled (d, e) there in
      reschedule-Holds (Queries.saturate_query_root d fuel key root e) (root ∷ []) d e v s h there
        made good (λ asked k. saturate_query_root-Ran c v d made sy fuel asked key root e k)
