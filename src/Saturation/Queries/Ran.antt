-- ===== src/Saturation/Queries/Ran.antt =====
-- What the scheduler of src/pyelk/reasoning/saturation.py keeps, and what it has reached, when it was
-- run by `run` or by `saturate_query_root`.
use py_elk.Prelude.{
  ℕ, ◌≡◌, refl, sym, subst, ◌∙◌, inl, inr, List, [], ◌∷◌, ◌++◌, none, Option-cases, false,
  Bool-cases, ◌==◌, In-append, Result, ok, err,
}
use py_elk.Ir.{CompiledOntology}
use py_elk.PropertyView.{PropertyView}
use py_elk.Context.{FrozenContext, freeze}
use py_elk.Rules.Index.{RuleDispatcher, rule_dispatcher}
use py_elk.Rules.Lookups.{IsSymmetric}
use py_elk.Rules.Construction.{rule_dispatcher-IsIndexed}
use py_elk.Rules.Exact.{rule_dispatcher-IsNamed}
use py_elk.Saturation.Actions.{pure, lift}
use py_elk.Saturation.Engine.{Engine, context_at, checked_root}
use py_elk.Saturation.Steady.{IsClosed, IsSteady}
use py_elk.Saturation.Holds.{Ends, Ends-bind, Ends-Holds, lift-Ends}
use py_elk.Saturation.Routing.{At}
use py_elk.Saturation.Arrival.{Any}
use py_elk.Saturation.Complete.{IsComplete, Moves-IsComplete, Moves-same, fewer_roots}
use py_elk.Saturation.Premises.{context_at-same}
use py_elk.Saturation.Kept.{run-Kept, checked_root-same}
use py_elk.Saturation.Closure.{Stored, run-IsClosed}
use py_elk.Saturation.Queries.{checked_key, find_key, bind_key, run_all, saturate_query_root}

-- The scheduler is steady and has lost nothing, and the roots have contexts.
abbrev pub Good : RuleDispatcher → List ℕ → Engine → Type 0
Good d roots t = IsSteady Any none t × IsComplete d roots none t

-- It is good however it ended; when it returned, more roots have contexts, and what is stored is
-- closed.
abbrev pub Ran :
    {A : Type 0}
    → CompiledOntology
    → PropertyView
    → RuleDispatcher
    → List ℕ
    → List ℕ
    → Result A × Engine
    → Type 0
Ran c v d asked roots p =
    Ends (Good d asked)
      (λ _ t. Good d (asked ++ roots) t × IsClosed c v d.owl_thing d.owl_nothing (Stored t)) p

module _ (c : CompiledOntology) (v : PropertyView) (d : RuleDispatcher)
    (made : rule_dispatcher c v ≡ ok d) (sy : IsSymmetric v) (fuel : ℕ) where
  ended_cases :
      (asked roots : List ℕ) (e : Engine) (p : Result (Unit {0}) × Engine)
      → run_all d fuel roots e ≡ p
      → Good d asked e
      → Ends (Good d asked) (λ _ t. Good d (asked ++ roots) t) p
      → Ran c v d asked roots p
  ended_cases asked roots e (err x, t) same h k = k
  ended_cases asked roots e (ok tt, t) same h k = (
    k,
    (run-IsClosed c v d Any none (λ n. false) fuel asked roots e t made sy
        (record { inferred = λ x i. tt; activated = λ x q. tt }) (λ r m. tt) h.0 h.1 same).0,
  )

  pub run-Ran :
      (asked roots : List ℕ) (e : Engine)
      → Good d asked e
      → Ran c v d asked roots (run_all d fuel roots e)
  run-Ran asked roots e h =
      let (ix, _, same_v) = rule_dispatcher-IsIndexed c v d made in
      ended_cases asked roots e (run_all d fuel roots e) refl h (
        run-Kept d none (λ n. false) ix (subst IsSymmetric (sym same_v) sy)
          (rule_dispatcher-IsNamed c v d made) fuel asked roots e h)

  bound-Good :
      (asked : List ℕ) (e : Engine) (l : List (List ℕ × ℕ))
      → Good d asked e
      → Good d asked (record e { query_roots = l })
  bound-Good asked e l h = (
    h.0,
    Moves-IsComplete d asked none none e _
        (Moves-same none e (record e { query_roots = l }) refl refl) h.1,
  )

  bind_key-Good :
      (asked : List ℕ) (key : List ℕ) (root : ℕ) (e : Engine)
      → Good d asked e
      → Ends (Good d asked) (λ _ t. Good d asked t) (bind_key key root e)
  unfolding bind_key
  bind_key-Good asked key root e h = elim (Option-cases (find_key key e.query_roots)) [
    | inl free ↦ rw (free, bind_key) (bound-Good asked e _ h)
    | inr (previous, found) ↦
        rw (found, bind_key)
          (elim (Bool-cases (previous == root)) [
            | inl same ↦ rw same (bound-Good asked e _ h)
            | inr other ↦ rw other h
          ])
  ]

  pub saturate_query_root-Ran :
      (asked : List ℕ) (key : List ℕ) (root : ℕ) (e : Engine)
      → Good d asked e
      → Ran c v d asked (root ∷ []) (saturate_query_root d fuel key root e)
  unfolding saturate_query_root
  saturate_query_root-Ran asked key root e h =
      let E = Good d asked in
      let Last = λ (s : FrozenContext) (t : Engine).
        Good d (asked ++ root ∷ []) t × IsClosed c v d.owl_thing d.owl_nothing (Stored t) in
      let Through = λ (a : Unit {0}) (t : Engine).
        Good d (asked ++ root ∷ []) t × IsClosed c v d.owl_thing d.owl_nothing (Stored t) in
      Ends-bind E (λ k t. (t ≡ e) × (checked_key key ≡ ok k)) Last (lift (checked_key key)) _ e
        (lift-Ends E (checked_key key) e h)
        (λ k t (at, _).
          Ends-bind E (λ r u. E u × (r ≡ root)) Last (checked_root d root) _ t
            (Ends-Holds (λ u. u ≡ t) (λ r _. r ≡ root) E (λ r u. E u × (r ≡ root)) _
              (λ u q. subst E (sym (q ∙ at)) h) (λ r u q same. (subst E (sym (q ∙ at)) h, same))
              (checked_root-same d none (λ n. false) root t))
            (λ r u (good, same).
              Ends-bind E (λ _ w. E w) Last (bind_key k r) _ u (bind_key-Good asked k r u good)
                (λ _ w good'.
                  Ends-bind E Through Last (run_all d fuel (r ∷ [])) _ w
                    (subst (λ q. Ends E Through (run_all d fuel (q ∷ []) w)) (sym same)
                      (run-Ran asked (root ∷ []) w good'))
                    (λ _ x through.
                      let weak : E x = (
                        through.0.0,
                        fewer_roots d asked (asked ++ root ∷ []) none x
                            (λ q m.
                              through.0.1.demanded q ((In-append q asked (root ∷ [])).1 (inl m)))
                            through.0.1,
                      ) in
                      Ends-bind E (λ s y. (y ≡ x) × At r s x) Last (context_at r)
                        (λ s. pure (freeze s)) x (context_at-same d r E x weak)
                        (λ s y (last, _). subst (Last (freeze s)) (sym last) through)))))
