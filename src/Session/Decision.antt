-- ===== src/Session/Decision.antt =====
-- The decision that a saturation session (src/pyelk/reasoning/session.py) takes after its scheduler ran
-- is about the contexts of the scheduler.
use py_elk.Prelude.{ℕ, ◌≡◌, ◌≤◌, refl, sym, ap, ◌∙◌, List, none, some, Result, ok, arith}
use py_elk.Ir.{CompiledOntology}
use py_elk.PropertySaturation.{PropertySaturation, property_view}
use py_elk.Rules.Index.{RuleDispatcher}
use py_elk.Rules.Lookups.{IsSymmetric}
use py_elk.Saturation.Actions.{modify}
use py_elk.Saturation.Engine.{Engine}
use py_elk.Saturation.Holds.{Holds, Holds-bind, Holds-map, lift-Holds}
use py_elk.Consistency.{ConsistencyState, evaluate_consistency}
use py_elk.Session.{
  Stage, stage_id, SaturationSession, ensure_properties, engine, run_engine, evaluate, decide,
  set_stage, saturate_more,
}
use py_elk.Session.Sound.{From, Closes, Makes, HasContext, IsDemanded}
use py_elk.Session.Makes.{ensure_properties-Holds, engine-Holds}
use py_elk.Session.Served.{Served, IsCurrent, IsCurrent-none, Arrives, Serves, run_engine-Holds}

module _ (c : CompiledOntology) (saturate_properties : CompiledOntology → Result PropertySaturation)
    (fuel : ℕ)
    (lawful : (p : PropertySaturation)
      → saturate_properties c ≡ ok p
      → IsSymmetric (property_view p))
    (n : ℕ) where
  abbrev Sound : SaturationSession → Type 0
  Sound = From c saturate_properties n

  abbrev Evaluated : RuleDispatcher × Engine → ConsistencyState → SaturationSession → Type 0
  Evaluated made state t =
      (p : PropertySaturation) × (t.closure ≡ some p)
      × (t.scheduler ≡ some made)
      × (evaluate_consistency c p made.1.contexts ≡ ok state)

  evaluate-Holds :
      (made : RuleDispatcher × Engine) (s : SaturationSession)
      → Sound s
      → s.scheduler ≡ some made
      → Holds
          (From c saturate_properties n)
          (Evaluated made)
          (evaluate c saturate_properties fuel s)
  unfolding evaluate
  evaluate-Holds made s h there =
      Holds-bind Sound (Closes c saturate_properties s) (Evaluated made)
        (ensure_properties c saturate_properties fuel) _ s
        (ensure_properties-Holds c saturate_properties fuel lawful n s h)
        (λ p t h' (closure, same, _).
          Holds-bind Sound (Makes c saturate_properties t) (Evaluated made)
            (engine c saturate_properties fuel) _ t
            (engine-Holds c saturate_properties fuel lawful n t h')
            (λ m u h'' (owned, old, closures, _).
              let m_is : m ≡ made = old made (same ∙ there) in
              lift-Holds Sound (Evaluated made) (evaluate_consistency c p m.1.contexts) u h''
                (λ state e. (
                  p,
                  closures p closure,
                  owned ∙ ap some m_is,
                  ap (λ (k : RuleDispatcher × Engine). evaluate_consistency c p k.1.contexts)
                        (sym m_is)
                      ∙ e,
                ))))

  -- The decision is current, and the scheduler is the one that it is about.
  abbrev pub Decides : List ℕ → RuleDispatcher × Engine → SaturationSession → Type 0
  Decides roots made t = IsCurrent c roots t × (t.scheduler ≡ some made)

  pub decide-Holds :
      (roots : List ℕ) (made : RuleDispatcher × Engine) (s : SaturationSession)
      → Sound s
      → s.scheduler ≡ some made
      → Served c roots made
      → Holds
          (From c saturate_properties n)
          (λ _ t. Decides roots made t)
          (decide c saturate_properties fuel s)
  unfolding decide modify
  decide-Holds roots made s h there served =
      Holds-bind Sound (Evaluated made) (λ _ t. Decides roots made t)
        (evaluate c saturate_properties fuel) _ s (evaluate-Holds made s h there)
        (λ state t h' (p, closure, owned, evaluated). (
          (
            record {
              closed = h'.0.closed;
              scheduled = h'.0.scheduled;
              decided = λ low e. cc e;
              demanded = h'.0.demanded;
            },
            h'.1,
          ),
          ((state, p, made, refl, closure, owned, evaluated, served), owned),
        ))

  -- The scheduler ran over the roots, and the decision is about what it stores then.
  abbrev pub Reaches : List ℕ → SaturationSession → Type 0
  Reaches roots t = (made : RuleDispatcher × Engine) × Served c roots made × Decides roots made t

  pub saturate_more-Holds :
      (roots : List ℕ) (s : SaturationSession)
      → Sound s
      → Holds
          (From c saturate_properties n)
          (λ _ t. Reaches roots t)
          (saturate_more c saturate_properties fuel roots s)
  unfolding saturate_more
  saturate_more-Holds roots s h =
      Holds-bind Sound (Makes c saturate_properties s) (λ _ t. Reaches roots t)
        (engine c saturate_properties fuel) _ s
        (engine-Holds c saturate_properties fuel lawful n s h)
        (λ made t h' (owned, _, _, _).
          Holds-bind Sound (λ _ u. Serves c saturate_properties fuel lawful n roots made.0 u)
            (λ _ u. Reaches roots u) (run_engine c saturate_properties fuel roots made)
            (λ _. decide c saturate_properties fuel) t
            (run_engine-Holds c saturate_properties fuel lawful n roots made t h' owned)
            (λ _ u h'' (e, there, served).
              Holds-map Sound Sound (λ _ w. Decides roots (made.0, e) w) (λ _ w. Reaches roots w) _
                (λ w k. k) (λ _ w k decides. ((made.0, e), served, decides))
                (decide-Holds roots (made.0, e) u h'' there served)))

  -- A stage is set when what it demands has contexts.
  pub set_stage-Holds :
      (target : Stage) (roots : List ℕ) (s : SaturationSession)
      → Sound s
      → IsCurrent c roots s
      → n ≤ stage_id target
      → ((r : ℕ) → IsDemanded c target r → HasContext s.scheduler r)
      → Holds
          (From c saturate_properties n)
          (λ _ t. Arrives c (stage_id target) t)
          (set_stage c saturate_properties fuel target s)
  unfolding set_stage modify
  set_stage-Holds target roots s h current up demanded = (
    (
      record {
        closed = h.0.closed;
        scheduled = h.0.scheduled;
        decided = λ low missing.
            let (state, _, _, there, _, _, _, _) = current in
            let clash : none ≡ some state = sym missing ∙ there in cc clash;
        demanded = demanded;
      },
      up,
    ),
    (IsCurrent-none c roots s current, ground arith),
  )
