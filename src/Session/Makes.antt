-- ===== src/Session/Makes.antt =====
-- `ensure_properties` and `engine` of a saturation session (src/pyelk/reasoning/session.py) make the
-- closure and the scheduler once.
use py_elk.Prelude.{
  ℕ, ◌≡◌, ◌≤◌, refl, sym, ap, subst, ◌∙◌, inl, inr, Option, none, some, some-injective,
  Option-cases, Bool-cases, Result, ok, err, ok-injective, arith, if◌then◌else◌,
}
use py_elk.Ir.{CompiledOntology}
use py_elk.PropertyView.{PropertyView}
use py_elk.PropertySaturation.{PropertySaturation, property_view}
use py_elk.Rules.Index.{RuleDispatcher, rule_dispatcher}
use py_elk.Rules.Lookups.{IsSymmetric}
use py_elk.Saturation.Engine.{Engine, new_engine}
use py_elk.Saturation.Holds.{Holds, Holds-bind, Holds-map}
use py_elk.Saturation.Sound.{new_engine-IsSteady}
use py_elk.Saturation.Closure.{new_engine-IsComplete}
use py_elk.Saturation.Arrival.{Any}
use py_elk.Session.{properties, SaturationSession, reached, ensure_properties, make_engine, engine}
use py_elk.Session.Sound.{IsEngine, From, Closes, Makes}

module _ (c : CompiledOntology)
    (saturate_properties : CompiledOntology → Result PropertySaturation) where
  module _ (fuel : ℕ)
      (lawful : (p : PropertySaturation)
        → saturate_properties c ≡ ok p
        → IsSymmetric (property_view p))
      (n : ℕ) where
    raised :
        (s : SaturationSession)
        → From c saturate_properties n s
        → From c saturate_properties n
            (if reached properties s then record s { stage = properties } else s)
    raised s h = elim (Bool-cases (reached properties s)) [
      | inl t ↦ rw t (
        record {
          closed = h.0.closed;
          scheduled = h.0.scheduled;
          decided = λ low. ground arith;
          demanded = λ r low. ground arith;
        },
        (let low : n ≤ 1 = ground (arith, h.1) in low),
      )
      | inr f ↦ rw f h
    ]

    -- The stage is all that is raised.
    raised-Closes :
        (s : SaturationSession) (p : PropertySaturation)
        → s.closure ≡ some p
        → Closes c saturate_properties s p
            (if reached properties s then record s { stage = properties } else s)
    raised-Closes s p h = elim (Bool-cases (reached properties s)) [
      | inl t ↦ rw t (h, refl, refl)
      | inr f ↦ rw f (h, refl, refl)
    ]

    built-Holds :
        (r : Result PropertySaturation) (s : SaturationSession)
        → saturate_properties c ≡ r
        → From c saturate_properties n s
        → Holds
            (From c saturate_properties n)
            (Closes c saturate_properties s)
            (elim r as (λ _. Result PropertySaturation × SaturationSession) [
              | err x ↦ (err x, s)
              | ok p ↦ (
                ok p,
                if reached properties s
                    then record s { closure = some p; stage = properties }
                    else record s { closure = some p },
              )
            ])
    built-Holds (err x) s e h = h
    built-Holds (ok p) s e h = (
      raised (record s { closure = some p })
          (
            record {
              closed = λ q k. e ∙ ap ok (some-injective p q k);
              scheduled = h.0.scheduled;
              decided = h.0.decided;
              demanded = h.0.demanded;
            },
            h.1,
          ),
      raised-Closes (record s { closure = some p }) p refl,
    )

    pub ensure_properties-Holds :
        (s : SaturationSession)
        → From c saturate_properties n s
        → Holds
            (From c saturate_properties n)
            (Closes c saturate_properties s)
            (ensure_properties c saturate_properties fuel s)
    unfolding ensure_properties
    ensure_properties-Holds s h = elim (Option-cases s.closure) [
      | inr (p, found) ↦ rw (found, ensure_properties) (raised s h, raised-Closes s p found)
      | inl fresh ↦ rw (fresh, ensure_properties) (built-Holds (saturate_properties c) s refl h)
    ]

    dispatched-Holds :
        (r : Result RuleDispatcher) (v : PropertyView) (s : SaturationSession)
        → rule_dispatcher c v ≡ r
        → IsSymmetric v
        → s.scheduler ≡ none
        → From c saturate_properties n s
        → Holds
            (From c saturate_properties n)
            (Makes c saturate_properties s)
            (elim r as (λ _. Result (RuleDispatcher × Engine) × SaturationSession) [
              | err x ↦ (err x, s)
              | ok d ↦ (ok (d, new_engine), record s { scheduler = some (d, new_engine) })
            ])
    dispatched-Holds (err x) v s e sy fresh h = h
    dispatched-Holds (ok d) v s e sy fresh h = (
      (
        record {
          closed = h.0.closed;
          scheduled = λ made q.
              subst (IsEngine c) (some-injective (d, new_engine) made q)
                (v, e, sy, (new_engine-IsSteady Any, new_engine-IsComplete d));
          decided = h.0.decided;
          demanded = λ r low.
              let (made, there, _) = h.0.demanded r low in
              let clash : none ≡ some made = sym fresh ∙ there in absurd (cc clash);
        },
        h.1,
      ),
      (
        refl,
        (λ m there. let clash : none ≡ some m = sym fresh ∙ there in absurd (cc clash)),
        (λ p q. q),
        refl,
      ),
    )

    make_engine-Holds :
        (p : PropertySaturation) (s : SaturationSession)
        → From c saturate_properties n s
        → saturate_properties c ≡ ok p
        → Holds
            (From c saturate_properties n)
            (Makes c saturate_properties s)
            (make_engine c saturate_properties fuel p s)
    unfolding make_engine
    make_engine-Holds p s h built =
        let fresh_engine : Result (RuleDispatcher × Engine) × SaturationSession =
          elim (rule_dispatcher c (property_view p))
            as (λ _. Result (RuleDispatcher × Engine) × SaturationSession) [
              | err x ↦ (err x, s)
              | ok d ↦ (ok (d, new_engine), record s { scheduler = some (d, new_engine) })
            ] in
        let Kept = λ (o : Option (RuleDispatcher × Engine)).
          Holds (From c saturate_properties n) (Makes c saturate_properties s)
            (elim o as (λ _. Result (RuleDispatcher × Engine) × SaturationSession) [
              | some m ↦ (ok m, s)
              | none ↦ fresh_engine
            ]) in
        elim (Option-cases s.scheduler) [
          | inr (made, found) ↦
              let kept : Makes c saturate_properties s made s =
                (found, (λ m there. some-injective made m (sym found ∙ there)), (λ p q. q), refl) in
              subst Kept (sym found) (h, kept)
          | inl fresh ↦ subst Kept (sym fresh) (
              dispatched-Holds (rule_dispatcher c (property_view p)) (property_view p) s refl
                (lawful p built) fresh h)
        ]

    pub engine-Holds :
        (s : SaturationSession)
        → From c saturate_properties n s
        → Holds
            (From c saturate_properties n)
            (Makes c saturate_properties s)
            (engine c saturate_properties fuel s)
    unfolding engine
    engine-Holds s h =
        Holds-bind (From c saturate_properties n) (Closes c saturate_properties s)
          (Makes c saturate_properties s) (ensure_properties c saturate_properties fuel)
          (make_engine c saturate_properties fuel) s (ensure_properties-Holds s h)
          (λ p t h' (closure, same, still).
            let built : saturate_properties c ≡ ok p = h'.0.closed p closure in
            Holds-map (From c saturate_properties n) (From c saturate_properties n)
              (Makes c saturate_properties t) (Makes c saturate_properties s) _ (λ u k. k)
              (λ made u k (owned, old, closures, decision). (
                owned,
                (λ m there. old m (same ∙ there)),
                (λ q there.
                    let p_is : p ≡ q = ok-injective (sym built ∙ h.0.closed q there) in
                    closures q (closure ∙ ap some p_is)),
                decision ∙ still,
              ))
              (make_engine-Holds p t h' built))
