-- ===== src/Session/Stages.antt =====
-- The stages of a saturation session (src/pyelk/reasoning/session.py): each demands its roots, and none
-- goes back.
use py_elk.Prelude.{
  ℕ, ◌≡◌, ◌≤◌, ◌<◌, ◌⊎◌, some, ap, subst, inl, inr, List, [], ◌∷◌, Option-cases, Bool, true,
  Bool-cases, enumerate, In, Result, ok, arith,
}
use py_elk.Ir.{CompiledOntology, ExpressionTag, ExpressionRecord}
use py_elk.PropertySaturation.{PropertySaturation, property_view}
use py_elk.Rules.IndexTables.{In-enumerate_zero}
use py_elk.Rules.Lookups.{IsSymmetric}
use py_elk.Saturation.Actions.{lift}
use py_elk.Saturation.Holds.{Holds, Holds-bind, Holds-map, lift-Holds}
use py_elk.Consistency.{consistency_roots}
use py_elk.Consistency.Roots.{In-consistency_roots}
use py_elk.Session.{
  Stage, consistency, stage_id, SaturationSession, reached, engine, run_engine, decide,
  first_decision, ensure_consistency, roots_of, saturate_more, enumerate_stage,
}
use py_elk.Session.Sound.{From, Makes, IsDemanded, IsTagged}
use py_elk.Session.Makes.{engine-Holds}
use py_elk.Session.Served.{IsCurrent, Arrives, Serves, run_engine-Holds}
use py_elk.Session.Decision.{Decides, Reaches, decide-Holds, saturate_more-Holds, set_stage-Holds}

module _ (c : CompiledOntology) (saturate_properties : CompiledOntology → Result PropertySaturation)
    (fuel : ℕ) where
  In-roots_of :
      (is_tag : ExpressionTag → Bool) (xs : List (ℕ × ExpressionRecord)) (r : ℕ)
      (row : ExpressionRecord)
      → is_tag row.tag ≡ true
      → In (r, row) xs
      → In r (roots_of c saturate_properties fuel is_tag xs)
  unfolding roots_of
  In-roots_of is_tag [] r row tagged m = absurd m
  In-roots_of is_tag ((i, x) ∷ xs) r row tagged (inl e) =
      let tag : is_tag x.tag ≡ true =
        subst (λ (k : ℕ × ExpressionRecord). is_tag k.1.tag ≡ true) e tagged in
      rw tag (inl (ap (λ (k : ℕ × ExpressionRecord). k.0) e))
  In-roots_of is_tag ((i, x) ∷ xs) r row tagged (inr m) = elim (Bool-cases (is_tag x.tag)) [
    | inl t ↦ rw t (inr (In-roots_of is_tag xs r row tagged m))
    | inr f ↦ rw f (In-roots_of is_tag xs r row tagged m)
  ]

  module _
      (lawful : (p : PropertySaturation)
        → saturate_properties c ≡ ok p
        → IsSymmetric (property_view p)) where
    abbrev Sound : ℕ → SaturationSession → Type 0
    Sound n = From c saturate_properties n

    first_decision-Holds :
        (n : ℕ) (s : SaturationSession)
        → Sound n s
        → n ≤ 2
        → Holds
            (From c saturate_properties n)
            (λ _ t. Arrives c 2 t)
            (first_decision c saturate_properties fuel s)
    unfolding first_decision
    first_decision-Holds n s h low =
        Holds-bind (Sound n) (Makes c saturate_properties s) (λ _ t. Arrives c 2 t)
          (engine c saturate_properties fuel) _ s
          (engine-Holds c saturate_properties fuel lawful n s h)
          (λ made t h' (owned, _, _, _).
            Holds-bind (Sound n)
              (λ roots u. (u.scheduler ≡ some made) × (consistency_roots c ≡ ok roots))
              (λ _ u. Arrives c 2 u) (lift (consistency_roots c)) _ t
              (lift-Holds (Sound n)
                (λ roots u. (u.scheduler ≡ some made) × (consistency_roots c ≡ ok roots))
                (consistency_roots c) t h' (λ roots e. (owned, e)))
              (λ roots u h'' (still, wanted).
                Holds-bind (Sound n)
                  (λ _ w. Serves c saturate_properties fuel lawful n roots made.0 w)
                  (λ _ w. Arrives c 2 w) (run_engine c saturate_properties fuel roots made) _ u
                  (run_engine-Holds c saturate_properties fuel lawful n roots made u h'' still)
                  (λ _ w k (e, there, served).
                    Holds-bind (Sound n)
                      (λ _ x. Decides c saturate_properties fuel lawful n roots (made.0, e) x)
                      (λ _ x. Arrives c 2 x) (decide c saturate_properties fuel) _ w
                      (decide-Holds c saturate_properties fuel lawful n roots (made.0, e) w k there
                        served)
                      (λ _ x k' (current, same).
                        (set_stage-Holds c saturate_properties fuel lawful n consistency roots x k'
                          current low
                          (λ r asked. elim asked [
                            | inl (_, root) ↦ (
                              (made.0, e),
                              same,
                              served.1 r (In-consistency_roots c roots r wanted root),
                            )
                            | inr (inl (far, _)) ↦ ground arith
                            | inr (inr (far, _)) ↦ ground arith
                          ]))))))

    pub ensure_consistency-Holds :
        (n : ℕ) (s : SaturationSession)
        → Sound n s
        → (1 < stage_id s.stage → IsCurrent c [] s)
        → Holds
            (From c saturate_properties n)
            (λ _ t. Arrives c 2 t)
            (ensure_consistency c saturate_properties fuel s)
    unfolding ensure_consistency
    ensure_consistency-Holds n s h current = elim (Bool-cases (reached consistency s)) [
      | inl t ↦ rw t (first_decision-Holds n s h (let low : n ≤ 2 = ground (arith, h.1) in low))
      | inr f ↦
          let far : 1 < stage_id s.stage = ground arith in
          rw f (elim (Option-cases s.decision) [
            | inr (state, found) ↦ rw (found, ensure_consistency) (h, (current far, ground arith))
            | inl missing ↦ absurd (h.0.decided far missing)
          ])
    ]

    -- The stage demands what stages from `prior` on demand, and the expressions with the tag.
    pub enumerate_stage-Holds :
        (n prior : ℕ) (target : Stage) (is_tag : ExpressionTag → Bool) (s : SaturationSession)
        → ((t : Stage)
            → prior ≤ stage_id t
            → (r : ℕ) → IsDemanded c target r
            → IsDemanded c t r ⊎ IsTagged c is_tag r)
        → Sound n s
        → Arrives c prior s
        → Holds
            (From c saturate_properties n)
            (λ _ t. Arrives c (stage_id target) t)
            (enumerate_stage c saturate_properties fuel target is_tag s)
    unfolding enumerate_stage
    enumerate_stage-Holds n prior target is_tag s demands h (current, far) =
        elim (Bool-cases (reached target s)) [
          | inr f ↦ rw f (h, (current, ground arith))
          | inl t ↦ rw t (
              let roots = roots_of c saturate_properties fuel is_tag (enumerate 0 c.expressions) in
              let m = stage_id s.stage in
              Holds-map (Sound m) (Sound n) (λ _ u. Arrives c (stage_id target) u)
                (λ _ u. Arrives c (stage_id target) u) _ (λ u k. (k.0, ground (arith, h.1, k.1)))
                (λ _ u k q. q)
                (Holds-bind (Sound m) (λ _ u. Reaches c saturate_properties fuel lawful m roots u)
                  (λ _ u. Arrives c (stage_id target) u)
                  (saturate_more c saturate_properties fuel roots) _ s
                  (saturate_more-Holds c saturate_properties fuel lawful m roots s
                    (h.0, ground arith))
                  (λ _ u k (made, served, (now, owned)).
                    (set_stage-Holds c saturate_properties fuel lawful m target roots u k now
                      (ground arith)
                      (λ r asked. elim (demands u.stage (ground (arith, far, k.1)) r asked) [
                        | inl before ↦ k.0.demanded r before
                        | inr (row, found, tagged) ↦ (
                          made,
                          owned,
                          served.1 r (
                              In-roots_of is_tag (enumerate 0 c.expressions) r row tagged
                                ((In-enumerate_zero c.expressions r row).1 found)),
                        )
                      ])))))
        ]
