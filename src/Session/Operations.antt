-- ===== src/Session/Operations.antt =====
-- The operations of a saturation session (src/pyelk/reasoning/session.py) that change its state.
use py_elk.Prelude.{ℕ, ◌≡◌, ◌≤◌, ◌<◌, ◌⊎◌, inl, inr, List, [], ◌∷◌, Result, ok, arith}
use py_elk.Ir.{CompiledOntology, is_class}
use py_elk.PropertySaturation.{PropertySaturation, property_view}
use py_elk.Context.{FrozenContext}
use py_elk.Rules.Lookups.{IsSymmetric}
use py_elk.Saturation.Actions.{pure}
use py_elk.Saturation.Holds.{Holds, Holds-bind, Holds-map}
use py_elk.Consistency.{is_individual}
use py_elk.Session.{
  Stage, classified, realized, stage_id, SaturationSession, ensure_properties, engine, query_engine,
  decide, ensure_consistency, saturate_more, ensure_classified, ensure_realized, saturate_roots,
  saturate_query_root,
}
use py_elk.Session.Sound.{IsSound, From, Closes, Makes, IsDemanded, IsTagged}
use py_elk.Session.Makes.{ensure_properties-Holds, engine-Holds}
use py_elk.Session.Served.{IsCurrent, Arrives, Serves, query_engine-Holds}
use py_elk.Session.Decision.{Decides, Reaches, decide-Holds, saturate_more-Holds}
use py_elk.Session.Stages.{ensure_consistency-Holds, enumerate_stage-Holds}

module _ (c : CompiledOntology) (saturate_properties : CompiledOntology → Result PropertySaturation)
    (fuel : ℕ)
    (lawful : (p : PropertySaturation)
      → saturate_properties c ≡ ok p
      → IsSymmetric (property_view p))
    (n : ℕ) (s : SaturationSession) (h : From c saturate_properties n s)
    (current : 1 < stage_id s.stage → IsCurrent c [] s) where
  abbrev Sound : SaturationSession → Type 0
  Sound = From c saturate_properties n

  classified_demands :
      (t : Stage)
      → 2 ≤ stage_id t
      → (r : ℕ) → IsDemanded c classified r
      → IsDemanded c t r ⊎ IsTagged c is_class r
  classified_demands t far r (inl (_, root)) = inl (inl (far, root))
  classified_demands t far r (inr (inl (_, tagged))) = inr tagged
  classified_demands t far r (inr (inr (bad, _))) = ground arith

  realized_demands :
      (t : Stage)
      → 3 ≤ stage_id t
      → (r : ℕ) → IsDemanded c realized r
      → IsDemanded c t r ⊎ IsTagged c is_individual r
  realized_demands t far r (inl (_, root)) = inl (inl (ground (arith, far), root))
  realized_demands t far r (inr (inl (_, tagged))) = inl (inr (inl (far, tagged)))
  realized_demands t far r (inr (inr (_, tagged))) = inr tagged

  consistent :
      Holds
        (From c saturate_properties n)
        (λ _ t. Arrives c 2 t)
        (ensure_consistency c saturate_properties fuel s)
  consistent = ensure_consistency-Holds c saturate_properties fuel lawful n s h current

  ensure_classified-Holds :
      Holds
        (From c saturate_properties n)
        (λ _ t. Arrives c 3 t)
        (ensure_classified c saturate_properties fuel s)
  unfolding ensure_classified
  ensure_classified-Holds =
      Holds-bind Sound (λ _ t. Arrives c 2 t) (λ _ t. Arrives c 3 t)
        (ensure_consistency c saturate_properties fuel) _ s consistent
        (λ _ t k far.
          enumerate_stage-Holds c saturate_properties fuel lawful n 2 classified is_class t
            classified_demands k far)

  ensure_realized-Holds :
      Holds
        (From c saturate_properties n)
        (λ _ t. Arrives c 4 t)
        (ensure_realized c saturate_properties fuel s)
  unfolding ensure_realized
  ensure_realized-Holds =
      Holds-bind Sound (λ _ t. Arrives c 3 t) (λ _ t. Arrives c 4 t)
        (ensure_classified c saturate_properties fuel) _ s ensure_classified-Holds
        (λ _ t k far.
          enumerate_stage-Holds c saturate_properties fuel lawful n 3 realized is_individual t
            realized_demands k far)

  saturate_roots-Holds :
      (roots : List ℕ)
      → Holds
          (From c saturate_properties n)
          (λ _ t. IsCurrent c roots t)
          (saturate_roots c saturate_properties fuel roots s)
  unfolding saturate_roots
  saturate_roots-Holds roots =
      Holds-bind Sound (λ _ t. Arrives c 2 t) (λ _ t. IsCurrent c roots t)
        (ensure_consistency c saturate_properties fuel) _ s consistent
        (λ _ t k _.
          Holds-map Sound Sound (λ _ u. Reaches c saturate_properties fuel lawful n roots u)
            (λ _ u. IsCurrent c roots u) (saturate_more c saturate_properties fuel roots t)
            (λ u q. q) (λ _ u q (_, _, (now, _)). now)
            (saturate_more-Holds c saturate_properties fuel lawful n roots t k))

  saturate_query_root-Holds :
      (key : List ℕ) (root : ℕ)
      → Holds
          (From c saturate_properties n)
          (λ _ t. IsCurrent c (root ∷ []) t)
          (saturate_query_root c saturate_properties fuel key root s)
  unfolding saturate_query_root
  saturate_query_root-Holds key root =
      let Last = λ (a : FrozenContext) (t : SaturationSession). IsCurrent c (root ∷ []) t in
      Holds-bind Sound (λ _ t. Arrives c 2 t) Last (ensure_consistency c saturate_properties fuel) _
        s consistent
        (λ _ t k _.
          Holds-bind Sound (Makes c saturate_properties t) Last (engine c saturate_properties fuel)
            _ t (engine-Holds c saturate_properties fuel lawful n t k)
            (λ made u k' (owned, _, _, _).
              Holds-bind Sound
                (λ _ w. Serves c saturate_properties fuel lawful n (root ∷ []) made.0 w) Last
                (query_engine c saturate_properties fuel key root made) _ u
                (query_engine-Holds c saturate_properties fuel lawful n key root made u k' owned)
                (λ context w k'' (e, there, served).
                  Holds-bind Sound
                    (λ _ x. Decides c saturate_properties fuel lawful n (root ∷ []) (made.0, e) x)
                    Last (decide c saturate_properties fuel) (λ _. pure context) w
                    (decide-Holds c saturate_properties fuel lawful n (root ∷ []) (made.0, e) w k''
                      there served)
                    (λ _ x q (now, _). (q, now)))))

-- Let the closures that are built be property views whose two composition indices agree. Take a sound
-- session whose decision, from the consistency stage on, is current. Each of the operations
-- `ensure_properties`, `engine`, `ensure_consistency`, `ensure_classified`, `ensure_realized`,
-- `saturate_roots` and `saturate_query_root`, whether it returns or raises, leads to a sound session
-- whose stage is not lower: its scheduler is steady and has lost nothing, from the consistency stage
-- on there is a decision, and what the stages up to its own demand has contexts: `owl:Thing` and the
-- individuals that occur from the consistency stage on, the classes from the classified stage on,
-- and all individuals at the realized stage. When an operation from `ensure_consistency` on returns,
-- the decision is what the consistency check says of the contexts of the scheduler as it is then,
-- what it stores is closed under the rules, and the roots that were asked for have contexts; the
-- stage is at least that of `ensure_consistency`, `ensure_classified` or `ensure_realized`. When
-- `ensure_properties` returns, the session holds the closure that it returns, and its scheduler and
-- its decision are the same; when `engine` returns, the session holds the scheduler that it returns,
-- its decision is the same, and a scheduler and a closure that were there are the same.
pub session-IsSound :
    (c : CompiledOntology) (saturate_properties : CompiledOntology → Result PropertySaturation)
    (fuel : ℕ) (roots : List ℕ) (key : List ℕ) (root : ℕ) (s : SaturationSession)
    → ((p : PropertySaturation) → saturate_properties c ≡ ok p → IsSymmetric (property_view p))
    → IsSound c saturate_properties s
    → (1 < stage_id s.stage → IsCurrent c [] s)
    → Holds
        (From c saturate_properties (stage_id s.stage))
        (Closes c saturate_properties s)
        (ensure_properties c saturate_properties fuel s)
      × Holds
          (From c saturate_properties (stage_id s.stage))
          (Makes c saturate_properties s)
          (engine c saturate_properties fuel s)
      × Holds
          (From c saturate_properties (stage_id s.stage))
          (λ _ t. Arrives c 2 t)
          (ensure_consistency c saturate_properties fuel s)
      × Holds
          (From c saturate_properties (stage_id s.stage))
          (λ _ t. Arrives c 3 t)
          (ensure_classified c saturate_properties fuel s)
      × Holds
          (From c saturate_properties (stage_id s.stage))
          (λ _ t. Arrives c 4 t)
          (ensure_realized c saturate_properties fuel s)
      × Holds
          (From c saturate_properties (stage_id s.stage))
          (λ _ t. IsCurrent c roots t)
          (saturate_roots c saturate_properties fuel roots s)
      × Holds
          (From c saturate_properties (stage_id s.stage))
          (λ _ t. IsCurrent c (root ∷ []) t)
          (saturate_query_root c saturate_properties fuel key root s)
session-IsSound c saturate_properties fuel roots key root s lawful sound current =
    let n = stage_id s.stage in
    let h : From c saturate_properties n s = (sound, ground arith) in
    (
      ensure_properties-Holds c saturate_properties fuel lawful n s h,
      engine-Holds c saturate_properties fuel lawful n s h,
      consistent c saturate_properties fuel lawful n s h current,
      ensure_classified-Holds c saturate_properties fuel lawful n s h current,
      ensure_realized-Holds c saturate_properties fuel lawful n s h current,
      saturate_roots-Holds c saturate_properties fuel lawful n s h current roots,
      saturate_query_root-Holds c saturate_properties fuel lawful n s h current key root,
    )
