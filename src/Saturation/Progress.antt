-- ===== src/Saturation/Progress.antt =====
-- The loops of `run` (src/pyelk/reasoning/saturation.py) lose nothing, whatever stops them.
use py_elk.Prelude.{
  ℕ, zero, suc, ◌≡◌, sym, ap, subst, ◌∙◌, inl, inr, List, ◌∷◌, Bool, not, Option, none, some,
  Bool-cases, nat_ordered, Result, ok,
}
use py_elk.Conclusion.{Conclusion, conclusion_destination}
use py_elk.Rules.Index.{RuleDispatcher}
use py_elk.Rules.Lookups.{IsIndexed, IsSymmetric}
use py_elk.Rules.Complete.{IsNamed}
use py_elk.Saturation.Actions.{◌>>=◌, pure}
use py_elk.Saturation.Engine.{Engine}
use py_elk.Saturation.Schedule.{
  next_premise, dispatch_premise, has_local_work, exhausted, work, finish_context, release,
  claim_context, serve_context, run_loop,
}
use py_elk.Saturation.Steady.{IsClosed, IsSteady}
use py_elk.Saturation.Holds.{Holds-state, Ends, Ends-bind, Ends-both, Ends-state, bind_returned}
use py_elk.Saturation.Routing.{Anything}
use py_elk.Saturation.Service.{next_premise-Holds}
use py_elk.Saturation.Products.{dispatch_premise-Holds}
use py_elk.Saturation.Rounds.{finish_context-Holds, release-IsSteady, claim_context-IsSteady}
use py_elk.Saturation.Run.{List-cases}
use py_elk.Saturation.Arrival.{Any}
use py_elk.Saturation.Complete.{IsComplete, Moves, Moves-IsComplete}
use py_elk.Saturation.Premises.{AtHand, next_premise-Moves}
use py_elk.Saturation.Answers.{dispatch_premise-IsComplete}
use py_elk.Saturation.Flags.{claim_context-Moves, release-Moves, finish_context-Moves}

module _ (d : RuleDispatcher) (ix : IsIndexed d) (sy : IsSymmetric d.properties) (named : IsNamed d)
    (max_conclusions : Option ℕ) (interrupt : ℕ → Bool) (roots : List ℕ) where
  -- The scheduler is steady, and nothing is lost.
  abbrev pub Sane : Option ℕ → Engine → Type 0
  Sane claimed e = IsSteady Any claimed e × IsComplete d roots none e

  Any-IsClosed : IsClosed d.compiled d.properties d.owl_thing d.owl_nothing Any
  Any-IsClosed = record { inferred = λ x i. tt; activated = λ x p. tt }

  module _ (root : ℕ) where
    abbrev Hand : Conclusion × Bool → Engine → Type 0
    Hand p t =
        IsSteady Any (some root) t
        × IsComplete d roots (some p.0) t
        × (conclusion_destination p.0 ≡ root)

    next_premise-Sane :
        (e : Engine) → Sane (some root) e → Ends (Sane (some root)) Hand (next_premise d root e)
    next_premise-Sane e h =
        Ends-both (IsSteady Any (some root)) Anything (Moves none none e) (AtHand d root e)
          (Sane (some root)) Hand (next_premise d root e)
          (λ t steady m. (steady, Moves-IsComplete d roots none none e t m h.1))
          (λ p t steady (m, own). (steady, Moves-IsComplete d roots none (some p.0) e t m h.1, own))
          (next_premise-Holds Any root d e h.0) (next_premise-Moves d root e h.0 (h.1.owed root))

    dispatch_premise-Sane :
        (p : Conclusion × Bool) (e : Engine)
        → Hand p e
        → Ends (Sane (some root)) (λ _ t. Sane (some root) t) (dispatch_premise d root p.0 e)
    dispatch_premise-Sane p e (steady, h, own) =
        (Ends-state (Sane (some root)) (dispatch_premise d root p.0 e)).1 (
          Holds-state (IsSteady Any (some root)) Anything (dispatch_premise d root p.0 e)
              (dispatch_premise-Holds Any d ix sy Any-IsClosed root p.0 e steady),
          dispatch_premise-IsComplete d roots root p.0 e ix sy named steady own h,
        )

    work-Sane :
        (fuel : ℕ) (progress : ℕ × ℕ) (e : Engine)
        → Sane (some root) e
        → Ends
            (Sane (some root))
            (λ _ t. Sane (some root) t)
            (work d max_conclusions interrupt fuel root progress e)
    unfolding work
    work-Sane zero progress e h = h
    work-Sane (suc fuel) (completed, calls) e h =
        let After = λ (p : ℕ × ℕ) (t : Engine). Sane (some root) t in
        elim (Bool-cases (not (has_local_work d root e))) [
          | inl done ↦ rw done h
          | inr more ↦
              rw more (elim (Bool-cases (exhausted d max_conclusions interrupt completed)) [
                | inl spent ↦ rw spent h
                | inr within ↦ rw within (elim (Bool-cases (interrupt calls)) [
                  | inl stop ↦ rw stop h
                  | inr go ↦ rw go (
                      Ends-bind (Sane (some root)) Hand After (next_premise d root) _ e
                        (next_premise-Sane e h)
                        (λ p t hand.
                          Ends-bind (Sane (some root)) (λ u s. Sane (some root) s) After
                            (dispatch_premise d root p.0) _ t (dispatch_premise-Sane p t hand)
                            (λ u s h'. work-Sane fuel _ s h')))
                ])
              ])
        ]

    finish_context-Sane :
        (e : Engine)
        → Sane (some root) e
        → Ends
            (Sane (some root))
            (λ _ t. Sane (some root) t)
            (finish_context d max_conclusions interrupt root e)
    finish_context-Sane e h =
        Ends-both (IsSteady Any (some root)) Anything (Moves none none e)
          (λ _ t. Moves none none e t) (Sane (some root)) (λ _ t. Sane (some root) t) _
          (λ t steady m. (steady, Moves-IsComplete d roots none none e t m h.1))
          (λ u t steady m. (steady, Moves-IsComplete d roots none none e t m h.1))
          (finish_context-Holds Any d max_conclusions interrupt root e h.0)
          (finish_context-Moves d max_conclusions interrupt root e h.0)

    release-Sane :
        (e : Engine) → Sane (some root) e → Sane none (release d max_conclusions interrupt root e)
    release-Sane e h = (
      release-IsSteady Any d max_conclusions interrupt root e h.0,
      Moves-IsComplete d roots none none e _ (release-Moves d max_conclusions interrupt root e h.0)
          h.1,
    )

    serve_context-Sane :
        (fuel : ℕ) (progress : ℕ × ℕ) (e : Engine)
        → Sane (some root) e
        → Ends
            (Sane none)
            (λ _ t. Sane none t)
            (serve_context d max_conclusions interrupt fuel root progress e)
    unfolding serve_context
    serve_context-Sane fuel progress e h =
        let Kept = Sane (some root) in
        (Ends-state (Sane none) (_, _)).1 (
          release-Sane _ (
            (Ends-state Kept (
                (work d max_conclusions interrupt fuel root progress
                    >>= (λ p. finish_context d max_conclusions interrupt root >>= (λ _. pure p)))
                  e)).0
              (Ends-bind Kept (λ p t. Kept t) (λ p t. Kept t)
                (work d max_conclusions interrupt fuel root progress) _ e
                (work-Sane fuel progress e h)
                (λ p t h'.
                  Ends-bind Kept (λ u s. Kept s) (λ q s. Kept s)
                    (finish_context d max_conclusions interrupt root) (λ _. pure p) t
                    (finish_context-Sane t h') (λ u s h''. h'')))))

    claim_context-Sane :
        (rest : List ℕ) (e : Engine)
        → Sane none e
        → e.active ≡ root ∷ rest
        → (t : Engine) × (claim_context d max_conclusions interrupt root rest e ≡ (ok tt, t))
          × Sane (some root) t
    claim_context-Sane rest e h queue =
        let (t, claimed, steady) =
          claim_context-IsSteady Any d max_conclusions interrupt root rest e h.0 queue in
        let (t', claimed', m) =
          claim_context-Moves d max_conclusions interrupt root rest e h.0 queue in
        let same : t' ≡ t = ap (λ (p : Result (Unit {0}) × Engine). p.1) (sym claimed' ∙ claimed) in
        (
          t,
          claimed,
          (
            steady,
            subst (IsComplete d roots none) same (Moves-IsComplete d roots none none e t' m h.1),
          ),
        )

  pub run_loop-Sane :
      (rounds fuel : ℕ) (progress : ℕ × ℕ) (e : Engine)
      → Sane none e
      → Ends
          (Sane none)
          (λ _ t. Sane none t)
          (run_loop d max_conclusions interrupt rounds fuel progress e)
  unfolding run_loop
  run_loop-Sane rounds zero progress e h = elim (List-cases e.active) [
    | inl idle ↦ rw (idle, run_loop) h
    | inr (root, rest, queue) ↦ rw (queue, run_loop) h
  ]
  run_loop-Sane rounds (suc fuel) progress e h = elim (List-cases e.active) [
    | inl idle ↦ rw (idle, run_loop) h
    | inr (root, rest, queue) ↦
        let (t, claimed, h') = claim_context-Sane root rest e h queue in
        let loop = λ (p : ℕ × ℕ). run_loop d max_conclusions interrupt rounds fuel p in
        let serve = serve_context d max_conclusions interrupt rounds root progress in
        rw (queue, run_loop)
          (subst (Ends (Sane none) (λ _ u. Sane none u))
            (sym (
              bind_returned (claim_context d max_conclusions interrupt root rest)
                (λ _. serve >>= loop) e t tt claimed))
            (Ends-bind (Sane none) (λ p u. Sane none u) (λ _ u. Sane none u) serve loop t
              (serve_context-Sane root rounds progress t h')
              (λ p u h''. run_loop-Sane rounds fuel p u h'')))
  ]
