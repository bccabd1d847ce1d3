-- ===== src/Saturation/Run.antt =====
-- `run` of src/pyelk/reasoning/saturation.py as a whole.
use py_elk.Prelude.{
  ℕ, zero, suc, ◌≡◌, refl, sym, subst, ◌∙◌, ◌⊎◌, inl, inr, List, [], ◌∷◌, Bool, Option, none, some,
  In, In-add, add, nat_ordered, Result, ok, err,
}
use py_elk.Conclusion.{Conclusion, initialized_at}
use py_elk.Rules.Index.{RuleDispatcher}
use py_elk.Rules.Lookups.{IsIndexed, IsSymmetric}
use py_elk.Saturation.Actions.{◌>>=◌, pure}
use py_elk.Saturation.Engine.{Engine, ensure_context, checked_root}
use py_elk.Saturation.Schedule.{
  work, finish_context, claim_context, serve_context, run_loop, note_interruption, check_roots,
  ensure_all, run,
}
use py_elk.Saturation.Steady.{IsClosed, IsSteady}
use py_elk.Saturation.Holds.{Holds, Holds-bind, Holds-state, bind_returned}
use py_elk.Saturation.Routing.{Anything, At}
use py_elk.Saturation.Demand.{ensure_context-Holds, checked_root-Holds}
use py_elk.Saturation.Products.{work-Holds}
use py_elk.Saturation.Rounds.{finish_context-Holds, release-IsSteady, claim_context-IsSteady}

pub Holds-anything :
    {A S : Type 0} (I : S → Type 0) (r : Result A) (s : S) → I s → Holds I (λ a t. Unit) (r, s)
Holds-anything I (ok a) s h = (h, tt)
Holds-anything I (err x) s h = h

pub List-cases : {A : Type 0} (l : List A) → (l ≡ []) ⊎ ((x : A) × (xs : List A) × (l ≡ x ∷ xs))
List-cases [] = inl refl
List-cases (x ∷ xs) = inr (x, xs, refl)

-- Nothing is in the queue.
abbrev pub Idle : {A : Type 0} → A → Engine → Type 0
Idle a e = e.active ≡ []

module _ (P : Conclusion → Type 0) (d : RuleDispatcher) (max_conclusions : Option ℕ)
    (interrupt : ℕ → Bool) where
  abbrev Steady : Engine → Type 0
  Steady = IsSteady P none

  check_roots-Holds :
      (roots : List ℕ) (e : Engine)
      → IsSteady P none e
      → Holds
          (IsSteady P none)
          (λ checked _. (r : ℕ) → In r checked → In r roots)
          (check_roots d max_conclusions interrupt roots e)
  unfolding check_roots
  check_roots-Holds [] e h = (h, λ r m. m)
  check_roots-Holds (q ∷ qs) e h =
      let Same = λ (r : ℕ) (t : Engine). r ≡ q in
      let Below = λ (rs : List ℕ) (t : Engine). (r : ℕ) → In r rs → In r qs in
      let All = λ (rs : List ℕ) (t : Engine). (r : ℕ) → In r rs → In r (q ∷ qs) in
      Holds-bind Steady Same All (checked_root d q) _ e (checked_root-Holds P none d q e h)
        (λ x t h' same.
          Holds-bind Steady Below All (check_roots d max_conclusions interrupt qs)
            (λ xs. pure (add x xs)) t (check_roots-Holds qs t h')
            (λ xs u h'' below. (
              h'',
              λ r m. elim ((In-add r x xs).0 m) [
                | inl e ↦ inl (e ∙ same)
                | inr m' ↦ inr (below r m')
              ],
            )))

  ensure_all-Holds :
      (roots : List ℕ) (e : Engine)
      → IsSteady P none e
      → ((r : ℕ) → In r roots → P (initialized_at r))
      → Holds (IsSteady P none) Anything (ensure_all d max_conclusions interrupt roots e)
  unfolding ensure_all
  ensure_all-Holds [] e h p = (h, tt)
  ensure_all-Holds (r ∷ rs) e h p =
      Holds-bind Steady (At r) Anything (ensure_context r)
        (λ _. ensure_all d max_conclusions interrupt rs) e
        (ensure_context-Holds P none r e h (p r (inl refl)))
        (λ s t h' _. ensure_all-Holds rs t h' (λ q m. p q (inr m)))

  module _ (ix : IsIndexed d) (sy : IsSymmetric d.properties)
      (closed : IsClosed d.compiled d.properties d.owl_thing d.owl_nothing P) where
    serve_context-Holds :
        (fuel : ℕ) (root : ℕ) (progress : ℕ × ℕ) (e : Engine)
        → IsSteady P (some root) e
        → Holds
            (IsSteady P none)
            Anything
            (serve_context d max_conclusions interrupt fuel root progress e)
    unfolding serve_context
    serve_context-Holds fuel root progress e h = Holds-anything Steady _ _ (
        release-IsSteady P d max_conclusions interrupt root _ (
          Holds-state (IsSteady P (some root)) Anything _ (
            Holds-bind (IsSteady P (some root)) Anything Anything
              (work d max_conclusions interrupt fuel root progress) _ e
              (work-Holds P d ix sy closed root max_conclusions interrupt fuel progress e h)
              (λ p t h' _.
                Holds-bind (IsSteady P (some root)) Anything Anything
                  (finish_context d max_conclusions interrupt root) (λ _. pure p) t
                  (finish_context-Holds P d max_conclusions interrupt root t h')
                  (λ u s h'' _. (h'', tt))))))

    run_loop-Holds :
        (rounds fuel : ℕ) (progress : ℕ × ℕ) (e : Engine)
        → IsSteady P none e
        → Holds (IsSteady P none) Idle (run_loop d max_conclusions interrupt rounds fuel progress e)
    unfolding run_loop
    run_loop-Holds rounds zero progress e h = elim (List-cases e.active) [
      | inl idle ↦ rw (idle, run_loop) (h, idle)
      | inr (root, rest, queue) ↦ rw (queue, run_loop) h
    ]
    run_loop-Holds rounds (suc fuel) progress e h = elim (List-cases e.active) [
      | inl idle ↦ rw (idle, run_loop) (h, idle)
      | inr (root, rest, queue) ↦
          let (t, claimed, h') =
            claim_context-IsSteady P d max_conclusions interrupt root rest e h queue in
          rw (queue, run_loop)
            (subst (Holds Steady Idle)
              (sym (
                bind_returned (claim_context d max_conclusions interrupt root rest)
                  (λ _.
                    serve_context d max_conclusions interrupt rounds root progress
                    >>= (λ p. run_loop d max_conclusions interrupt rounds fuel p))
                  e t tt claimed))
              (Holds-bind Steady Anything Idle
                (serve_context d max_conclusions interrupt rounds root progress) _ t
                (serve_context-Holds rounds root progress t h')
                (λ p u h'' _. run_loop-Holds rounds fuel p u h'')))
    ]

    note_interruption-Holds :
        (p : Result (Unit {0}) × Engine)
        → Holds (IsSteady P none) Idle p
        → Holds (IsSteady P none) Idle (note_interruption d max_conclusions interrupt p)
    note_interruption-Holds (ok u, e) h = h
    note_interruption-Holds (err x, e) h = h

    pub run-Holds :
        (fuel : ℕ) (roots : List ℕ) (e : Engine)
        → IsSteady P none e
        → ((r : ℕ) → In r roots → P (initialized_at r))
        → Holds (IsSteady P none) Idle (run d max_conclusions interrupt fuel roots e)
    unfolding run
    run-Holds fuel roots e h p =
        let Below = λ (rs : List ℕ) (t : Engine). (r : ℕ) → In r rs → In r roots in
        Holds-bind Steady Below Idle (check_roots d max_conclusions interrupt roots) _ e
          (check_roots-Holds roots e h)
          (λ rs t h' below.
            Holds-bind Steady Anything Idle (ensure_all d max_conclusions interrupt rs) _ t
              (ensure_all-Holds rs t h' (λ r m. p r (below r m)))
              (λ u s h'' _. note_interruption-Holds _ (run_loop-Holds fuel fuel (0, 0) s h'')))
