-- ===== src/Saturation/Rounds.antt =====
-- A run of the scheduler of src/pyelk/reasoning/saturation.py: it stays steady whatever stops it.
use py_elk.Prelude.{
  ℕ, ◌≡◌, refl, sym, ap, subst, ◌∙◌, ◌⊎◌, inl, inr, List, [], ◌∷◌, Bool, true, false, Option, none,
  some, Option-cases, In, nat_ordered, lookup, rows, arith, ok, some-injective,
}
use py_elk.Conclusion.{Conclusion}
use py_elk.Context.{ContextState, claim, mark_saturated, mark_queued}
use py_elk.Context.Invariant.{flags-IsConsistent}
use py_elk.Rules.Index.{RuleDispatcher}
use py_elk.Saturation.Actions.{lift}
use py_elk.Saturation.Engine.{Engine, put, context_at, track_active}
use py_elk.Saturation.Schedule.{finish_context, release, claim_context, has_local_work}
use py_elk.Saturation.Steady.{HasWork, IsSteady, update-Entries}
use py_elk.Saturation.Holds.{Holds, Holds-bind, lift-Holds}
use py_elk.Saturation.Routing.{Anything, At, context_at-Holds}
use py_elk.Saturation.Service.{put-IsSteady}

pub saturated_is :
    (s : ContextState) (t : ContextState)
    → mark_saturated s ≡ ok t
    → (s.todo ≡ []) × (t ≡ record s { saturated = true })
unfolding mark_saturated
saturated_is s t h = ground arith

module _ (P : Conclusion → Type 0) (d : RuleDispatcher) (max_conclusions : Option ℕ)
    (interrupt : ℕ → Bool) where
  module _ (root : ℕ) where
    pub finish_context-Holds :
        (e : Engine)
        → IsSteady P (some root) e
        → Holds
            (IsSteady P (some root))
            Anything
            (finish_context d max_conclusions interrupt root e)
    unfolding finish_context
    finish_context-Holds e h =
        Holds-bind (IsSteady P (some root)) (At root) Anything (context_at root) _ e
          (context_at-Holds (IsSteady P (some root)) root e h)
          (λ s t h' found.
            Holds-bind (IsSteady P (some root)) (λ s' u. (mark_saturated s ≡ ok s') × At root s u)
              Anything (lift (mark_saturated s)) _ t
              (lift-Holds (IsSteady P (some root))
                (λ s' u. (mark_saturated s ≡ ok s') × At root s u) (mark_saturated s) t h'
                (λ s' marked. (marked, found)))
              (λ s' u h'' (marked, there).
                let entry = h''.1.each root s there in
                let (empty, e') = saturated_is s s' marked in
                (
                  subst (λ z. IsSteady P (some root) (put z u)) (sym e')
                      (put-IsSteady P root (record s { saturated = true }) s u h'' there entry.owner
                        refl (flags-IsConsistent s true s.queued entry.consistent (λ _. empty))
                        entry.stored entry.awaited),
                  tt,
                )))

    -- The claim may be given back when a context with work left is in the queue.
    dropped-IsSteady :
        (e : Engine)
        → IsSteady P (some root) e
        → ((s : ContextState) → At root s e → HasWork (rows root e.retry) s.todo → s.queued ≡ true)
        → IsSteady P none (record e { claimed_root = none })
    dropped-IsSteady e (held, h) queued = (
      refl,
      record {
        each = λ r s found.
            let old = h.each r s found in
            record {
              owner = old.owner;
              consistent = old.consistent;
              stored = old.stored;
              awaited = old.awaited;
              listed = old.listed;
              served = λ w. elim (old.served w) [
                | inl q ↦ inl q
                | inr mine ↦
                    let same : root ≡ r = some-injective root r mine in
                    inl (
                      queued s (subst (λ q. lookup q e.contexts ≡ some s) (sym same) found)
                        (subst (λ q. HasWork (rows q e.retry) s.todo) (sym same) w))
              ];
            };
        known = h.known;
      },
    )

    has_local_work-HasWork :
        (e : Engine) (s : ContextState)
        → At root s e
        → HasWork (rows root e.retry) s.todo
        → has_local_work d root e ≡ true
    unfolding has_local_work
    has_local_work-HasWork e s found w = ground arith

    requeued-IsSteady :
        (e : Engine) (s : ContextState)
        → IsSteady P (some root) e
        → At root s e
        → IsSteady P none (record (put (record s { saturated = false; queued = true }) e) {
          claimed_root = none;
          active = root ∷ e.active;
        })
    requeued-IsSteady e s (held, h) found =
        let old = h.each root s found in
        (
          refl,
          update-Entries h (root ∷ e.active) none e.retry s.root
              (record s { saturated = false; queued = true })
              (record {
                owner = refl;
                consistent = flags-IsConsistent s false true old.consistent (λ f. cc f);
                stored = old.stored;
                awaited = old.awaited;
                listed = λ q. inl old.owner;
                served = λ w. inl refl;
              })
              (λ r a m. inr m)
              (λ r a m. elim m [ inl same ↦ absurd (a (same ∙ sym old.owner)) | inr m' ↦ m' ])
              (λ r a mine. absurd (a (sym (some-injective root r mine) ∙ sym old.owner)))
              (λ r a. refl),
        )

    pub release-none :
        (e : Engine)
        → lookup root e.contexts ≡ none
        → release d max_conclusions interrupt root e ≡ record e { claimed_root = none }
    unfolding release
    release-none e h = rw (h, release)

    pub release_cases :
        (e : Engine) (s : ContextState)
        → At root s e
        → (release d max_conclusions interrupt root e ≡ record e { claimed_root = none })
            × ((has_local_work d root (record e { claimed_root = none }) ≡ false)
                ⊎ (s.queued ≡ true))
          ⊎ (release d max_conclusions interrupt root e
              ≡ track_active (record (put (record s { saturated = false; queued = true }) e) {
                claimed_root = none;
                active = root ∷ e.active;
              }))
    unfolding release mark_queued
    release_cases e s h = rw (h, release) (ground arith)

    -- Giving the claim back: with work left, the context goes to the head of the queue.
    pub release-IsSteady :
        (e : Engine)
        → IsSteady P (some root) e
        → IsSteady P none (release d max_conclusions interrupt root e)
    unfolding track_active
    release-IsSteady e h = elim (Option-cases (lookup root e.contexts)) [
      | inl nothing ↦ subst (IsSteady P none) (sym (release-none e nothing)) (
          dropped-IsSteady e h
            (λ s found. let clash : none ≡ some s = sym nothing ∙ found in cc clash))
      | inr (s, found) ↦ elim (release_cases e s found) [
        | inl (r, idle) ↦ subst (IsSteady P none) (sym r) (
            dropped-IsSteady e h (λ t there w.
              let same : s ≡ t = some-injective s t (sym found ∙ there) in
              elim idle [
                | inl quiet ↦
                    let busy =
                      has_local_work-HasWork (record e { claimed_root = none }) t there w in
                    cc (quiet, busy)
                | inr q ↦ subst (λ z. z.queued ≡ true) same q
              ]))
        | inr r ↦ subst (IsSteady P none) (sym r) (requeued-IsSteady e s h found)
      ]
    ]

    pub claim_context-IsSteady :
        (rest : List ℕ) (e : Engine)
        → IsSteady P none e
        → e.active ≡ root ∷ rest
        → (t : Engine) × (claim_context d max_conclusions interrupt root rest e ≡ (ok tt, t))
          × IsSteady P (some root) t
    unfolding claim_context claim lookup
    claim_context-IsSteady rest e h queue =
        let (s, found) = h.1.known root (subst (In root) (sym queue) (inl refl)) in
        let old = h.1.each root s found in
        rw found (
          _,
          refl,
          (
            refl,
            update-Entries h.1 rest (some root) e.retry s.root
                (record s { queued = false; saturated = false })
                (record {
                  owner = refl;
                  consistent = flags-IsConsistent s false false old.consistent (λ f. cc f);
                  stored = old.stored;
                  awaited = old.awaited;
                  listed = λ q. cc q;
                  served = λ w. inr (ap some (sym old.owner));
                })
                (λ r a m. elim (subst (In r) queue m) [
                  | inl same ↦ absurd (a (same ∙ sym old.owner))
                  | inr m' ↦ m'
                ])
                (λ r a m. subst (In r) (sym queue) (inr m)) (λ r a none_is. cc none_is)
                (λ r a. refl),
          ),
        )
