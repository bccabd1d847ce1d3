-- ===== src/Saturation/Routing.antt =====
-- The scheduler of src/pyelk/reasoning/saturation.py stays steady while a conclusion is routed to the
-- agenda of the context that owns it.
use py_elk.Prelude.{
  ℕ, ◌≡◌, refl, sym, subst, ◌∙◌, ◌⊎◌, inl, inr, [], ◌∷◌, ◌++◌, Bool, true, false, Option, none,
  some, Option-cases, In, In-append, lookup, rows, arith, Result, ok, err,
}
use py_elk.Conclusion.{Conclusion}
use py_elk.Context
use py_elk.Context.{ContextState, new_context, mark_queued}
use py_elk.Context.Invariant.{IsConsistent, Enqueues, flags-IsConsistent}
use py_elk.Context.Methods.{enqueue_lem}
use py_elk.Saturation.Engine.{
  Engine, put, is_claimed, track_active, activate, publish, enqueue_existing, context_at,
}
use py_elk.Saturation.Steady.{Entry, IsSteady, update-Entries}
use py_elk.Saturation.Holds.{Holds}

pub activate_cases :
    (s : ContextState) (e : Engine)
    → (activate s e ≡ put s e) × (is_claimed s.root e.claimed_root ≡ true)
      ⊎ (activate s e ≡ put s e) × (s.queued ≡ true)
      ⊎ (activate s e
          ≡ track_active (record (put (record s { saturated = false; queued = true }) e) {
            active = e.active ++ s.root ∷ [];
          }))
unfolding activate mark_queued
activate_cases s e = ground arith

claimed_is : (r : ℕ) (o : Option ℕ) → is_claimed r o ≡ true → o ≡ some r
claimed_is r none h = cc
claimed_is r (some c) h = ground arith

module _ {P : Conclusion → Type 0} {claimed : Option ℕ} where
  -- A context whose agenda grew takes its place in the queue.
  pub activate-IsSteady :
      (s before : ContextState) (e : Engine)
      → IsSteady P claimed e
      → lookup s.root e.contexts ≡ some before
      → s.queued ≡ before.queued
      → IsConsistent s
      → ((x : Conclusion) → In x s.stored → P x)
      → ((x : Conclusion) → In x s.todo → P x)
      → IsSteady P claimed (activate s e)
  unfolding track_active
  activate-IsSteady s before e (held, h) found same consistent stored awaited =
      let old = h.each s.root before found in
      let listed : s.queued ≡ true → In s.root e.active = λ q. old.listed (sym same ∙ q) in
      let entry = λ (served : (s.queued ≡ true) ⊎ (claimed ≡ some s.root)).
        let one : Entry P e.active claimed (rows s.root e.retry) s.root s = record {
          owner = refl;
          consistent = consistent;
          stored = stored;
          awaited = awaited;
          listed = listed;
          served = λ w. served;
        } in
        update-Entries h e.active claimed e.retry s.root s one (λ r a m. m) (λ r a m. m)
          (λ r a c. c) (λ r a. refl) in
      elim (activate_cases s e) [
        | inl (r, mine) ↦
            subst (IsSteady P claimed) (sym r)
              (held, entry (inr (sym held ∙ claimed_is s.root e.claimed_root mine)))
        | inr (inl (r, waiting)) ↦ subst (IsSteady P claimed) (sym r) (held, entry (inl waiting))
        | inr (inr r) ↦ subst (IsSteady P claimed) (sym r) (
          held,
          update-Entries h (e.active ++ s.root ∷ []) claimed e.retry s.root
              (record s { saturated = false; queued = true })
              (record {
                owner = refl;
                consistent = flags-IsConsistent s false true consistent (λ f. cc f);
                stored = stored;
                awaited = awaited;
                listed = λ q. (In-append s.root e.active (s.root ∷ [])).1 (inr (inl refl));
                served = λ w. inl refl;
              })
              (λ r a m. (In-append r e.active (s.root ∷ [])).1 (inl m))
              (λ r a m. elim ((In-append r e.active (s.root ∷ [])).0 m) [
                | inl old ↦ old
                | inr (inl same) ↦ absurd (a same)
                | inr (inr nowhere) ↦ absurd nowhere
              ])
              (λ r a c. c) (λ r a. refl),
        )
      ]

abbrev pub Anything : {A S : Type 0} → A → S → Type 0
Anything a s = Unit

-- The value is the context of the root.
abbrev pub At : ℕ → ContextState → Engine → Type 0
At root s e = lookup root e.contexts ≡ some s

pub context_at-Holds :
    (I : Engine → Type 0) (root : ℕ) (e : Engine) → I e → Holds I (At root) (context_at root e)
unfolding context_at
context_at-Holds I root e h = elim (Option-cases (lookup root e.contexts)) [
  | inl none_there ↦ rw (none_there, context_at) h
  | inr (s, found) ↦ rw (found, context_at) (h, found)
]

module _ (P : Conclusion → Type 0) (claimed : Option ℕ) where
  publish-Holds :
      (r : Result (ContextState × Bool)) (e : Engine)
      → IsSteady P claimed e
      → ((s : ContextState) (e' : Engine)
          → r ≡ ok (s, true)
          → IsSteady P claimed e'
          → e'.contexts ≡ e.contexts
          → IsSteady P claimed (activate s e'))
      → Holds (IsSteady P claimed) Anything (publish r e)
  unfolding publish
  publish-Holds (err x) e h k = h
  publish-Holds (ok (s, false)) e h k = (h, tt)
  publish-Holds (ok (s, true)) e h k = (k s _ refl h refl, tt)

  pub enqueue_existing-Holds :
      (s : ContextState) (c : Conclusion) (e : Engine)
      → IsSteady P claimed e
      → lookup s.root e.contexts ≡ some s
      → P c
      → Holds (IsSteady P claimed) Anything (enqueue_existing s c e)
  unfolding enqueue_existing
  enqueue_existing-Holds s c e h found p =
      let old = h.1.each s.root s found in
      publish-Holds (Context.enqueue c s) _ h λ t e' r h' same.
        elim (enqueue_lem s c old.consistent) [
          | inl (own, (u, b, r', q)) ↦
              let eq : u ≡ t = cc (r, r') in
              let q' : Enqueues s c t b = subst (λ z. Enqueues s c z b) eq q in
              activate-IsSteady t s e' h' (cc (q'.same_root, same, found)) q'.same_queued
                q'.consistent (λ x m. old.stored x (subst (In x) q'.same_stored m))
                (λ x m. elim ((q'.known x).0 (inr m)) [
                  | inl e ↦ subst P (sym e) p
                  | inr (inl m') ↦
                      absurd (q'.consistent.novel x m (subst (In x) (sym q'.same_stored) m'))
                  | inr (inr m') ↦ old.awaited x m'
                ])
          | inr (foreign, r') ↦ let clash : ok (t, true) ≡ err _ = sym r ∙ r' in cc clash
        ]
