-- ===== src/Saturation/Flags.antt =====
-- Claiming a context, marking it saturated and giving its claim back (src/pyelk/reasoning/saturation.py,
-- `run`) change flags and the queue only.
use py_elk.Prelude.{
  ℕ, ◌≡◌, refl, sym, ap, subst, ◌∙◌, inl, inr, List, ◌∷◌, Bool, Option, none, some, In, lookup,
  insert, true, false, Option-cases, lookup-insert_self, lookup-insert_other, ok,
}
use py_elk.Context.{ContextState, claim, mark_saturated}
use py_elk.Rules.Index.{RuleDispatcher}
use py_elk.Saturation.Actions.{lift}
use py_elk.Saturation.Engine.{Engine, context_at, track_active}
use py_elk.Saturation.Schedule.{finish_context, release, claim_context}
use py_elk.Saturation.Steady.{IsSteady}
use py_elk.Saturation.Holds.{Ends, Ends-bind, lift-Ends}
use py_elk.Saturation.Routing.{At}
use py_elk.Saturation.Rounds.{saturated_is, release-none, release_cases}
use py_elk.Saturation.Arrival.{Any}
use py_elk.Saturation.Complete.{Moves, Moves-same}
use py_elk.Saturation.Premises.{replaced-Moves, context_at-same}

module _ (d : RuleDispatcher) (max_conclusions : Option ℕ) (interrupt : ℕ → Bool) (root : ℕ) where
  -- The flags of one context.
  flagged-Moves :
      (s : ContextState) (saturated queued : Bool) (e t : Engine)
      → At root s e
      → s.root ≡ root
      → t.contexts ≡ insert s.root (record s { saturated = saturated; queued = queued }) e.contexts
      → t.retry ≡ e.retry
      → Moves none none e t
  flagged-Moves s saturated queued e t found owner contexts retry =
      let s' : ContextState = record s { saturated = saturated; queued = queued } in
      replaced-Moves none root s s' e t found
        (ap (lookup root) contexts
          ∙ subst (λ r. lookup r (insert s.root s' e.contexts) ≡ some s') owner
              (lookup-insert_self s.root s' e.contexts))
        (λ r apart.
          ap (lookup r) contexts
          ∙ lookup-insert_other r s.root s' e.contexts (λ q. apart (q ∙ owner)))
        retry (λ y m other. m) (λ x k. k)

  pub claim_context-Moves :
      (rest : List ℕ) (e : Engine)
      → IsSteady Any none e
      → e.active ≡ root ∷ rest
      → (t : Engine) × (claim_context d max_conclusions interrupt root rest e ≡ (ok tt, t))
        × Moves none none e t
  unfolding claim_context claim lookup
  claim_context-Moves rest e h queue =
      let (s, found) = h.1.known root (subst (In root) (sym queue) (inl refl)) in
      rw found
        (_, refl, flagged-Moves s false false e _ found (h.1.each root s found).owner refl refl)

  pub release-Moves :
      (e : Engine)
      → IsSteady Any (some root) e
      → Moves none none e (release d max_conclusions interrupt root e)
  unfolding track_active
  release-Moves e h = elim (Option-cases (lookup root e.contexts)) [
    | inl nothing ↦
        subst (Moves none none e)
          (sym (release-none Any d max_conclusions interrupt root e nothing))
          (Moves-same none e _ refl refl)
    | inr (s, found) ↦ elim (release_cases Any d max_conclusions interrupt root e s found) [
      | inl (r, _) ↦ subst (Moves none none e) (sym r) (Moves-same none e _ refl refl)
      | inr r ↦
          subst (Moves none none e) (sym r)
            (flagged-Moves s false true e _ found (h.1.each root s found).owner refl refl)
    ]
  ]

  pub finish_context-Moves :
      (e : Engine)
      → IsSteady Any (some root) e
      → Ends
          (Moves none none e)
          (λ _ t. Moves none none e t)
          (finish_context d max_conclusions interrupt root e)
  unfolding finish_context
  finish_context-Moves e h =
      let E = Moves none none e in
      let same = Moves-same none e e refl refl in
      Ends-bind E (λ s t. (t ≡ e) × At root s e) (λ _ t. E t) (context_at root) _ e
        (context_at-same d root E e same)
        (λ s t (at, found).
          Ends-bind E (λ s' u. (u ≡ t) × (mark_saturated s ≡ ok s')) (λ _ u. E u)
            (lift (mark_saturated s)) _ t (lift-Ends E (mark_saturated s) t (subst E (sym at) same))
            (λ s' u (at', marked).
              let now = at' ∙ at in
              let done : ContextState = record s { saturated = true } in
              flagged-Moves s true s.queued e _ found (h.1.each root s found).owner
                (ap (λ (z : ContextState). insert z.root z u.contexts) (saturated_is s s' marked).1
                  ∙ ap (λ (w : Engine). insert s.root done w.contexts) now)
                (ap (λ (w : Engine). w.retry) now)))
