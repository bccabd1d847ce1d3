-- ===== src/Saturation/Delivery.antt =====
-- Routing a conclusion (src/pyelk/reasoning/saturation.py, `enqueue` and `_ensure_context`) lets the
-- contexts grow, and the context that owns the conclusion knows it then.
use py_elk.Prelude.{
  ◌≡◌, refl, sym, ap, subst, ◌∙◌, ◌⊎◌, inl, inr, Bool, true, false, some, In, lookup, insert, rows,
  Bool-cases, has, has_iff, lookup-insert_self, lookup-insert_other, ok,
}
use py_elk.Conclusion.{Conclusion, conclusion_destination}
use py_elk.Conclusion.Keys.{conclusion_ordered}
use py_elk.Context.{ContextState}
use py_elk.Context.Invariant.{IsConsistent, Known, Enqueues}
use py_elk.Context.Methods.{enqueue_lem}
use py_elk.Saturation.Engine.{Engine, track_active, activate, publish, enqueue_existing}
use py_elk.Saturation.Holds.{Holds}
use py_elk.Saturation.Routing.{At, activate_cases}
use py_elk.Saturation.Grows.{Grows, Grows-refl, Grows-insert}

-- The context that owns the conclusion knows it.
abbrev pub Seen : Engine → Conclusion → Type 0
Seen e c = (s : ContextState) × At (conclusion_destination c) s e × Known s c

pub Seen-Grows : (e t : Engine) (c : Conclusion) → Grows e t → Seen e c → Seen t c
Seen-Grows e t c g (s, found, k) =
    let (s', found', stored, todo) = g.kept (conclusion_destination c) s found in
    (s', found', elim k [ inl m ↦ inl (subst (In c) (sym stored) m) | inr m ↦ inr (todo c m) ])

-- What activating a context does to the scheduler.
pub record Activates (s : ContextState) (e t : Engine) : Type 0 where
  pub state : ContextState
  pub contexts : t.contexts ≡ insert s.root state e.contexts
  pub stored : state.stored ≡ s.stored
  pub todo : state.todo ≡ s.todo
  pub retry : t.retry ≡ e.retry

pub activate-Activates : (s : ContextState) (e : Engine) → Activates s e (activate s e)
unfolding track_active
activate-Activates s e = elim (activate_cases s e) [
  | inl (r, _) ↦
      subst (Activates s e) (sym r)
        (record { state = s; contexts = refl; stored = refl; todo = refl; retry = refl })
  | inr (inl (r, _)) ↦
      subst (Activates s e) (sym r)
        (record { state = s; contexts = refl; stored = refl; todo = refl; retry = refl })
  | inr (inr r) ↦ subst (Activates s e) (sym r) (record {
    state = record s { saturated = false; queued = true };
    contexts = refl;
    stored = refl;
    todo = refl;
    retry = refl;
  })
]

Known-dec : (s : ContextState) (c : Conclusion) → IsConsistent s → Known s c ⊎ (¬ Known s c)
Known-dec s c h = elim (Bool-cases (has c s.stored)) [
  | inl t ↦ inl (inl ((has_iff c s.stored).0 t))
  | inr f ↦ elim (Bool-cases (has c s.pending)) [
    | inl t ↦ inl (inr ((h.awaited c).0 ((has_iff c s.pending).0 t)))
    | inr f' ↦ inr (λ k. elim k [
      | inl m ↦ cc ((has_iff c s.stored).1 m)
      | inr m ↦ cc ((has_iff c s.pending).1 ((h.awaited c).1 m))
    ])
  ]
]

-- A context of the scheduler took a candidate.
taken-Grows :
    (s t : ContextState) (c : Conclusion) (b : Bool) (e e' : Engine)
    → At s.root s e
    → IsConsistent s
    → conclusion_destination c ≡ s.root
    → Enqueues s c t b
    → e'.contexts ≡ e.contexts
    → e'.retry ≡ e.retry
    → Grows e (activate t e') × Seen (activate t e') c
taken-Grows s t c b e e' found consistent own q same retried =
    let a = activate-Activates t e' in
    let z = a.state in
    let todo : (x : Conclusion) → In x s.todo → In x z.todo = λ x m.
      subst (In x) (sym a.todo) (elim ((q.known x).1 (inr (inr m))) [
        | inr m' ↦ m'
        | inl m' ↦ absurd (consistent.novel x m (subst (In x) q.same_stored m'))
      ]) in
    let contexts : (activate t e').contexts ≡ insert s.root z e.contexts =
      a.contexts ∙ ap (λ r. insert r z e'.contexts) q.same_root ∙ ap (insert s.root z) same in
    let at : At s.root z (activate t e') =
      subst (λ k. lookup s.root k ≡ some z) (sym contexts)
        (lookup-insert_self s.root z e.contexts) in
    (
      Grows-insert e (activate t e') s.root z at
          (λ r apart.
            subst (λ k. lookup r k ≡ lookup r e.contexts) (sym contexts)
              (lookup-insert_other r s.root z e.contexts apart))
          (λ r apart. ap (rows r) (a.retry ∙ retried))
          (inl (s, found, a.stored ∙ q.same_stored, todo, ap (rows s.root) (a.retry ∙ retried))),
      (
        z,
        subst (λ r. At r z (activate t e')) (sym own) at,
        elim ((q.known c).1 (inl refl)) [
          | inl m ↦ inl (subst (In c) (sym a.stored) m)
          | inr m ↦ inr (subst (In c) (sym a.todo) m)
        ],
      ),
    )

publish-Grows :
    (s t : ContextState) (c : Conclusion) (b : Bool) (e e' : Engine)
    → At s.root s e
    → IsConsistent s
    → conclusion_destination c ≡ s.root
    → Enqueues s c t b
    → e'.contexts ≡ e.contexts
    → e'.retry ≡ e.retry
    → Holds (Grows e) (λ _ u. Seen u c) (publish (ok (t, b)) e')
unfolding publish
publish-Grows s t c true e e' found consistent own q same retried =
    taken-Grows s t c true e _ found consistent own q same retried
publish-Grows s t c false e e' found consistent own q same retried = (
  Grows-refl e _ same retried,
  (
    s,
    subst (λ k. lookup (conclusion_destination c) k ≡ some s) (sym same)
        (subst (λ r. At r s e) (sym own) found),
    elim (Known-dec s c consistent) [ inl k ↦ k | inr unknown ↦ cc (q.flag.1 unknown) ],
  ),
)

pub enqueue_existing-Grows :
    (s : ContextState) (c : Conclusion) (e : Engine)
    → At s.root s e
    → IsConsistent s
    → conclusion_destination c ≡ s.root
    → Holds (Grows e) (λ _ u. Seen u c) (enqueue_existing s c e)
unfolding enqueue_existing
enqueue_existing-Grows s c e found consistent own = elim (enqueue_lem s c consistent) [
  | inl (_, (t, b, r, q)) ↦ rw r (publish-Grows s t c b e _ found consistent own q refl refl)
  | inr (foreign, _) ↦ absurd (foreign own)
]
