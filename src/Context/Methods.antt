-- ===== src/Context/Methods.antt =====
-- The methods of src/pyelk/reasoning/contexts.py as their callers see them.
use py_elk.Prelude.{
  if◌then◌else◌, ◌≡◌, ◌≢◌, ◌↔◌, ◌⊎◌, inl, inr, ap, subst, ◌∙◌, List, ◌∷◌, Bool, true, false, In,
  Bool-cases, ◌==◌, ==_iff, Result, ok, err, value_error, some,
}
use py_elk.Conclusion.{Conclusion, conclusion_destination}
use py_elk.Conclusion.Keys.{conclusion_ordered}
use py_elk.Context.{
  ContextState, check_destination, enqueue_owned, enqueue, pop_todo, insert_owned, insert,
}
use py_elk.Context.Invariant.{IsConsistent, Enqueues, enqueue_owned_lem}
use py_elk.Context.Process.{Inserts, pop_todo_lem, insert_owned_lem}

-- A conclusion of the context passes the check of its destination, another one does not.
enqueue-own :
    (s : ContextState) (c : Conclusion)
    → (conclusion_destination c == s.root) ≡ true
    → enqueue c s ≡ ok (enqueue_owned c s)
unfolding enqueue check_destination
enqueue-own s c t =
    ap
      (λ b.
        elim (if◌then◌else◌ {0} b (ok tt) (err value_error))
          as (λ _. Result (ContextState × Bool)) [ ok _ ↦ ok (enqueue_owned c s) | err e ↦ err e ])
      t

pub insert-own :
    (s : ContextState) (c : Conclusion)
    → (conclusion_destination c == s.root) ≡ true
    → insert c s ≡ ok (insert_owned c s)
unfolding insert check_destination
insert-own s c t =
    ap
      (λ b.
        elim (if◌then◌else◌ {0} b (ok tt) (err value_error))
          as (λ _. Result (ContextState × Bool)) [ ok _ ↦ ok (insert_owned c s) | err e ↦ err e ])
      t

enqueue-foreign :
    (s : ContextState) (c : Conclusion)
    → (conclusion_destination c == s.root) ≡ false
    → enqueue c s ≡ err value_error
unfolding enqueue check_destination
enqueue-foreign s c f =
    ap
      (λ b.
        elim (if◌then◌else◌ {0} b (ok tt) (err value_error))
          as (λ _. Result (ContextState × Bool)) [ ok _ ↦ ok (enqueue_owned c s) | err e ↦ err e ])
      f

-- A candidate of a consistent context is queued: the invariant stays, what is stored stays, the
-- candidate becomes known and nothing else does, and the flag says whether it was unknown before.
-- A candidate of another context raises `ValueError`.
pub enqueue_lem :
    (s : ContextState) (c : Conclusion)
    → IsConsistent s
    → (conclusion_destination c ≡ s.root)
        × ((t : ContextState) × (b : Bool) × (enqueue c s ≡ ok (t, b)) × Enqueues s c t b)
      ⊎ (conclusion_destination c ≢ s.root) × (enqueue c s ≡ err value_error)
enqueue_lem s c h = elim (Bool-cases (conclusion_destination c == s.root)) [
  | inl t ↦
      let e = (==_iff (conclusion_destination c) s.root).0 t in
      inl (
        e,
        (
          (enqueue_owned c s).0,
          (enqueue_owned c s).1,
          enqueue-own s c t,
          enqueue_owned_lem s c e h,
        ),
      )
  | inr f ↦ inr (λ e. cc ((==_iff (conclusion_destination c) s.root).1 e), enqueue-foreign s c f)
]

-- Taking the first conclusion of the agenda of a consistent context and storing it, as the scheduler
-- does: the store takes it as new, exactly it is added to what is stored, the rest of the agenda
-- stays, and the invariant holds again.
pub pop_todo-insert :
    (s : ContextState) (c : Conclusion) (rest : List Conclusion)
    → IsConsistent s
    → s.todo ≡ c ∷ rest
    → ((pop_todo s).1 ≡ some c)
      × ((t : ContextState) × (insert c (pop_todo s).0 ≡ ok (t, true))
          × IsConsistent t
          × (t.todo ≡ rest)
          × ((x : Conclusion) → In x t.stored ↔ ((x ≡ c) ⊎ In x s.stored)))
pop_todo-insert s c rest h e =
    let (popped, p) = pop_todo_lem s c rest e h in
    let s' = (pop_todo s).0 in
    let done = insert_owned_lem s' c p.owned p.gone p.consistent in
    let own = (==_iff (conclusion_destination c) s'.root).1 p.owned in
    let new : (insert_owned c s').1 ≡ true = done.flag.1 p.novel in
    (
      popped,
      (
        (insert_owned c s').0,
        insert-own s' c own ∙ ap (λ b. ok ((insert_owned c s').0, b)) new,
        done.consistent,
        cc (done.same_todo, p.agenda, e),
        λ x.
            subst (λ l. In x (insert_owned c s').0.stored ↔ ((x ≡ c) ⊎ In x l)) p.same_stored
              (done.stored x),
      ),
    )

insert-foreign :
    (s : ContextState) (c : Conclusion)
    → (conclusion_destination c == s.root) ≡ false
    → insert c s ≡ err value_error
unfolding insert check_destination
insert-foreign s c f =
    ap
      (λ b.
        elim (if◌then◌else◌ {0} b (ok tt) (err value_error))
          as (λ _. Result (ContextState × Bool)) [ ok _ ↦ ok (insert_owned c s) | err e ↦ err e ])
      f

-- A conclusion that is not on the agenda is inserted into a consistent context: the invariant stays,
-- the agenda stays, exactly the conclusion is added to what is stored, and the flag says whether it
-- was new. A conclusion of another context raises `ValueError`.
pub insert_lem :
    (s : ContextState) (c : Conclusion)
    → IsConsistent s
    → ¬ In c s.todo
    → (conclusion_destination c ≡ s.root)
        × ((t : ContextState) × (b : Bool) × (insert c s ≡ ok (t, b)) × Inserts s c t b)
      ⊎ (conclusion_destination c ≢ s.root) × (insert c s ≡ err value_error)
insert_lem s c h gone = elim (Bool-cases (conclusion_destination c == s.root)) [
  | inl t ↦
      let e = (==_iff (conclusion_destination c) s.root).0 t in
      inl (
        e,
        (
          (insert_owned c s).0,
          (insert_owned c s).1,
          insert-own s c t,
          insert_owned_lem s c e gone h,
        ),
      )
  | inr f ↦ inr (λ e. cc ((==_iff (conclusion_destination c) s.root).1 e), insert-foreign s c f)
]
