-- ===== src/Context/Process.antt =====
-- Taking a conclusion from the agenda and storing it (src/pyelk/reasoning/contexts.py, `pop_todo`
-- and `insert`).
use py_elk.Prelude.{
  ◌≡◌, refl, sym, ap, subst, ◌∙◌, ◌≢◌, ◌↔◌, ◌⊎◌, inl, inr, List, ◌∷◌, Bool, true, false, some, In,
  In-add, In-discard, has_iff, add, discard, arith,
}
use py_elk.Conclusion.{Conclusion, conclusion_destination}
use py_elk.Conclusion.Keys.{conclusion_ordered}
use py_elk.Context.{ContextState, pop_from, pop_todo, file, insert_owned}
use py_elk.Context.Invariant.{Filed, Filed-agenda, Filed-iff, Filed-file, Unrepeated, IsConsistent}

-- The next conclusion leaves the agenda: it is owned by the context and not stored.
pub record Pops (s : ContextState) (c : Conclusion) (t : ContextState) : Type 0 where
  pub consistent : IsConsistent t
  pub same_root : t.root ≡ s.root
  pub same_queued : t.queued ≡ s.queued
  pub same_stored : t.stored ≡ s.stored
  pub owned : conclusion_destination c ≡ t.root
  pub novel : ¬ In c t.stored
  pub gone : ¬ In c t.todo
  pub agenda : s.todo ≡ c ∷ t.todo

popped-IsConsistent :
    (s : ContextState) (c : Conclusion) (rest : List Conclusion)
    → s.todo ≡ c ∷ rest
    → IsConsistent s
    → IsConsistent (record s { todo = rest; pending = discard c s.pending })
popped-IsConsistent s c rest e h =
    let same : (x : Conclusion) → In x s.todo ↔ In x (c ∷ rest) =
      λ x. subst (λ l. In x s.todo ↔ In x l) e (λ m. m, λ m. m) in
    let once : Unrepeated (c ∷ rest) = subst Unrepeated e h.unrepeated in
    record {
      filed = λ x f.
          Filed-iff s rest (discard c s.pending) s.stored s.saturated s.queued x (h.filed x f);
      owned = h.owned;
      owed = λ x m. h.owed x ((same x).1 (inr m));
      awaited = λ x. ground (arith, In-discard x c s.pending, h.awaited x, same x, once);
      novel = λ x m. h.novel x ((same x).1 (inr m));
      unrepeated = once.1;
      idle = λ f. cc (h.idle f, e);
    }

pub pop_todo_lem :
    (s : ContextState) (c : Conclusion) (rest : List Conclusion)
    → s.todo ≡ c ∷ rest
    → IsConsistent s
    → ((pop_todo s).1 ≡ some c) × Pops s c (pop_todo s).0
unfolding pop_todo pop_from
pop_todo_lem s c rest e h =
    let taken : pop_todo s ≡ (record s { todo = rest; pending = discard c s.pending }, some c) =
      ap (λ cs. pop_from cs s) e in
    let here : In c s.todo = subst (In c) (sym e) (inl refl) in
    rw taken (
      refl,
      record {
        consistent = popped-IsConsistent s c rest e h;
        same_root = refl;
        same_queued = refl;
        same_stored = refl;
        owned = h.owed c here;
        novel = h.novel c here;
        gone = (subst Unrepeated e h.unrepeated).0;
        agenda = e;
      },
    )

insert_owned_cases :
    (s : ContextState) (c : Conclusion)
    → (insert_owned c s ≡ (record s { pending = discard c s.pending }, false)) × In c s.stored
      ⊎ (insert_owned c s
          ≡ (file c (record s { pending = discard c s.pending; stored = add c s.stored }), true))
        × (¬ In c s.stored)
unfolding insert_owned
insert_owned_cases s c = ground (arith, has_iff c s.stored)

-- Storing a conclusion of the context that is not waiting keeps the invariant, and the flag says
-- whether it was new.
pub record Inserts (s : ContextState) (c : Conclusion) (t : ContextState) (b : Bool) : Type 0 where
  pub consistent : IsConsistent t
  pub same_root : t.root ≡ s.root
  pub same_queued : t.queued ≡ s.queued
  pub same_todo : t.todo ≡ s.todo
  pub stored : (x : Conclusion) → In x t.stored ↔ ((x ≡ c) ⊎ In x s.stored)
  pub flag : (b ≡ true) ↔ (¬ In c s.stored)

file-agenda :
    (c : Conclusion) (s : ContextState)
    → ((file c s).root ≡ s.root)
      × ((file c s).todo ≡ s.todo)
      × ((file c s).stored ≡ s.stored)
      × ((file c s).pending ≡ s.pending)
      × ((file c s).saturated ≡ s.saturated)
      × ((file c s).queued ≡ s.queued)
unfolding file
file-agenda c s = ground arith

module _ (s t : ContextState) (c : Conclusion) (e : conclusion_destination c ≡ s.root)
    (gone : ¬ In c s.todo) (h : IsConsistent s) (root : t.root ≡ s.root) (todo : t.todo ≡ s.todo)
    (stored : t.stored ≡ add c s.stored) (pending : t.pending ≡ discard c s.pending)
    (saturated : t.saturated ≡ s.saturated)
    (filed : (x : Conclusion)
      → conclusion_destination x ≡ s.root
      → Filed t x ↔ ((x ≡ c) ⊎ Filed s x)) where
  In-stored : (x : Conclusion) → In x t.stored ↔ ((x ≡ c) ⊎ In x s.stored)
  In-stored x = rw stored (In-add x c s.stored)

  In-pending : (x : Conclusion) → In x t.pending ↔ (In x s.pending × (x ≢ c))
  In-pending x = rw pending (In-discard x c s.pending)

  In-todo : (x : Conclusion) → In x t.todo ↔ In x s.todo
  In-todo x = rw todo (λ m. m, λ m. m)

  filed_as-IsConsistent : IsConsistent t
  filed_as-IsConsistent = record {
    filed = λ x f. ground (arith, In-stored x, filed x, h.filed x);
    owned = λ x m. ground (arith, In-stored x, h.owned x);
    owed = λ x m. ground (arith, In-todo x, h.owed x);
    awaited = λ x. ground (arith, In-todo x, In-pending x, h.awaited x);
    novel = λ x m. ground (arith, In-todo x, In-stored x, h.novel x);
    unrepeated = rw todo h.unrepeated;
    idle = λ f. cc (todo, h.idle (sym saturated ∙ f));
  }

inserted-IsConsistent :
    (s : ContextState) (c : Conclusion)
    → conclusion_destination c ≡ s.root
    → ¬ In c s.todo
    → IsConsistent s
    → IsConsistent (file c (record s { pending = discard c s.pending; stored = add c s.stored }))
inserted-IsConsistent s c e gone h =
    let s' = record s { pending = discard c s.pending; stored = add c s.stored } in
    let (root, todo, stored, pending, saturated, queued) = file-agenda c s' in
    filed_as-IsConsistent s (file c s') c e gone h root todo stored pending saturated λ x f.
      let unchanged =
        Filed-agenda s s.todo (discard c s.pending) (add c s.stored) s.saturated s.queued x in
      subst (λ T. Filed (file c s') x ↔ ((x ≡ c) ⊎ T)) unchanged (Filed-file s' c x e f)

kept-IsConsistent :
    (s : ContextState) (c : Conclusion)
    → ¬ In c s.todo
    → IsConsistent s
    → IsConsistent (record s { pending = discard c s.pending })
kept-IsConsistent s c gone h = record {
  filed =
      λ x f. Filed-iff s s.todo (discard c s.pending) s.stored s.saturated s.queued x (h.filed x f);
  owned = h.owned;
  owed = h.owed;
  awaited = λ x. ground (arith, In-discard x c s.pending, h.awaited x);
  novel = h.novel;
  unrepeated = h.unrepeated;
  idle = h.idle;
}

pub insert_owned_lem :
    (s : ContextState) (c : Conclusion)
    → conclusion_destination c ≡ s.root
    → ¬ In c s.todo
    → IsConsistent s
    → Inserts s c (insert_owned c s).0 (insert_owned c s).1
insert_owned_lem s c e gone h = elim (insert_owned_cases s c) [
  | inl (r, old) ↦ rw r (record {
    consistent = kept-IsConsistent s c gone h;
    same_root = refl;
    same_queued = refl;
    same_todo = refl;
    stored = λ x. ground arith;
    flag = ground arith;
  })
  | inr (r, new) ↦
      let (root, todo, stored, pending, saturated, queued) =
        file-agenda c (record s { pending = discard c s.pending; stored = add c s.stored }) in
      rw r (record {
        consistent = inserted-IsConsistent s c e gone h;
        same_root = root;
        same_queued = queued;
        same_todo = todo;
        stored = λ x. rw stored (In-add x c s.stored);
        flag = ground arith;
      })
]
