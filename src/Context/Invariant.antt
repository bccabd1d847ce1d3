-- ===== src/Context/Invariant.antt =====
-- The invariant of a context store (src/pyelk/reasoning/contexts.py) and the methods that keep it.
use py_elk.Prelude.{
  ℕ, ◌≡◌, refl, sym, subst, ◌↔◌, ◌⊎◌, inl, inr, List, [], ◌∷◌, ◌++◌, Bool, true, false, In,
  In-append, In-add, In-add_to, has, has_iff, lookup, nat_ordered, add, rows, arith,
}
use py_elk.Conclusion.{
  Conclusion, context_initialization, subcontext_initialization, decomposed, composed, forward_link,
  backward_link, propagation, disjoint_subsumer, class_inconsistency, conclusion_destination,
}
use py_elk.Conclusion.Keys.{conclusion_ordered}
use py_elk.Context.{ContextState, new_context, enqueue_owned, file}

-- The index of its family holds the conclusion.
abbrev pub Filed : ContextState → Conclusion → Type 0
Filed s (context_initialization c) = s.initialized ≡ true
Filed s (subcontext_initialization c) = In c.sub_destination_property s.initialized_subcontexts
Filed s (decomposed c) = In c.subsumer s.decomposed_subsumers
Filed s (composed c) = In c.subsumer s.composed_subsumers
Filed s (forward_link c) = In c.target (rows c.chain s.forward_links)
Filed s (backward_link c) = In c.source (rows c.relation s.backward_links)
Filed s (propagation c) = In c.carry_existential (rows c.relation s.propagations)
Filed s (disjoint_subsumer c) = In c.position (rows c.disjoint_group s.disjoint_positions)
Filed s (class_inconsistency c) = s.inconsistent ≡ true

abbrev pub Unrepeated : List Conclusion → Type 0
Unrepeated [] = Unit
Unrepeated (c ∷ cs) = ¬ In c cs × Unrepeated cs

pub record IsConsistent (s : ContextState) : Type 0 where
  pub filed : (c : Conclusion) → conclusion_destination c ≡ s.root → In c s.stored ↔ Filed s c
  pub owned : (c : Conclusion) → In c s.stored → conclusion_destination c ≡ s.root
  pub owed : (c : Conclusion) → In c s.todo → conclusion_destination c ≡ s.root
  pub awaited : (c : Conclusion) → In c s.pending ↔ In c s.todo
  pub novel : (c : Conclusion) → In c s.todo → ¬ In c s.stored
  pub unrepeated : Unrepeated s.todo
  pub idle : s.saturated ≡ true → s.todo ≡ []

new_context-Filed : (r : ℕ) (c : Conclusion) → Filed (new_context r) c → ⊥
unfolding new_context lookup
new_context-Filed r (context_initialization c) h = cc
new_context-Filed r (class_inconsistency c) h = cc
new_context-Filed r c h = absurd h

pub new_context-IsConsistent : (r : ℕ) → IsConsistent (new_context r)
unfolding new_context
new_context-IsConsistent r = record {
  filed = λ c e. (λ m. absurd m, new_context-Filed r c);
  owned = λ c m. absurd m;
  owed = λ c m. absurd m;
  awaited = λ c. (λ m. m, λ m. m);
  novel = λ c m. absurd m;
  unrepeated = tt;
  idle = λ e. refl;
}

In-concat_ne :
    (x c : Conclusion) (xs : List Conclusion) → ¬ In x xs → ¬ In c (x ∷ xs) → ¬ In x (xs ++ c ∷ [])
In-concat_ne x c xs h fresh m = ground (arith, In-append x xs (c ∷ []))

Unrepeated-concat :
    (cs : List Conclusion) (c : Conclusion) → Unrepeated cs → ¬ In c cs → Unrepeated (cs ++ c ∷ [])
Unrepeated-concat [] c u fresh = (λ m. m, tt)
Unrepeated-concat (x ∷ xs) c u fresh =
    (In-concat_ne x c xs u.0 fresh, Unrepeated-concat xs c u.1 (λ m. fresh (inr m)))

-- Filing a conclusion of the context adds it to the indices and nothing else.
pub Filed-file :
    (s : ContextState) (c x : Conclusion)
    → conclusion_destination c ≡ s.root
    → conclusion_destination x ≡ s.root
    → Filed (file c s) x ↔ ((x ≡ c) ⊎ Filed s x)
unfolding file conclusion_destination
Filed-file s (context_initialization c) (context_initialization x) e f = ground arith
Filed-file s (context_initialization c) _ e f = ground arith
Filed-file s (subcontext_initialization c) (subcontext_initialization x) e f =
    ground (
      arith,
      In-add x.sub_destination_property c.sub_destination_property s.initialized_subcontexts,
    )
Filed-file s (subcontext_initialization c) _ e f = ground arith
Filed-file s (decomposed c) (decomposed x) e f =
    ground (arith, In-add x.subsumer c.subsumer s.decomposed_subsumers)
Filed-file s (decomposed c) _ e f = ground arith
Filed-file s (composed c) (composed x) e f =
    ground (arith, In-add x.subsumer c.subsumer s.composed_subsumers)
Filed-file s (composed c) _ e f = ground arith
Filed-file s (forward_link c) (forward_link x) e f =
    ground (arith, In-add_to x.chain c.chain x.target c.target s.forward_links)
Filed-file s (forward_link c) _ e f = ground arith
Filed-file s (backward_link c) (backward_link x) e f =
    ground (arith, In-add_to x.relation c.relation x.source c.source s.backward_links)
Filed-file s (backward_link c) _ e f = ground arith
Filed-file s (propagation c) (propagation x) e f =
    ground (
      arith,
      In-add_to x.relation c.relation x.carry_existential c.carry_existential s.propagations,
    )
Filed-file s (propagation c) _ e f = ground arith
Filed-file s (disjoint_subsumer c) (disjoint_subsumer x) e f =
    ground (
      arith,
      In-add_to x.disjoint_group c.disjoint_group x.position c.position s.disjoint_positions,
    )
Filed-file s (disjoint_subsumer c) _ e f = ground arith
Filed-file s (class_inconsistency c) (class_inconsistency x) e f = ground arith
Filed-file s (class_inconsistency c) _ e f = ground arith

-- The indices do not depend on the agenda, the flags of the scheduler and the store.
pub Filed-agenda :
    (s : ContextState) (cs ds es : List Conclusion) (p q : Bool) (x : Conclusion)
    → Filed (record s { todo = cs; pending = ds; stored = es; saturated = p; queued = q }) x
      ≡ Filed s x
Filed-agenda s cs ds es p q (context_initialization c) = refl
Filed-agenda s cs ds es p q _ = refl

pub Filed-iff :
    (s : ContextState) (cs ds es : List Conclusion) (p q : Bool) (x : Conclusion) {P : Type 0}
    → P ↔ Filed s x
    → P ↔ Filed (record s { todo = cs; pending = ds; stored = es; saturated = p; queued = q }) x
Filed-iff s cs ds es p q x {P} h = subst (λ T. P ↔ T) (sym (Filed-agenda s cs ds es p q x)) h

-- What the context knows of is stored or waits in its agenda.
abbrev pub Known : ContextState → Conclusion → Type 0
Known s c = In c s.stored ⊎ In c s.todo

enqueued-IsConsistent :
    (s : ContextState) (c : Conclusion)
    → conclusion_destination c ≡ s.root
    → has c s.stored ≡ false
    → has c s.pending ≡ false
    → IsConsistent s
    → IsConsistent
        (record s { todo = s.todo ++ c ∷ []; pending = add c s.pending; saturated = false })
enqueued-IsConsistent s c e new free h = record {
  filed = λ x f.
      Filed-iff s (s.todo ++ c ∷ []) (add c s.pending) s.stored false s.queued x (h.filed x f);
  owned = h.owned;
  owed = λ x m. ground (arith, In-append x s.todo (c ∷ []), h.owed x);
  awaited = λ x. ground (arith, In-append x s.todo (c ∷ []), In-add x c s.pending, h.awaited x);
  novel = λ x m. ground (arith, In-append x s.todo (c ∷ []), h.novel x, has_iff c s.stored);
  unrepeated =
      Unrepeated-concat s.todo c h.unrepeated λ m. ground (arith, has_iff c s.pending, h.awaited c);
  idle = λ f. cc;
}

-- The agenda and the flag that `enqueue` leaves, on its three branches.
pub enqueue_owned_cases :
    (s : ContextState) (c : Conclusion)
    → (enqueue_owned c s ≡ (s, false)) × ((In c s.stored) ⊎ (In c s.pending))
      ⊎ (enqueue_owned c s ≡ (
        record s { todo = s.todo ++ c ∷ []; pending = add c s.pending; saturated = false },
        true,
      ))
        × (has c s.stored ≡ false)
        × (has c s.pending ≡ false)
unfolding enqueue_owned
enqueue_owned_cases s c = ground (arith, has_iff c s.stored, has_iff c s.pending)

-- Queueing a candidate of the context keeps the invariant; the candidate is known afterwards and
-- nothing else becomes known; and the flag says whether the candidate was unknown before.
pub record Enqueues (s : ContextState) (c : Conclusion) (t : ContextState) (b : Bool) : Type 0 where
  pub consistent : IsConsistent t
  pub same_root : t.root ≡ s.root
  pub same_queued : t.queued ≡ s.queued
  pub same_stored : t.stored ≡ s.stored
  pub known : (x : Conclusion) → Known t x ↔ ((x ≡ c) ⊎ Known s x)
  pub flag : (b ≡ true) ↔ (¬ Known s c)

pub enqueue_owned_lem :
    (s : ContextState) (c : Conclusion)
    → conclusion_destination c ≡ s.root
    → IsConsistent s
    → Enqueues s c (enqueue_owned c s).0 (enqueue_owned c s).1
enqueue_owned_lem s c e h = elim (enqueue_owned_cases s c) [
  | inl (r, old) ↦ rw r (record {
    consistent = h;
    same_root = refl;
    same_queued = refl;
    same_stored = refl;
    known = λ x. ground (arith, h.awaited c);
    flag = ground (arith, h.awaited c);
  })
  | inr (r, new, free) ↦ rw r (record {
    consistent = enqueued-IsConsistent s c e new free h;
    same_root = refl;
    same_queued = refl;
    same_stored = refl;
    known = λ x. ground (arith, In-append x s.todo (c ∷ []));
    flag = ground (arith, h.awaited c, has_iff c s.stored, has_iff c s.pending);
  })
]

-- The flags of the scheduler may change as long as a context with an agenda is not saturated.
pub flags-IsConsistent :
    (s : ContextState) (saturated queued : Bool)
    → IsConsistent s
    → (saturated ≡ true → s.todo ≡ [])
    → IsConsistent (record s { saturated = saturated; queued = queued })
flags-IsConsistent s saturated queued h idle = record {
  filed = λ x f. Filed-iff s s.todo s.pending s.stored saturated queued x (h.filed x f);
  owned = h.owned;
  owed = h.owed;
  awaited = h.awaited;
  novel = h.novel;
  unrepeated = h.unrepeated;
  idle = idle;
}
