-- ===== src/Context.antt =====
-- src/pyelk/reasoning/contexts.py: the duplicate-suppressing store of one saturation context. A
-- method returns the state that it leaves and its result; `ValueError` of a conclusion of another
-- context and `RuntimeError` of `mark_saturated` are `err`.
pub mod Invariant
pub mod Process
pub mod Methods
pub mod Frozen
use py_elk.Prelude.{
  ℕ, List, [], ◌∷◌, ◌++◌, Bool, true, false, Option, none, some, ◌==◌, if◌then◌else◌, Dict,
  nat_ordered, add, add_to, has, discard, items, Result, ok, err, Error, value_error, runtime_error,
}
use py_elk.Conclusion.{
  Conclusion, context_initialization, subcontext_initialization, decomposed, composed, forward_link,
  backward_link, propagation, disjoint_subsumer, class_inconsistency, conclusion_destination,
}
use py_elk.Conclusion.Keys.{conclusion_ordered}

-- `stored` is the dictionary `_conclusions` and `pending` the set `_pending`.
pub record ContextState : Type 0 where
  pub root : ℕ
  pub initialized : Bool
  pub saturated : Bool
  pub inconsistent : Bool
  pub composed_subsumers : List ℕ
  pub decomposed_subsumers : List ℕ
  pub forward_links : Dict (List ℕ)
  pub backward_links : Dict (List ℕ)
  pub propagations : Dict (List ℕ)
  pub disjoint_positions : Dict (List ℕ)
  pub initialized_subcontexts : List ℕ
  pub todo : List Conclusion
  pub queued : Bool
  pub stored : List Conclusion
  pub pending : List Conclusion

-- `ContextState(root)`
unfoldable pub new_context : ℕ → ContextState
new_context r = record {
  root = r;
  initialized = false;
  saturated = false;
  inconsistent = false;
  composed_subsumers = [];
  decomposed_subsumers = [];
  forward_links = [];
  backward_links = [];
  propagations = [];
  disjoint_positions = [];
  initialized_subcontexts = [];
  todo = [];
  queued = false;
  stored = [];
  pending = [];
}

-- `_check_destination`
unfoldable pub check_destination : ContextState → Conclusion → Result (Unit {0})
check_destination s c = if conclusion_destination c == s.root then ok tt else err value_error

-- The part of `enqueue` below the check.
unfoldable pub enqueue_owned : Conclusion → ContextState → ContextState × Bool
enqueue_owned c s =
    if has c s.stored
    then (s, false)
    else if has c s.pending
    then (s, false)
    else (record s { todo = s.todo ++ c ∷ []; pending = add c s.pending; saturated = false }, true)

unfoldable pub enqueue : Conclusion → ContextState → Result (ContextState × Bool)
unfolding check_destination enqueue_owned
enqueue c s = elim (check_destination s c) [ ok _ ↦ ok (enqueue_owned c s) | err e ↦ err e ]

unfoldable pub pop_from : List Conclusion → ContextState → ContextState × Option Conclusion
pop_from [] s = (s, none)
pop_from (c ∷ rest) s = (record s { todo = rest; pending = discard c s.pending }, some c)

unfoldable pub pop_todo : ContextState → ContextState × Option Conclusion
unfolding pop_from
pop_todo s = pop_from s.todo s

-- The index of its family that a novel conclusion goes to.
unfoldable pub file : Conclusion → ContextState → ContextState
file (context_initialization c) s = record s { initialized = true }
file (subcontext_initialization c) s = record s {
  initialized_subcontexts = add c.sub_destination_property s.initialized_subcontexts;
}
file (decomposed c) s = record s { decomposed_subsumers = add c.subsumer s.decomposed_subsumers }
file (composed c) s = record s { composed_subsumers = add c.subsumer s.composed_subsumers }
file (forward_link c) s = record s { forward_links = add_to c.chain c.target s.forward_links }
file (backward_link c) s = record s { backward_links = add_to c.relation c.source s.backward_links }
file (propagation c) s = record s {
  propagations = add_to c.relation c.carry_existential s.propagations;
}
file (disjoint_subsumer c) s = record s {
  disjoint_positions = add_to c.disjoint_group c.position s.disjoint_positions;
}
file (class_inconsistency c) s = record s { inconsistent = true }

-- The part of `insert` below the check.
unfoldable pub insert_owned : Conclusion → ContextState → ContextState × Bool
unfolding file
insert_owned c s =
    let s' = record s { pending = discard c s.pending } in
    if has c s.stored then (s', false) else (file c (record s' { stored = add c s.stored }), true)

unfoldable pub insert : Conclusion → ContextState → Result (ContextState × Bool)
unfolding check_destination insert_owned
insert c s = elim (check_destination s c) [ ok _ ↦ ok (insert_owned c s) | err e ↦ err e ]

unfoldable pub contains : Conclusion → ContextState → Result Bool
unfolding check_destination
contains c s = elim (check_destination s c) [ ok _ ↦ ok (has c s.stored) | err e ↦ err e ]

unfoldable pub mark_queued : ContextState → ContextState × Bool
mark_queued s =
    if s.queued then (s, false) else (record s { queued = true; saturated = false }, true)

unfoldable pub claim : ContextState → ContextState
claim s = record s { queued = false; saturated = false }

unfoldable pub mark_saturated : ContextState → Result ContextState
mark_saturated s = elim s.todo [
  | [] ↦ ok (record s { saturated = true })
  | _ ∷ _ ↦ err runtime_error
]

-- `freeze` sorts by key; the deque is sorted by going through `add`.
unfoldable pub sorted_todo : List Conclusion → List Conclusion
sorted_todo [] = []
sorted_todo (c ∷ cs) = add c (sorted_todo cs)

pub record FrozenContext : Type 0 where
  pub root : ℕ
  pub initialized : Bool
  pub saturated : Bool
  pub inconsistent : Bool
  pub composed_subsumers : List ℕ
  pub decomposed_subsumers : List ℕ
  pub forward_links : List (ℕ × List ℕ)
  pub backward_links : List (ℕ × List ℕ)
  pub propagations : List (ℕ × List ℕ)
  pub disjoint_positions : List (ℕ × List ℕ)
  pub initialized_subcontexts : List ℕ
  pub conclusions : List Conclusion
  pub todo : List Conclusion
  pub queued : Bool

unfoldable pub freeze : ContextState → FrozenContext
unfolding sorted_todo
freeze s = record {
  root = s.root;
  initialized = s.initialized;
  saturated = s.saturated;
  inconsistent = s.inconsistent;
  composed_subsumers = s.composed_subsumers;
  decomposed_subsumers = s.decomposed_subsumers;
  forward_links = items s.forward_links;
  backward_links = items s.backward_links;
  propagations = items s.propagations;
  disjoint_positions = items s.disjoint_positions;
  initialized_subcontexts = s.initialized_subcontexts;
  conclusions = s.stored;
  todo = sorted_todo s.todo;
  queued = s.queued;
}
