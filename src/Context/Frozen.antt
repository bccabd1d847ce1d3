-- ===== src/Context/Frozen.antt =====
-- The immutable view that `freeze` of src/pyelk/reasoning/contexts.py takes of a context.
use mathlib.Core.Option.{some-injective}
use py_elk.Prelude.{
  ◌∙◌, ℕ, ◌≡◌, refl, sym, subst, ◌↔◌, List, [], ◌∷◌, true, Option, none, some, In, Dict, rows,
  lookup, items, In-items, In-add, arith, nat_ordered,
}
use py_elk.Conclusion.{
  Conclusion, context_initialization, subcontext_initialization, decomposed, composed, forward_link,
  backward_link, propagation, disjoint_subsumer, class_inconsistency, conclusion_destination,
}
use py_elk.Conclusion.Keys.{conclusion_ordered}
use py_elk.Context.{ContextState, FrozenContext, freeze, sorted_todo}
use py_elk.Context.Invariant.{Filed, IsConsistent}

-- A value stands in the row of a key of a frozen multimap.
abbrev pub Listed : ℕ → ℕ → List (ℕ × List ℕ) → Type 0
Listed k a table = (row : List ℕ) × In (k, row) table × In a row

Listed-at :
    (k a : ℕ) (d : Dict (List ℕ)) (o : Option (List ℕ))
    → lookup k d ≡ o
    → In a (elim o as (λ _. List ℕ) [ none ↦ [] | some row ↦ row ]) ↔ Listed k a (items d)
Listed-at k a d none found =
    (λ m. absurd m, λ (row, at, m). let other = sym found ∙ (In-items d k row).0 at in cc other)
Listed-at k a d (some row) found = (
  λ m. (row, (In-items d k row).1 found, m),
  λ (other, at, m).
      subst (In a) (some-injective other row (sym ((In-items d k other).0 at) ∙ found)) m,
)

rows-Listed : (k a : ℕ) (d : Dict (List ℕ)) → In a (rows k d) ↔ Listed k a (items d)
rows-Listed k a d = Listed-at k a d (lookup k d) refl

-- Where the frozen context shows a conclusion, beside its list of conclusions.
abbrev pub Shown : FrozenContext → Conclusion → Type 0
Shown f (context_initialization c) = f.initialized ≡ true
Shown f (subcontext_initialization c) = In c.sub_destination_property f.initialized_subcontexts
Shown f (decomposed c) = In c.subsumer f.decomposed_subsumers
Shown f (composed c) = In c.subsumer f.composed_subsumers
Shown f (forward_link c) = Listed c.chain c.target f.forward_links
Shown f (backward_link c) = Listed c.relation c.source f.backward_links
Shown f (propagation c) = Listed c.relation c.carry_existential f.propagations
Shown f (disjoint_subsumer c) = Listed c.disjoint_group c.position f.disjoint_positions
Shown f (class_inconsistency c) = f.inconsistent ≡ true

Filed-Shown : (s : ContextState) (c : Conclusion) → Filed s c ↔ Shown (freeze s) c
unfolding freeze
Filed-Shown s (context_initialization c) = (λ h. h, λ h. h)
Filed-Shown s (subcontext_initialization c) = (λ h. h, λ h. h)
Filed-Shown s (decomposed c) = (λ h. h, λ h. h)
Filed-Shown s (composed c) = (λ h. h, λ h. h)
Filed-Shown s (forward_link c) = rows-Listed _ _ s.forward_links
Filed-Shown s (backward_link c) = rows-Listed _ _ s.backward_links
Filed-Shown s (propagation c) = rows-Listed _ _ s.propagations
Filed-Shown s (disjoint_subsumer c) = rows-Listed _ _ s.disjoint_positions
Filed-Shown s (class_inconsistency c) = (λ h. h, λ h. h)

In-sorted_todo : (c : Conclusion) (cs : List Conclusion) → In c (sorted_todo cs) ↔ In c cs
unfolding sorted_todo
In-sorted_todo c [] = (λ m. m, λ m. m)
In-sorted_todo c (x ∷ xs) = ground (arith, In-add c x (sorted_todo xs), In-sorted_todo c xs)

-- The view of a consistent context lists a conclusion of the context among its conclusions if, and
-- only if, its multimaps, sets and flags show it; and its sorted agenda has the conclusions of the
-- agenda, none of which it lists as stored.
pub freeze-IsConsistent :
    (s : ContextState) (c : Conclusion)
    → IsConsistent s
    → conclusion_destination c ≡ s.root
    → (In c (freeze s).conclusions ↔ Shown (freeze s) c)
      × (In c (freeze s).todo ↔ In c s.todo)
      × (In c (freeze s).todo → ¬ In c (freeze s).conclusions)
unfolding freeze
freeze-IsConsistent s c h e = (
  (λ m. (Filed-Shown s c).0 ((h.filed c e).0 m), λ m. (h.filed c e).1 ((Filed-Shown s c).1 m)),
  In-sorted_todo c s.todo,
  λ m. h.novel c ((In-sorted_todo c s.todo).0 m),
)
