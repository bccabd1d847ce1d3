-- ===== src/Rules/Composition.antt =====
-- The handler of src/pyelk/reasoning/rules.py for a composed subsumer, loop by loop.
use py_elk.Prelude.{
  ℕ, List, [], some, if◌then◌else◌, has, nat_ordered, rows, Result, ok, ◌>>=◌, ◌&◌, for_each,
}
use py_elk.Conclusion.{
  Conclusion, SubClassInclusionComposed, decomposed, composed, propagation, disjoint_subsumer,
  class_inconsistency,
}
use py_elk.Context.{ContextState}
use py_elk.PropertyView.{PropertyView}
use py_elk.Rules.Index.{RuleDispatcher}
use py_elk.Rules.Subsumers.{
  subclass_inclusion_expanded_subclass_of, subclass_inclusion_composed_defined_class,
  subclass_inclusion_expanded_first_equivalent_class,
  subclass_inclusion_expanded_second_equivalent_class,
  subclass_inclusion_composed_object_intersection_of, subclass_inclusion_composed_object_union_of,
}
use py_elk.Rules.Links.{propagation_generated}
use py_elk.Rules.Contradictions.{
  class_inconsistency_of_object_complement_of, disjoint_subsumer_from_subsumer,
}
use py_elk.Rules.Decomposition.{emit}

module _ (d : RuleDispatcher) (s : ContextState) (p : SubClassInclusionComposed) where
  abbrev view : PropertyView
  view = d.properties

  unfoldable pub expand_subclass : ℕ → Result (List Conclusion)
  unfolding subclass_inclusion_expanded_subclass_of
  expand_subclass super =
      ok (emit decomposed (subclass_inclusion_expanded_subclass_of (some p) p.subsumer super))

  unfoldable pub compose_defined : ℕ → Result (List Conclusion)
  unfolding subclass_inclusion_composed_defined_class
  compose_defined defined =
      ok (emit composed (subclass_inclusion_composed_defined_class (some p) p.subsumer defined))

  unfoldable pub expand_first : ℕ → Result (List Conclusion)
  unfolding subclass_inclusion_expanded_first_equivalent_class
  expand_first first = ok (
      emit decomposed
        (subclass_inclusion_expanded_first_equivalent_class (some p) first p.subsumer))

  unfoldable pub expand_second : ℕ → Result (List Conclusion)
  unfolding subclass_inclusion_expanded_second_equivalent_class
  expand_second second = ok (
      emit decomposed
        (subclass_inclusion_expanded_second_equivalent_class (some p) p.subsumer second))

  -- `_produce_intersection`
  unfoldable pub produce_intersection :
      SubClassInclusionComposed
      → SubClassInclusionComposed
      → (first second conjunction : ℕ) → List Conclusion
  unfolding subclass_inclusion_composed_object_intersection_of
  produce_intersection q r first second conjunction = emit composed (
      subclass_inclusion_composed_object_intersection_of (some q) (some r) first second conjunction)

  unfoldable pub join_second : ℕ × ℕ → Result (List Conclusion)
  unfolding produce_intersection
  join_second (second, conjunction) = ok (
      if has second s.composed_subsumers
      then produce_intersection p (record { destination = s.root; subsumer = second }) p.subsumer
          second conjunction
      else [])

  unfoldable pub join_first : ℕ × ℕ → Result (List Conclusion)
  unfolding produce_intersection
  join_first (first, conjunction) = ok (
      if has first s.composed_subsumers
      then produce_intersection (record { destination = s.root; subsumer = first }) p first
          p.subsumer conjunction
      else [])

  unfoldable pub compose_union : ℕ × ℕ → Result (List Conclusion)
  unfolding subclass_inclusion_composed_object_union_of
  compose_union (union, position) = do
    conclusion ← subclass_inclusion_composed_object_union_of (some p) p.subsumer union position
    ok (emit composed conclusion)

  unfoldable pub carry_relation : ℕ → ℕ → List ℕ → ℕ → Result (List Conclusion)
  unfolding propagation_generated
  carry_relation existential carry_chain compatible relation =
      let generate = view.singleton_chain relation >>= (λ relation_chain. ok (
        emit propagation (
          propagation_generated
            (some (record { destination = s.root; sub_destination_property = relation })) (some p)
            (some (record { sub_chain = relation_chain; super_chain = carry_chain })) p.subsumer
            existential relation_chain carry_chain))) in
      if has relation compatible then generate else ok []

  unfoldable pub carry_existential : ℕ × ℕ → Result (List Conclusion)
  carry_existential (existential, carry_property) = do
    carry_chain ← view.singleton_chain carry_property
    compatible ← view.sub_properties carry_chain
    for_each s.initialized_subcontexts (carry_relation existential carry_chain compatible)

  unfoldable pub contradict_complement : ℕ → Result (List Conclusion)
  unfolding class_inconsistency_of_object_complement_of
  contradict_complement complement = ok (
      if has complement s.decomposed_subsumers
      then emit class_inconsistency (
          class_inconsistency_of_object_complement_of (some p)
            (some (record { destination = s.root; subsumer = complement })) p.subsumer complement)
      else [])

  unfoldable pub note_disjoint : ℕ × ℕ → Result (List Conclusion)
  unfolding disjoint_subsumer_from_subsumer
  note_disjoint (group, position) =
      ok (
        emit disjoint_subsumer (disjoint_subsumer_from_subsumer (some p) p.subsumer group position))

  unfoldable pub on_composed_subsumer : Result (List Conclusion)
  on_composed_subsumer =
      for_each (rows p.subsumer d.subclasses) expand_subclass
      & for_each (rows p.subsumer d.equivalences.classes_by_definition) compose_defined
      & for_each (rows p.subsumer d.equivalences.equivalent_first) expand_first
      & for_each (rows p.subsumer d.equivalences.equivalent_second) expand_second
      & for_each (rows p.subsumer d.indexes.intersections_by_first) join_second
      & for_each (rows p.subsumer d.indexes.intersections_by_second) join_first
      & for_each (rows p.subsumer d.indexes.unions_by_disjunct) compose_union
      & for_each (rows p.subsumer d.indexes.existentials_by_filler) carry_existential
      & for_each (rows p.subsumer d.indexes.complements_by_negated) contradict_complement
      & for_each (rows p.subsumer d.disjoint_by_member) note_disjoint
