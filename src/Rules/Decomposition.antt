-- ===== src/Rules/Decomposition.antt =====
-- The handlers of src/pyelk/reasoning/rules.py for a context initialization, a subcontext
-- initialization and a decomposed subsumer. A handler gives the list that it hands to
-- `producer.produce`, in that order, or the exception that it raises.
use py_elk.Prelude.{
  ℕ, List, [], ◌∷◌, ◌++◌, Bool, true, false, Option, none, some, ◌==◌, ltb, ◌&&◌, if◌then◌else◌,
  get_elem?, has, nat_ordered, rows, Result, ok, err, index_error, or_raise, ◌>>=◌, ◌&◌, for_each,
}
use py_elk.Ir.{ExpressionTag, ExpressionOccurrence}
use py_elk.Conclusion.{
  Conclusion, ContextInitialization, SubContextInitialization, SubClassInclusionDecomposed,
  decomposed, composed, forward_link, backward_link, propagation, class_inconsistency,
}
use py_elk.Context.{ContextState}
use py_elk.PropertyView.{PropertyView}
use py_elk.Rules.Index.{RuleDispatcher}
use py_elk.Rules.Subsumers.{
  subclass_inclusion_tautology, subclass_inclusion_owl_thing,
  subclass_inclusion_composed_of_decomposed, subclass_inclusion_expanded_definition,
  subclass_inclusion_decomposed_first_conjunct, subclass_inclusion_decomposed_second_conjunct,
  subclass_inclusion_object_has_self_property_range,
}
use py_elk.Rules.Links.{
  backward_link_of_object_some_values_from, forward_link_of_object_some_values_from,
  backward_link_of_object_has_self, forward_link_of_object_has_self, propagation_generated,
}
use py_elk.Rules.Contradictions.{
  class_inconsistency_of_object_complement_of, class_inconsistency_of_owl_nothing,
}

-- `if conclusion is not None: producer.produce(conclusion)`
abbrev pub emit : {A : Type 0} → (A → Conclusion) → Option A → List Conclusion
emit wrap none = []
emit wrap (some a) = wrap a ∷ []

-- The truth value of a mapping or tuple.
abbrev pub is_nonempty : {A : Type 0} → List A → Bool
is_nonempty [] = false
is_nonempty (_ ∷ _) = true

module _ (d : RuleDispatcher) where
  abbrev view : PropertyView
  view = d.properties

  unfoldable pub on_context_initialization : ContextInitialization → Result (List Conclusion)
  unfolding subclass_inclusion_tautology subclass_inclusion_owl_thing
  on_context_initialization p = ok (
      emit decomposed (subclass_inclusion_tautology (some p))
      ++ (if d.introduce_thing
          then emit composed (subclass_inclusion_owl_thing (some p) d.owl_thing)
          else []))

  -- The body of the inner loop of `_on_subcontext_initialization`.
  unfoldable pub carry_at :
      ContextState → SubContextInitialization → ℕ → ℕ → ℕ × ℕ → Result (List Conclusion)
  unfolding propagation_generated
  carry_at s p relation_chain filler (existential, carry_property) = do
    carry_chain ← view.singleton_chain carry_property
    subs ← view.sub_properties carry_chain
    ok (
        if has p.sub_destination_property subs
        then emit propagation (
            propagation_generated (some p)
              (some (record { destination = s.root; subsumer = filler }))
              (some (record { sub_chain = relation_chain; super_chain = carry_chain })) filler
              existential relation_chain carry_chain)
        else [])

  unfoldable pub carry_filler :
      ContextState → SubContextInitialization → ℕ → ℕ → Result (List Conclusion)
  carry_filler s p relation_chain filler =
      for_each (rows filler d.indexes.existentials_by_filler) (carry_at s p relation_chain filler)

  unfoldable pub on_subcontext_initialization :
      ContextState → SubContextInitialization → Result (List Conclusion)
  on_subcontext_initialization s p = do
    relation_chain ← view.singleton_chain p.sub_destination_property
    for_each s.composed_subsumers (carry_filler s p relation_chain)

  unfoldable pub expand_definition : SubClassInclusionDecomposed → ℕ → Result (List Conclusion)
  unfolding subclass_inclusion_expanded_definition
  expand_definition p definition =
      ok (emit decomposed (subclass_inclusion_expanded_definition (some p) p.subsumer definition))

  unfoldable pub decompose_intersection :
      SubClassInclusionDecomposed → List ℕ → Result (List Conclusion)
  unfolding subclass_inclusion_decomposed_first_conjunct
      subclass_inclusion_decomposed_second_conjunct
  decompose_intersection p (a ∷ b ∷ _) = ok (
      emit decomposed (subclass_inclusion_decomposed_first_conjunct (some p) p.subsumer a)
      ++ emit decomposed (subclass_inclusion_decomposed_second_conjunct (some p) p.subsumer b))
  decompose_intersection p _ = err index_error

  unfoldable pub decompose_some_values :
      SubClassInclusionDecomposed → List ℕ → Result (List Conclusion)
  unfolding backward_link_of_object_some_values_from forward_link_of_object_some_values_from
  decompose_some_values p (relation ∷ target ∷ _) = do
    relation_chain ← view.singleton_chain relation
    compositions ← view.compositions_by_left relation_chain false
    ok (
        emit backward_link
          (backward_link_of_object_some_values_from (some p) p.subsumer relation target)
        ++ (if is_nonempty compositions
            then emit forward_link
                (forward_link_of_object_some_values_from (some p) p.subsumer relation_chain target)
            else []))
  decompose_some_values p _ = err index_error

  unfoldable pub has_self_range_at : SubClassInclusionDecomposed → ℕ → ℕ → Result (List Conclusion)
  unfolding subclass_inclusion_object_has_self_property_range
  has_self_range_at p relation range_expression = ok (
      emit decomposed (
        subclass_inclusion_object_has_self_property_range (some p)
          (some (record { property = relation; range = range_expression })) p.subsumer relation))

  unfoldable pub decompose_has_self :
      SubClassInclusionDecomposed → List ℕ → Result (List Conclusion)
  unfolding backward_link_of_object_has_self forward_link_of_object_has_self
  decompose_has_self p (relation ∷ _) = do
    relation_chain ← view.singleton_chain relation
    compositions ← view.compositions_by_left relation_chain false
    ok (
          emit backward_link (backward_link_of_object_has_self (some p) p.subsumer relation)
          ++ (if is_nonempty compositions
              then emit forward_link
                  (forward_link_of_object_has_self (some p) p.subsumer relation_chain)
              else []))
        & for_each (view.ranges relation) (has_self_range_at p relation)
  decompose_has_self p [] = err index_error

  unfoldable pub contradict_negated :
      ContextState → SubClassInclusionDecomposed → ℕ → Result (List Conclusion)
  unfolding class_inconsistency_of_object_complement_of
  contradict_negated s p negated = ok (
      if has negated s.composed_subsumers
      then emit class_inconsistency (
          class_inconsistency_of_object_complement_of
            (some (record { destination = s.root; subsumer = negated })) (some p) negated
            p.subsumer)
      else [])

  -- The branches by the tag of the subsumer.
  unfoldable pub decompose_by_tag :
      ExpressionTag
      → ContextState
      → SubClassInclusionDecomposed
      → List ℕ
      → ExpressionOccurrence
      → Result (List Conclusion)
  decompose_by_tag ExpressionTag.object_intersection_of s p arguments o =
      if ltb 0 o.positive then decompose_intersection p arguments else ok []
  decompose_by_tag ExpressionTag.object_some_values_from s p arguments o =
      if ltb 0 o.positive then decompose_some_values p arguments else ok []
  decompose_by_tag ExpressionTag.object_has_self s p arguments o =
      if ltb 0 o.positive then decompose_has_self p arguments else ok []
  decompose_by_tag ExpressionTag.object_complement_of s p arguments o =
      if ltb 0 o.positive
      then for_each (rows p.subsumer d.indexes.positive_complements) (contradict_negated s p)
      else ok []
  decompose_by_tag _ s p arguments o = ok []

  unfoldable pub contradict_nothing : SubClassInclusionDecomposed → Result (List Conclusion)
  unfolding class_inconsistency_of_owl_nothing
  contradict_nothing p = ok (
      if d.decompose_nothing && p.subsumer == d.owl_nothing
      then emit class_inconsistency (class_inconsistency_of_owl_nothing (some p) d.owl_nothing)
      else [])

  -- What follows the test that the subsumer is an expression of the ontology.
  unfoldable pub decompose_expression :
      ContextState → SubClassInclusionDecomposed → Result (List Conclusion)
  decompose_expression s p = elim (get_elem? d.compiled.expressions p.subsumer) [
    | none ↦ ok []
    | some r ↦
        or_raise index_error (get_elem? d.compiled.expression_occurrences p.subsumer)
        >>= (λ o. decompose_by_tag r.tag s p r.arguments o & contradict_nothing p)
  ]

  unfoldable pub on_decomposed_subsumer :
      ContextState → SubClassInclusionDecomposed → Result (List Conclusion)
  unfolding subclass_inclusion_composed_of_decomposed
  on_decomposed_subsumer s p =
      ok (emit composed (subclass_inclusion_composed_of_decomposed (some p)))
      & for_each (rows p.subsumer d.equivalences.definitions_by_class) (expand_definition p)
      & decompose_expression s p
