-- ===== src/Rules/LinkHandlers.antt =====
-- The handlers of src/pyelk/reasoning/rules.py for links, propagations, disjoint positions and
-- contradictions, and the dispatch by family.
use py_elk.Prelude.{
  ℕ, List, [], ◌∷◌, Bool, true, false, some, ◌==◌, if◌then◌else◌, get_elem?, items, rows, Result,
  ok, err, index_error, value_error, assertion_error, or_raise, ◌>>=◌, ◌&◌, for_each,
}
use py_elk.Conclusion.{
  Conclusion, ForwardLink, BackwardLink, Propagation, DisjointSubsumer, ClassInconsistency,
  context_initialization, subcontext_initialization, decomposed, composed, forward_link,
  backward_link, propagation, disjoint_subsumer, class_inconsistency,
}
use py_elk.Context.{ContextState, contains}
use py_elk.PropertyView.{PropertyView, is_singleton}
use py_elk.Rules.Index.{RuleDispatcher}
use py_elk.Rules.Subsumers.{
  subcontext_initialization_no_premises, subclass_inclusion_composed_object_some_values_from,
}
use py_elk.Rules.Links.{
  forward_link_composition, backward_link_composition, backward_link_reversed_expanded,
}
use py_elk.Rules.Contradictions.{
  class_inconsistency_of_disjoint_subsumers, class_inconsistency_propagated,
}
use py_elk.Rules.Decomposition.{
  emit, is_nonempty, on_context_initialization, on_subcontext_initialization,
  on_decomposed_subsumer,
}
use py_elk.Rules.Composition.{on_composed_subsumer}

module _ (d : RuleDispatcher) where
  abbrev view : PropertyView
  view = d.properties

  -- `_chain_is_extendable`
  unfoldable pub chain_is_extendable : ℕ → Result Bool
  chain_is_extendable chain = do
    plain ← view.compositions_by_left chain false
    let redundant = view.compositions_by_left chain true >>= (λ more. ok (is_nonempty more))
    if is_nonempty plain then ok true else redundant

  unfoldable pub expand_told :
      BackwardLink → ForwardLink → ℕ → ℕ → ℕ → ℕ → ℕ → Result (List Conclusion)
  unfolding backward_link_composition
  expand_told b f result_chain backward_chain first_chain suffix super_property = do
    super_chain ← view.singleton_chain super_property
    ok (
        emit backward_link (
          backward_link_composition (some b)
            (some (record { sub_chain = backward_chain; super_chain = first_chain })) (some f)
            (some (record { sub_chain = f.chain; super_chain = suffix }))
            (some (record { sub_chain = result_chain; super_chain = super_chain })) result_chain
            super_property backward_chain first_chain suffix super_chain))

  -- The two ways on from a composition, once the chain is known to be extendable or not.
  unfoldable pub conclude_composition :
      BackwardLink → ForwardLink → ℕ → ℕ → ℕ → ℕ → Bool → Result (List Conclusion)
  unfolding forward_link_composition
  conclude_composition b f result_chain backward_chain first_chain suffix true = ok (
      emit forward_link (
        forward_link_composition (some b)
          (some (record { sub_chain = backward_chain; super_chain = first_chain })) (some f)
          (some (record { sub_chain = f.chain; super_chain = suffix })) result_chain backward_chain
          first_chain suffix))
  conclude_composition b f result_chain backward_chain first_chain suffix false =
      for_each (rows result_chain d.told_super_properties)
        (expand_told b f result_chain backward_chain first_chain suffix)

  -- `_produce_link_composition`
  unfoldable pub produce_link_composition :
      BackwardLink → ForwardLink → ℕ → Result (List Conclusion)
  produce_link_composition b f result_chain = do
    result ← or_raise index_error (get_elem? view.chains result_chain)
    suffix ← or_raise assertion_error result.suffix_chain
    backward_chain ← view.singleton_chain b.relation
    first_chain ← view.singleton_chain result.first_property
    extendable ← chain_is_extendable result_chain
    conclude_composition b f result_chain backward_chain first_chain suffix extendable

  unfoldable pub reverse_told : ForwardLink → ℕ → Result (List Conclusion)
  unfolding backward_link_reversed_expanded
  reverse_told p super_property = do
    super_chain ← view.singleton_chain super_property
    ok (
        emit backward_link (
          backward_link_reversed_expanded (some p)
            (some (record { sub_chain = p.chain; super_chain = super_chain })) super_property
            super_chain))

  unfoldable pub compose_source :
      ContextState → ForwardLink → ℕ → List ℕ → ℕ → Result (List Conclusion)
  compose_source s p relation result_chains source = for_each result_chains (
      produce_link_composition
        (record { destination = s.root; relation = relation; source = source }) p)

  unfoldable pub compose_relation :
      ContextState → ForwardLink → ℕ × List ℕ → Result (List Conclusion)
  compose_relation s p (relation, result_chains) =
      for_each (rows relation s.backward_links) (compose_source s p relation result_chains)

  unfoldable pub on_forward_link : ContextState → ForwardLink → Result (List Conclusion)
  unfolding is_singleton
  on_forward_link s p = do
    chain ← or_raise index_error (get_elem? view.chains p.chain)
    let reversed = for_each (rows p.chain d.told_super_properties) (reverse_told p)
    let composed_links =
        view.compositions_by_left p.chain false
        >>= (λ compositions. for_each (items compositions) (compose_relation s p))
    (if is_singleton chain then ok [] else reversed) & composed_links

  unfoldable pub carry_back : ContextState → BackwardLink → ℕ → Result (List Conclusion)
  unfolding subclass_inclusion_composed_object_some_values_from
  carry_back s p carry = ok (
      emit composed (
        subclass_inclusion_composed_object_some_values_from (some p) (
          some
            (record { destination = s.root; relation = p.relation; carry_existential = carry }))))

  unfoldable pub attach_range : ContextState → ℕ → Result (List Conclusion)
  attach_range s range_expression =
      ok (decomposed (record { destination = s.root; subsumer = range_expression }) ∷ [])

  unfoldable pub compose_target :
      ContextState → BackwardLink → ℕ → List ℕ → ℕ → Result (List Conclusion)
  compose_target s p right_chain result_chains target = for_each result_chains (
      produce_link_composition p
        (record { destination = s.root; chain = right_chain; target = target }))

  unfoldable pub compose_right : ContextState → BackwardLink → ℕ × List ℕ → Result (List Conclusion)
  compose_right s p (right_chain, result_chains) =
      for_each (rows right_chain s.forward_links) (compose_target s p right_chain result_chains)

  unfoldable pub on_backward_link : ContextState → BackwardLink → Result (List Conclusion)
  unfolding subcontext_initialization_no_premises class_inconsistency_propagated
  on_backward_link s p =
      ok (subcontext_initialization (subcontext_initialization_no_premises s.root p.relation) ∷ [])
      & for_each (rows p.relation s.propagations) (carry_back s p)
      & ok (
          if s.inconsistent
          then emit class_inconsistency
              (class_inconsistency_propagated (some p) (some (record { destination = s.root })))
          else [])
      & for_each (view.ranges p.relation) (attach_range s)
      & for_each (items (view.compositions_by_right p.relation false)) (compose_right s p)

unfoldable pub carry_source : ContextState → Propagation → ℕ → Result (List Conclusion)
unfolding subclass_inclusion_composed_object_some_values_from
carry_source s p source = ok (
    emit composed (
      subclass_inclusion_composed_object_some_values_from
        (some (record { destination = s.root; relation = p.relation; source = source })) (some p)))

unfoldable pub on_propagation : ContextState → Propagation → Result (List Conclusion)
on_propagation s p = for_each (rows p.relation s.backward_links) (carry_source s p)

unfoldable pub contradict_position : ContextState → DisjointSubsumer → ℕ → Result (List Conclusion)
unfolding class_inconsistency_of_disjoint_subsumers
contradict_position s p position = ok (
    if position == p.position
    then []
    else emit class_inconsistency (
        class_inconsistency_of_disjoint_subsumers (some p) (
          some (record {
            destination = s.root;
            disjoint_group = p.disjoint_group;
            position = position;
          }))))

unfoldable pub on_disjoint_subsumer : ContextState → DisjointSubsumer → Result (List Conclusion)
on_disjoint_subsumer s p =
    for_each (rows p.disjoint_group s.disjoint_positions) (contradict_position s p)

unfoldable pub contradict_source :
    ContextState → ClassInconsistency → ℕ → ℕ → Result (List Conclusion)
unfolding class_inconsistency_propagated
contradict_source s p relation source = ok (
    emit class_inconsistency (
      class_inconsistency_propagated
        (some (record { destination = s.root; relation = relation; source = source })) (some p)))

unfoldable pub contradict_sources :
    ContextState → ClassInconsistency → ℕ × List ℕ → Result (List Conclusion)
contradict_sources s p (relation, sources) = for_each sources (contradict_source s p relation)

unfoldable pub on_class_inconsistency : ContextState → ClassInconsistency → Result (List Conclusion)
on_class_inconsistency s p = for_each (items s.backward_links) (contradict_sources s p)

-- The handler of the premise's family.
unfoldable pub dispatch_family :
    RuleDispatcher → ContextState → Conclusion → Result (List Conclusion)
dispatch_family d s (context_initialization p) = on_context_initialization d p
dispatch_family d s (subcontext_initialization p) = on_subcontext_initialization d s p
dispatch_family d s (decomposed p) = on_decomposed_subsumer d s p
dispatch_family d s (composed p) = on_composed_subsumer d s p
dispatch_family d s (forward_link p) = on_forward_link d s p
dispatch_family d s (backward_link p) = on_backward_link d s p
dispatch_family d s (propagation p) = on_propagation s p
dispatch_family d s (disjoint_subsumer p) = on_disjoint_subsumer s p
dispatch_family d s (class_inconsistency p) = on_class_inconsistency s p

-- `dispatch`
unfoldable pub dispatch : RuleDispatcher → ContextState → Conclusion → Result (List Conclusion)
dispatch d s premise = do
  present ← contains premise s
  if present then dispatch_family d s premise else err value_error
