-- ===== src/Examples/Clash.antt =====
-- An ontology that says that `owl:Thing` is below `owl:Nothing`, and the consistency check of
-- src/pyelk/reasoning/consistency.py after a run over the roots that it demands.
use py_elk.Prelude.{
  ℕ, String, ◌≡◌, ◌↔◌, ◌⊎◌, refl, [], ◌∷◌, ◌++◌, none, true, false, In, ok, add, insert, has,
  discard, for_each, ◌&◌, lookup, items, fold_each, add_to, nat_ordered,
}
use py_elk.Ir.{
  EntityKind, EntityRecord, CompiledOntology, owl_top_object_property_iri,
  owl_bottom_object_property_iri,
}
use py_elk.PropertySaturation.{PropertySaturation}
use py_elk.Conclusion.{inconsistent_at, conclusion_destination, conclusion_key}
use py_elk.Context.{
  enqueue, enqueue_owned, new_context, contains, file, insert_owned, insert as insert_conclusion,
}
use py_elk.Rules.LinkHandlers.{dispatch, dispatch_family, on_class_inconsistency}
use py_elk.Rules.Decomposition.{
  on_context_initialization, on_decomposed_subsumer, decompose_expression, decompose_by_tag,
  contradict_nothing,
}
use py_elk.Rules.Composition.{on_composed_subsumer, join_second, expand_subclass}
use py_elk.Rules.Index.{RuleDispatcher, rule_dispatcher, index_by_tag}
use py_elk.Saturation.Engine.{Engine, new_engine}
use py_elk.Saturation.Schedule.{run}
use py_elk.Saturation.Derives.{Derives, run-Derives}
use py_elk.Saturation.Closure.{Stored}
use py_elk.Consistency.{
  ConsistencyState, inconsistent, consistency_roots, evaluate_consistency, TopInBottom,
}
use py_elk.Consistency.Derives.{evaluate_consistency-Derives}
use py_elk.Examples.{ontology, no_properties, no_properties-IsSymmetric, dispatcher, occurrence}
use py_elk.Examples.Runs.{never}

abbrev property : String → EntityRecord
property iri = record { kind = EntityKind.object_property; iri = iri }

abbrev pub clashing : CompiledOntology
clashing = record ontology {
  entities =
      ontology.entities
      ++ property owl_top_object_property_iri ∷ property owl_bottom_object_property_iri ∷ [];
  subclass_axioms = (1, 0) ∷ [];
  expression_occurrences =
      occurrence 0 1
      ∷ occurrence 1 0
      ∷ occurrence 0 0
      ∷ occurrence 0 0
      ∷ occurrence 0 0
      ∷ occurrence 0 0
      ∷ [];
}

abbrev clashing_dispatcher : RuleDispatcher
clashing_dispatcher = record dispatcher {
  compiled = clashing;
  introduce_thing = true;
  decompose_nothing = true;
  subclasses = (1, 0 ∷ []) ∷ [];
  indexes = record dispatcher.indexes { intersections_by_first = []; intersections_by_second = [] };
}

clashing_made : rule_dispatcher clashing no_properties ≡ ok clashing_dispatcher
unfolding rule_dispatcher fold_each add_to add insert lookup index_by_tag
clashing_made = refl

abbrev pub two_properties : PropertySaturation
two_properties = record {
  chains =
      record { first_property = 5; suffix_chain = none }
      ∷ record { first_property = 6; suffix_chain = none }
      ∷ [];
  compiled_chain_ids = 0 ∷ 1 ∷ [];
  subchains_by_super = (0 ∷ []) ∷ (1 ∷ []) ∷ [];
  superchains_by_sub = (0 ∷ []) ∷ (1 ∷ []) ∷ [];
  ranges_by_property = [];
  non_redundant_by_left = [];
  redundant_by_left = [];
  non_redundant_by_right = [];
  redundant_by_right = [];
  singleton_chains = (5, 0) ∷ (6, 1) ∷ [];
  chain_ids_by_key = λ p s. none;
}

abbrev clashed : Engine
clashed = (run clashing_dispatcher none never 12 (1 ∷ []) new_engine).1

clashed-run : run clashing_dispatcher none never 12 (1 ∷ []) new_engine ≡ (ok tt, clashed)
unfolding run add lookup enqueue conclusion_destination new_context has insert insert_conclusion
    dispatch contains conclusion_key dispatch_family on_context_initialization discard
    on_decomposed_subsumer ◌&◌ for_each on_composed_subsumer file insert_owned enqueue_owned
    decompose_expression decompose_by_tag contradict_nothing join_second expand_subclass
    on_class_inconsistency items
clashed-run = refl

clashing_roots : consistency_roots clashing ≡ ok (1 ∷ [])
unfolding consistency_roots
clashing_roots = refl

abbrev decided : ConsistencyState
decided = record {
  owl_thing_root = 1;
  individual_roots = [];
  owl_thing_inconsistent = true;
  inconsistent_individuals = [];
  top_object_property_in_bottom = false;
}

clashed-decided : evaluate_consistency clashing two_properties clashed.contexts ≡ ok decided
unfolding evaluate_consistency run add lookup enqueue conclusion_destination new_context has insert
    insert_conclusion dispatch contains conclusion_key dispatch_family on_context_initialization
    discard on_decomposed_subsumer ◌&◌ for_each on_composed_subsumer file insert_owned enqueue_owned
    decompose_expression decompose_by_tag contradict_nothing join_second expand_subclass
    on_class_inconsistency items
clashed-decided = refl

run-Derives_example :
    Stored clashed (inconsistent_at 1)
    ↔ Derives clashing no_properties 1 0 (1 ∷ []) (inconsistent_at 1)
run-Derives_example =
    run-Derives clashing no_properties clashing_dispatcher none never 12 (1 ∷ []) clashed
      (inconsistent_at 1) clashing_made no_properties-IsSymmetric clashed-run

evaluate_consistency-Derives_example : (inconsistent decided ≡ true) ↔ (
    ((r : ℕ) × In r (1 ∷ []) × Derives clashing no_properties 1 0 (1 ∷ []) (inconsistent_at r))
    ⊎ TopInBottom clashing two_properties)
evaluate_consistency-Derives_example =
    evaluate_consistency-Derives clashing no_properties two_properties clashing_dispatcher none
      never 12 (1 ∷ []) clashed decided clashing_made no_properties-IsSymmetric clashing_roots
      clashed-run clashed-decided
