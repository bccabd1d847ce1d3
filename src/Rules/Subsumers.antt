-- ===== src/Rules/Subsumers.antt =====
-- The inferences of src/pyelk/reasoning/rules.py that conclude a class inclusion. An absent
-- premise is `none`, and so is the result of a premise that does not fit.
use py_elk.Prelude.{
  ℕ, Option, none, some, ◌==◌, ltb, ◌&&◌, if◌then◌else◌, Result, ok, err, value_error, ◌>>=◌,
}
use py_elk.Ir.{u32_reserved}
use py_elk.Conclusion.{
  ContextInitialization, SubContextInitialization, SubClassInclusionDecomposed,
  SubClassInclusionComposed, BackwardLink, Propagation,
}
use py_elk.PropertyView.{PropertyRange}

unfoldable pub context_initialization_no_premises : ℕ → ContextInitialization
context_initialization_no_premises r = record { root = r }

unfoldable pub subcontext_initialization_no_premises : ℕ → ℕ → SubContextInitialization
subcontext_initialization_no_premises d relation = record {
  destination = d;
  sub_destination_property = relation;
}

unfoldable pub subclass_inclusion_tautology :
    Option ContextInitialization → Option SubClassInclusionDecomposed
subclass_inclusion_tautology none = none
subclass_inclusion_tautology (some p) = some (record { destination = p.root; subsumer = p.root })

unfoldable pub subclass_inclusion_owl_thing :
    Option ContextInitialization → ℕ → Option SubClassInclusionComposed
subclass_inclusion_owl_thing none owl_thing = none
subclass_inclusion_owl_thing (some p) owl_thing =
    some (record { destination = p.root; subsumer = owl_thing })

unfoldable pub subclass_inclusion_expanded_subclass_of :
    Option SubClassInclusionComposed → ℕ → ℕ → Option SubClassInclusionDecomposed
subclass_inclusion_expanded_subclass_of none sub_expression super_expression = none
subclass_inclusion_expanded_subclass_of (some p) sub_expression super_expression =
    if p.subsumer == sub_expression
    then some (record { destination = p.destination; subsumer = super_expression })
    else none

unfoldable pub subclass_inclusion_expanded_definition :
    Option SubClassInclusionDecomposed → ℕ → ℕ → Option SubClassInclusionDecomposed
subclass_inclusion_expanded_definition none defined_class definition = none
subclass_inclusion_expanded_definition (some p) defined_class definition =
    if p.subsumer == defined_class
    then some (record { destination = p.destination; subsumer = definition })
    else none

unfoldable pub subclass_inclusion_expanded_first_equivalent_class :
    Option SubClassInclusionComposed → ℕ → ℕ → Option SubClassInclusionDecomposed
subclass_inclusion_expanded_first_equivalent_class none first second = none
subclass_inclusion_expanded_first_equivalent_class (some p) first second =
    if p.subsumer == second
    then some (record { destination = p.destination; subsumer = first })
    else none

unfoldable pub subclass_inclusion_expanded_second_equivalent_class :
    Option SubClassInclusionComposed → ℕ → ℕ → Option SubClassInclusionDecomposed
subclass_inclusion_expanded_second_equivalent_class none first second = none
subclass_inclusion_expanded_second_equivalent_class (some p) first second =
    if p.subsumer == first
    then some (record { destination = p.destination; subsumer = second })
    else none

unfoldable pub subclass_inclusion_composed_defined_class :
    Option SubClassInclusionComposed → ℕ → ℕ → Option SubClassInclusionComposed
subclass_inclusion_composed_defined_class none definition defined_class = none
subclass_inclusion_composed_defined_class (some p) definition defined_class =
    if p.subsumer == definition
    then some (record { destination = p.destination; subsumer = defined_class })
    else none

unfoldable pub subclass_inclusion_composed_of_decomposed :
    Option SubClassInclusionDecomposed → Option SubClassInclusionComposed
subclass_inclusion_composed_of_decomposed none = none
subclass_inclusion_composed_of_decomposed (some p) =
    some (record { destination = p.destination; subsumer = p.subsumer })

unfoldable pub subclass_inclusion_decomposed_first_conjunct :
    Option SubClassInclusionDecomposed → ℕ → ℕ → Option SubClassInclusionDecomposed
subclass_inclusion_decomposed_first_conjunct none conjunction first_conjunct = none
subclass_inclusion_decomposed_first_conjunct (some p) conjunction first_conjunct =
    if p.subsumer == conjunction
    then some (record { destination = p.destination; subsumer = first_conjunct })
    else none

unfoldable pub subclass_inclusion_decomposed_second_conjunct :
    Option SubClassInclusionDecomposed → ℕ → ℕ → Option SubClassInclusionDecomposed
subclass_inclusion_decomposed_second_conjunct none conjunction second_conjunct = none
subclass_inclusion_decomposed_second_conjunct (some p) conjunction second_conjunct =
    if p.subsumer == conjunction
    then some (record { destination = p.destination; subsumer = second_conjunct })
    else none

unfoldable pub subclass_inclusion_composed_object_intersection_of :
    Option SubClassInclusionComposed
    → Option SubClassInclusionComposed
    → ℕ
    → ℕ
    → ℕ
    → Option SubClassInclusionComposed
subclass_inclusion_composed_object_intersection_of none q first second conjunction = none
subclass_inclusion_composed_object_intersection_of (some p) none first second conjunction = none
subclass_inclusion_composed_object_intersection_of (some p) (some q) first second conjunction =
    if p.destination == q.destination && (p.subsumer == first && q.subsumer == second)
    then some (record { destination = p.destination; subsumer = conjunction })
    else none

-- `_checked_position`
unfoldable pub checked_position : ℕ → Result ℕ
checked_position position = if ltb position u32_reserved then ok position else err value_error

unfoldable pub subclass_inclusion_composed_object_union_of :
    Option SubClassInclusionComposed → ℕ → ℕ → ℕ → Result (Option SubClassInclusionComposed)
unfolding checked_position
subclass_inclusion_composed_object_union_of none disjunct union position = do
  checked ← checked_position position
  ok none
subclass_inclusion_composed_object_union_of (some p) disjunct union position = do
  checked ← checked_position position
  ok (
      if p.subsumer == disjunct
      then some (record { destination = p.destination; subsumer = union })
      else none)

unfoldable pub subclass_inclusion_composed_object_some_values_from :
    Option BackwardLink → Option Propagation → Option SubClassInclusionComposed
subclass_inclusion_composed_object_some_values_from none q = none
subclass_inclusion_composed_object_some_values_from (some b) none = none
subclass_inclusion_composed_object_some_values_from (some b) (some q) =
    if b.destination == q.destination && b.relation == q.relation
    then some (record { destination = b.source; subsumer = q.carry_existential })
    else none

unfoldable pub subclass_inclusion_range :
    Option ContextInitialization → Option PropertyRange → Option SubClassInclusionDecomposed
subclass_inclusion_range none r = none
subclass_inclusion_range (some p) none = none
subclass_inclusion_range (some p) (some r) =
    some (record { destination = p.root; subsumer = r.range })

unfoldable pub subclass_inclusion_object_has_self_property_range :
    Option SubClassInclusionDecomposed
    → Option PropertyRange
    → ℕ
    → ℕ
    → Option SubClassInclusionDecomposed
subclass_inclusion_object_has_self_property_range none r has_self relation = none
subclass_inclusion_object_has_self_property_range (some p) none has_self relation = none
subclass_inclusion_object_has_self_property_range (some p) (some r) has_self relation =
    if p.subsumer == has_self && r.property == relation
    then some (record { destination = p.destination; subsumer = r.range })
    else none
