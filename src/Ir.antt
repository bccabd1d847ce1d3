-- ===== src/Ir.antt =====
-- src/pyelk/indexing/ir.py: the frozen records of a compiled ontology that class saturation reads.
use py_elk.Prelude.{ℕ, String, ◌-◌, ◌^◌, List, Bool, true, false}

abbrev pub u32_reserved : ℕ
u32_reserved = 2 ^ 32 - 1

abbrev pub owl_nothing_iri : String
owl_nothing_iri = "http://www.w3.org/2002/07/owl#Nothing"

abbrev pub owl_thing_iri : String
owl_thing_iri = "http://www.w3.org/2002/07/owl#Thing"

abbrev pub owl_bottom_object_property_iri : String
owl_bottom_object_property_iri = "http://www.w3.org/2002/07/owl#bottomObjectProperty"

abbrev pub owl_top_object_property_iri : String
owl_top_object_property_iri = "http://www.w3.org/2002/07/owl#topObjectProperty"

pub data EntityKind : Type 0 where
  class named_individual object_property data_property datatype annotation_property : EntityKind

pub data ExpressionTag : Type 0 where
  class individual object_intersection_of object_some_values_from : ExpressionTag
  object_has_self data_has_value object_complement_of object_union_of : ExpressionTag

pub record EntityRecord : Type 0 where
  pub kind : EntityKind
  pub iri : String

-- A literal's payload is its list of bytes.
pub record ExpressionRecord : Type 0 where
  pub tag : ExpressionTag
  pub arguments : List ℕ
  pub payload : List ℕ

pub record ExpressionOccurrence : Type 0 where
  pub negative : ℕ
  pub positive : ℕ

pub record CompiledOntology : Type 0 where
  pub entities : List EntityRecord
  pub expressions : List ExpressionRecord
  pub expression_occurrences : List ExpressionOccurrence
  pub property_chains : List (List ℕ)
  pub subclass_axioms : List (ℕ × ℕ)
  pub equivalent_class_axioms : List (ℕ × ℕ)
  pub disjoint_groups : List (List ℕ)
  pub subproperty_axioms : List (ℕ × ℕ)
  pub property_ranges : List (ℕ × ℕ)

unfoldable pub same_kind : EntityKind → EntityKind → Bool
same_kind class class = true
same_kind named_individual named_individual = true
same_kind object_property object_property = true
same_kind data_property data_property = true
same_kind datatype datatype = true
same_kind annotation_property annotation_property = true
same_kind _ _ = false

abbrev pub is_class : ExpressionTag → Bool
is_class ExpressionTag.class = true
is_class _ = false
