-- ===== src/Consistency.antt =====
-- Ontology consistency over the saturated contexts (src/pyelk/reasoning/consistency.py). The mapping
-- of contexts is the one that the scheduler keeps.
pub mod Decides
pub mod Roots
pub mod Derives
use py_elk.Prelude.{
  In, ℕ, String, ◌≡◌, List, [], ◌∷◌, Option, none, some, Bool, true, false, ◌&&◌, ◌||◌, Dict,
  lookup, get_elem?, enumerate, add, has, nat_ordered, fold_each, for_each, Result, ok, err,
  or_raise, ◌>>=◌, stop_iteration, index_error, ltb, if◌then◌else◌,
}
use py_elk.Ir.{
  EntityKind, ExpressionTag, ExpressionRecord, CompiledOntology, owl_thing_iri,
  owl_top_object_property_iri, owl_bottom_object_property_iri, is_class,
}
use py_elk.Context.{ContextState}
use py_elk.PropertySaturation.{PropertySaturation, singleton_chain, super_chains}
use py_elk.Rules.Index.{find_index, is_named, is_only}

pub record ConsistencyState : Type 0 where
  pub owl_thing_root : ℕ
  pub individual_roots : List ℕ
  pub owl_thing_inconsistent : Bool
  pub inconsistent_individuals : List ℕ
  pub top_object_property_in_bottom : Bool

-- `bool(values)`
abbrev pub any_there : List ℕ → Bool
any_there [] = false
any_there (_ ∷ _) = true

-- The property `inconsistent`.
unfoldable pub inconsistent : ConsistencyState → Bool
inconsistent s =
    s.owl_thing_inconsistent
    || any_there s.inconsistent_individuals
    || s.top_object_property_in_bottom

abbrev pub is_individual : ExpressionTag → Bool
is_individual ExpressionTag.individual = true
is_individual _ = false

-- `_named_entity`
unfoldable pub named_entity : CompiledOntology → EntityKind → String → Result ℕ
unfolding find_index is_named
named_entity c kind iri = or_raise stop_iteration (find_index (is_named kind iri) 0 c.entities)

-- `expected_tag` of `_named_expression`
abbrev pub has_expected_tag : EntityKind → ExpressionTag → Bool
has_expected_tag EntityKind.class tag = is_class tag
has_expected_tag _ tag = is_individual tag

-- `_named_expression`
unfoldable pub named_expression : CompiledOntology → EntityKind → String → Result ℕ
unfolding named_entity find_index
named_expression c kind iri = do
  entity ← named_entity c kind iri
  or_raise stop_iteration (
      find_index
        (λ (r : ExpressionRecord). has_expected_tag kind r.tag && is_only entity r.arguments) 0
        c.expressions)

unfoldable pub owl_thing_root : CompiledOntology → Result ℕ
unfolding named_expression
owl_thing_root c = named_expression c EntityKind.class owl_thing_iri

-- The body of the generator of `occurring_individual_roots`.
unfoldable pub occurring : CompiledOntology → ℕ × ExpressionRecord → Result (List ℕ)
occurring c (index, record_) =
    if is_individual record_.tag
    then (do
      o ← or_raise index_error (get_elem? c.expression_occurrences index)
      ok (if ltb 0 o.negative || ltb 0 o.positive then index ∷ [] else []))
    else ok []

unfoldable pub occurring_individual_roots : CompiledOntology → Result (List ℕ)
unfolding occurring for_each
occurring_individual_roots c = for_each (enumerate 0 c.expressions) (occurring c)

-- A Python set of ids, sorted.
unfoldable pub sorted_set : List ℕ → List ℕ
unfolding add
sorted_set [] = []
sorted_set (x ∷ xs) = add x (sorted_set xs)

unfoldable pub consistency_roots : CompiledOntology → Result (List ℕ)
unfolding owl_thing_root occurring_individual_roots sorted_set
consistency_roots c = do
  thing ← owl_thing_root c
  individuals ← occurring_individual_roots c
  ok (sorted_set (thing ∷ individuals))

-- `_context_inconsistent`
unfoldable pub context_inconsistent : Option ContextState → Bool
context_inconsistent none = false
context_inconsistent (some s) = s.inconsistent

unfoldable pub inconsistent_among : Dict ContextState → List ℕ → List ℕ
unfolding context_inconsistent lookup
inconsistent_among contexts [] = []
inconsistent_among contexts (root ∷ roots) =
    let rest = inconsistent_among contexts roots in
    if context_inconsistent (lookup root contexts) then root ∷ rest else rest

unfoldable pub evaluate_consistency :
    CompiledOntology → PropertySaturation → Dict ContextState → Result ConsistencyState
unfolding owl_thing_root occurring_individual_roots named_entity context_inconsistent
    inconsistent_among singleton_chain super_chains has lookup
evaluate_consistency c properties contexts = do
  thing ← owl_thing_root c
  individuals ← occurring_individual_roots c
  top_property ← named_entity c EntityKind.object_property owl_top_object_property_iri
  bottom_property ← named_entity c EntityKind.object_property owl_bottom_object_property_iri
  top_chain ← singleton_chain properties top_property
  bottom_chain ← singleton_chain properties bottom_property
  supers ← super_chains properties top_chain
  ok (record {
    owl_thing_root = thing;
    individual_roots = individuals;
    owl_thing_inconsistent = context_inconsistent (lookup thing contexts);
    inconsistent_individuals = inconsistent_among contexts individuals;
    top_object_property_in_bottom = has bottom_chain supers;
  })

-- The top object property is below the bottom one.
abbrev pub TopInBottom : CompiledOntology → PropertySaturation → Type 0
TopInBottom c p =
    (top : ℕ) × (bottom : ℕ) × (top_chain : ℕ) × (bottom_chain : ℕ) × (supers : List ℕ)
    × (named_entity c EntityKind.object_property owl_top_object_property_iri ≡ ok top)
    × (named_entity c EntityKind.object_property owl_bottom_object_property_iri ≡ ok bottom)
    × (singleton_chain p top ≡ ok top_chain)
    × (singleton_chain p bottom ≡ ok bottom_chain)
    × (super_chains p top_chain ≡ ok supers)
    × In bottom_chain supers
