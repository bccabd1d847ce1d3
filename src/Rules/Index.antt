-- ===== src/Rules/Index.antt =====
-- The lookups that `RuleDispatcher.__init__` of src/pyelk/reasoning/rules.py freezes. A set of
-- rows is kept sorted, so `_freeze_index` leaves it as it is.
use text.Mathlib.Text.{◌==◌ as str_eq}
use py_elk.Prelude.{
  ℕ, suc, String, List, [], ◌∷◌, Bool, false, Option, none, some, ◌==◌, ltb, ◌&&◌, if◌then◌else◌,
  get_elem?, enumerate, Dict, add_to, nat_ordered, pair_ordered, Result, ok, err, index_error,
  stop_iteration, or_raise, ◌>>=◌, fold_each,
}
use py_elk.Ir.{
  EntityKind, ExpressionTag, EntityRecord, ExpressionRecord, ExpressionOccurrence, CompiledOntology,
  same_kind, is_class, owl_thing_iri, owl_nothing_iri,
}
use py_elk.PropertyView.{PropertyView}

-- The first index, counted from `i`, at which the test holds: `next` over an enumeration.
unfoldable pub find_index {ℓ} : {A : Type ℓ} → (A → Bool) → ℕ → List A → Option ℕ
find_index test i [] = none
find_index test i (x ∷ xs) =
    let rest = find_index test (suc i) xs in if test x then some i else rest

unfoldable pub is_named : EntityKind → String → EntityRecord → Bool
unfolding same_kind
is_named kind iri r = same_kind r.kind kind && str_eq r.iri iri

abbrev pub is_only : ℕ → List ℕ → Bool
is_only n (a ∷ []) = a == n
is_only n _ = false

-- `_class_expression`
unfoldable pub class_expression : CompiledOntology → String → Result ℕ
unfolding find_index is_named
class_expression c iri = do
  entity ← or_raise stop_iteration (find_index (is_named EntityKind.class iri) 0 c.entities)
  or_raise stop_iteration (
      find_index (λ (r : ExpressionRecord). is_class r.tag && is_only entity r.arguments) 0
        c.expressions)

abbrev pub Index : Type 0 → Type 0
Index A = Dict (List A)

pub record EquivalenceIndexes : Type 0 where
  pub definitions_by_class : Index ℕ
  pub classes_by_definition : Index ℕ
  pub equivalent_first : Index ℕ
  pub equivalent_second : Index ℕ

pub record ExpressionIndexes : Type 0 where
  pub intersections_by_first : Index (ℕ × ℕ)
  pub intersections_by_second : Index (ℕ × ℕ)
  pub unions_by_disjunct : Index (ℕ × ℕ)
  pub existentials_by_filler : Index (ℕ × ℕ)
  pub complements_by_negated : Index ℕ
  pub positive_complements : Index ℕ

unfoldable pub index_subclass : Index ℕ → ℕ × ℕ → Result (Index ℕ)
index_subclass ix (sub, super) = ok (add_to sub super ix)

unfoldable pub index_equivalence :
    CompiledOntology → EquivalenceIndexes → ℕ × ℕ → Result EquivalenceIndexes
index_equivalence c ix (first, second) = do
  r ← or_raise index_error (get_elem? c.expressions first)
  ok (
      if is_class r.tag
      then record ix {
        definitions_by_class = add_to first second ix.definitions_by_class;
        classes_by_definition = add_to second first ix.classes_by_definition;
      }
      else record ix {
        equivalent_first = add_to second first ix.equivalent_first;
        equivalent_second = add_to first second ix.equivalent_second;
      })

unfoldable pub index_intersection : ℕ → List ℕ → ExpressionIndexes → Result ExpressionIndexes
index_intersection e (first ∷ second ∷ _) ix = ok (record ix {
  intersections_by_first = add_to first (second, e) ix.intersections_by_first;
  intersections_by_second = add_to second (first, e) ix.intersections_by_second;
})
index_intersection e _ ix = err index_error

unfoldable pub index_disjuncts : ℕ → ℕ → List ℕ → Index (ℕ × ℕ) → Index (ℕ × ℕ)
index_disjuncts e position [] ix = ix
index_disjuncts e position (argument ∷ rest) ix =
    index_disjuncts e (suc position) rest (add_to argument (e, position) ix)

unfoldable pub index_existential : ℕ → List ℕ → ExpressionIndexes → Result ExpressionIndexes
index_existential e (relation ∷ filler ∷ _) ix =
    ok
      (record ix { existentials_by_filler = add_to filler (e, relation) ix.existentials_by_filler })
index_existential e _ ix = err index_error

unfoldable pub index_complement : ℕ → List ℕ → ExpressionIndexes → Result ExpressionIndexes
index_complement e (negated ∷ _) ix = ok (record ix {
  complements_by_negated = add_to negated e ix.complements_by_negated;
  positive_complements = add_to e negated ix.positive_complements;
})
index_complement e [] ix = err index_error

-- The branch for one expression, by its tag and its occurrences.
unfoldable pub index_by_tag :
    ExpressionTag → ℕ → List ℕ → ExpressionOccurrence → ExpressionIndexes → Result ExpressionIndexes
unfolding index_intersection index_disjuncts index_existential index_complement
index_by_tag ExpressionTag.object_intersection_of e arguments o ix =
    if ltb 0 o.negative then index_intersection e arguments ix else ok ix
index_by_tag ExpressionTag.object_union_of e arguments o ix =
    if ltb 0 o.negative
    then ok (record ix { unions_by_disjunct = index_disjuncts e 0 arguments ix.unions_by_disjunct })
    else ok ix
index_by_tag ExpressionTag.object_some_values_from e arguments o ix =
    if ltb 0 o.negative then index_existential e arguments ix else ok ix
index_by_tag ExpressionTag.object_complement_of e arguments o ix =
    if ltb 0 o.positive then index_complement e arguments ix else ok ix
index_by_tag _ e arguments o ix = ok ix

unfoldable pub index_expression :
    CompiledOntology → ExpressionIndexes → ℕ × ExpressionRecord → Result ExpressionIndexes
index_expression c ix (e, r) = do
  o ← or_raise index_error (get_elem? c.expression_occurrences e)
  index_by_tag r.tag e r.arguments o ix

unfoldable pub index_members : ℕ → ℕ → List ℕ → Index (ℕ × ℕ) → Index (ℕ × ℕ)
index_members group position [] ix = ix
index_members group position (member ∷ rest) ix =
    index_members group (suc position) rest (add_to member (group, position) ix)

unfoldable pub index_group : Index (ℕ × ℕ) → ℕ × List ℕ → Result (Index (ℕ × ℕ))
unfolding index_members
index_group ix (group, members) = ok (index_members group 0 members ix)

unfoldable pub index_told : PropertyView → Index ℕ → ℕ × ℕ → Result (Index ℕ)
index_told v ix (compiled_chain, super_property) = do
  local_chain ← v.compiled_chain compiled_chain
  ok (add_to local_chain super_property ix)

pub record RuleDispatcher : Type 0 where
  pub compiled : CompiledOntology
  pub properties : PropertyView
  pub owl_thing : ℕ
  pub owl_nothing : ℕ
  pub introduce_thing : Bool
  pub decompose_nothing : Bool
  pub subclasses : Index ℕ
  pub equivalences : EquivalenceIndexes
  pub indexes : ExpressionIndexes
  pub disjoint_by_member : Index (ℕ × ℕ)
  pub told_super_properties : Index ℕ

abbrev pub no_equivalences : EquivalenceIndexes
no_equivalences = record {
  definitions_by_class = [];
  classes_by_definition = [];
  equivalent_first = [];
  equivalent_second = [];
}

abbrev pub no_expressions : ExpressionIndexes
no_expressions = record {
  intersections_by_first = [];
  intersections_by_second = [];
  unions_by_disjunct = [];
  existentials_by_filler = [];
  complements_by_negated = [];
  positive_complements = [];
}

-- `RuleDispatcher(compiled, properties)`
unfoldable pub rule_dispatcher : CompiledOntology → PropertyView → Result RuleDispatcher
unfolding class_expression index_subclass index_equivalence index_expression index_group index_told
rule_dispatcher c v = do
  thing ← class_expression c owl_thing_iri
  nothing ← class_expression c owl_nothing_iri
  thing_occurrence ← or_raise index_error (get_elem? c.expression_occurrences thing)
  nothing_occurrence ← or_raise index_error (get_elem? c.expression_occurrences nothing)
  subs ← fold_each index_subclass [] c.subclass_axioms
  equivalences ← fold_each (index_equivalence c) no_equivalences c.equivalent_class_axioms
  indexes ← fold_each (index_expression c) no_expressions (enumerate 0 c.expressions)
  disjoint ← fold_each index_group [] (enumerate 0 c.disjoint_groups)
  told ← fold_each (index_told v) [] c.subproperty_axioms
  ok (record {
    compiled = c;
    properties = v;
    owl_thing = thing;
    owl_nothing = nothing;
    introduce_thing = ltb 0 thing_occurrence.negative;
    decompose_nothing = ltb 0 nothing_occurrence.positive;
    subclasses = subs;
    equivalences = equivalences;
    indexes = indexes;
    disjoint_by_member = disjoint;
    told_super_properties = told;
  })
