-- ===== src/Rules/Construction.antt =====
-- `RuleDispatcher(compiled, properties)` of src/pyelk/reasoning/rules.py: when the constructor
-- returns, every lookup holds exactly the rows of its table.
use py_elk.Prelude.{
  ℕ, ◌≡◌, refl, sym, subst, ◌∙◌, ◌<◌, ◌↔◌, [], true, Option, some, get_elem?, enumerate, ltb,
  ltb→lt, lt→ltb, or_raise, or_raise-eq-ok, index_error, ok, ok-injective, >>=-eq-ok, fold_each,
}
use mathlib.Core.Option.{some-injective}
use py_elk.Ir.{ExpressionOccurrence, CompiledOntology, owl_thing_iri, owl_nothing_iri}
use py_elk.PropertyView.{PropertyView}
use py_elk.Rules.Lookups.{IsIndexed}
use py_elk.Rules.Index.{
  RuleDispatcher, no_equivalences, no_expressions, index_subclass, index_equivalence,
  index_expression, index_group, index_told, class_expression, rule_dispatcher,
}
use py_elk.Rules.Tables.{
  subclasses_table, definitions_table, defined_table, firsts_table, seconds_table, groups_table,
  Told-table, by_first_table, by_second_table, by_filler_table, by_negated_table, complements_table,
  by_disjunct_table,
}

occurs :
    (l : Option ExpressionOccurrence) (o : ExpressionOccurrence) (count : ExpressionOccurrence → ℕ)
    → l ≡ some o
    → (ltb 0 (count o) ≡ true) ↔ ((o' : ExpressionOccurrence) × (l ≡ some o') × (0 < count o'))
occurs l o count found = (
  λ t. (o, found, ltb→lt 0 (count o) t),
  λ (o', found', p).
      lt→ltb 0 (count o) (subst (λ x. 0 < count x) (some-injective o' o (sym found' ∙ found)) p),
)

-- When the constructor returns a dispatcher, it is one for the given ontology and property view, and
-- each of its lookups, and each of its two flags, agrees with the tables of the ontology.
pub rule_dispatcher-IsIndexed :
    (c : CompiledOntology) (v : PropertyView) (d : RuleDispatcher)
    → rule_dispatcher c v ≡ ok d
    → IsIndexed d × (d.compiled ≡ c) × (d.properties ≡ v)
unfolding rule_dispatcher
rule_dispatcher-IsIndexed c v d h =
    let (thing, h1, k1) = >>=-eq-ok (class_expression c owl_thing_iri) _ h in
    let (nothing, h2, k2) = >>=-eq-ok (class_expression c owl_nothing_iri) _ k1 in
    let (ot, h3, k3) =
      >>=-eq-ok (or_raise index_error (get_elem? c.expression_occurrences thing)) _ k2 in
    let (on, h4, k4) =
      >>=-eq-ok (or_raise index_error (get_elem? c.expression_occurrences nothing)) _ k3 in
    let (subs, h5, k5) = >>=-eq-ok (fold_each index_subclass [] c.subclass_axioms) _ k4 in
    let (equivalences, h6, k6) =
      >>=-eq-ok (fold_each (index_equivalence c) no_equivalences c.equivalent_class_axioms) _ k5 in
    let (indexes, h7, k7) =
      >>=-eq-ok (fold_each (index_expression c) no_expressions (enumerate 0 c.expressions)) _ k6 in
    let (disjoint, h8, k8) =
      >>=-eq-ok (fold_each index_group [] (enumerate 0 c.disjoint_groups)) _ k7 in
    let (told, h9, k9) = >>=-eq-ok (fold_each (index_told v) [] c.subproperty_axioms) _ k8 in
    let made = ok-injective k9 in
    let indexed : IsIndexed (record {
      compiled = c;
      properties = v;
      owl_thing = thing;
      owl_nothing = nothing;
      introduce_thing = ltb 0 ot.negative;
      decompose_nothing = ltb 0 on.positive;
      subclasses = subs;
      equivalences = equivalences;
      indexes = indexes;
      disjoint_by_member = disjoint;
      told_super_properties = told;
    }) =
      record {
        subclasses = λ sub super. subclasses_table c subs sub super h5;
        definitions = λ first second. definitions_table c equivalences first second h6;
        defined = λ first second. defined_table c equivalences first second h6;
        firsts = λ first second. firsts_table c equivalences first second h6;
        seconds = λ first second. seconds_table c equivalences first second h6;
        by_first = by_first_table c indexes h7;
        by_second = by_second_table c indexes h7;
        by_disjunct = by_disjunct_table c indexes h7;
        by_filler = by_filler_table c indexes h7;
        by_negated = by_negated_table c indexes h7;
        complements = complements_table c indexes h7;
        by_member = λ a g i. groups_table c disjoint a g i h8;
        told = λ chain p. Told-table c v told chain p h9;
        thing =
            occurs (get_elem? c.expression_occurrences thing) ot (λ o. o.negative)
              (or_raise-eq-ok index_error _ h3);
        nothing =
            occurs (get_elem? c.expression_occurrences nothing) on (λ o. o.positive)
              (or_raise-eq-ok index_error _ h4);
      } in
    subst (λ r. IsIndexed r × (r.compiled ≡ c) × (r.properties ≡ v)) made (indexed, refl, refl)
