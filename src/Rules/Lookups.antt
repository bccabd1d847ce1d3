-- ===== src/Rules/Lookups.antt =====
-- What the lookups of a dispatcher (src/pyelk/reasoning/rules.py) say of the tables of the compiled
-- ontology, and what class saturation relies on in a property view.
use py_elk.Prelude.{
  ℕ, ◌≡◌, ◌↔◌, ◌<◌, List, ◌∷◌, some, Bool, true, false, Dict, In, get_elem?, lookup, rows, ok,
}
use py_elk.Ir.{ExpressionTag, ExpressionRecord, ExpressionOccurrence, CompiledOntology, is_class}
use py_elk.PropertyView.{PropertyView}
use py_elk.Rules.Index.{RuleDispatcher}
use py_elk.Rules.Calculus.{Expression, Told}

abbrev pub Negative : CompiledOntology → ℕ → ExpressionTag → List ℕ → Type 0
Negative c e tag args = (o : ExpressionOccurrence) × Expression c e tag args o × (0 < o.negative)

abbrev pub Positive : CompiledOntology → ℕ → ExpressionTag → List ℕ → Type 0
Positive c e tag args = (o : ExpressionOccurrence) × Expression c e tag args o × (0 < o.positive)

-- The first expression of an equivalence, and whether it is a named class.
abbrev pub Equivalence : CompiledOntology → Bool → ℕ → ℕ → Type 0
Equivalence c named first second =
    (r : ExpressionRecord) × In (first, second) c.equivalent_class_axioms
    × (get_elem? c.expressions first ≡ some r)
    × (is_class r.tag ≡ named)

pub record IsIndexed (d : RuleDispatcher) : Type 0 where
  pub subclasses :
      (sub super : ℕ)
      → In super (rows sub d.subclasses) ↔ In (sub, super) d.compiled.subclass_axioms
  pub definitions :
      (first second : ℕ)
      → In second (rows first d.equivalences.definitions_by_class)
        ↔ Equivalence d.compiled true first second
  pub defined :
      (first second : ℕ)
      → In first (rows second d.equivalences.classes_by_definition)
        ↔ Equivalence d.compiled true first second
  pub firsts :
      (first second : ℕ)
      → In first (rows second d.equivalences.equivalent_first)
        ↔ Equivalence d.compiled false first second
  pub seconds :
      (first second : ℕ)
      → In second (rows first d.equivalences.equivalent_second)
        ↔ Equivalence d.compiled false first second
  pub by_first :
      (a b e : ℕ)
      → In (b, e) (rows a d.indexes.intersections_by_first) ↔ (
          (rest : List ℕ) × Negative d.compiled e ExpressionTag.object_intersection_of
            (a ∷ b ∷ rest))
  pub by_second :
      (a b e : ℕ)
      → In (a, e) (rows b d.indexes.intersections_by_second) ↔ (
          (rest : List ℕ) × Negative d.compiled e ExpressionTag.object_intersection_of
            (a ∷ b ∷ rest))
  pub by_disjunct :
      (a e i : ℕ)
      → In (e, i) (rows a d.indexes.unions_by_disjunct) ↔ (
          (args : List ℕ) × Negative d.compiled e ExpressionTag.object_union_of args
          × (get_elem? args i ≡ some a))
  pub by_filler :
      (f e q : ℕ)
      → In (e, q) (rows f d.indexes.existentials_by_filler) ↔ (
          (rest : List ℕ) × Negative d.compiled e ExpressionTag.object_some_values_from
            (q ∷ f ∷ rest))
  pub by_negated :
      (a e : ℕ)
      → In e (rows a d.indexes.complements_by_negated)
        ↔ ((rest : List ℕ) × Positive d.compiled e ExpressionTag.object_complement_of (a ∷ rest))
  pub complements :
      (a e : ℕ)
      → In a (rows e d.indexes.positive_complements)
        ↔ ((rest : List ℕ) × Positive d.compiled e ExpressionTag.object_complement_of (a ∷ rest))
  pub by_member :
      (a g i : ℕ)
      → In (g, i) (rows a d.disjoint_by_member) ↔ (
          (members : List ℕ) × (get_elem? d.compiled.disjoint_groups g ≡ some members)
          × (get_elem? members i ≡ some a))
  pub told :
      (chain p : ℕ)
      → In p (rows chain d.told_super_properties) ↔ Told d.compiled d.properties chain p
  pub thing : (d.introduce_thing ≡ true) ↔ (
      (o : ExpressionOccurrence) × (get_elem? d.compiled.expression_occurrences d.owl_thing
        ≡ some o)
      × (0 < o.negative))
  pub nothing : (d.decompose_nothing ≡ true) ↔ (
      (o : ExpressionOccurrence) × (get_elem? d.compiled.expression_occurrences d.owl_nothing
        ≡ some o)
      × (0 < o.positive))

-- The two composition indices of a view hold the same compositions.
pub record IsSymmetric (v : PropertyView) : Type 0 where
  pub left_right :
      (relation chain : ℕ) (left : Dict (List ℕ)) (results : List ℕ)
      → v.compositions_by_left chain false ≡ ok left
      → lookup relation left ≡ some results
      → lookup chain (v.compositions_by_right relation false) ≡ some results
  pub right_left :
      (relation chain : ℕ) (left : Dict (List ℕ)) (results : List ℕ)
      → v.compositions_by_left chain false ≡ ok left
      → lookup chain (v.compositions_by_right relation false) ≡ some results
      → lookup relation left ≡ some results
