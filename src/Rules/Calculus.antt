-- ===== src/Rules/Calculus.antt =====
-- The rules of ELK, stated over the tables of a compiled ontology (src/pyelk/indexing/ir.py) and a
-- property view, with no lookup, no agenda and no order: `Infers c v thing nothing P x` says that
-- one rule concludes `x` from premises in `P`. It is the specification of the dispatcher in
-- src/pyelk/reasoning/rules.py.
use py_elk.Prelude.{
  ℕ, ◌≡◌, ◌≢◌, ◌<◌, ◌⊎◌, List, [], ◌∷◌, some, Bool, true, false, Dict, In, get_elem?, lookup, ok,
}
use py_elk.Ir.{ExpressionTag, ExpressionRecord, ExpressionOccurrence, CompiledOntology, is_class}
use py_elk.PropertyView.{PropertyChainRecord, PropertyView}
use py_elk.Conclusion.{
  Conclusion, initialized_at, subcontext_at, decomposed_at, composed_at, forward_at, backward_at,
  propagation_at, disjoint_at, inconsistent_at,
}

-- Expression `e` has the record `r` and the occurrences `o`.
pub record Expression (c : CompiledOntology) (e : ℕ) (tag : ExpressionTag) (args : List ℕ)
    (o : ExpressionOccurrence) : Type 0 where
  pub payload : List ℕ
  pub row :
      get_elem? c.expressions e ≡ some (record { tag = tag; arguments = args; payload = payload })
  pub occurrence : get_elem? c.expression_occurrences e ≡ some o

-- A chain record that composes with more links to its left.
abbrev pub Extends : PropertyView → ℕ → Bool → Type 0
Extends v chain redundant =
    (d : Dict (List ℕ)) × (v.compositions_by_left chain redundant ≡ ok d) × (d ≢ [])

abbrev pub NotExtends : PropertyView → ℕ → Bool → Type 0
NotExtends v chain redundant = v.compositions_by_left chain redundant ≡ ok []

-- `sub_chain` is told to be a sub-chain of the property.
abbrev pub Told : CompiledOntology → PropertyView → ℕ → ℕ → Type 0
Told c v chain property =
    (compiled : ℕ) × In (compiled, property) c.subproperty_axioms
    × (v.compiled_chain compiled ≡ ok chain)

-- The property composes with the right chain to the result.
abbrev pub Composes : PropertyView → ℕ → ℕ → ℕ → Type 0
Composes v relation right result =
    (results : List ℕ) × (lookup right (v.compositions_by_right relation false) ≡ some results)
    × In result results

module _ (c : CompiledOntology) (v : PropertyView) (thing nothing : ℕ)
    (P : Conclusion → Type 0) where
  pub data Infers : Conclusion → Type 0 where
    tautology : {r : ℕ} → P (initialized_at r) → Infers (decomposed_at r r)
    owl_thing :
        {r : ℕ} {o : ExpressionOccurrence}
        → get_elem? c.expression_occurrences thing ≡ some o
        → 0 < o.negative
        → P (initialized_at r)
        → Infers (composed_at r thing)
    subclass :
        {d sub super : ℕ}
        → In (sub, super) c.subclass_axioms
        → P (composed_at d sub)
        → Infers (decomposed_at d super)
    compose : {d e : ℕ} → P (decomposed_at d e) → Infers (composed_at d e)
    definition :
        {d first second : ℕ} {r : ExpressionRecord}
        → In (first, second) c.equivalent_class_axioms
        → get_elem? c.expressions first ≡ some r
        → is_class r.tag ≡ true
        → P (decomposed_at d first)
        → Infers (decomposed_at d second)
    defined_class :
        {d first second : ℕ} {r : ExpressionRecord}
        → In (first, second) c.equivalent_class_axioms
        → get_elem? c.expressions first ≡ some r
        → is_class r.tag ≡ true
        → P (composed_at d second)
        → Infers (composed_at d first)
    equivalent_first :
        {d first second : ℕ} {r : ExpressionRecord}
        → In (first, second) c.equivalent_class_axioms
        → get_elem? c.expressions first ≡ some r
        → is_class r.tag ≡ false
        → P (composed_at d second)
        → Infers (decomposed_at d first)
    equivalent_second :
        {d first second : ℕ} {r : ExpressionRecord}
        → In (first, second) c.equivalent_class_axioms
        → get_elem? c.expressions first ≡ some r
        → is_class r.tag ≡ false
        → P (composed_at d first)
        → Infers (decomposed_at d second)
    first_conjunct :
        {d e a b : ℕ} {rest : List ℕ} {o : ExpressionOccurrence}
        → Expression c e ExpressionTag.object_intersection_of (a ∷ b ∷ rest) o
        → 0 < o.positive
        → P (decomposed_at d e)
        → Infers (decomposed_at d a)
    second_conjunct :
        {d e a b : ℕ} {rest : List ℕ} {o : ExpressionOccurrence}
        → Expression c e ExpressionTag.object_intersection_of (a ∷ b ∷ rest) o
        → 0 < o.positive
        → P (decomposed_at d e)
        → Infers (decomposed_at d b)
    intersection :
        {d e a b : ℕ} {rest : List ℕ} {o : ExpressionOccurrence}
        → Expression c e ExpressionTag.object_intersection_of (a ∷ b ∷ rest) o
        → 0 < o.negative
        → P (composed_at d a)
        → P (composed_at d b)
        → Infers (composed_at d e)
    disjunct :
        {d e a : ℕ} (i : ℕ) {args : List ℕ} {o : ExpressionOccurrence}
        → Expression c e ExpressionTag.object_union_of args o
        → 0 < o.negative
        → get_elem? args i ≡ some a
        → P (composed_at d a)
        → Infers (composed_at d e)
    some_values_backward :
        {d e p f : ℕ} {rest : List ℕ} {o : ExpressionOccurrence}
        → Expression c e ExpressionTag.object_some_values_from (p ∷ f ∷ rest) o
        → 0 < o.positive
        → P (decomposed_at d e)
        → Infers (backward_at f p d)
    some_values_forward :
        {d e p f chain : ℕ} {rest : List ℕ} {o : ExpressionOccurrence}
        → Expression c e ExpressionTag.object_some_values_from (p ∷ f ∷ rest) o
        → 0 < o.positive
        → v.singleton_chain p ≡ ok chain
        → Extends v chain false
        → P (decomposed_at d e)
        → Infers (forward_at d chain f)
    has_self_backward :
        {d e p : ℕ} {rest : List ℕ} {o : ExpressionOccurrence}
        → Expression c e ExpressionTag.object_has_self (p ∷ rest) o
        → 0 < o.positive
        → P (decomposed_at d e)
        → Infers (backward_at d p d)
    has_self_forward :
        {d e p chain : ℕ} {rest : List ℕ} {o : ExpressionOccurrence}
        → Expression c e ExpressionTag.object_has_self (p ∷ rest) o
        → 0 < o.positive
        → v.singleton_chain p ≡ ok chain
        → Extends v chain false
        → P (decomposed_at d e)
        → Infers (forward_at d chain d)
    has_self_range :
        {d e p x : ℕ} {rest : List ℕ} {o : ExpressionOccurrence}
        → Expression c e ExpressionTag.object_has_self (p ∷ rest) o
        → 0 < o.positive
        → In x (v.ranges p)
        → P (decomposed_at d e)
        → Infers (decomposed_at d x)
    complement :
        {d e a : ℕ} {rest : List ℕ} {o : ExpressionOccurrence}
        → Expression c e ExpressionTag.object_complement_of (a ∷ rest) o
        → 0 < o.positive
        → P (composed_at d a)
        → P (decomposed_at d e)
        → Infers (inconsistent_at d)
    owl_nothing :
        {d : ℕ} {o : ExpressionOccurrence}
        → get_elem? c.expression_occurrences nothing ≡ some o
        → 0 < o.positive
        → P (decomposed_at d nothing)
        → Infers (inconsistent_at d)
    disjoint_member :
        {d g i a : ℕ} {members : List ℕ}
        → get_elem? c.disjoint_groups g ≡ some members
        → get_elem? members i ≡ some a
        → P (composed_at d a)
        → Infers (disjoint_at d g i)
    disjoint :
        {d g : ℕ} (i j : ℕ)
        → i ≢ j
        → P (disjoint_at d g i)
        → P (disjoint_at d g j)
        → Infers (inconsistent_at d)
    subcontext : {d r s : ℕ} → P (backward_at d r s) → Infers (subcontext_at d r)
    range : {d r s x : ℕ} → In x (v.ranges r) → P (backward_at d r s) → Infers (decomposed_at d x)
    propagate :
        {d r e q f chain : ℕ} {rest subs : List ℕ} {o : ExpressionOccurrence}
        → Expression c e ExpressionTag.object_some_values_from (q ∷ f ∷ rest) o
        → 0 < o.negative
        → v.singleton_chain q ≡ ok chain
        → v.sub_properties chain ≡ ok subs
        → In r subs
        → P (subcontext_at d r)
        → P (composed_at d f)
        → Infers (propagation_at d r e)
    some_values :
        {d r s e : ℕ} → P (backward_at d r s) → P (propagation_at d r e) → Infers (composed_at s e)
    inconsistent_source :
        {d r s : ℕ} → P (backward_at d r s) → P (inconsistent_at d) → Infers (inconsistent_at s)
    reverse :
        {d t chain p : ℕ} {r : PropertyChainRecord} {suffix : ℕ}
        → get_elem? v.chains chain ≡ some r
        → r.suffix_chain ≡ some suffix
        → Told c v chain p
        → P (forward_at d chain t)
        → Infers (backward_at t p d)
    compose_forward :
        {d r s chain t result : ℕ}
        → Composes v r chain result
        → Extends v result false ⊎ NotExtends v result false × Extends v result true
        → P (backward_at d r s)
        → P (forward_at d chain t)
        → Infers (forward_at s result t)
    compose_backward :
        {d r s chain t result p : ℕ}
        → Composes v r chain result
        → NotExtends v result false
        → NotExtends v result true
        → Told c v result p
        → P (backward_at d r s)
        → P (forward_at d chain t)
        → Infers (backward_at t p s)
