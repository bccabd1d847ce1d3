-- ===== src/Rules/Exact.antt =====
-- What one rule concludes from a new premise, `dispatch` of src/pyelk/reasoning/rules.py produces,
-- unless it follows by one rule without the premise.
use py_elk.Prelude.{
  ℕ, suc, String, ◌+◌, ◌≡◌, refl, sym, ap, subst, ◌∙◌, ◌⊎◌, inl, inr, List, [], ◌∷◌, Bool, some, In,
  get_elem?, arith, Bool-cases, ok, err, value_error, >>=-eq-ok, or_raise, or_raise-eq-ok,
  stop_iteration, index_error, ok-injective, enumerate, fold_each,
}
use py_elk.Ir.{CompiledOntology, ExpressionRecord, EntityKind, owl_thing_iri, owl_nothing_iri}
use py_elk.PropertyView.{PropertyView}
use py_elk.Conclusion.{Conclusion, conclusion_destination}
use py_elk.Context.{ContextState, contains}
use py_elk.Context.Invariant.{IsConsistent}
use py_elk.Rules.Index.{
  RuleDispatcher, rule_dispatcher, class_expression, find_index, is_named, index_subclass,
  index_equivalence, index_expression, index_group, index_told, no_equivalences, no_expressions,
}
use py_elk.Rules.Lookups.{IsIndexed, IsSymmetric}
use py_elk.Rules.Construction.{rule_dispatcher-IsIndexed}
use py_elk.Rules.SoundDispatch.{contains-eq-true}
use py_elk.Rules.Joins.{dispatch-family}
use py_elk.Rules.Calculus.{Infers}
use py_elk.Rules.Complete.{IsNamed, complete}
use py_elk.Rules.LinkHandlers.{dispatch}

find_index_lem :
    {A : Type 0} (test : A → Bool) (i k : ℕ) (xs : List A)
    → find_index test i xs ≡ some k
    → (j : ℕ) × (x : A) × (k ≡ i + j) × (get_elem? xs j ≡ some x)
unfolding find_index
find_index_lem test i k [] h = cc
find_index_lem test i k (x ∷ xs) h = elim (Bool-cases (test x)) [
  | inl t ↦ let e : some i ≡ some k = rw t at h in (0, x, ground arith, refl)
  | inr f ↦
      let (j, y, e, found) = find_index_lem test (suc i) k xs (rw f at h) in
      (suc j, y, omega arith, found)
]

class_expression_lem :
    (c : CompiledOntology) (iri : String) (e : ℕ)
    → class_expression c iri ≡ ok e
    → (r : ExpressionRecord) × (get_elem? c.expressions e ≡ some r)
unfolding class_expression
class_expression_lem c iri e h =
    let (entity, _, k) =
      >>=-eq-ok (or_raise stop_iteration (find_index (is_named EntityKind.class iri) 0 c.entities))
        _ h in
    let (j, r, same, found) =
      find_index_lem _ 0 e c.expressions (or_raise-eq-ok stop_iteration _ k) in
    (
      r,
      subst (λ k. get_elem? c.expressions k ≡ some r) (sym (let at : e ≡ j = omega arith in at))
          found,
    )

pub rule_dispatcher-IsNamed :
    (c : CompiledOntology) (v : PropertyView) (d : RuleDispatcher)
    → rule_dispatcher c v ≡ ok d
    → IsNamed d
unfolding rule_dispatcher
rule_dispatcher-IsNamed c v d h =
    let (thing, h1, k1) = >>=-eq-ok (class_expression c owl_thing_iri) _ h in
    let (nothing, h2, k2) = >>=-eq-ok (class_expression c owl_nothing_iri) _ k1 in
    let (ot, h3, k3) =
      >>=-eq-ok (or_raise index_error (get_elem? c.expression_occurrences thing)) _ k2 in
    let (on, h4, k4) =
      >>=-eq-ok (or_raise index_error (get_elem? c.expression_occurrences nothing)) _ k3 in
    let (subs, h5, k5) = >>=-eq-ok (fold_each index_subclass [] c.subclass_axioms) _ k4 in
    let (equivalences, h6, k6) =
      >>=-eq-ok (fold_each (index_equivalence c) no_equivalences c.equivalent_class_axioms) _ k5 in
    let (indexes, h7, k7) =
      >>=-eq-ok (fold_each (index_expression c) no_expressions (enumerate 0 c.expressions)) _ k6 in
    let (disjoint, h8, k8) =
      >>=-eq-ok (fold_each index_group [] (enumerate 0 c.disjoint_groups)) _ k7 in
    let (told, h9, k9) = >>=-eq-ok (fold_each (index_told v) [] c.subproperty_axioms) _ k8 in
    subst IsNamed (ok-injective k9) (class_expression_lem c owl_nothing_iri nothing h2)

-- The premise that a returning dispatch was given is stored.
pub dispatched_stored :
    (d : RuleDispatcher) (s : ContextState) (premise : Conclusion) (out : List Conclusion)
    → dispatch d s premise ≡ ok out
    → In premise s.stored
unfolding dispatch
dispatched_stored d s premise out e =
    let (present, found, rest) = >>=-eq-ok (contains premise s) _ e in
    elim (Bool-cases present) [
      | inl t ↦ contains-eq-true premise s (found ∙ ap ok t)
      | inr f ↦ let bad : err value_error ≡ ok out = rw f at rest in cc
    ]

pub dispatch_indexed_complete :
    (d : RuleDispatcher) (s : ContextState) (D : Conclusion → Type 0) (premise x : Conclusion)
    (out : List Conclusion)
    → IsIndexed d
    → IsSymmetric d.properties
    → IsNamed d
    → IsConsistent s
    → ((y : Conclusion) → D y → conclusion_destination y ≡ s.root → In y s.stored)
    → dispatch d s premise ≡ ok out
    → Infers d.compiled d.properties d.owl_thing d.owl_nothing (λ y. D y ⊎ (y ≡ premise)) x
    → Infers d.compiled d.properties d.owl_thing d.owl_nothing D x ⊎ In x out
dispatch_indexed_complete d s D premise x out ix sy named h stored e i =
    complete d ix sy named s h D stored premise (dispatched_stored d s premise out e) out
      (dispatch-family d s premise out e) i

-- Take the dispatcher constructed for an ontology and a property view whose two composition indices
-- agree, a consistent context, and conclusions of which the context stores those that it owns. When
-- a dispatch of a premise returns, then whatever one rule of the calculus concludes from these
-- conclusions and the premise is produced, or follows by one rule without the premise.
pub dispatch_complete :
    (c : CompiledOntology) (v : PropertyView) (d : RuleDispatcher) (s : ContextState)
    (D : Conclusion → Type 0) (premise x : Conclusion) (out : List Conclusion)
    → rule_dispatcher c v ≡ ok d
    → IsSymmetric v
    → IsConsistent s
    → ((y : Conclusion) → D y → conclusion_destination y ≡ s.root → In y s.stored)
    → dispatch d s premise ≡ ok out
    → Infers c v d.owl_thing d.owl_nothing (λ y. D y ⊎ (y ≡ premise)) x
    → Infers c v d.owl_thing d.owl_nothing D x ⊎ In x out
dispatch_complete c v d s D premise x out made sy h stored e i =
    let (ix, same_c, same_v) = rule_dispatcher-IsIndexed c v d made in
    let named = rule_dispatcher-IsNamed c v d made in
    let Step = λ (k : CompiledOntology) (w : PropertyView) (Q : Conclusion → Type 0).
      Infers k w d.owl_thing d.owl_nothing Q x in
    let follows : (k : CompiledOntology) (w : PropertyView)
        → d.compiled ≡ k
        → d.properties ≡ w
        → Step k w (λ y. D y ⊎ (y ≡ premise))
        → Step k w D ⊎ In x out =
      λ k w p q j.
        subst (λ w'. Step k w' D ⊎ In x out) q
          (subst (λ k'. Step k' d.properties D ⊎ In x out) p
            (dispatch_indexed_complete d s D premise x out ix (subst IsSymmetric (sym same_v) sy)
              named h stored e
              (subst (λ k'. Step k' d.properties (λ y. D y ⊎ (y ≡ premise))) (sym p)
                (subst (λ w'. Step k w' (λ y. D y ⊎ (y ≡ premise))) (sym q) j)))) in
    follows c v same_c same_v i
