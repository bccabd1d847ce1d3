-- ===== src/Consistency/Decides.antt =====
-- What the consistency check of src/pyelk/reasoning/consistency.py decides.
use py_elk.Prelude.{
  ℕ, ◌≡◌, refl, sym, ap, subst, ◌∙◌, ◌⊎◌, inl, inr, ◌↔◌, List, [], ◌∷◌, none, some, Bool, true,
  false, ◌||◌, Dict, lookup, has, has_iff, In-add, In, nat_ordered, Bool-cases, Option-cases, arith,
  ok, >>=-eq-ok, ok-injective,
}
use py_elk.Ir.{
  EntityKind, CompiledOntology, owl_top_object_property_iri, owl_bottom_object_property_iri,
}
use py_elk.Conclusion.{inconsistent_at, conclusion_destination}
use py_elk.Context.{ContextState}
use py_elk.Context.Invariant.{IsConsistent}
use py_elk.PropertySaturation.{PropertySaturation, singleton_chain, super_chains}
use py_elk.Consistency.{
  ConsistencyState, inconsistent, any_there, named_entity, owl_thing_root,
  occurring_individual_roots, sorted_set, consistency_roots, context_inconsistent,
  inconsistent_among, evaluate_consistency, TopInBottom,
}

-- The context of the root stores that its expression has no instance.
abbrev pub HasClash : Dict ContextState → ℕ → Type 0
HasClash contexts r =
    (s : ContextState) × (lookup r contexts ≡ some s) × In (inconsistent_at r) s.stored

-- Each context is consistent and stands under its root.
abbrev pub AreConsistent : Dict ContextState → Type 0
AreConsistent contexts =
    (r : ℕ) (s : ContextState) → lookup r contexts ≡ some s → IsConsistent s × (s.root ≡ r)

module _ (contexts : Dict ContextState) (h : AreConsistent contexts) where
  context_inconsistent_iff :
      (r : ℕ) → (context_inconsistent (lookup r contexts) ≡ true) ↔ HasClash contexts r
  unfolding context_inconsistent conclusion_destination
  context_inconsistent_iff r = elim (Option-cases (lookup r contexts)) [
    | inl nothing ↦ (
      λ e. let bad : false ≡ true = sym (ap context_inconsistent nothing) ∙ e in cc bad,
      λ (s, found, _). let clash : none ≡ some s = sym nothing ∙ found in absurd (cc clash),
    )
    | inr (s, found) ↦
        let (good, owner) = h r s found in
        let filed = good.filed (inconsistent_at r) (sym owner) in
        (
          λ e. (s, found, filed.1 (sym (ap context_inconsistent found) ∙ e)),
          λ (z, there, m).
              ap context_inconsistent found
              ∙ filed.0 (
                  subst (λ (k : ContextState). In (inconsistent_at r) k.stored)
                    (let same : z ≡ s = cc (there, found) in same) m),
        )
  ]

  among_iff :
      (roots : List ℕ)
      → (any_there (inconsistent_among contexts roots) ≡ true)
        ↔ ((r : ℕ) × In r roots × HasClash contexts r)
  unfolding inconsistent_among
  among_iff [] = (λ e. cc e, λ (r, m, _). absurd m)
  among_iff (q ∷ qs) = elim (Bool-cases (context_inconsistent (lookup q contexts))) [
    | inl t ↦ rw t (λ e. (q, inl refl, (context_inconsistent_iff q).0 t), λ k. refl)
    | inr f ↦ rw f (
      λ e. let (r, m, k) = (among_iff qs).0 e in (r, inr m, k),
      λ (r, m, k). elim m [
        | inr m' ↦ (among_iff qs).1 (r, m', k)
        | inl same ↦
            let bad = (context_inconsistent_iff q).1 (subst (HasClash contexts) same k) in
            cc (bad, f)
      ],
    )
  ]

pub In-sorted_set : (r : ℕ) (xs : List ℕ) → In r (sorted_set xs) ↔ In r xs
unfolding sorted_set
In-sorted_set r [] = (λ m. m, λ m. m)
In-sorted_set r (x ∷ xs) = ground (arith, In-add r x (sorted_set xs), In-sorted_set r xs)

any_of : (a b c : Bool) → ((a || b || c) ≡ true) ↔ ((a ≡ true) ⊎ (b ≡ true) ⊎ (c ≡ true))
any_of a b c = ground arith

-- When the check returns over consistent contexts, it says that the ontology is inconsistent exactly
-- if the context of a root that the consistency stage demands stores a class inconsistency, or the
-- bottom object property is a super-property of the top one.
pub evaluate_consistency_lem :
    (c : CompiledOntology) (p : PropertySaturation) (contexts : Dict ContextState) (roots : List ℕ)
    (state : ConsistencyState)
    → AreConsistent contexts
    → consistency_roots c ≡ ok roots
    → evaluate_consistency c p contexts ≡ ok state
    → (inconsistent state ≡ true) ↔ (((r : ℕ) × In r roots × HasClash contexts r) ⊎ TopInBottom c p)
unfolding consistency_roots evaluate_consistency inconsistent
evaluate_consistency_lem c p contexts roots state h demanded evaluated =
    let (thing, h1, k1) = >>=-eq-ok (owl_thing_root c) _ evaluated in
    let (individuals, h2, k2) = >>=-eq-ok (occurring_individual_roots c) _ k1 in
    let (top, h3, k3) =
      >>=-eq-ok (named_entity c EntityKind.object_property owl_top_object_property_iri) _ k2 in
    let (bottom, h4, k4) =
      >>=-eq-ok (named_entity c EntityKind.object_property owl_bottom_object_property_iri) _ k3 in
    let (top_chain, h5, k5) = >>=-eq-ok (singleton_chain p top) _ k4 in
    let (bottom_chain, h6, k6) = >>=-eq-ok (singleton_chain p bottom) _ k5 in
    let (supers, h7, k7) = >>=-eq-ok (super_chains p top_chain) _ k6 in
    let (thing', g1, j1) = >>=-eq-ok (owl_thing_root c) _ demanded in
    let (individuals', g2, j2) = >>=-eq-ok (occurring_individual_roots c) _ j1 in
    let same_thing : thing' ≡ thing = ok-injective (sym g1 ∙ h1) in
    let same_individuals : individuals' ≡ individuals = ok-injective (sym g2 ∙ h2) in
    let all : sorted_set (thing ∷ individuals) ≡ roots =
      ap (λ x. sorted_set (x ∷ individuals)) (sym same_thing)
      ∙ ap (λ xs. sorted_set (thing' ∷ xs)) (sym same_individuals)
      ∙ ok-injective j2 in
    let root = λ (r : ℕ). In-sorted_set r (thing ∷ individuals) in
    let decide =
      any_of (context_inconsistent (lookup thing contexts))
        (any_there (inconsistent_among contexts individuals)) (has bottom_chain supers) in
    subst
      (λ z.
        (inconsistent z ≡ true) ↔ (((r : ℕ) × In r roots × HasClash contexts r) ⊎ TopInBottom c p))
      (ok-injective k7)
      (
        λ e. elim (decide.0 e) [
          | inl t ↦ inl (
            thing,
            subst (In thing) all ((root thing).1 (inl refl)),
            (context_inconsistent_iff contexts h thing).0 t,
          )
          | inr (inl t) ↦
              let (r, m, k) = (among_iff contexts h individuals).0 t in
              inl (r, subst (In r) all ((root r).1 (inr m)), k)
          | inr (inr t) ↦ inr (
            top,
            bottom,
            top_chain,
            bottom_chain,
            supers,
            h3,
            h4,
            h5,
            h6,
            h7,
            (has_iff bottom_chain supers).0 t,
          )
        ],
        λ why. decide.1 (elim why [
          | inl (r, m, k) ↦ elim ((root r).0 (subst (In r) (sym all) m)) [
            | inl same ↦
                inl
                  ((context_inconsistent_iff contexts h thing).1 (subst (HasClash contexts) same k))
            | inr m' ↦ inr (inl ((among_iff contexts h individuals).1 (r, m', k)))
          ]
          | inr (top', bottom', top_chain', bottom_chain', supers', q3, q4, q5, q6, q7, m) ↦
              let e3 : top' ≡ top = ok-injective (sym q3 ∙ h3) in
              let e4 : bottom' ≡ bottom = ok-injective (sym q4 ∙ h4) in
              let e5 : top_chain' ≡ top_chain =
                ok-injective (sym q5 ∙ ap (singleton_chain p) e3 ∙ h5) in
              let e6 : bottom_chain' ≡ bottom_chain =
                ok-injective (sym q6 ∙ ap (singleton_chain p) e4 ∙ h6) in
              let e7 : supers' ≡ supers = ok-injective (sym q7 ∙ ap (super_chains p) e5 ∙ h7) in
              inr (
                inr (
                  (has_iff bottom_chain supers).1
                    (subst (λ x. In x supers) e6 (subst (In bottom_chain') e7 m))))
        ]),
      )
