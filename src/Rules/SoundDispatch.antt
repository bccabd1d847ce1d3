-- ===== src/Rules/SoundDispatch.antt =====
-- Soundness of the dispatch of src/pyelk/reasoning/rules.py: the remaining handlers, and the family
-- of the premise.
use py_elk.Prelude.{
  ℕ, ◌≡◌, ◌≢◌, refl, sym, subst, ap, ◌∙◌, inl, inr, List, [], true, false, none, some, In, has_iff,
  lookup, rows, items, In-items, nat_ordered, arith, Bool-cases, ok, err, value_error, Yields,
  Yields-&, Yields-for_each, >>=-eq-ok, Dict,
}
use py_elk.Conclusion.{
  Conclusion, BackwardLink, ForwardLink, Propagation, DisjointSubsumer, ClassInconsistency,
  context_initialization, subcontext_initialization, decomposed, composed, forward_link,
  backward_link, propagation, disjoint_subsumer, class_inconsistency, decomposed_at, composed_at,
  subcontext_at, backward_at, propagation_at, disjoint_at, inconsistent_at, conclusion_destination,
}
use py_elk.Conclusion.Keys.{conclusion_ordered}
use py_elk.Context.{ContextState, contains, check_destination}
use py_elk.Context.Invariant.{IsConsistent}
use py_elk.Rules.Index.{RuleDispatcher}
use py_elk.Rules.Lookups.{IsIndexed, IsSymmetric}
use py_elk.Rules.Calculus
use py_elk.Rules.Calculus.{Infers}
use py_elk.Rules.SoundInitialization.{
  Concludes, on_context_initialization_sound, on_subcontext_initialization_sound,
}
use py_elk.Rules.SoundSubsumers.{on_decomposed_subsumer_sound}
use py_elk.Rules.SoundComposition.{on_composed_subsumer_sound}
use py_elk.Rules.SoundLinks.{
  stored_backward, stored_forward, produce_link_composition_sound, on_forward_link_sound,
}
use py_elk.Rules.LinkHandlers.{
  produce_link_composition, carry_back, attach_range, compose_target, compose_right,
  on_backward_link, carry_source, on_propagation, contradict_position, on_disjoint_subsumer,
  contradict_source, contradict_sources, on_class_inconsistency, dispatch_family, dispatch,
}

In-rows :
    (m : Dict (List ℕ)) (k a : ℕ) {l : List ℕ} → lookup k m ≡ some l → In a l → In a (rows k m)
In-rows m k a {l} e i = subst (λ o. In a (elim o [ none ↦ [] | some r ↦ r ])) (sym e) i

module _ (d : RuleDispatcher) (ix : IsIndexed d) (sym' : IsSymmetric d.properties)
    (s : ContextState) (h : IsConsistent s) (x : Conclusion) where
  module _ (p : BackwardLink) (m : In (backward_link p) s.stored)
      (own : p.destination ≡ s.root) where
    here : In (backward_at s.root p.relation p.source) s.stored
    here = subst (λ r. In (backward_at r p.relation p.source) s.stored) own m

    carry_back_sound :
        (carry : ℕ)
        → In carry (rows p.relation s.propagations)
        → Yields x (carry_back d s p carry)
        → Concludes d s x
    unfolding carry_back
    carry_back_sound carry row y =
        let e : x ≡ composed_at p.source carry = ground arith in
        subst (Concludes d s) (sym e) (
          Calculus.some_values here (
            (h.filed (propagation_at s.root p.relation carry)
                (unfold conclusion_destination in refl)).1
              row))

    compose_right_sound :
        (row : ℕ × List ℕ)
        → In row (items (d.properties.compositions_by_right p.relation false))
        → Yields x (compose_right d s p row)
        → Concludes d s x
    unfolding compose_right compose_target
    compose_right_sound (chain, results) row y =
        let (target, f, y') =
          Yields-for_each x (rows chain s.forward_links) (compose_target d s p chain results) y in
        let link : ForwardLink = record { destination = s.root; chain = chain; target = target } in
        let (result, r, z) = Yields-for_each x results (produce_link_composition d p link) y' in
        produce_link_composition_sound d ix s h x p link result m
          (stored_forward d ix s h x chain target f) own
          (
            results,
            (In-items (d.properties.compositions_by_right p.relation false) chain results).0 row,
            r,
          )
          z

    on_backward_link_sound : Yields x (on_backward_link d s p) → Concludes d s x
    unfolding on_backward_link attach_range
    on_backward_link_sound y = elim (Yields-& x _ _ y) [
      | inl z ↦
          let e : x ≡ subcontext_at s.root p.relation = ground arith in
          subst (Concludes d s) (sym e) (Calculus.subcontext here)
      | inr y1 ↦ elim (Yields-& x _ _ y1) [
        | inl z ↦
            let (carry, row, w) =
              Yields-for_each x (rows p.relation s.propagations) (carry_back d s p) z in
            carry_back_sound carry row w
        | inr y2 ↦ elim (Yields-& x _ _ y2) [
          | inl z ↦
              let cases : (x ≡ inconsistent_at p.source) × (s.inconsistent ≡ true) = ground arith in
              subst (Concludes d s) (sym cases.0) (
                Calculus.inconsistent_source here (
                  (h.filed (inconsistent_at s.root) (unfold conclusion_destination in refl)).1
                    cases.1))
          | inr y3 ↦ elim (Yields-& x _ _ y3) [
            | inl z ↦
                let (range, row, w) =
                  Yields-for_each x (d.properties.ranges p.relation) (attach_range d s) z in
                let e : x ≡ decomposed_at s.root range = ground arith in
                subst (Concludes d s) (sym e) (Calculus.range row here)
            | inr z ↦
                let (row, i, w) =
                  Yields-for_each x (items (d.properties.compositions_by_right p.relation false))
                    (compose_right d s p) z in
                compose_right_sound row i w
          ]
        ]
      ]
    ]

  on_propagation_sound :
      (p : Propagation)
      → In (propagation p) s.stored
      → p.destination ≡ s.root
      → Yields x (on_propagation s p)
      → Concludes d s x
  unfolding on_propagation carry_source
  on_propagation_sound p m own y =
      let (source, row, z) =
        Yields-for_each x (rows p.relation s.backward_links) (carry_source s p) y in
      let e : x ≡ composed_at source p.carry_existential = ground arith in
      subst (Concludes d s) (sym e) (
        Calculus.some_values (stored_backward d ix s h x p.relation source row)
          (subst (λ r. In (propagation_at r p.relation p.carry_existential) s.stored) own m))

  on_disjoint_subsumer_sound :
      (p : DisjointSubsumer)
      → In (disjoint_subsumer p) s.stored
      → p.destination ≡ s.root
      → Yields x (on_disjoint_subsumer s p)
      → Concludes d s x
  unfolding on_disjoint_subsumer contradict_position
  on_disjoint_subsumer_sound p m own y =
      let (i, row, z) =
        Yields-for_each x (rows p.disjoint_group s.disjoint_positions) (contradict_position s p)
          y in
      let cases : (x ≡ inconsistent_at p.destination) × (p.position ≢ i) = ground arith in
      subst (Concludes d s) (sym cases.0) (
        Calculus.disjoint p.position i cases.1 m (
          subst (λ r. In (disjoint_at r p.disjoint_group i) s.stored) (sym own)
            ((h.filed (disjoint_at s.root p.disjoint_group i)
                (unfold conclusion_destination in refl)).1
              row)))

  on_class_inconsistency_sound :
      (p : ClassInconsistency)
      → In (class_inconsistency p) s.stored
      → p.destination ≡ s.root
      → Yields x (on_class_inconsistency s p)
      → Concludes d s x
  unfolding on_class_inconsistency contradict_sources contradict_source
  on_class_inconsistency_sound p m own y =
      let (row, i, z) = Yields-for_each x (items s.backward_links) (contradict_sources s p) y in
      let (source, j, w) = Yields-for_each x row.1 (contradict_source s p row.0) z in
      let found = (In-items s.backward_links row.0 row.1).0 i in
      let e : x ≡ inconsistent_at source = ground arith in
      subst (Concludes d s) (sym e) (
        Calculus.inconsistent_source
          (stored_backward d ix s h x row.0 source (In-rows s.backward_links row.0 source found j))
          (subst (λ r. In (inconsistent_at r) s.stored) own m))

  dispatch_family_sound :
      (c : Conclusion)
      → In c s.stored
      → conclusion_destination c ≡ s.root
      → Yields x (dispatch_family d s c)
      → Concludes d s x
  unfolding dispatch_family conclusion_destination
  dispatch_family_sound (context_initialization p) m own y =
      on_context_initialization_sound d ix s h p x m y
  dispatch_family_sound (subcontext_initialization p) m own y =
      on_subcontext_initialization_sound d ix s h p x m own y
  dispatch_family_sound (decomposed p) m own y = on_decomposed_subsumer_sound d ix s h p x m own y
  dispatch_family_sound (composed p) m own y = on_composed_subsumer_sound d ix s h p x m own y
  dispatch_family_sound (forward_link p) m own y = on_forward_link_sound d ix s h x sym' p m own y
  dispatch_family_sound (backward_link p) m own y = on_backward_link_sound p m own y
  dispatch_family_sound (propagation p) m own y = on_propagation_sound p m own y
  dispatch_family_sound (disjoint_subsumer p) m own y = on_disjoint_subsumer_sound p m own y
  dispatch_family_sound (class_inconsistency p) m own y = on_class_inconsistency_sound p m own y

pub contains-eq-true : (c : Conclusion) (s : ContextState) → contains c s ≡ ok true → In c s.stored
unfolding contains check_destination
contains-eq-true c s e = ground (arith, has_iff c s.stored)

pub dispatch_indexed_sound :
    (d : RuleDispatcher) (s : ContextState) (premise x : Conclusion) (out : List Conclusion)
    → IsIndexed d
    → IsSymmetric d.properties
    → IsConsistent s
    → dispatch d s premise ≡ ok out
    → In x out
    → Infers d.compiled d.properties d.owl_thing d.owl_nothing (λ y. In y s.stored) x
unfolding dispatch
dispatch_indexed_sound d s premise x out ix sy h e m =
    let (present, found, rest) = >>=-eq-ok (contains premise s) _ e in
    elim (Bool-cases present) [
      | inl t ↦
          let stored : In premise s.stored = contains-eq-true premise s (found ∙ ap ok t) in
          dispatch_family_sound d ix sy s h x premise stored (h.owned premise stored)
            (subst (Yields x) (sym (rw t at rest)) m)
      | inr f ↦ let bad : err value_error ≡ ok out = rw f at rest in cc
    ]
