-- ===== src/Rules/GivesComposed.antt =====
-- What the handler of a composed subsumer gives (src/pyelk/reasoning/rules.py,
-- `_on_composed_subsumer`): the conclusion of each rule that has the subsumer as a premise.
use py_elk.Prelude.{
  ℕ, ◌≡◌, List, ◌∷◌, true, false, some, In, has_iff, nat_ordered, arith, get_elem?, ok, Gives,
  Gives-bind, Gives-for_each, take, skip,
}
use py_elk.Ir.{ExpressionTag}
use py_elk.Conclusion.{
  SubClassInclusionComposed, composed_at, decomposed_at, subcontext_at, propagation_at, disjoint_at,
  inconsistent_at, conclusion_destination,
}
use py_elk.Context.{ContextState}
use py_elk.Context.Invariant.{IsConsistent}
use py_elk.Rules.Index.{RuleDispatcher}
use py_elk.Rules.Lookups.{Negative, Positive, Equivalence, IsIndexed}
use py_elk.Rules.Composition.{
  expand_subclass, compose_defined, expand_first, expand_second, join_second, join_first,
  compose_union, carry_relation, carry_existential, contradict_complement, note_disjoint,
  on_composed_subsumer,
}

module _ (d : RuleDispatcher) (ix : IsIndexed d) (s : ContextState) (h : IsConsistent s) (r : ℕ)
    (own : r ≡ s.root) where
  abbrev pub premise : ℕ → SubClassInclusionComposed
  premise a = record { destination = r; subsumer = a }

  pub subclass-Gives :
      (sub super : ℕ)
      → In (sub, super) d.compiled.subclass_axioms
      → Gives (decomposed_at r super) (on_composed_subsumer d s (premise sub))
  unfolding on_composed_subsumer expand_subclass
  subclass-Gives sub super m =
      take _ _ _ (Gives-for_each _ _ _ super ((ix.subclasses sub super).1 m) (ground arith))

  pub defined_class-Gives :
      (first second : ℕ)
      → Equivalence d.compiled true first second
      → Gives (composed_at r first) (on_composed_subsumer d s (premise second))
  unfolding on_composed_subsumer compose_defined
  defined_class-Gives first second m =
      skip _ _ _
        (take _ _ _ (Gives-for_each _ _ _ first ((ix.defined first second).1 m) (ground arith)))

  pub equivalent_first-Gives :
      (first second : ℕ)
      → Equivalence d.compiled false first second
      → Gives (decomposed_at r first) (on_composed_subsumer d s (premise second))
  unfolding on_composed_subsumer expand_first
  equivalent_first-Gives first second m = skip _ _ _ (
      skip _ _ _
        (take _ _ _ (Gives-for_each _ _ _ first ((ix.firsts first second).1 m) (ground arith))))

  pub equivalent_second-Gives :
      (first second : ℕ)
      → Equivalence d.compiled false first second
      → Gives (decomposed_at r second) (on_composed_subsumer d s (premise first))
  unfolding on_composed_subsumer expand_second
  equivalent_second-Gives first second m = skip _ _ _ (
      skip _ _ _ (
        skip _ _ _ (
          take _ _ _ (Gives-for_each _ _ _ second ((ix.seconds first second).1 m) (ground arith)))))

  pub disjunct-Gives :
      (a e i : ℕ) (args : List ℕ)
      → Negative d.compiled e ExpressionTag.object_union_of args
      → get_elem? args i ≡ some a
      → Gives (composed_at r e) (on_composed_subsumer d s (premise a))
  unfolding on_composed_subsumer compose_union
  disjunct-Gives a e i args n found = skip _ _ _ (
      skip _ _ _ (
        skip _ _ _ (
          skip _ _ _ (
            skip _ _ _ (
              skip _ _ _ (
                take _ _ _ (
                  Gives-for_each _ _ _ (e, i) ((ix.by_disjunct a e i).1 (args, n, found))
                    (ground arith))))))))

  pub disjoint_member-Gives :
      (a g i : ℕ) (members : List ℕ)
      → get_elem? d.compiled.disjoint_groups g ≡ some members
      → get_elem? members i ≡ some a
      → Gives (disjoint_at r g i) (on_composed_subsumer d s (premise a))
  unfolding on_composed_subsumer note_disjoint
  disjoint_member-Gives a g i members found at = skip _ _ _ (
      skip _ _ _ (
        skip _ _ _ (
          skip _ _ _ (
            skip _ _ _ (
              skip _ _ _ (
                skip _ _ _ (
                  skip _ _ _ (
                    skip _ _ _ (
                      Gives-for_each _ _ _ (g, i) ((ix.by_member a g i).1 (members, found, at))
                        (ground arith))))))))))

  stored_composed_at : (a : ℕ) → In (composed_at r a) s.stored → In a s.composed_subsumers
  unfolding conclusion_destination
  stored_composed_at a m = (h.filed (composed_at r a) own).0 m

  stored_decomposed_at : (a : ℕ) → In (decomposed_at r a) s.stored → In a s.decomposed_subsumers
  unfolding conclusion_destination
  stored_decomposed_at a m = (h.filed (decomposed_at r a) own).0 m

  stored_subcontext_at : (a : ℕ) → In (subcontext_at r a) s.stored → In a s.initialized_subcontexts
  unfolding conclusion_destination
  stored_subcontext_at a m = (h.filed (subcontext_at r a) own).0 m

  pub first_operand-Gives :
      (a b e : ℕ) (rest : List ℕ)
      → Negative d.compiled e ExpressionTag.object_intersection_of (a ∷ b ∷ rest)
      → In (composed_at r b) s.stored
      → Gives (composed_at r e) (on_composed_subsumer d s (premise a))
  unfolding on_composed_subsumer join_second
  first_operand-Gives a b e rest n m =
      let other = (has_iff b s.composed_subsumers).1 (stored_composed_at b m) in
      skip _ _ _ (
        skip _ _ _ (
          skip _ _ _ (
            skip _ _ _ (
              take _ _ _ (
                Gives-for_each _ _ _ (b, e) ((ix.by_first a b e).1 (rest, n))
                  (rw other (ground arith)))))))

  pub second_operand-Gives :
      (a b e : ℕ) (rest : List ℕ)
      → Negative d.compiled e ExpressionTag.object_intersection_of (a ∷ b ∷ rest)
      → In (composed_at r a) s.stored
      → Gives (composed_at r e) (on_composed_subsumer d s (premise b))
  unfolding on_composed_subsumer join_first
  second_operand-Gives a b e rest n m =
      let other = (has_iff a s.composed_subsumers).1 (stored_composed_at a m) in
      skip _ _ _ (
        skip _ _ _ (
          skip _ _ _ (
            skip _ _ _ (
              skip _ _ _ (
                take _ _ _ (
                  Gives-for_each _ _ _ (a, e) ((ix.by_second a b e).1 (rest, n))
                    (rw other (ground arith))))))))

  pub negated-Gives :
      (a e : ℕ) (rest : List ℕ)
      → Positive d.compiled e ExpressionTag.object_complement_of (a ∷ rest)
      → In (decomposed_at r e) s.stored
      → Gives (inconsistent_at r) (on_composed_subsumer d s (premise a))
  unfolding on_composed_subsumer contradict_complement
  negated-Gives a e rest n m =
      let other = (has_iff e s.decomposed_subsumers).1 (stored_decomposed_at e m) in
      skip _ _ _ (
        skip _ _ _ (
          skip _ _ _ (
            skip _ _ _ (
              skip _ _ _ (
                skip _ _ _ (
                  skip _ _ _ (
                    skip _ _ _ (
                      take _ _ _ (
                        Gives-for_each _ _ _ e ((ix.by_negated a e).1 (rest, n))
                          (rw other (ground arith)))))))))))

  pub carry_relation-Gives :
      (f e chain relation : ℕ) (subs : List ℕ)
      → In relation subs
      → Gives (propagation_at r relation e) (carry_relation d s (premise f) e chain subs relation)
  unfolding carry_relation
  carry_relation-Gives f e chain relation subs m =
      rw ((has_iff relation subs).1 m)
        (Gives-bind _ (d.properties.singleton_chain relation) _ (λ a _. ground arith))

  pub filler-Gives :
      (f e q chain relation : ℕ) (rest subs : List ℕ)
      → Negative d.compiled e ExpressionTag.object_some_values_from (q ∷ f ∷ rest)
      → d.properties.singleton_chain q ≡ ok chain
      → d.properties.sub_properties chain ≡ ok subs
      → In relation subs
      → In (subcontext_at r relation) s.stored
      → Gives (propagation_at r relation e) (on_composed_subsumer d s (premise f))
  unfolding on_composed_subsumer carry_existential
  filler-Gives f e q chain relation rest subs n single found m stored = skip _ _ _ (
      skip _ _ _ (
        skip _ _ _ (
          skip _ _ _ (
            skip _ _ _ (
              skip _ _ _ (
                skip _ _ _ (
                  take _ _ _ (
                    Gives-for_each _ _ _ (e, q) ((ix.by_filler f e q).1 (rest, n))
                      (rw (single, found)
                        (Gives-for_each _ _ _ relation (stored_subcontext_at relation stored)
                          (carry_relation-Gives f e chain relation subs m)))))))))))
