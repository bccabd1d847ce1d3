-- ===== src/Rules/GivesDecomposed.antt =====
-- What the handler of a decomposed subsumer gives (src/pyelk/reasoning/rules.py,
-- `_on_decomposed_subsumer`): the conclusion of each rule that has the subsumer as a premise.
use py_elk.Prelude.{
  ℕ, ◌≡◌, ◌<◌, List, ◌∷◌, true, false, some, In, has_iff, nat_ordered, arith, get_elem?, ok, Gives,
  Gives-bind, Gives-for_each, take, skip, lt→ltb, ltb,
}
use py_elk.Ir.{ExpressionTag, ExpressionOccurrence, ExpressionRecord}
use py_elk.Conclusion.{
  Conclusion, SubClassInclusionDecomposed, composed_at, decomposed_at, forward_at, backward_at,
  inconsistent_at, conclusion_destination,
}
use py_elk.Context.{ContextState}
use py_elk.Context.Invariant.{IsConsistent}
use py_elk.Rules.Index.{RuleDispatcher}
use py_elk.Rules.Calculus.{Expression, Extends}
use py_elk.Rules.Lookups.{Equivalence, IsIndexed}
use py_elk.Rules.Decomposition.{
  expand_definition, decompose_intersection, decompose_some_values, has_self_range_at,
  decompose_has_self, contradict_negated, decompose_by_tag, contradict_nothing,
  decompose_expression, on_decomposed_subsumer,
}

module _ (d : RuleDispatcher) (ix : IsIndexed d) (s : ContextState) (h : IsConsistent s) (r : ℕ)
    (own : r ≡ s.root) where
  abbrev pub premise : ℕ → SubClassInclusionDecomposed
  premise a = record { destination = r; subsumer = a }

  pub compose-Gives : (e : ℕ) → Gives (composed_at r e) (on_decomposed_subsumer d s (premise e))
  unfolding on_decomposed_subsumer
  compose-Gives e = take _ _ _ (ground arith)

  pub definition-Gives :
      (first second : ℕ)
      → Equivalence d.compiled true first second
      → Gives (decomposed_at r second) (on_decomposed_subsumer d s (premise first))
  unfolding on_decomposed_subsumer expand_definition
  definition-Gives first second m =
      skip _ _ _ (
        take _ _ _ (Gives-for_each _ _ _ second ((ix.definitions first second).1 m) (ground arith)))

  -- The branch of the expression's tag.
  by_tag-Gives :
      (x : Conclusion) (e : ℕ) (tag : ExpressionTag) (args : List ℕ) (o : ExpressionOccurrence)
      → Expression d.compiled e tag args o
      → Gives x (decompose_by_tag d tag s (premise e) args o)
      → Gives x (on_decomposed_subsumer d s (premise e))
  unfolding on_decomposed_subsumer decompose_expression
  by_tag-Gives x e tag args o n g =
      skip _ _ _ (skip _ _ _ (rw (n.row, decompose_expression) (rw n.occurrence (take _ _ _ g))))

  pub owl_nothing-Gives :
      (record_at : ExpressionRecord) (o : ExpressionOccurrence)
      → get_elem? d.compiled.expressions d.owl_nothing ≡ some record_at
      → get_elem? d.compiled.expression_occurrences d.owl_nothing ≡ some o
      → 0 < o.positive
      → Gives (inconsistent_at r) (on_decomposed_subsumer d s (premise d.owl_nothing))
  unfolding on_decomposed_subsumer decompose_expression contradict_nothing
  owl_nothing-Gives record_at o row occurrence positive =
      let flagged : d.decompose_nothing ≡ true = ix.nothing.1 (o, occurrence, positive) in
      skip _ _ _ (
        skip _ _ _
          (rw (row, decompose_expression) (rw occurrence (skip _ _ _ (rw flagged (ground arith))))))

  module _ (e : ℕ) (o : ExpressionOccurrence) (positive : 0 < o.positive) where
    met : ltb 0 o.positive ≡ true
    met = lt→ltb 0 o.positive positive

    pub first_conjunct-Gives :
        (a b : ℕ) (rest : List ℕ)
        → Expression d.compiled e ExpressionTag.object_intersection_of (a ∷ b ∷ rest) o
        → Gives (decomposed_at r a) (on_decomposed_subsumer d s (premise e))
    unfolding decompose_by_tag decompose_intersection
    first_conjunct-Gives a b rest n = by_tag-Gives _ e _ _ o n (rw met (ground arith))

    pub second_conjunct-Gives :
        (a b : ℕ) (rest : List ℕ)
        → Expression d.compiled e ExpressionTag.object_intersection_of (a ∷ b ∷ rest) o
        → Gives (decomposed_at r b) (on_decomposed_subsumer d s (premise e))
    unfolding decompose_by_tag decompose_intersection
    second_conjunct-Gives a b rest n = by_tag-Gives _ e _ _ o n (rw met (ground arith))

    pub some_values_backward-Gives :
        (p f : ℕ) (rest : List ℕ)
        → Expression d.compiled e ExpressionTag.object_some_values_from (p ∷ f ∷ rest) o
        → Gives (backward_at f p r) (on_decomposed_subsumer d s (premise e))
    unfolding decompose_by_tag decompose_some_values
    some_values_backward-Gives p f rest n = by_tag-Gives _ e _ _ o n (
        rw met (
          Gives-bind _ (d.properties.singleton_chain p) _ (λ chain _.
            Gives-bind _ (d.properties.compositions_by_left chain false) _
              (λ left _. ground arith))))

    pub some_values_forward-Gives :
        (p f chain : ℕ) (rest : List ℕ)
        → Expression d.compiled e ExpressionTag.object_some_values_from (p ∷ f ∷ rest) o
        → d.properties.singleton_chain p ≡ ok chain
        → Extends d.properties chain false
        → Gives (forward_at r chain f) (on_decomposed_subsumer d s (premise e))
    unfolding decompose_by_tag decompose_some_values
    some_values_forward-Gives p f chain rest n single (left, found, more) =
        by_tag-Gives _ e _ _ o n (rw met (rw (single, found) (ground arith)))

    pub has_self_backward-Gives :
        (p : ℕ) (rest : List ℕ)
        → Expression d.compiled e ExpressionTag.object_has_self (p ∷ rest) o
        → Gives (backward_at r p r) (on_decomposed_subsumer d s (premise e))
    unfolding decompose_by_tag decompose_has_self
    has_self_backward-Gives p rest n = by_tag-Gives _ e _ _ o n (
        rw met (
          Gives-bind _ (d.properties.singleton_chain p) _ (λ chain _.
            Gives-bind _ (d.properties.compositions_by_left chain false) _
              (λ left _. take _ _ _ (ground arith)))))

    pub has_self_forward-Gives :
        (p chain : ℕ) (rest : List ℕ)
        → Expression d.compiled e ExpressionTag.object_has_self (p ∷ rest) o
        → d.properties.singleton_chain p ≡ ok chain
        → Extends d.properties chain false
        → Gives (forward_at r chain r) (on_decomposed_subsumer d s (premise e))
    unfolding decompose_by_tag decompose_has_self
    has_self_forward-Gives p chain rest n single (left, found, more) =
        by_tag-Gives _ e _ _ o n (rw met (rw (single, found) (take _ _ _ (ground arith))))

    pub has_self_range-Gives :
        (p x : ℕ) (rest : List ℕ)
        → Expression d.compiled e ExpressionTag.object_has_self (p ∷ rest) o
        → In x (d.properties.ranges p)
        → Gives (decomposed_at r x) (on_decomposed_subsumer d s (premise e))
    unfolding decompose_by_tag decompose_has_self has_self_range_at
    has_self_range-Gives p x rest n m = by_tag-Gives _ e _ _ o n (
        rw met (
          Gives-bind _ (d.properties.singleton_chain p) _ (λ chain _.
            Gives-bind _ (d.properties.compositions_by_left chain false) _
              (λ left _. skip _ _ _ (Gives-for_each _ _ _ x m (ground arith))))))

    pub complement-Gives :
        (a : ℕ) (rest : List ℕ)
        → Expression d.compiled e ExpressionTag.object_complement_of (a ∷ rest) o
        → In (composed_at r a) s.stored
        → Gives (inconsistent_at r) (on_decomposed_subsumer d s (premise e))
    unfolding decompose_by_tag contradict_negated conclusion_destination
    complement-Gives a rest n m =
        let here = (has_iff a s.composed_subsumers).1 ((h.filed (composed_at r a) own).0 m) in
        by_tag-Gives _ e _ _ o n (
          rw met (
            Gives-for_each _ _ _ a ((ix.complements a e).1 (rest, (o, n, positive)))
              (rw here (ground arith))))
