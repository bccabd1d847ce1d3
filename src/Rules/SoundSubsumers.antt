-- ===== src/Rules/SoundSubsumers.antt =====
-- Soundness of the handlers of src/pyelk/reasoning/rules.py: what the handler of a decomposed
-- subsumer produces, one rule concludes from stored conclusions.
use py_elk.Prelude.{
  ℕ, ◌≡◌, refl, sym, subst, ◌⊎◌, inl, inr, List, [], ◌∷◌, Bool, true, false, In, has, has_iff, rows,
  get_elem?, nat_ordered, arith, Option-cases, or_raise, or_raise-eq-ok, index_error, ok, Yields,
  Yields-&, Yields-bind, Yields-for_each, for_each, ◌&◌, ltb, ltb→lt, ◌<◌, ◌≢◌, Result,
  if◌then◌else◌,
}
use py_elk.Ir.{ExpressionTag, ExpressionOccurrence}
use py_elk.Conclusion.{
  Conclusion, SubClassInclusionDecomposed, decomposed, decomposed_at, composed_at, forward_at,
  backward_at, inconsistent_at,
}
use py_elk.Context.{ContextState}
use py_elk.Context.Invariant.{IsConsistent}
use py_elk.Rules.Index.{RuleDispatcher}
use py_elk.Rules.Lookups.{IsIndexed}
use py_elk.Rules.Calculus
use py_elk.Rules.Calculus.{Infers, Expression}
use py_elk.Rules.Decomposition.{
  expand_definition, decompose_intersection, decompose_some_values, has_self_range_at,
  decompose_has_self, contradict_negated, decompose_by_tag, contradict_nothing,
  decompose_expression, on_decomposed_subsumer,
}
use py_elk.Rules.SoundInitialization.{Concludes, stored_composed}

module _ (d : RuleDispatcher) (ix : IsIndexed d) (s : ContextState) (h : IsConsistent s) where
  expand_definition_sound :
      (p : SubClassInclusionDecomposed) (definition : ℕ) (x : Conclusion)
      → In (decomposed p) s.stored
      → In definition (rows p.subsumer d.equivalences.definitions_by_class)
      → Yields x (expand_definition d p definition)
      → Concludes d s x
  unfolding expand_definition
  expand_definition_sound p definition x m row y =
      let e : x ≡ decomposed_at p.destination definition = ground arith in
      let (r, told, found, class) = (ix.definitions p.subsumer definition).0 row in
      subst (Concludes d s) (sym e) (Calculus.definition told found class m)

  module _ (p : SubClassInclusionDecomposed) (x : Conclusion) (m : In (decomposed p) s.stored)
      (own : p.destination ≡ s.root) where
    abbrev Row : ExpressionTag → List ℕ → ExpressionOccurrence → Type 0
    Row tag args o = Expression d.compiled p.subsumer tag args o

    decompose_intersection_sound :
        (args : List ℕ) (o : ExpressionOccurrence)
        → Row ExpressionTag.object_intersection_of args o
        → 0 < o.positive
        → Yields x (decompose_intersection d p args)
        → Concludes d s x
    unfolding decompose_intersection
    decompose_intersection_sound (a ∷ b ∷ rest) o expression positive y =
        let cases : (x ≡ decomposed_at p.destination a) ⊎ (x ≡ decomposed_at p.destination b) =
          ground arith in
        elim cases [
          | inl e ↦ subst (Concludes d s) (sym e) (Calculus.first_conjunct expression positive m)
          | inr e ↦ subst (Concludes d s) (sym e) (Calculus.second_conjunct expression positive m)
        ]
    decompose_intersection_sound [] o expression positive y = absurd y
    decompose_intersection_sound (a ∷ []) o expression positive y = absurd y

    decompose_some_values_sound :
        (args : List ℕ) (o : ExpressionOccurrence)
        → Row ExpressionTag.object_some_values_from args o
        → 0 < o.positive
        → Yields x (decompose_some_values d p args)
        → Concludes d s x
    unfolding decompose_some_values
    decompose_some_values_sound (q ∷ f ∷ rest) o expression positive y =
        let (chain, single, y') = Yields-bind x (d.properties.singleton_chain q) _ y in
        let (left, found, y'') =
          Yields-bind x (d.properties.compositions_by_left chain false) _ y' in
        let cases : (x ≡ backward_at f q p.destination)
            ⊎ (x ≡ forward_at p.destination chain f) × (left ≢ []) =
          ground arith in
        elim cases [
          | inl e ↦
              subst (Concludes d s) (sym e) (Calculus.some_values_backward expression positive m)
          | inr (e, more) ↦
              subst (Concludes d s) (sym e)
                (Calculus.some_values_forward expression positive single (left, found, more) m)
        ]
    decompose_some_values_sound [] o expression positive y = absurd y
    decompose_some_values_sound (a ∷ []) o expression positive y = absurd y

    has_self_range_at_sound :
        (q r : ℕ) (rest : List ℕ) (o : ExpressionOccurrence)
        → Row ExpressionTag.object_has_self (q ∷ rest) o
        → 0 < o.positive
        → In r (d.properties.ranges q)
        → Yields x (has_self_range_at d p q r)
        → Concludes d s x
    unfolding has_self_range_at
    has_self_range_at_sound q r rest o expression positive range y =
        let e : x ≡ decomposed_at p.destination r = ground arith in
        subst (Concludes d s) (sym e) (Calculus.has_self_range expression positive range m)

    decompose_has_self_sound :
        (args : List ℕ) (o : ExpressionOccurrence)
        → Row ExpressionTag.object_has_self args o
        → 0 < o.positive
        → Yields x (decompose_has_self d p args)
        → Concludes d s x
    unfolding decompose_has_self
    decompose_has_self_sound (q ∷ rest) o expression positive y =
        let (chain, single, y') = Yields-bind x (d.properties.singleton_chain q) _ y in
        let (left, found, y'') =
          Yields-bind x (d.properties.compositions_by_left chain false) _ y' in
        elim (Yields-& x _ (for_each (d.properties.ranges q) (has_self_range_at d p q)) y'') [
          | inl links ↦
              let cases : (x ≡ backward_at p.destination q p.destination)
                  ⊎ (x ≡ forward_at p.destination chain p.destination) × (left ≢ []) =
                ground arith in
              elim cases [
                | inl e ↦
                    subst (Concludes d s) (sym e) (Calculus.has_self_backward expression positive m)
                | inr (e, more) ↦
                    subst (Concludes d s) (sym e)
                      (Calculus.has_self_forward expression positive single (left, found, more) m)
              ]
          | inr ranges ↦
              let (r, range, y''') =
                Yields-for_each x (d.properties.ranges q) (has_self_range_at d p q) ranges in
              has_self_range_at_sound q r rest o expression positive range y'''
        ]
    decompose_has_self_sound [] o expression positive y = absurd y

    contradict_negated_sound :
        (negated : ℕ)
        → In negated (rows p.subsumer d.indexes.positive_complements)
        → Yields x (contradict_negated d s p negated)
        → Concludes d s x
    unfolding contradict_negated
    contradict_negated_sound negated row y =
        let (rest, why) = (ix.complements negated p.subsumer).0 row in
        let (o, expression, positive) = why in
        let cases : (x ≡ inconsistent_at s.root) × (has negated s.composed_subsumers ≡ true) =
          ground arith in
        subst (Concludes d s) (sym cases.0) (
          Calculus.complement expression positive
            (stored_composed d ix s h negated ((has_iff negated s.composed_subsumers).0 cases.1))
            (subst (λ r. In (decomposed_at r p.subsumer) s.stored) own m))

    contradict_nothing_sound : Yields x (contradict_nothing d p) → Concludes d s x
    unfolding contradict_nothing
    contradict_nothing_sound y =
        let cases : (x ≡ inconsistent_at p.destination)
            × (d.decompose_nothing ≡ true)
            × (p.subsumer ≡ d.owl_nothing) =
          ground arith in
        let (o, found, positive) = ix.nothing.0 cases.1 in
        subst (Concludes d s) (sym cases.0) (
          Calculus.owl_nothing found positive
            (subst (λ e. In (decomposed_at p.destination e) s.stored) cases.2 m))

    guarded :
        (b : Bool) (r : Result (List Conclusion))
        → Yields x (if b then r else ok [])
        → (b ≡ true) × Yields x r
    guarded true r y = (refl, y)
    guarded false r y = absurd y

    decompose_by_tag_sound :
        (tag : ExpressionTag) (args : List ℕ) (o : ExpressionOccurrence)
        → Row tag args o
        → Yields x (decompose_by_tag d tag s p args o)
        → Concludes d s x
    unfolding decompose_by_tag
    decompose_by_tag_sound ExpressionTag.object_intersection_of args o row y =
        let (b, z) = guarded (ltb 0 o.positive) _ y in
        decompose_intersection_sound args o row (ltb→lt 0 o.positive b) z
    decompose_by_tag_sound ExpressionTag.object_some_values_from args o row y =
        let (b, z) = guarded (ltb 0 o.positive) _ y in
        decompose_some_values_sound args o row (ltb→lt 0 o.positive b) z
    decompose_by_tag_sound ExpressionTag.object_has_self args o row y =
        let (b, z) = guarded (ltb 0 o.positive) _ y in
        decompose_has_self_sound args o row (ltb→lt 0 o.positive b) z
    decompose_by_tag_sound ExpressionTag.object_complement_of args o row y =
        let (b, z) = guarded (ltb 0 o.positive) _ y in
        let (negated, r, z') =
          Yields-for_each x (rows p.subsumer d.indexes.positive_complements)
            (contradict_negated d s p) z in
        contradict_negated_sound negated r z'
    decompose_by_tag_sound _ args o row y = absurd y

    decompose_expression_sound : Yields x (decompose_expression d s p) → Concludes d s x
    unfolding decompose_expression
    decompose_expression_sound y =
        elim (Option-cases (get_elem? d.compiled.expressions p.subsumer)) [
          | inl e ↦ absurd (rw (e, decompose_expression) at y)
          | inr (r, e) ↦
              let (o, found, z) =
                Yields-bind x
                  (or_raise index_error (get_elem? d.compiled.expression_occurrences p.subsumer)) _
                  (rw (e, decompose_expression) at y) in
              elim (Yields-& x _ (contradict_nothing d p) z) [
                | inl left ↦
                    decompose_by_tag_sound r.tag r.arguments o
                      (record {
                        payload = r.payload;
                        row = e;
                        occurrence = or_raise-eq-ok index_error _ found;
                      })
                      left
                | inr right ↦ contradict_nothing_sound right
              ]
        ]

    pub on_decomposed_subsumer_sound : Yields x (on_decomposed_subsumer d s p) → Concludes d s x
    unfolding on_decomposed_subsumer
    on_decomposed_subsumer_sound y =
        let definitions =
          for_each (rows p.subsumer d.equivalences.definitions_by_class) (expand_definition d p) in
        elim (Yields-& x _ (definitions & decompose_expression d s p) y) [
          | inl first ↦
              let e : x ≡ composed_at p.destination p.subsumer = ground arith in
              subst (Concludes d s) (sym e) (Calculus.compose m)
          | inr z ↦ elim (Yields-& x definitions (decompose_expression d s p) z) [
            | inl defs ↦
                let (definition, row, y') =
                  Yields-for_each x (rows p.subsumer d.equivalences.definitions_by_class)
                    (expand_definition d p) defs in
                expand_definition_sound p definition x m row y'
            | inr rest ↦ decompose_expression_sound rest
          ]
        ]
