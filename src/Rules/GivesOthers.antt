-- ===== src/Rules/GivesOthers.antt =====
-- What the handlers of initializations, propagations and contradictions give
-- (src/pyelk/reasoning/rules.py): the conclusion of each rule that has the conclusion as a premise.
use py_elk.Prelude.{
  ℕ, ◌≡◌, ◌≢◌, refl, ◌<◌, List, [], ◌∷◌, Option, none, some, In, has_iff, nat_ordered, arith,
  get_elem?, lookup, items, In-items, ok, Gives, Gives-bind, Gives-for_each,
}
use py_elk.Ir.{ExpressionTag, ExpressionOccurrence}
use py_elk.Conclusion.{
  composed_at, decomposed_at, backward_at, propagation_at, disjoint_at, inconsistent_at,
  conclusion_destination,
}
use py_elk.Context.{ContextState}
use py_elk.Context.Invariant.{IsConsistent}
use py_elk.Rules.Index.{RuleDispatcher}
use py_elk.Rules.Lookups.{Negative, IsIndexed}
use py_elk.Rules.Decomposition.{
  on_context_initialization, carry_at, carry_filler, on_subcontext_initialization,
}
use py_elk.Rules.LinkHandlers.{
  carry_source, on_propagation, contradict_position, on_disjoint_subsumer, contradict_source,
  contradict_sources, on_class_inconsistency,
}

module _ (d : RuleDispatcher) (ix : IsIndexed d) (r : ℕ) where
  pub tautology-Gives :
      Gives (decomposed_at r r) (on_context_initialization d (record { root = r }))
  unfolding on_context_initialization
  tautology-Gives = ground arith

  pub owl_thing-Gives :
      (o : ExpressionOccurrence)
      → get_elem? d.compiled.expression_occurrences d.owl_thing ≡ some o
      → 0 < o.negative
      → Gives (composed_at r d.owl_thing) (on_context_initialization d (record { root = r }))
  unfolding on_context_initialization
  owl_thing-Gives o found negative = rw (ix.thing.1 (o, found, negative)) (ground arith)

  module _ (s : ContextState) (h : IsConsistent s) (own : r ≡ s.root) where
    pub initialized_filler-Gives :
        (f e q chain relation : ℕ) (rest subs : List ℕ)
        → Negative d.compiled e ExpressionTag.object_some_values_from (q ∷ f ∷ rest)
        → d.properties.singleton_chain q ≡ ok chain
        → d.properties.sub_properties chain ≡ ok subs
        → In relation subs
        → In (composed_at r f) s.stored
        → Gives (propagation_at r relation e) (
            on_subcontext_initialization d s
              (record { destination = r; sub_destination_property = relation }))
    unfolding on_subcontext_initialization carry_filler carry_at conclusion_destination
    initialized_filler-Gives f e q chain relation rest subs n single found m stored =
        Gives-bind _ (d.properties.singleton_chain relation) _ (λ relation_chain _.
          Gives-for_each _ _ _ f ((h.filed (composed_at r f) own).0 stored) (
            Gives-for_each _ _ _ (e, q) ((ix.by_filler f e q).1 (rest, n))
              (rw (single, found) (rw ((has_iff relation subs).1 m) (ground arith)))))

module _ (r : ℕ) (s : ContextState) (h : IsConsistent s) (own : r ≡ s.root) where
  pub carried_back-Gives :
      (relation source e : ℕ)
      → In (backward_at r relation source) s.stored
      → Gives (composed_at source e) (
          on_propagation s (record { destination = r; relation = relation; carry_existential = e }))
  unfolding on_propagation carry_source conclusion_destination
  carried_back-Gives relation source e m =
      Gives-for_each _ _ _ source ((h.filed (backward_at r relation source) own).0 m) (ground arith)

  pub disjoint-Gives :
      (g i j : ℕ)
      → i ≢ j
      → In (disjoint_at r g j) s.stored
      → Gives
          (inconsistent_at r)
          (on_disjoint_subsumer s (record { destination = r; disjoint_group = g; position = i }))
  unfolding on_disjoint_subsumer contradict_position conclusion_destination
  disjoint-Gives g i j apart m =
      Gives-for_each _ _ _ j ((h.filed (disjoint_at r g j) own).0 m) (ground arith)

  In-row :
      (relation source : ℕ) (o : Option (List ℕ))
      → lookup relation s.backward_links ≡ o
      → In source (elim o as (λ _. List ℕ) [ none ↦ [] | some l ↦ l ])
      → (l : List ℕ) × In (relation, l) (items s.backward_links) × In source l
  In-row relation source none found m = absurd m
  In-row relation source (some l) found m = (l, (In-items s.backward_links relation l).1 found, m)

  pub inconsistent_source-Gives :
      (relation source : ℕ)
      → In (backward_at r relation source) s.stored
      → Gives (inconsistent_at source) (on_class_inconsistency s (record { destination = r }))
  unfolding on_class_inconsistency contradict_sources contradict_source conclusion_destination
  inconsistent_source-Gives relation source m =
      let (l, item, member) =
        In-row relation source (lookup relation s.backward_links) refl
          ((h.filed (backward_at r relation source) own).0 m) in
      Gives-for_each _ _ _ (relation, l) item (Gives-for_each _ _ _ source member (ground arith))
