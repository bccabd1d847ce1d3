-- ===== src/Rules/Joins.antt =====
-- The intersections that the handler of a composed subsumer joins (src/pyelk/reasoning/rules.py,
-- `_on_composed_subsumer` and `_produce_intersection`): none is missed.
use py_elk.Prelude.{
  ℕ, ◌≡◌, refl, sym, subst, ◌⊎◌, inl, inr, ◌<◌, List, ◌∷◌, In, has_iff, nat_ordered, arith,
  Bool-cases, rows, ok, err, value_error, >>=-eq-ok, Gives, Gives-&, Gives-for_each,
}
use py_elk.Ir.{ExpressionTag, ExpressionOccurrence, CompiledOntology}
use py_elk.Conclusion.{Conclusion, composed_at, conclusion_destination}
use py_elk.Context.{ContextState, contains}
use py_elk.Context.Invariant.{IsConsistent}
use py_elk.PropertyView.{PropertyView}
use py_elk.Rules.Index.{RuleDispatcher, rule_dispatcher}
use py_elk.Rules.Calculus.{Expression}
use py_elk.Rules.Lookups.{Negative}
use py_elk.Rules.Construction.{rule_dispatcher-IsIndexed}
use py_elk.Rules.Composition.{join_second, join_first, produce_intersection, on_composed_subsumer}
use py_elk.Rules.Subsumers.{subclass_inclusion_composed_object_intersection_of}
use py_elk.Rules.LinkHandlers.{dispatch, dispatch_family}

-- A dispatch that returns is one of the handler.
pub dispatch-family :
    (d : RuleDispatcher) (s : ContextState) (c : Conclusion) (out : List Conclusion)
    → dispatch d s c ≡ ok out
    → dispatch_family d s c ≡ ok out
unfolding dispatch
dispatch-family d s c out e =
    let (present, found, rest) = >>=-eq-ok (contains c s) _ e in
    elim (Bool-cases present) [
      | inl t ↦ rw t at rest
      | inr f ↦ let bad : err value_error ≡ ok out = rw f at rest in cc
    ]

module _ (d : RuleDispatcher) (s : ContextState) (a b e : ℕ) where
  join_second-Gives :
      In b s.composed_subsumers
      → Gives
          (composed_at s.root e)
          (join_second d s (record { destination = s.root; subsumer = a }) (b, e))
  unfolding join_second produce_intersection subclass_inclusion_composed_object_intersection_of
  join_second-Gives m = ground (arith, has_iff b s.composed_subsumers)

  join_first-Gives :
      In a s.composed_subsumers
      → Gives
          (composed_at s.root e)
          (join_first d s (record { destination = s.root; subsumer = b }) (a, e))
  unfolding join_first produce_intersection subclass_inclusion_composed_object_intersection_of
  join_first-Gives m = ground (arith, has_iff a s.composed_subsumers)

  second_joined :
      In b s.composed_subsumers
      → In (b, e) (rows a d.indexes.intersections_by_first)
      → Gives
          (composed_at s.root e)
          (on_composed_subsumer d s (record { destination = s.root; subsumer = a }))
  unfolding on_composed_subsumer
  second_joined m row = Gives-& _ _ _ (
      inr (
        Gives-& _ _ _ (
          inr (
            Gives-& _ _ _ (
              inr (
                Gives-& _ _ _ (
                  inr (
                    Gives-& _ _ _
                      (inl (Gives-for_each _ _ _ (b, e) row (join_second-Gives m)))))))))))

  first_joined :
      In a s.composed_subsumers
      → In (a, e) (rows b d.indexes.intersections_by_second)
      → Gives
          (composed_at s.root e)
          (on_composed_subsumer d s (record { destination = s.root; subsumer = b }))
  unfolding on_composed_subsumer
  first_joined m row = Gives-& _ _ _ (
      inr (
        Gives-& _ _ _ (
          inr (
            Gives-& _ _ _ (
              inr (
                Gives-& _ _ _ (
                  inr (
                    Gives-& _ _ _ (
                      inr (
                        Gives-& _ _ _
                          (inl (Gives-for_each _ _ _ (a, e) row (join_first-Gives m)))))))))))))

-- What the handler gives is among the products.
produced :
    (d : RuleDispatcher) (s : ContextState) (p q : ℕ) (x : Conclusion) (out : List Conclusion)
    → dispatch d s (composed_at s.root p) ≡ ok out
    → p ≡ q
    → Gives x (on_composed_subsumer d s (record { destination = s.root; subsumer = q }))
    → In x out
unfolding dispatch_family
produced d s p q x out e same g =
    subst (Gives x)
      (dispatch-family d s (composed_at s.root q) out
        (subst (λ r. dispatch d s (composed_at s.root r) ≡ ok out) same e))
      g

-- Take the dispatcher constructed for an ontology, and a consistent context that stores both
-- operands of an intersection with a negative occurrence as composed subsumers. Whichever of the two
-- is dispatched, a dispatch that returns produces the intersection as a composed subsumer.
pub dispatch-intersection :
    (c : CompiledOntology) (v : PropertyView) (d : RuleDispatcher) (s : ContextState)
    (a b e premise : ℕ) (rest : List ℕ) (o : ExpressionOccurrence) (out : List Conclusion)
    → rule_dispatcher c v ≡ ok d
    → IsConsistent s
    → Expression c e ExpressionTag.object_intersection_of (a ∷ b ∷ rest) o
    → 0 < o.negative
    → In (composed_at s.root a) s.stored
    → In (composed_at s.root b) s.stored
    → (premise ≡ a) ⊎ (premise ≡ b)
    → dispatch d s (composed_at s.root premise) ≡ ok out
    → In (composed_at s.root e) out
dispatch-intersection c v d s a b e premise rest o out made h expression negative first second which
      returned =
    let (ix, same, _) = rule_dispatcher-IsIndexed c v d made in
    let meets : Negative d.compiled e ExpressionTag.object_intersection_of (a ∷ b ∷ rest) = (
      o,
      subst (λ k. Expression k e ExpressionTag.object_intersection_of (a ∷ b ∷ rest) o) (sym same)
          expression,
      negative,
    ) in
    let m = (h.filed (composed_at s.root a) (unfold conclusion_destination in refl)).0 first in
    let n = (h.filed (composed_at s.root b) (unfold conclusion_destination in refl)).0 second in
    elim which [
      | inl q ↦
          produced d s premise a (composed_at s.root e) out returned q
            (second_joined d s a b e n ((ix.by_first a b e).1 (rest, meets)))
      | inr q ↦
          produced d s premise b (composed_at s.root e) out returned q
            (first_joined d s a b e m ((ix.by_second a b e).1 (rest, meets)))
    ]
