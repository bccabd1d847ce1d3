-- ===== src/Consistency/Roots.antt =====
-- Which roots the consistency stage demands (src/pyelk/reasoning/consistency.py).
use py_elk.Prelude.{
  ℕ, ◌≡◌, ◌<◌, refl, sym, subst, ◌∙◌, ◌⊎◌, inl, inr, List, ◌∷◌, true, ◌||◌, some, In, get_elem?,
  enumerate, Gives, Gives-for_each, nat_ordered, arith, ltb, ok, >>=-eq-ok, ok-injective,
}
use py_elk.Ir.{CompiledOntology, ExpressionRecord, ExpressionOccurrence}
use py_elk.Rules.IndexTables.{In-enumerate_zero}
use py_elk.Consistency.{
  owl_thing_root, is_individual, occurring, occurring_individual_roots, consistency_roots,
}
use py_elk.Consistency.Decides.{In-sorted_set}

-- The expression is an individual that occurs.
pub record Occurs (c : CompiledOntology) (r : ℕ) : Type 0 where
  pub row : ExpressionRecord
  pub occurrence : ExpressionOccurrence
  pub expression : get_elem? c.expressions r ≡ some row
  pub individual : is_individual row.tag ≡ true
  pub counted : get_elem? c.expression_occurrences r ≡ some occurrence
  pub counts : (0 < occurrence.negative) ⊎ (0 < occurrence.positive)

-- The expression is `owl:Thing` or such an individual.
abbrev pub IsConsistencyRoot : CompiledOntology → ℕ → Type 0
IsConsistencyRoot c r = (owl_thing_root c ≡ ok r) ⊎ Occurs c r

occurring-Gives : (c : CompiledOntology) (r : ℕ) (o : Occurs c r) → Gives r (occurring c (r, o.row))
unfolding occurring
occurring-Gives c r o =
    let there : (ltb 0 o.occurrence.negative || ltb 0 o.occurrence.positive) ≡ true =
      ground (arith, o.counts) in
    rw (o.individual, o.counted, there) (inl refl)

pub In-consistency_roots :
    (c : CompiledOntology) (roots : List ℕ) (r : ℕ)
    → consistency_roots c ≡ ok roots
    → IsConsistencyRoot c r
    → In r roots
unfolding consistency_roots occurring_individual_roots
In-consistency_roots c roots r h root =
    let (thing, h1, k1) = >>=-eq-ok (owl_thing_root c) _ h in
    let (individuals, h2, k2) = >>=-eq-ok (occurring_individual_roots c) _ k1 in
    subst (In r) (ok-injective k2) (
      (In-sorted_set r (thing ∷ individuals)).1 (elim root [
        | inl e ↦ inl (ok-injective (sym e ∙ h1))
        | inr o ↦ inr (
            subst (Gives r) h2 (
              Gives-for_each r (enumerate 0 c.expressions) (occurring c) (r, o.row)
                ((In-enumerate_zero c.expressions r o.row).1 o.expression) (occurring-Gives c r o)))
      ]))
