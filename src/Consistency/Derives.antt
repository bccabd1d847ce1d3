-- ===== src/Consistency/Derives.antt =====
-- The consistency decision of src/pyelk/reasoning/consistency.py over the contexts of a run.
use py_elk.Prelude.{
  ℕ, ◌≡◌, ◌⊎◌, inl, inr, ◌↔◌, List, none, ap, Bool, true, In, Option, ok, Result, subst,
}
use py_elk.Ir.{CompiledOntology}
use py_elk.PropertyView.{PropertyView}
use py_elk.Conclusion.{inconsistent_at, conclusion_destination}
use py_elk.Rules.Index.{RuleDispatcher, rule_dispatcher}
use py_elk.Rules.Lookups.{IsSymmetric}
use py_elk.PropertySaturation.{PropertySaturation}
use py_elk.Saturation.Engine.{Engine, new_engine}
use py_elk.Saturation.Schedule.{run}
use py_elk.Saturation.Steady.{IsSteady}
use py_elk.Saturation.Arrival.{Any}
use py_elk.Saturation.Sound.{new_engine-IsSteady, run-IsSteady}
use py_elk.Consistency.{
  ConsistencyState, inconsistent, consistency_roots, evaluate_consistency, TopInBottom,
}
use py_elk.Consistency.Decides.{evaluate_consistency_lem}
use py_elk.Saturation.Derives.{Derives, run-Derives}

-- Take such a run over the roots that the consistency stage demands. When the consistency check over
-- its contexts returns, it says that the ontology is inconsistent exactly if the rules derive a class
-- inconsistency at one of these roots, or the bottom object property is a super-property of the top
-- one.
pub evaluate_consistency-Derives :
    (c : CompiledOntology) (v : PropertyView) (p : PropertySaturation) (d : RuleDispatcher)
    (max_conclusions : Option ℕ) (interrupt : ℕ → Bool) (fuel : ℕ) (roots : List ℕ) (t : Engine)
    (state : ConsistencyState)
    → rule_dispatcher c v ≡ ok d
    → IsSymmetric v
    → consistency_roots c ≡ ok roots
    → run d max_conclusions interrupt fuel roots new_engine ≡ (ok tt, t)
    → evaluate_consistency c p t.contexts ≡ ok state
    → (inconsistent state ≡ true) ↔ (
        ((r : ℕ) × In r roots × Derives c v d.owl_thing d.owl_nothing roots (inconsistent_at r))
        ⊎ TopInBottom c p)
unfolding conclusion_destination
evaluate_consistency-Derives c v p d max_conclusions interrupt fuel roots t state made sy wanted
      returned evaluated =
    let steady : IsSteady Any none t =
      subst (IsSteady Any none) (ap (λ (q : Result (Unit {0}) × Engine). q.1) returned) (
        run-IsSteady c v d Any max_conclusions interrupt fuel roots new_engine made sy
          (record { inferred = λ x i. tt; activated = λ x k. tt }) (λ r m. tt)
          (new_engine-IsSteady Any)) in
    let decided =
      evaluate_consistency_lem c p t.contexts roots state
        (λ r s found. let entry = steady.1.each r s found in (entry.consistent, entry.owner)) wanted
        evaluated in
    let stored = λ (r : ℕ).
      run-Derives c v d max_conclusions interrupt fuel roots t (inconsistent_at r) made sy
        returned in
    (
      λ e. elim (decided.0 e) [ inl (r, m, k) ↦ inl (r, m, (stored r).0 k) | inr top ↦ inr top ],
      λ why.
          decided.1 (elim why [ inl (r, m, k) ↦ inl (r, m, (stored r).1 k) | inr top ↦ inr top ]),
    )
