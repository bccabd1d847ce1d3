-- ===== src/Examples/Staged.antt =====
-- A session (src/pyelk/reasoning/session.py) over the ontology in which `owl:Thing` is below
-- `owl:Nothing`.
use py_elk.Prelude.{
  [], ◌∷◌, ok, ◌≡◌, lookup, ok-injective, subst, Result, sym, none, some, err, index_error, inl,
  inr, Bool-cases, ltb, arith, refl, add, insert, has, discard, for_each, ◌&◌, items, fold_each,
  add_to,
}
use py_elk.Ir.{CompiledOntology}
use py_elk.PropertySaturation.{
  PropertySaturation, property_view, compositions_by_right, compositions_by_left,
}
use py_elk.Conclusion.{conclusion_destination, conclusion_key}
use py_elk.Context.{
  enqueue, enqueue_owned, new_context, contains, file, insert_owned, insert as insert_conclusion,
}
use py_elk.Rules.LinkHandlers.{dispatch, dispatch_family, on_class_inconsistency}
use py_elk.Rules.Decomposition.{
  on_context_initialization, on_decomposed_subsumer, decompose_expression, decompose_by_tag,
  contradict_nothing,
}
use py_elk.Rules.Composition.{on_composed_subsumer, expand_subclass}
use py_elk.Rules.Index.{rule_dispatcher, index_by_tag}
use py_elk.Saturation.Schedule.{run}
use py_elk.Consistency.{consistency_roots, evaluate_consistency}
use py_elk.Rules.Lookups.{IsSymmetric}
use py_elk.Session.{
  new_session, ensure_properties, engine, ensure_consistency, ensure_classified, ensure_realized,
  saturate_roots, saturate_query_root,
}
use py_elk.Saturation.Holds.{Holds}
use py_elk.Session.Sound.{From, Closes, Makes, new_session-IsSound}
use py_elk.Session.Served.{IsCurrent, Arrives}
use py_elk.Session.Operations.{session-IsSound}
use py_elk.Examples.Clash.{clashing, two_properties}

abbrev build : CompiledOntology → Result PropertySaturation
build c = ok two_properties

two_properties-IsSymmetric : IsSymmetric (property_view two_properties)
unfolding lookup property_view compositions_by_right compositions_by_left
two_properties-IsSymmetric = record {
  left_right = λ relation chain left results h e. elim (Bool-cases (ltb chain 2)) [
    | inl t ↦
        let empty : [] ≡ left = ok-injective (rw t at h) in
        let bad : none ≡ some results =
          subst (λ k. lookup relation k ≡ some results) (sym empty) e in
        absurd (cc bad)
    | inr f ↦ let bad : err index_error ≡ ok left = rw f at h in absurd (cc bad)
  ];
  right_left =
      λ relation chain left results h e. (let bad : none ≡ some results = e in absurd (cc bad));
}

session-IsSound_example :
    Holds
      (From clashing build 0)
      (Closes clashing build new_session)
      (ensure_properties clashing build 12 new_session)
    × Holds
        (From clashing build 0)
        (Makes clashing build new_session)
        (engine clashing build 12 new_session)
    × Holds
        (From clashing build 0)
        (λ _ t. Arrives clashing 2 t)
        (ensure_consistency clashing build 12 new_session)
    × Holds
        (From clashing build 0)
        (λ _ t. Arrives clashing 3 t)
        (ensure_classified clashing build 12 new_session)
    × Holds
        (From clashing build 0)
        (λ _ t. Arrives clashing 4 t)
        (ensure_realized clashing build 12 new_session)
    × Holds
        (From clashing build 0)
        (λ _ t. IsCurrent clashing (1 ∷ []) t)
        (saturate_roots clashing build 12 (1 ∷ []) new_session)
    × Holds
        (From clashing build 0)
        (λ _ t. IsCurrent clashing (1 ∷ []) t)
        (saturate_query_root clashing build 12 (4 ∷ []) 1 new_session)
session-IsSound_example =
    session-IsSound clashing build 12 (1 ∷ []) (4 ∷ []) 1 new_session
      (λ p e.
        subst (λ q. IsSymmetric (property_view q)) (ok-injective e) two_properties-IsSymmetric)
      (new_session-IsSound clashing build) (λ low. ground arith)

-- Twelve rounds are enough to realize this ontology.
realized_returns : (ensure_realized clashing build 12 new_session).0 ≡ ok tt
unfolding ensure_realized rule_dispatcher fold_each add_to add insert lookup index_by_tag run
    enqueue conclusion_destination new_context has insert_conclusion dispatch contains
    conclusion_key dispatch_family on_context_initialization discard on_decomposed_subsumer ◌&◌
    for_each on_composed_subsumer file insert_owned enqueue_owned evaluate_consistency
    consistency_roots items decompose_expression decompose_by_tag contradict_nothing expand_subclass
    on_class_inconsistency
realized_returns = refl
