-- ===== src/Examples/Runs.antt =====
-- The intersection of `A` and `B`, demanded of the scheduler of src/pyelk/reasoning/saturation.py, over the ontology of
-- the parent module, and the theorems about runs at it.
use py_elk.Prelude.{
  err, budget_exceeded, ℕ, ◌≡◌, sym, subst, refl, inl, inr, ◌⊎◌, [], ◌∷◌, none, some, Bool, false,
  In, lookup, rows, ok, add, insert, has, discard, for_each, ◌&◌,
}
use py_elk.Conclusion.{
  Conclusion, initialized_at, composed_at, conclusion_destination, conclusion_key,
}
use py_elk.Context.{
  ContextState, enqueue, enqueue_owned, new_context, contains, file, insert_owned,
  insert as insert_conclusion,
}
use py_elk.Rules.LinkHandlers.{dispatch, dispatch_family}
use py_elk.Rules.Decomposition.{
  on_context_initialization, on_decomposed_subsumer, decompose_expression, decompose_by_tag,
  contradict_nothing,
}
use py_elk.Rules.Composition.{on_composed_subsumer, join_second, expand_subclass}
use py_elk.Rules.Calculus.{Infers, intersection}
use py_elk.Rules.Exact.{dispatch_complete}
use py_elk.Saturation.Arrival.{Any}
use py_elk.Saturation.Complete.{IsComplete}
use py_elk.Saturation.Closure.{Stored, new_engine-IsComplete, run-IsComplete, run-IsClosed}
use py_elk.Saturation.Engine.{Engine, new_engine}
use py_elk.Saturation.Schedule.{run}
use py_elk.Saturation.Steady.{IsClosed, IsSteady}
use py_elk.Saturation.Sound.{new_engine-IsSteady, run-IsSteady, run-Idle}
use py_elk.Examples.{
  ontology, no_properties, no_properties-IsSymmetric, dispatcher, dispatcher_made, below_both,
  below_both-IsConsistent, below_both-dispatch, stored_a, intersection-Expression, one_is_positive,
}

Any-IsClosed : IsClosed ontology no_properties 1 0 Any
Any-IsClosed = record { inferred = λ x i. tt; activated = λ x p. tt }

abbrev pub never : ℕ → Bool
never n = false

abbrev finished : Engine
finished = (run dispatcher none never 12 (5 ∷ []) new_engine).1

finished-run : run dispatcher none never 12 (5 ∷ []) new_engine ≡ (ok tt, finished)
unfolding run add lookup enqueue conclusion_destination new_context has insert insert_conclusion
    dispatch contains conclusion_key dispatch_family on_context_initialization discard
    on_decomposed_subsumer ◌&◌ for_each on_composed_subsumer file insert_owned enqueue_owned
    decompose_expression decompose_by_tag contradict_nothing join_second expand_subclass
finished-run = refl

run-IsSteady_example : IsSteady Any none finished
run-IsSteady_example =
    run-IsSteady ontology no_properties dispatcher Any none never 12 (5 ∷ []) new_engine
      dispatcher_made no_properties-IsSymmetric Any-IsClosed (λ r m. tt) (new_engine-IsSteady Any)

run-Idle_example :
    (finished.active ≡ [])
    × ((r : ℕ) (s : ContextState)
        → lookup r finished.contexts ≡ some s
        → (s.todo ≡ []) × (rows r finished.retry ≡ []))
run-Idle_example =
    run-Idle ontology no_properties dispatcher Any none never 12 (5 ∷ []) new_engine finished
      dispatcher_made no_properties-IsSymmetric Any-IsClosed (λ r m. tt) (new_engine-IsSteady Any)
      finished-run

dispatch_complete_example :
    Infers ontology no_properties 1 0 (λ y. y ≡ composed_at 7 2) (composed_at 7 5)
    ⊎ In (composed_at 7 5) (composed_at 7 5 ∷ [])
dispatch_complete_example =
    dispatch_complete ontology no_properties dispatcher below_both (λ y. y ≡ composed_at 7 2)
      (composed_at 7 3) (composed_at 7 5) (composed_at 7 5 ∷ []) dispatcher_made
      no_properties-IsSymmetric below_both-IsConsistent
      (λ y e own. subst (λ z. In z below_both.stored) (sym e) stored_a) below_both-dispatch
      (intersection intersection-Expression one_is_positive (inl refl) (inr refl))

-- A run with a budget of one conclusion, and one that takes up what it left.
abbrev stopped : Engine
stopped = (run dispatcher (some 1) never 12 (5 ∷ []) new_engine).1

run-IsComplete_example : IsSteady Any none stopped × IsComplete dispatcher [] none stopped
run-IsComplete_example =
    run-IsComplete ontology no_properties dispatcher (some 1) never 12 [] (5 ∷ []) new_engine
      dispatcher_made no_properties-IsSymmetric (new_engine-IsSteady Any)
      (new_engine-IsComplete dispatcher)

stopped-IsSteady : IsSteady Any none stopped
stopped-IsSteady =
    run-IsSteady ontology no_properties dispatcher Any (some 1) never 12 (5 ∷ []) new_engine
      dispatcher_made no_properties-IsSymmetric Any-IsClosed (λ r m. tt) (new_engine-IsSteady Any)

stopped-IsComplete : IsComplete dispatcher [] none stopped
stopped-IsComplete =
    (run-IsComplete ontology no_properties dispatcher (some 1) never 12 [] (5 ∷ []) new_engine
      dispatcher_made no_properties-IsSymmetric (new_engine-IsSteady Any)
      (new_engine-IsComplete dispatcher)).1

abbrev resumed : Engine
resumed = (run dispatcher none never 12 [] stopped).1

stopped_early : (run dispatcher (some 1) never 12 (5 ∷ []) new_engine).0 ≡ err budget_exceeded
unfolding run add lookup enqueue conclusion_destination new_context has insert insert_conclusion
    dispatch contains conclusion_key dispatch_family on_context_initialization discard
    on_decomposed_subsumer ◌&◌ for_each on_composed_subsumer file insert_owned enqueue_owned
    decompose_expression decompose_by_tag contradict_nothing join_second expand_subclass
stopped_early = refl

resumed-run : run dispatcher none never 12 [] stopped ≡ (ok tt, resumed)
unfolding run add lookup enqueue conclusion_destination new_context has insert insert_conclusion
    dispatch contains conclusion_key dispatch_family on_context_initialization discard
    on_decomposed_subsumer ◌&◌ for_each on_composed_subsumer file insert_owned enqueue_owned
    decompose_expression decompose_by_tag contradict_nothing join_second expand_subclass
resumed-run = refl

run-IsClosed_example :
    IsClosed ontology no_properties 1 0 (Stored resumed)
    × ((r : ℕ) → In r [] → Stored resumed (initialized_at r))
    × ((x : Conclusion) → Stored resumed x → Any x)
run-IsClosed_example =
    run-IsClosed ontology no_properties dispatcher Any none never 12 [] [] stopped resumed
      dispatcher_made no_properties-IsSymmetric Any-IsClosed (λ r m. tt) stopped-IsSteady
      stopped-IsComplete resumed-run
