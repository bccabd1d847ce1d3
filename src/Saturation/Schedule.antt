-- ===== src/Saturation/Schedule.antt =====
-- The loops of src/pyelk/reasoning/saturation.py. A `while` loop takes a number of rounds, and ends
-- with `out_of_fuel` after them. The callable `interrupt` is a function of how often it was called
-- in the run.
use py_elk.Prelude.{
  ℕ, zero, suc, ◌+◌, List, [], ◌∷◌, Bool, true, false, not, Option, none, some, ltb, ◌&&◌,
  if◌then◌else◌, length, map, lookup, insert, items, add, nat_ordered, Result, ok, err,
  assertion_error, budget_exceeded, interrupted, out_of_fuel,
}
use py_elk.Conclusion.{Conclusion}
use py_elk.Context
use py_elk.Context.{
  ContextState, FrozenContext, pop_todo, mark_queued, claim, mark_saturated, freeze,
}
use py_elk.Rules.Index.{RuleDispatcher}
use py_elk.Rules.LinkHandlers.{dispatch}
use py_elk.Saturation.Actions.{Exec, pure, lift, modify, ◌>>=◌, ◌>>◌}
use py_elk.Saturation.Engine.{
  Engine, put, count, track_active, context_at, ensure_context, checked_root, enqueue,
}

module _ (d : RuleDispatcher) where
  unfoldable pub enqueue_all : List Conclusion → Exec Engine (Unit {0})
  unfolding enqueue ◌>>=◌
  enqueue_all [] = pure tt
  enqueue_all (c ∷ cs) = do enqueue d c; enqueue_all cs

  -- `_next_premise`: a retry first, then the agenda.
  unfoldable pub take_retry : ℕ → List Conclusion → Exec Engine (Conclusion × Bool)
  take_retry root [] e = (err assertion_error, e)
  take_retry root (c ∷ rest) e = (ok (c, false), record e { retry = insert root rest e.retry })

  unfoldable pub record_insertion :
      Conclusion → Result (ContextState × Bool) → Exec Engine (Conclusion × Bool)
  record_insertion c (err x) e = (err x, e)
  record_insertion c (ok (s, true)) e = (
    ok (c, true),
    count (λ n. record n { conclusions_inserted = n.conclusions_inserted + 1 }) (put s e),
  )
  record_insertion c (ok (s, false)) e = (
    ok (c, false),
    count (λ n. record n { duplicate_insertions = n.duplicate_insertions + 1 }) (put s e),
  )

  unfoldable pub take_agenda : ContextState × Option Conclusion → Exec Engine (Conclusion × Bool)
  unfolding record_insertion
  take_agenda (s, none) e = (err assertion_error, put s e)
  take_agenda (s, some c) e = record_insertion c (Context.insert c s) (put s e)

  abbrev retries : ℕ → Engine → List Conclusion
  retries root e = elim (lookup root e.retry) [ none ↦ [] | some cs ↦ cs ]

  unfoldable pub next_premise : ℕ → Exec Engine (Conclusion × Bool)
  unfolding take_retry take_agenda context_at ◌>>=◌ pop_todo
  next_premise root e = elim (retries root e) [
    | [] ↦ (do s ← context_at root; take_agenda (pop_todo s)) e
    | c ∷ rest ↦ take_retry root (c ∷ rest) e
  ]

  abbrev agenda : ℕ → Engine → List Conclusion
  agenda root e = elim (lookup root e.contexts) [ none ↦ [] | some s ↦ s.todo ]

  -- `_has_local_work`; a context and its row of `_retry` are made together, and a row that is missing
  -- reads as empty.
  unfoldable pub has_local_work : ℕ → Engine → Bool
  has_local_work root e = elim (retries root e) [
    | _ ∷ _ ↦ true
    | [] ↦ elim (agenda root e) [ [] ↦ false | _ ∷ _ ↦ true ]
  ]

  -- `except BaseException: self._retry[root].appendleft(premise); raise`
  unfoldable pub put_back : ℕ → Conclusion → Result (Unit {0}) × Engine → Result (Unit {0}) × Engine
  put_back root c (ok u, e) = (ok u, e)
  put_back root c (err x, e) =
      (err x, record e { retry = insert root (c ∷ retries root e) e.retry })

  unfoldable pub publish_products : Result (List Conclusion) → Exec Engine (Unit {0})
  unfolding enqueue_all ◌>>=◌
  publish_products r = elim r [
    | err x ↦ lift (err x)
    | ok products ↦ do
      modify (
          count (λ n. record n {
            rule_dispatches = n.rule_dispatches + 1;
            product_candidates = n.product_candidates + length products;
          }))
      enqueue_all products
  ]

  -- `_dispatch`
  unfoldable pub dispatch_premise : ℕ → Conclusion → Exec Engine (Unit {0})
  unfolding put_back publish_products context_at ◌>>=◌
  dispatch_premise root c e =
      put_back root c ((do s ← context_at root; publish_products (dispatch d s c)) e)

  module _ (max_conclusions : Option ℕ) (interrupt : ℕ → Bool) where
    abbrev pub exhausted : ℕ → Bool
    exhausted completed = elim max_conclusions [
      | none ↦ false
      | some limit ↦ not (ltb completed limit)
    ]

    -- The inner `while` of `run`. It gives the numbers of completed conclusions and of calls of
    -- `interrupt`.
    unfoldable pub work : ℕ → ℕ → ℕ × ℕ → Exec Engine (ℕ × ℕ)
    unfolding next_premise dispatch_premise has_local_work ◌>>=◌
    work zero root progress e = (err out_of_fuel, e)
    work (suc fuel) root (completed, calls) e =
        let more = (do
          (premise, inserted) ← next_premise root
          dispatch_premise root premise
          work fuel root ((if inserted then completed + 1 else completed), calls + 1)) in
        if not (has_local_work root e)
        then (ok (completed, calls), e)
        else if exhausted completed
        then (err budget_exceeded, e)
        else if interrupt calls
        then (err interrupted, e)
        else more e

    -- The `finally` of `run`.
    unfoldable pub release : ℕ → Engine → Engine
    unfolding has_local_work track_active mark_queued
    release root e =
        let e' = record e { claimed_root = none } in
        elim (lookup root e.contexts) [
          | none ↦ e'
          | some s ↦
              if has_local_work root e' && not s.queued
              then track_active (record (put (mark_queued s).0 e') { active = root ∷ e'.active })
              else e'
        ]

    unfoldable pub finish_context : ℕ → Exec Engine (Unit {0})
    unfolding context_at ◌>>=◌ mark_saturated
    finish_context root = do
      s ← context_at root
      s' ← lift (mark_saturated s)
      modify (λ e.
          count (λ n. record n { context_saturations = n.context_saturations + 1 }) (put s' e))

    unfoldable pub claim_context : ℕ → List ℕ → Exec Engine (Unit {0})
    unfolding context_at ◌>>=◌ claim
    claim_context root rest = do
      modify (λ e. record e { active = rest })
      s ← context_at root
      modify (λ e.
          count (λ n. record n { context_claims = n.context_claims + 1 })
            (record (put (claim s) e) { claimed_root = some root }))

    -- One round of the outer `while` of `run`, after its root left the queue.
    unfoldable pub serve_context : ℕ → ℕ → ℕ × ℕ → Exec Engine (ℕ × ℕ)
    unfolding work finish_context release ◌>>=◌
    serve_context fuel root progress e =
        let (r, e') = (do p ← work fuel root progress; finish_context root; pure p) e in
        (r, release root e')

    unfoldable pub run_loop : ℕ → ℕ → ℕ × ℕ → Exec Engine (Unit {0})
    unfolding claim_context serve_context ◌>>=◌
    run_loop rounds zero progress e = elim e.active [
      | [] ↦ (ok tt, e)
      | _ ∷ _ ↦ (err out_of_fuel, e)
    ]
    run_loop rounds (suc fuel) progress e = elim e.active [
      | [] ↦ (ok tt, e)
      | root ∷ rest ↦
          (do
            claim_context root rest
            p ← serve_context rounds root progress
            run_loop rounds fuel p)
            e
    ]

    abbrev pub note_interruption : Result (Unit {0}) × Engine → Result (Unit {0}) × Engine
    note_interruption (ok u, e) = (ok u, e)
    note_interruption (err x, e) =
        (err x, count (λ n. record n { interrupted_runs = n.interrupted_runs + 1 }) e)

    unfoldable pub check_roots : List ℕ → Exec Engine (List ℕ)
    unfolding checked_root ◌>>=◌
    check_roots [] = pure []
    check_roots (r ∷ rs) = do x ← checked_root d r; xs ← check_roots rs; pure (add x xs)

    unfoldable pub ensure_all : List ℕ → Exec Engine (Unit {0})
    unfolding ensure_context ◌>>=◌
    ensure_all [] = pure tt
    ensure_all (r ∷ rs) = do ensure_context r; ensure_all rs

    -- `run(roots)`, without the snapshot that it returns
    unfoldable pub run : ℕ → List ℕ → Exec Engine (Unit {0})
    unfolding check_roots ensure_all run_loop ◌>>=◌
    run fuel roots = do
      checked ← check_roots roots
      ensure_all checked
      λ e. note_interruption (run_loop fuel fuel (0, 0) e)

-- The contexts of `snapshot()`, in the order of their roots.
unfoldable pub snapshot_contexts : Engine → List (ℕ × FrozenContext)
unfolding freeze
snapshot_contexts e = map (λ (root, s). (root, freeze s)) (items e.contexts)
