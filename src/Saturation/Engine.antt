-- ===== src/Saturation/Engine.antt =====
-- The scheduler of src/pyelk/reasoning/saturation.py: its state, and the methods that create a
-- context and route a conclusion to its agenda. An engine is a record, a method is an action on it,
-- and what was written before an exception stays written.
use py_elk.Prelude.{
  ℕ, ◌+◌, max, List, [], ◌∷◌, ◌++◌, Bool, true, false, Option, none, some, ◌==◌, ltb, if◌then◌else◌,
  length, Dict, lookup, insert, Result, ok, err, value_error, key_error,
}
use py_elk.Conclusion.{Conclusion, initialized_at, conclusion_destination}
use py_elk.Context
use py_elk.Context.{ContextState, new_context, mark_queued}
use py_elk.Rules.Index.{RuleDispatcher}
use py_elk.Saturation.Actions.{Exec, modify, ◌>>=◌, ◌>>◌}

pub record Diagnostics : Type 0 where
  pub contexts_created : ℕ
  pub context_claims : ℕ
  pub context_saturations : ℕ
  pub conclusion_candidates : ℕ
  pub conclusions_enqueued : ℕ
  pub duplicate_candidates : ℕ
  pub conclusions_inserted : ℕ
  pub duplicate_insertions : ℕ
  pub rule_dispatches : ℕ
  pub product_candidates : ℕ
  pub interrupted_runs : ℕ
  pub maximum_active_contexts : ℕ

abbrev pub no_diagnostics : Diagnostics
no_diagnostics = record {
  contexts_created = 0;
  context_claims = 0;
  context_saturations = 0;
  conclusion_candidates = 0;
  conclusions_enqueued = 0;
  duplicate_candidates = 0;
  conclusions_inserted = 0;
  duplicate_insertions = 0;
  rule_dispatches = 0;
  product_candidates = 0;
  interrupted_runs = 0;
  maximum_active_contexts = 0;
}

pub record Engine : Type 0 where
  pub contexts : Dict ContextState
  pub active : List ℕ
  pub claimed_root : Option ℕ
  pub retry : Dict (List Conclusion)
  pub query_roots : List (List ℕ × ℕ)
  pub counts : Diagnostics

-- `SaturationEngine(compiled, properties)`, without its dispatcher
abbrev pub new_engine : Engine
new_engine = record {
  contexts = [];
  active = [];
  claimed_root = none;
  retry = [];
  query_roots = [];
  counts = no_diagnostics;
}

-- Objects of `_contexts` are changed in place: the new state takes the place of the old one.
abbrev pub put : ContextState → Engine → Engine
put s e = record e { contexts = insert s.root s e.contexts }

abbrev pub count : (Diagnostics → Diagnostics) → Engine → Engine
count f e = record e { counts = f e.counts }

-- `_track_active_high_watermark`
unfoldable pub track_active : Engine → Engine
track_active e =
    count
      (λ n. record n { maximum_active_contexts = max n.maximum_active_contexts (length e.active) })
      e

abbrev pub is_claimed : ℕ → Option ℕ → Bool
is_claimed r none = false
is_claimed r (some c) = r == c

-- `if state.root != self._claimed_root and state.mark_queued(): ...`
unfoldable pub activate : ContextState → Engine → Engine
unfolding track_active mark_queued
activate s e =
    let (s', fresh) = mark_queued s in
    if is_claimed s.root e.claimed_root
    then put s e
    else if fresh
    then track_active (record (put s' e) { active = e.active ++ s.root ∷ [] })
    else put s e

unfoldable pub publish : Result (ContextState × Bool) → Exec Engine Bool
unfolding activate
publish (err x) e = (err x, e)
publish (ok (s, false)) e =
    (ok false, count (λ n. record n { duplicate_candidates = n.duplicate_candidates + 1 }) e)
publish (ok (s, true)) e = (
  ok true,
  activate s (count (λ n. record n { conclusions_enqueued = n.conclusions_enqueued + 1 }) e),
)

-- `_enqueue_existing`
unfoldable pub enqueue_existing : ContextState → Conclusion → Exec Engine Bool
unfolding publish
enqueue_existing s c e =
    publish (Context.enqueue c s)
      (count (λ n. record n { conclusion_candidates = n.conclusion_candidates + 1 }) e)

-- `self._contexts[root]`
unfoldable pub context_at : ℕ → Exec Engine ContextState
context_at root e = elim (lookup root e.contexts) [ none ↦ (err key_error, e) | some s ↦ (ok s, e) ]

-- The part of `_ensure_context` for a root with no context.
unfoldable pub create_context : ℕ → Exec Engine ContextState
unfolding enqueue_existing context_at ◌>>=◌
create_context root = do
  modify (λ e.
      count (λ n. record n { contexts_created = n.contexts_created + 1 })
        (record (put (new_context root) e) { retry = insert root [] e.retry }))
  enqueue_existing (new_context root) (initialized_at root)
  context_at root

-- `_ensure_context`
unfoldable pub ensure_context : ℕ → Exec Engine ContextState
unfolding create_context
ensure_context root e = elim (lookup root e.contexts) [
  | none ↦ create_context root e
  | some s ↦ (ok s, e)
]

module _ (d : RuleDispatcher) where
  -- `_checked_root`
  unfoldable pub checked_root : ℕ → Exec Engine ℕ
  checked_root root e =
      if ltb root (length d.compiled.expressions) then (ok root, e) else (err value_error, e)

  unfoldable pub demand : ℕ → Exec Engine ContextState
  unfolding checked_root ensure_context ◌>>=◌
  demand root = do r ← checked_root root; ensure_context r

  unfoldable pub enqueue : Conclusion → Exec Engine Bool
  unfolding checked_root ensure_context enqueue_existing ◌>>=◌
  enqueue c = do
    destination ← checked_root (conclusion_destination c)
    state ← ensure_context destination
    enqueue_existing state c
