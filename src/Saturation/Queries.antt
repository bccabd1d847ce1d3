-- ===== src/Saturation/Queries.antt =====
-- Query roots (src/pyelk/reasoning/saturation.py, `saturate_query_root`): a key is bound to one root,
-- and the root is saturated.
pub mod Ran
use py_elk.Prelude.{
  ℕ, List, [], ◌∷◌, Option, none, some, Bool, true, false, ◌==◌, ◌&&◌, if◌then◌else◌, Result, ok,
  err, value_error,
}
use py_elk.Context.{FrozenContext, freeze}
use py_elk.Rules.Index.{RuleDispatcher}
use py_elk.Saturation.Actions.{Exec, pure, lift, ◌>>=◌, ◌>>◌}
use py_elk.Saturation.Engine.{Engine, context_at, checked_root}
use py_elk.Saturation.Schedule.{run}

-- A key is its list of bytes.
unfoldable pub same_key : List ℕ → List ℕ → Bool
same_key [] [] = true
same_key (a ∷ xs) (b ∷ ys) = a == b && same_key xs ys
same_key _ _ = false

-- `self._query_roots.get(canonical_key)`
unfoldable pub find_key : List ℕ → List (List ℕ × ℕ) → Option ℕ
unfolding same_key
find_key key [] = none
find_key key ((k, root) ∷ rest) =
    let later = find_key key rest in if same_key key k then some root else later

-- `self._query_roots[canonical_key] = checked`
unfoldable pub set_key : List ℕ → ℕ → List (List ℕ × ℕ) → List (List ℕ × ℕ)
unfolding same_key
set_key key root [] = (key, root) ∷ []
set_key key root ((k, old) ∷ rest) =
    let later = set_key key root rest in
    if same_key key k then (k, root) ∷ rest else (k, old) ∷ later

-- Keys are nonempty.
unfoldable pub checked_key : List ℕ → Result (List ℕ)
checked_key [] = err value_error
checked_key (b ∷ bs) = ok (b ∷ bs)

-- A key that is bound to another root is refused.
unfoldable pub bind_key : List ℕ → ℕ → Exec Engine (Unit {0})
unfolding find_key set_key
bind_key key root e =
    let bound = record e { query_roots = set_key key root e.query_roots } in
    elim (find_key key e.query_roots) [
      | none ↦ (ok tt, bound)
      | some previous ↦ if previous == root then (ok tt, bound) else (err value_error, e)
    ]

module _ (d : RuleDispatcher) (fuel : ℕ) where
  -- `run` without a budget and without an interruption
  abbrev pub run_all : List ℕ → Exec Engine (Unit {0})
  run_all roots = run d none (λ n. false) fuel roots

  unfoldable pub saturate_query_root : List ℕ → ℕ → Exec Engine FrozenContext
  unfolding checked_key bind_key checked_root context_at run ◌>>=◌
  saturate_query_root canonical_key root = do
    key ← lift (checked_key canonical_key)
    checked ← checked_root d root
    bind_key key checked
    run_all (checked ∷ [])
    s ← context_at checked
    pure (freeze s)
