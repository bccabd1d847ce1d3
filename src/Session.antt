-- ===== src/Session.antt =====
-- The stages of a saturation session (src/pyelk/reasoning/session.py). A method is an action on the
-- session; the closure of properties, which it builds once, is a parameter, and the snapshots that
-- the methods return are left out.
pub mod Sound
pub mod Makes
pub mod Served
pub mod Decision
pub mod Stages
pub mod Operations
use py_elk.Prelude.{
  ℕ, ◌≡◌, List, [], ◌∷◌, Option, none, some, Bool, true, false, ◌&&◌, if◌then◌else◌, ltb, enumerate,
  Result, ok, err,
}
use py_elk.Ir.{CompiledOntology, ExpressionTag, ExpressionRecord, is_class}
use py_elk.PropertySaturation.{PropertySaturation, property_view}
use py_elk.Context.{FrozenContext}
use py_elk.Rules.Index.{RuleDispatcher, rule_dispatcher}
use py_elk.Saturation.Actions.{Exec, modify, lift, pure, ◌>>=◌, ◌>>◌}
use py_elk.Saturation.Engine.{Engine, new_engine}
use py_elk.Saturation.Queries
use py_elk.Saturation.Queries.{run_all}
use py_elk.Consistency.{ConsistencyState, consistency_roots, evaluate_consistency, is_individual}

pub data Stage : Type 0 where
  compiled properties consistency classified realized : Stage

abbrev pub stage_id : Stage → ℕ
stage_id compiled = 0
stage_id properties = 1
stage_id consistency = 2
stage_id classified = 3
stage_id realized = 4

-- `_stage`, `_properties`, `_engine` with its dispatcher, and `_consistency`
pub record SaturationSession : Type 0 where
  pub stage : Stage
  pub closure : Option PropertySaturation
  pub scheduler : Option (RuleDispatcher × Engine)
  pub decision : Option ConsistencyState

-- `SaturationSession(compiled)`
abbrev pub new_session : SaturationSession
new_session = record { stage = compiled; closure = none; scheduler = none; decision = none }

abbrev pub reached : Stage → SaturationSession → Bool
reached target s = ltb (stage_id s.stage) (stage_id target)

module _ (c : CompiledOntology) (saturate_properties : CompiledOntology → Result PropertySaturation)
    (fuel : ℕ) where
  abbrev raise_stage : SaturationSession → SaturationSession
  raise_stage s = if reached properties s then record s { stage = properties } else s

  unfoldable pub ensure_properties : Exec SaturationSession PropertySaturation
  ensure_properties s = elim s.closure [
    | some p ↦ (ok p, raise_stage s)
    | none ↦ elim (saturate_properties c) [
      | err x ↦ (err x, s)
      | ok p ↦ (ok p, raise_stage (record s { closure = some p }))
    ]
  ]

  -- The part of the property `engine` after the property stage.
  unfoldable pub make_engine : PropertySaturation → Exec SaturationSession (RuleDispatcher × Engine)
  make_engine p s = elim s.scheduler [
    | some made ↦ (ok made, s)
    | none ↦ elim (rule_dispatcher c (property_view p)) [
      | err x ↦ (err x, s)
      | ok d ↦ (ok (d, new_engine), record s { scheduler = some (d, new_engine) })
    ]
  ]

  unfoldable pub engine : Exec SaturationSession (RuleDispatcher × Engine)
  unfolding ensure_properties make_engine ◌>>=◌
  engine = do p ← ensure_properties; make_engine p

  -- `engine.run(roots)` changes the engine in place.
  unfoldable pub run_engine : List ℕ → RuleDispatcher × Engine → Exec SaturationSession (Unit {0})
  run_engine roots (d, e) s =
      let (r, e') = run_all d fuel roots e in (r, record s { scheduler = some (d, e') })

  -- `engine.saturate_query_root(canonical_key, root)`
  unfoldable pub query_engine :
      List ℕ → ℕ → RuleDispatcher × Engine → Exec SaturationSession FrozenContext
  query_engine canonical_key root (d, e) s =
      let (r, e') = Queries.saturate_query_root d fuel canonical_key root e in
      (r, record s { scheduler = some (d, e') })

  -- `_evaluate_consistency`, and the assignment of its result
  unfoldable pub evaluate : Exec SaturationSession ConsistencyState
  unfolding ensure_properties engine evaluate_consistency ◌>>=◌
  evaluate = do p ← ensure_properties; (d, e) ← engine; lift (evaluate_consistency c p e.contexts)

  unfoldable pub decide : Exec SaturationSession (Unit {0})
  unfolding evaluate ◌>>=◌
  decide = do
    state ← evaluate
    modify (λ (s : SaturationSession). record s { decision = some state })

  unfoldable pub set_stage : Stage → Exec SaturationSession (Unit {0})
  set_stage target = modify (λ (s : SaturationSession). record s { stage = target })

  unfoldable pub first_decision : Exec SaturationSession (Unit {0})
  unfolding engine run_engine decide set_stage consistency_roots ◌>>=◌
  first_decision = do
    made ← engine
    roots ← lift (consistency_roots c)
    run_engine roots made
    decide
    set_stage consistency

  unfoldable pub ensure_consistency : Exec SaturationSession (Unit {0})
  unfolding first_decision
  ensure_consistency s =
      if reached consistency s
      then first_decision s
      else elim s.decision [ none ↦ first_decision s | some _ ↦ (ok tt, s) ]

  -- `_roots`
  unfoldable pub roots_of : (ExpressionTag → Bool) → List (ℕ × ExpressionRecord) → List ℕ
  roots_of is_tag [] = []
  roots_of is_tag ((index, r) ∷ rest) =
      let more = roots_of is_tag rest in if is_tag r.tag then index ∷ more else more

  -- `self.engine.run(roots)`, and the new decision
  unfoldable pub saturate_more : List ℕ → Exec SaturationSession (Unit {0})
  unfolding engine run_engine decide ◌>>=◌
  saturate_more roots = do made ← engine; run_engine roots made; decide

  unfoldable pub enumerate_stage :
      Stage → (ExpressionTag → Bool) → Exec SaturationSession (Unit {0})
  unfolding saturate_more set_stage roots_of ◌>>=◌
  enumerate_stage target is_tag s =
      if reached target s
      then (do saturate_more (roots_of is_tag (enumerate 0 c.expressions)); set_stage target) s
      else (ok tt, s)

  unfoldable pub ensure_classified : Exec SaturationSession (Unit {0})
  unfolding ensure_consistency enumerate_stage ◌>>=◌
  ensure_classified = do ensure_consistency; enumerate_stage classified is_class

  unfoldable pub ensure_realized : Exec SaturationSession (Unit {0})
  unfolding ensure_classified enumerate_stage ◌>>=◌
  ensure_realized = do ensure_classified; enumerate_stage realized is_individual

  unfoldable pub saturate_roots : List ℕ → Exec SaturationSession (Unit {0})
  unfolding ensure_consistency saturate_more ◌>>=◌
  saturate_roots roots = do ensure_consistency; saturate_more roots

  unfoldable pub saturate_query_root : List ℕ → ℕ → Exec SaturationSession FrozenContext
  unfolding ensure_consistency engine query_engine decide ◌>>=◌
  saturate_query_root canonical_key root = do
    ensure_consistency
    made ← engine
    context ← query_engine canonical_key root made
    decide
    pure context
