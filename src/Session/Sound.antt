-- ===== src/Session/Sound.antt =====
-- When a saturation session (src/pyelk/reasoning/session.py) is sound, and what making its closure
-- and its scheduler leaves.
use py_elk.Prelude.{
  ℕ, ◌≡◌, ◌≢◌, ◌≤◌, ◌<◌, ◌⊎◌, [], Option, none, some, get_elem?, Bool, true, Result, ok, arith,
}
use py_elk.Ir.{CompiledOntology, ExpressionRecord, ExpressionTag, is_class}
use py_elk.PropertyView.{PropertyView}
use py_elk.PropertySaturation.{PropertySaturation}
use py_elk.Context.{ContextState}
use py_elk.Rules.Index.{RuleDispatcher, rule_dispatcher}
use py_elk.Rules.Lookups.{IsSymmetric}
use py_elk.Saturation.Engine.{Engine}
use py_elk.Saturation.Routing.{At}
use py_elk.Saturation.Queries.Ran.{Good}
use py_elk.Consistency.{is_individual}
use py_elk.Consistency.Roots.{IsConsistencyRoot}
use py_elk.Session.{Stage, stage_id, SaturationSession, new_session}

-- The expression has a tag that passes the test.
abbrev pub IsTagged : CompiledOntology → (ExpressionTag → Bool) → ℕ → Type 0
IsTagged c is_tag r =
    (row : ExpressionRecord) × (get_elem? c.expressions r ≡ some row) × (is_tag row.tag ≡ true)

-- The roots that a session has demanded when it is at a stage.
abbrev pub IsDemanded : CompiledOntology → Stage → ℕ → Type 0
IsDemanded c stage r =
    (1 < stage_id stage) × IsConsistencyRoot c r
    ⊎ (2 < stage_id stage) × IsTagged c is_class r
    ⊎ (3 < stage_id stage) × IsTagged c is_individual r

-- A scheduler of the session has a context for the root.
abbrev pub HasContext : Option (RuleDispatcher × Engine) → ℕ → Type 0
HasContext scheduler r =
    (made : RuleDispatcher × Engine) × (scheduler ≡ some made)
    × ((z : ContextState) × At r z made.1)

-- A dispatcher of the ontology, with a scheduler that has lost nothing.
abbrev pub IsEngine : CompiledOntology → RuleDispatcher × Engine → Type 0
IsEngine c (d, e) = (v : PropertyView) × (rule_dispatcher c v ≡ ok d) × IsSymmetric v × Good d [] e

module _ (c : CompiledOntology)
    (saturate_properties : CompiledOntology → Result PropertySaturation) where
  -- The closure is the one that was built, the scheduler belongs to a dispatcher of the ontology and
  -- has lost nothing, from the consistency stage on there is a decision, and the roots that the
  -- stage demands have contexts.
  pub record IsSound (s : SaturationSession) : Type 0 where
    pub closed : (p : PropertySaturation) → s.closure ≡ some p → saturate_properties c ≡ ok p
    pub scheduled : (made : RuleDispatcher × Engine) → s.scheduler ≡ some made → IsEngine c made
    pub decided : 1 < stage_id s.stage → s.decision ≢ none
    pub demanded : (r : ℕ) → IsDemanded c s.stage r → HasContext s.scheduler r

  -- The session is sound and has come at least as far.
  abbrev pub From : ℕ → SaturationSession → Type 0
  From n s = IsSound s × (n ≤ stage_id s.stage)

  -- A session that was just made.
  pub new_session-IsSound : IsSound new_session
  new_session-IsSound = record {
    closed = λ p e. cc e;
    scheduled = λ made q. cc q;
    decided = λ low. ground arith;
    demanded = λ r low. ground arith;
  }

  -- What `ensure_properties` leaves.
  abbrev pub Closes : SaturationSession → PropertySaturation → SaturationSession → Type 0
  Closes s p t = (t.closure ≡ some p) × (t.scheduler ≡ s.scheduler) × (t.decision ≡ s.decision)

  -- What `engine` leaves.
  abbrev pub Makes : SaturationSession → RuleDispatcher × Engine → SaturationSession → Type 0
  Makes s made t =
      (t.scheduler ≡ some made)
      × ((m : RuleDispatcher × Engine) → s.scheduler ≡ some m → made ≡ m)
      × ((p : PropertySaturation) → s.closure ≡ some p → t.closure ≡ some p)
      × (t.decision ≡ s.decision)
