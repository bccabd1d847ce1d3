-- ===== src/Saturation/Derives.antt =====
-- The conclusions that the rules derive from demanded roots, which is what a run of the scheduler
-- stores (src/pyelk/reasoning/saturation.py).
use py_elk.Prelude.{ℕ, ◌≡◌, ◌↔◌, List, [], Bool, In, Option, ok}
use py_elk.Ir.{CompiledOntology}
use py_elk.PropertyView.{PropertyView}
use py_elk.Conclusion.{Conclusion, initialized_at, conclusion_destination}
use py_elk.Rules.Calculus.{Infers}
use py_elk.Rules.Monotone.{Infers-mono}
use py_elk.Rules.Premises.{Infers-FromList}
use py_elk.Rules.Index.{RuleDispatcher, rule_dispatcher}
use py_elk.Rules.Lookups.{IsSymmetric}
use py_elk.Saturation.Engine.{Engine, new_engine}
use py_elk.Saturation.Schedule.{run}
use py_elk.Saturation.Steady.{IsClosed}
use py_elk.Saturation.Sound.{new_engine-IsSteady}
use py_elk.Saturation.Closure.{Stored, new_engine-IsComplete, run-IsClosed}

-- A root demands the initialization of its context, a conclusion activates the context that owns it,
-- and the rest is inferred by one rule from listed premises.
pub data Derives (c : CompiledOntology) (v : PropertyView) (thing nothing : ℕ) (roots : List ℕ)
    : Conclusion → Type 0 where
  demanded : {r : ℕ} → In r roots → Derives c v thing nothing roots (initialized_at r)
  activated :
      {x : Conclusion}
      → Derives c v thing nothing roots x
      → Derives c v thing nothing roots (initialized_at (conclusion_destination x))
  inferred :
      {x : Conclusion} (premises : List Conclusion)
      → ((y : Conclusion) → In y premises → Derives c v thing nothing roots y)
      → Infers c v thing nothing (λ y. In y premises) x
      → Derives c v thing nothing roots x

module _ {c : CompiledOntology} {v : PropertyView} {thing nothing : ℕ} {roots : List ℕ} where
  pub Derives-IsClosed : IsClosed c v thing nothing (Derives c v thing nothing roots)
  Derives-IsClosed = record {
    inferred = λ x i. let (premises, all, j) = Infers-FromList i in inferred premises all j;
    activated = λ x k. activated k;
  }

  -- It is the least closed property that the initializations of the roots have.
  pub Derives-least :
      (P : Conclusion → Type 0) {x : Conclusion}
      → IsClosed c v thing nothing P
      → ((r : ℕ) → In r roots → P (initialized_at r))
      → Derives c v thing nothing roots x
      → P x
  Derives-least P closed start (demanded m) = start _ m
  Derives-least P closed start (activated k) = closed.activated _ (Derives-least P closed start k)
  Derives-least P closed start (inferred premises all i) =
      closed.inferred _ (Infers-mono (λ y m. Derives-least P closed start (all y m)) i)

-- Take a fresh scheduler over the dispatcher constructed for an ontology and a property view whose
-- two composition indices agree. When its run over some roots returns, it has stored exactly what
-- the rules derive from these roots.
pub run-Derives :
    (c : CompiledOntology) (v : PropertyView) (d : RuleDispatcher) (max_conclusions : Option ℕ)
    (interrupt : ℕ → Bool) (fuel : ℕ) (roots : List ℕ) (t : Engine) (x : Conclusion)
    → rule_dispatcher c v ≡ ok d
    → IsSymmetric v
    → run d max_conclusions interrupt fuel roots new_engine ≡ (ok tt, t)
    → Stored t x ↔ Derives c v d.owl_thing d.owl_nothing roots x
run-Derives c v d max_conclusions interrupt fuel roots t x made sy returned =
    let (closed, started, least) =
      run-IsClosed c v d (Derives c v d.owl_thing d.owl_nothing roots) max_conclusions interrupt
        fuel [] roots new_engine t made sy Derives-IsClosed (λ r m. demanded m)
        (new_engine-IsSteady _) (new_engine-IsComplete d) returned in
    (least x, λ k. Derives-least (Stored t) closed started k)
