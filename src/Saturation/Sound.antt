-- ===== src/Saturation/Sound.antt =====
-- What `run` of src/pyelk/reasoning/saturation.py stores and what it leaves, over the dispatcher of
-- src/pyelk/reasoning/rules.py.
use py_elk.Prelude.{
  ℕ, ◌≡◌, ◌≢◌, refl, sym, subst, inl, inr, List, [], ◌∷◌, Bool, Option, none, some, In, lookup,
  rows, ok, Result,
}
use py_elk.Ir.{CompiledOntology}
use py_elk.PropertyView.{PropertyView}
use py_elk.Conclusion.{Conclusion, initialized_at}
use py_elk.Context.{ContextState}
use py_elk.Rules.Index.{RuleDispatcher, rule_dispatcher}
use py_elk.Rules.Lookups.{IsSymmetric}
use py_elk.Rules.Construction.{rule_dispatcher-IsIndexed}
use py_elk.Saturation.Engine.{Engine, new_engine}
use py_elk.Saturation.Schedule.{run}
use py_elk.Saturation.Steady.{HasWork, IsClosed, IsSteady}
use py_elk.Saturation.Holds.{Holds, Holds-state}
use py_elk.Saturation.Run.{Idle, run-Holds}

-- A scheduler that was just made.
pub new_engine-IsSteady : (P : Conclusion → Type 0) → IsSteady P none new_engine
unfolding lookup
new_engine-IsSteady P = (refl, record { each = λ r s found. cc; known = λ r m. absurd m })

-- Take the dispatcher constructed for an ontology and a property view whose two composition indices
-- agree, and a property of conclusions that the rules of the calculus keep, that passes from a
-- conclusion to the initialization of its context, and that the initializations of the demanded
-- roots have. A run that starts in a steady state ends in one, whether it returns, raises, is
-- interrupted or spends its budget or its rounds: each context is consistent, everything that it
-- stores or awaits has the property, and if it has work left then it is in the queue.
pub run-IsSteady :
    (c : CompiledOntology) (v : PropertyView) (d : RuleDispatcher) (P : Conclusion → Type 0)
    (max_conclusions : Option ℕ) (interrupt : ℕ → Bool) (fuel : ℕ) (roots : List ℕ) (e : Engine)
    → rule_dispatcher c v ≡ ok d
    → IsSymmetric v
    → IsClosed c v d.owl_thing d.owl_nothing P
    → ((r : ℕ) → In r roots → P (initialized_at r))
    → IsSteady P none e
    → IsSteady P none (run d max_conclusions interrupt fuel roots e).1
run-IsSteady c v d P max_conclusions interrupt fuel roots e made sy closed demanded h =
    let (ix, same_c, same_v) = rule_dispatcher-IsIndexed c v d made in
    Holds-state (IsSteady P none) Idle (run d max_conclusions interrupt fuel roots e) (
      run-Holds P d max_conclusions interrupt ix (subst IsSymmetric (sym same_v) sy)
        (subst (λ w. IsClosed d.compiled w d.owl_thing d.owl_nothing P) (sym same_v)
          (subst (λ k. IsClosed k v d.owl_thing d.owl_nothing P) (sym same_c) closed))
        fuel roots e h demanded)

nothing_left : {A : Type 0} (l : List A) → ¬ (l ≢ []) → l ≡ []
nothing_left [] h = refl
nothing_left (x ∷ xs) h = absurd (h (λ e. cc e))

pub Holds-returned :
    {S A : Type 0} (I : S → Type 0) (Q : A → S → Type 0) (p : Result A × S) (a : A) (t : S)
    → p ≡ (ok a, t)
    → Holds I Q p
    → I t × Q a t
Holds-returned I Q p a t e h = subst (Holds I Q) e h

-- When a run that started in a steady state returns, nothing is left to do: the queue is empty, and
-- no context has an agenda or a premise to retry.
pub run-Idle :
    (c : CompiledOntology) (v : PropertyView) (d : RuleDispatcher) (P : Conclusion → Type 0)
    (max_conclusions : Option ℕ) (interrupt : ℕ → Bool) (fuel : ℕ) (roots : List ℕ) (e t : Engine)
    → rule_dispatcher c v ≡ ok d
    → IsSymmetric v
    → IsClosed c v d.owl_thing d.owl_nothing P
    → ((r : ℕ) → In r roots → P (initialized_at r))
    → IsSteady P none e
    → run d max_conclusions interrupt fuel roots e ≡ (ok tt, t)
    → (t.active ≡ [])
      × ((r : ℕ) (s : ContextState)
          → lookup r t.contexts ≡ some s
          → (s.todo ≡ []) × (rows r t.retry ≡ []))
run-Idle c v d P max_conclusions interrupt fuel roots e t made sy closed demanded h returned =
    let (ix, same_c, same_v) = rule_dispatcher-IsIndexed c v d made in
    let (steady, idle) = Holds-returned (IsSteady P none) Idle _ tt t returned (
      run-Holds P d max_conclusions interrupt ix (subst IsSymmetric (sym same_v) sy)
        (subst (λ w. IsClosed d.compiled w d.owl_thing d.owl_nothing P) (sym same_v)
          (subst (λ k. IsClosed k v d.owl_thing d.owl_nothing P) (sym same_c) closed))
        fuel roots e h demanded) in
    (
      idle,
      λ r s found.
          let entry = steady.1.each r s found in
          let quiet : ¬ HasWork (rows r t.retry) s.todo = λ w. elim (entry.served w) [
            | inl q ↦ subst (In r) idle (entry.listed q)
            | inr unclaimed ↦ cc unclaimed
          ] in
          (
            nothing_left s.todo (λ w. quiet (inr w)),
            nothing_left (rows r t.retry) (λ w. quiet (inl w)),
          ),
    )
