-- ===== src/Saturation/Closure.antt =====
-- What `run` of src/pyelk/reasoning/saturation.py has stored when it returns: the least set of
-- conclusions that the rules keep and that the demanded roots start.
use py_elk.Prelude.{
  ℕ, ◌≡◌, sym, ap, subst, inl, inr, List, [], ◌++◌, Bool, Option, none, some, In, In-append,
  nat_ordered, lookup, rows, Result, ok,
}
use py_elk.Ir.{CompiledOntology}
use py_elk.PropertyView.{PropertyView}
use py_elk.Conclusion.{Conclusion, initialized_at, conclusion_destination}
use py_elk.Context.{ContextState}
use py_elk.Rules.Monotone.{Infers-mono, Infers-premise}
use py_elk.Rules.Index.{RuleDispatcher, rule_dispatcher}
use py_elk.Rules.Lookups.{IsSymmetric}
use py_elk.Rules.Construction.{rule_dispatcher-IsIndexed}
use py_elk.Rules.Exact.{rule_dispatcher-IsNamed}
use py_elk.Saturation.Engine.{Engine, new_engine}
use py_elk.Saturation.Schedule.{run}
use py_elk.Saturation.Steady.{IsClosed, IsSteady}
use py_elk.Saturation.Holds.{Ends, Ends-map, Ends-state}
use py_elk.Saturation.Routing.{At}
use py_elk.Saturation.Delivery.{Seen}
use py_elk.Saturation.Arrival.{Any}
use py_elk.Saturation.Complete.{Done, IsComplete, fewer_roots}
use py_elk.Saturation.Sound.{run-IsSteady, run-Idle}
use py_elk.Saturation.Kept.{run-Kept}

-- The context that owns the conclusion stores it.
abbrev pub Stored : Engine → Conclusion → Type 0
Stored t x = (s : ContextState) × At (conclusion_destination x) s t × In x s.stored

-- A scheduler that was just made.
pub new_engine-IsComplete : (d : RuleDispatcher) → IsComplete d [] none new_engine
unfolding lookup
new_engine-IsComplete d = record {
  follows = λ x i. absurd (Infers-premise (λ y (z, there, _, _, _). cc there) i);
  first = λ r s found. cc;
  owed = λ r c m. absurd m;
  demanded = λ r m. absurd m;
}

-- Take the dispatcher constructed for an ontology and a property view whose two composition indices
-- agree, and a scheduler that is steady and has lost nothing, as one that was just made. However a
-- run ends, by returning or by an exception, an interruption or a spent budget, the scheduler is
-- again steady and has lost nothing: what follows by one rule from stored conclusions that do not
-- wait to be retried is stored or on the agenda of the context that owns it, each context knows its
-- initialization, a premise to be retried belongs to its root, and the roots that were demanded
-- before have contexts.
pub run-IsComplete :
    (c : CompiledOntology) (v : PropertyView) (d : RuleDispatcher) (max_conclusions : Option ℕ)
    (interrupt : ℕ → Bool) (fuel : ℕ) (asked roots : List ℕ) (e : Engine)
    → rule_dispatcher c v ≡ ok d
    → IsSymmetric v
    → IsSteady Any none e
    → IsComplete d asked none e
    → IsSteady Any none (run d max_conclusions interrupt fuel roots e).1
      × IsComplete d asked none (run d max_conclusions interrupt fuel roots e).1
run-IsComplete c v d max_conclusions interrupt fuel asked roots e made sy steady h =
    let (ix, same_c, same_v) = rule_dispatcher-IsIndexed c v d made in
    let Here = λ (t : Engine). IsSteady Any none t × IsComplete d asked none t in
    (Ends-state Here (run d max_conclusions interrupt fuel roots e)).0 (
      Ends-map Here Here (λ a t. IsSteady Any none t × IsComplete d (asked ++ roots) none t)
        (λ a t. Here t) _ (λ t k. k)
        (λ a t k. (
          k.0,
          fewer_roots d asked (asked ++ roots) none t
              (λ r m. k.1.demanded r ((In-append r asked roots).1 (inl m))) k.1,
        ))
        (run-Kept d max_conclusions interrupt ix (subst IsSymmetric (sym same_v) sy)
          (rule_dispatcher-IsNamed c v d made) fuel asked roots e (steady, h)))

-- A scheduler with nothing left to do has stored whatever it knows.
settled-IsClosed :
    (d : RuleDispatcher) (roots : List ℕ) (t : Engine)
    → IsComplete d roots none t
    → ((r : ℕ) (s : ContextState)
        → lookup r t.contexts ≡ some s
        → (s.todo ≡ []) × (rows r t.retry ≡ []))
    → IsClosed d.compiled d.properties d.owl_thing d.owl_nothing (Stored t)
      × ((r : ℕ) → In r roots → Stored t (initialized_at r))
settled-IsClosed d roots t h quiet =
    let stored = λ (x : Conclusion) (k : Seen t x).
      let (s, there, known) = k in
      let now : Stored t x = (
        s,
        there,
        elim known [ inl m ↦ m | inr m ↦ absurd (subst (In x) (quiet _ s there).0 m) ],
      ) in
      now in
    let done = λ (x : Conclusion) (k : Stored t x).
      let (s, there, m) = k in
      let now : Done t none x =
        (s, there, m, (λ q. subst (In x) (quiet _ s there).1 q), λ q. cc q) in
      now in
    (
      record {
        inferred = λ x i. stored x (h.follows x (Infers-mono (λ y k. done y k) i));
        activated = λ x (s, there, m). stored _ (h.first (conclusion_destination x) s there);
      },
      λ r m. let (s, there) = h.demanded r m in stored (initialized_at r) (h.first r s there),
    )

-- A scheduler that is steady for a property is steady.
IsSteady-Any : (P : Conclusion → Type 0) (e : Engine) → IsSteady P none e → IsSteady Any none e
IsSteady-Any P e (held, h) = (
  held,
  record {
    each = λ r s found.
        let entry = h.each r s found in
        record {
          owner = entry.owner;
          consistent = entry.consistent;
          stored = λ x m. tt;
          awaited = λ x m. tt;
          listed = entry.listed;
          served = entry.served;
        };
    known = h.known;
  },
)

-- Take the dispatcher constructed for an ontology and a property view whose two composition indices
-- agree, and a scheduler that has lost nothing and is steady for a property of conclusions, as one
-- that was just made or one whose last run was stopped. Let the property be closed under the rules
-- and from a conclusion to the initialization of its context, and let the initializations of the
-- demanded roots have it. When a run returns, the stored conclusions are closed in the same way,
-- they contain the initializations of the roots demanded now and before, and each of them has the
-- property: they are the least such set.
pub run-IsClosed :
    (c : CompiledOntology) (v : PropertyView) (d : RuleDispatcher) (P : Conclusion → Type 0)
    (max_conclusions : Option ℕ) (interrupt : ℕ → Bool) (fuel : ℕ) (asked roots : List ℕ)
    (e t : Engine)
    → rule_dispatcher c v ≡ ok d
    → IsSymmetric v
    → IsClosed c v d.owl_thing d.owl_nothing P
    → ((r : ℕ) → In r roots → P (initialized_at r))
    → IsSteady P none e
    → IsComplete d asked none e
    → run d max_conclusions interrupt fuel roots e ≡ (ok tt, t)
    → IsClosed c v d.owl_thing d.owl_nothing (Stored t)
      × ((r : ℕ) → In r (asked ++ roots) → Stored t (initialized_at r))
      × ((x : Conclusion) → Stored t x → P x)
run-IsClosed c v d P max_conclusions interrupt fuel asked roots e t made sy P-closed start begun h
      returned =
    let (ix, same_c, same_v) = rule_dispatcher-IsIndexed c v d made in
    let Kept_at = λ (rs : List ℕ) (u : Engine). IsSteady Any none u × IsComplete d rs none u in
    let steady = IsSteady-Any P e begun in
    let kept : Kept_at (asked ++ roots) t =
      subst (Ends (Kept_at asked) (λ (a : Unit {0}) u. Kept_at (asked ++ roots) u)) returned (
        run-Kept d max_conclusions interrupt ix (subst IsSymmetric (sym same_v) sy)
          (rule_dispatcher-IsNamed c v d made) fuel asked roots e (steady, h)) in
    let (idle, quiet) =
      run-Idle c v d P max_conclusions interrupt fuel roots e t made sy P-closed start begun
        returned in
    let (closed, demanded) = settled-IsClosed d (asked ++ roots) t kept.1 quiet in
    let end : IsSteady P none t =
      subst (IsSteady P none) (ap (λ (p : Result (Unit {0}) × Engine). p.1) returned) (
        run-IsSteady c v d P max_conclusions interrupt fuel roots e made sy P-closed start begun) in
    (
      subst (λ k. IsClosed k v d.owl_thing d.owl_nothing (Stored t)) same_c
          (subst (λ w. IsClosed d.compiled w d.owl_thing d.owl_nothing (Stored t)) same_v closed),
      demanded,
      λ x (s, there, m). (end.1.each _ s there).stored x m,
    )
