-- ===== src/Saturation/Service.antt =====
-- The scheduler of src/pyelk/reasoning/saturation.py stays steady while a claimed context is served:
-- `_next_premise` and `_dispatch`.
use py_elk.Prelude.{
  ℕ, ◌≡◌, ◌≢◌, refl, sym, ap, subst, ◌∙◌, ◌⊎◌, inl, inr, List, [], ◌∷◌, Bool, true, false, none,
  some, ◌==◌, ==_iff, Bool-cases, In, lookup, insert, rows-insert_other, lookup-insert_self, rows,
  Result, ok,
}
use py_elk.Conclusion.{Conclusion, conclusion_destination}
use py_elk.Context.{ContextState, pop_todo, pop_from, insert_owned}
use py_elk.Context.Invariant.{IsConsistent}
use py_elk.Context.Process.{Inserts, pop_todo_lem, insert_owned_lem}
use py_elk.Context.Methods.{insert-own}
use py_elk.Rules.Index.{RuleDispatcher}
use py_elk.Saturation.Actions.{◌>>=◌}
use py_elk.Saturation.Engine.{Engine, put, context_at}
use py_elk.Saturation.Schedule.{take_retry, record_insertion, take_agenda, next_premise}
use py_elk.Saturation.Steady.{IsSteady, update-Entries}
use py_elk.Saturation.Holds.{Holds, Holds-bind}
use py_elk.Saturation.Routing.{Anything, At, context_at-Holds}

module _ (P : Conclusion → Type 0) (root : ℕ) where
  abbrev Steady : Engine → Type 0
  Steady = IsSteady P (some root)

  -- The retries of the claimed root may change.
  pub retried-IsSteady :
      (l : List Conclusion) (e : Engine)
      → IsSteady P (some root) e
      → IsSteady P (some root) (record e { retry = insert root l e.retry })
  retried-IsSteady l e (held, h) = (
    held,
    record {
      each = λ r s found.
          let old = h.each r s found in
          record {
            owner = old.owner;
            consistent = old.consistent;
            stored = old.stored;
            awaited = old.awaited;
            listed = old.listed;
            served = elim (Bool-cases (r == root)) [
              | inl same ↦ λ w. inr (ap some (sym ((==_iff r root).0 same)))
              | inr other ↦ λ w. old.served (
                  subst (λ k. (k ≢ []) ⊎ (s.todo ≢ []))
                    (rows-insert_other r root l e.retry (λ q. cc ((==_iff r root).1 q))) w)
            ];
          };
      known = h.known;
    },
  )

  -- So may its context.
  pub put-IsSteady :
      (s before : ContextState) (e : Engine)
      → IsSteady P (some root) e
      → At root before e
      → s.root ≡ root
      → s.queued ≡ before.queued
      → IsConsistent s
      → ((x : Conclusion) → In x s.stored → P x)
      → ((x : Conclusion) → In x s.todo → P x)
      → IsSteady P (some root) (put s e)
  put-IsSteady s before e (held, h) found owner same consistent stored awaited =
      let old = h.each root before found in
      (
        held,
        update-Entries h e.active (some root) e.retry s.root s
            (record {
              owner = refl;
              consistent = consistent;
              stored = stored;
              awaited = awaited;
              listed = λ q. subst (λ r. In r e.active) (sym owner) (old.listed (sym same ∙ q));
              served = λ w. inr (ap some (sym owner));
            })
            (λ r a m. m) (λ r a m. m) (λ r a c. c) (λ r a. refl),
      )

  module _ (d : RuleDispatcher) where
    record_insertion-Holds :
        (c : Conclusion) (s t : ContextState) (b : Bool) (e : Engine)
        → IsSteady P (some root) e
        → At root s e
        → s.root ≡ root
        → Inserts s c t b
        → P c
        → ((x : Conclusion) → In x s.stored → P x)
        → ((x : Conclusion) → In x s.todo → P x)
        → Holds (IsSteady P (some root)) Anything (record_insertion d c (ok (t, b)) e)
    unfolding record_insertion
    record_insertion-Holds c s t b e h found owner i p stored awaited =
        let kept : IsSteady P (some root) (put t e) =
          put-IsSteady t s e h found (i.same_root ∙ owner) i.same_queued i.consistent
            (λ x m. elim ((i.stored x).0 m) [ inl q ↦ subst P (sym q) p | inr m' ↦ stored x m' ])
            (λ x m. awaited x (subst (In x) i.same_todo m)) in
        elim b
          as (λ k. Holds (IsSteady P (some root)) Anything (record_insertion d c (ok (t, k)) e)) [
            | true ↦ (kept, tt)
            | false ↦ (kept, tt)
          ]

    take_agenda-Holds :
        (s : ContextState) (e : Engine) (todo : List Conclusion)
        → s.todo ≡ todo
        → IsSteady P (some root) e
        → At root s e
        → Holds (IsSteady P (some root)) Anything (take_agenda d (pop_todo s) e)
    unfolding take_agenda
    take_agenda-Holds s e [] empty (held, h) found =
        let old = h.each root s found in
        let taken : pop_todo s ≡ (s, none) = (unfold pop_todo in ap (λ cs. pop_from cs s) empty) in
        rw taken
          (put-IsSteady s s e (held, h) found old.owner refl old.consistent old.stored old.awaited)
    take_agenda-Holds s e (c ∷ rest) agenda (held, h) found =
        let old = h.each root s found in
        let (popped, p) = pop_todo_lem s c rest agenda old.consistent in
        let s' : ContextState = (pop_todo s).0 in
        let taken : pop_todo s ≡ (s', some c) = ap (λ o. (s', o)) popped in
        let owner : s'.root ≡ root = p.same_root ∙ old.owner in
        let stored : (x : Conclusion) → In x s'.stored → P x =
          λ x m. old.stored x (subst (In x) p.same_stored m) in
        let awaited : (x : Conclusion) → In x s'.todo → P x =
          λ x m. old.awaited x (subst (In x) (sym p.agenda) (inr m)) in
        let e' : Engine = put s' e in
        let kept : IsSteady P (some root) e' =
          put-IsSteady s' s e (held, h) found owner p.same_queued p.consistent stored awaited in
        let there : At root s' e' =
          subst (λ r. lookup r e'.contexts ≡ some s') owner
            (lookup-insert_self s'.root s' e.contexts) in
        let own = (==_iff (conclusion_destination c) s'.root).1 p.owned in
        subst (λ q. Holds (IsSteady P (some root)) Anything (take_agenda d q e)) (sym taken)
          (subst (λ r. Holds (IsSteady P (some root)) Anything (record_insertion d c r e'))
            (sym (insert-own s' c own))
            (record_insertion-Holds c s' (insert_owned c s').0 (insert_owned c s').1 e' kept there
              owner (insert_owned_lem s' c p.owned p.gone p.consistent)
              (old.awaited c (subst (In c) (sym p.agenda) (inl refl))) stored awaited))

    pub next_premise-Holds :
        (e : Engine)
        → IsSteady P (some root) e
        → Holds (IsSteady P (some root)) Anything (next_premise d root e)
    unfolding next_premise take_retry
    next_premise-Holds e h =
        elim (rows root e.retry)
          as (λ l.
            Holds (IsSteady P (some root)) Anything
              (elim l as (λ _. Result (Conclusion × Bool) × Engine) [
                | [] ↦ (do s ← context_at root; take_agenda d (pop_todo s)) e
                | c ∷ rest ↦ take_retry d root (c ∷ rest) e
              ])) [
                | [] ↦
                    Holds-bind Steady (At root) Anything (context_at root)
                      (λ s. take_agenda d (pop_todo s)) e (context_at-Holds Steady root e h)
                      (λ s t h' found. take_agenda-Holds s t s.todo refl h' found)
                | c ∷ rest ↦ (retried-IsSteady rest e h, tt)
              ]
