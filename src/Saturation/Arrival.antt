-- ===== src/Saturation/Arrival.antt =====
-- A new context, and the products that are routed to their contexts (src/pyelk/reasoning/saturation.py,
-- `_ensure_context`, `enqueue` and the loop over the products of a dispatch).
use py_elk.Prelude.{
  ℕ, ◌≡◌, ◌≢◌, refl, sym, ap, subst, ◌∙◌, inl, inr, List, [], ◌∷◌, Bool, true, false, Option, none,
  In, lookup, insert, rows, Bool-cases, Option-cases, lookup-insert_self, lookup-insert_other,
  rows-insert_other, rows-insert_self, ltb, length, Result,
}
use py_elk.Conclusion.{Conclusion, initialized_at, conclusion_destination}
use py_elk.Context.{ContextState, new_context}
use py_elk.Context.Invariant.{Enqueues, new_context-IsConsistent}
use py_elk.Context.Methods.{enqueue_lem}
use py_elk.Rules.Index.{RuleDispatcher}
use py_elk.Saturation.Actions.{◌>>=◌}
use py_elk.Saturation.Engine.{
  Engine, activate, publish, enqueue_existing, create_context, ensure_context, checked_root,
  enqueue,
}
use py_elk.Saturation.Schedule.{enqueue_all}
use py_elk.Saturation.Steady.{IsSteady}
use py_elk.Saturation.Holds.{Holds, Holds-bind, Holds-both, Holds-map}
use py_elk.Saturation.Routing.{Anything, At, context_at-Holds, enqueue_existing-Holds}
use py_elk.Saturation.Demand.{ensure_context-Holds}
use py_elk.Saturation.Grows.{Grows, Grows-refl, Grows-trans, Grows-insert}
use py_elk.Saturation.Delivery.{Seen, Seen-Grows, activate-Activates, enqueue_existing-Grows}

-- What is asked of conclusions where nothing is asked of them.
abbrev pub Any : Conclusion → Type 0
Any x = Unit

pub initialized-root : (root : ℕ) → conclusion_destination (initialized_at root) ≡ root
unfolding conclusion_destination
initialized-root root = refl

-- The initialization of a new context is on its agenda.
arrived-Grows :
    (root : ℕ) (t : ContextState) (e e' : Engine)
    → lookup root e.contexts ≡ none
    → Enqueues (new_context root) (initialized_at root) t true
    → e'.contexts ≡ insert root (new_context root) e.contexts
    → e'.retry ≡ insert root [] e.retry
    → Grows e (activate t e')
unfolding new_context
arrived-Grows root t e e' absent q contexts retry =
    let a = activate-Activates t e' in
    let z = a.state in
    let u = activate t e' in
    let same : u.contexts ≡ insert root z (insert root (new_context root) e.contexts) =
      a.contexts ∙ ap (λ r. insert r z e'.contexts) q.same_root ∙ ap (insert root z) contexts in
    let empty : t.stored ≡ [] = q.same_stored in
    let other = λ (r : ℕ) (apart : r ≢ root).
      ap (lookup r) same
      ∙ lookup-insert_other r root z (insert root (new_context root) e.contexts) apart
      ∙ lookup-insert_other r root (new_context root) e.contexts apart in
    let kept = λ (r : ℕ) (apart : r ≢ root).
      ap (rows r) (a.retry ∙ retry) ∙ rows-insert_other r root [] e.retry apart in
    Grows-insert e u root z
      (ap (lookup root) same
        ∙ lookup-insert_self root z (insert root (new_context root) e.contexts))
      other kept
      (inr (
        absent,
        a.stored ∙ empty,
        elim ((q.known (initialized_at root)).1 (inl refl)) [
          | inl m ↦ absurd (subst (In (initialized_at root)) empty m)
          | inr m ↦ subst (In (initialized_at root)) (sym a.todo) m
        ],
        ap (rows root) (a.retry ∙ retry) ∙ rows-insert_self root [] e.retry,
      ))

create_context-Grows :
    (root : ℕ) (e : Engine)
    → lookup root e.contexts ≡ none
    → Holds (Grows e) (At root) (create_context root e)
unfolding create_context enqueue_existing publish new_context ◌>>=◌
create_context-Grows root e absent =
    elim (enqueue_lem (new_context root) (initialized_at root) (new_context-IsConsistent root)) [
      | inl (_, (t, true, r, q)) ↦
          rw r (context_at-Holds (Grows e) root _ (arrived-Grows root t e _ absent q refl refl))
      | inl (_, (t, false, r, q)) ↦
          cc (q.flag.1 (λ k. elim k [ inl m ↦ absurd m | inr m ↦ absurd m ]))
      | inr (foreign, _) ↦ absurd (foreign (initialized-root root))
    ]

-- The scheduler stays steady and its contexts grow.
abbrev pub Advances : Option ℕ → Engine → Engine → Type 0
Advances claimed e t = IsSteady Any claimed t × Grows e t

module _ (claimed : Option ℕ) where
  pub ensure_context-Advances :
      (root : ℕ) (e : Engine)
      → IsSteady Any claimed e
      → Holds (Advances claimed e) (At root) (ensure_context root e)
  unfolding ensure_context
  ensure_context-Advances root e h =
      Holds-map (λ t. IsSteady Any claimed t × Grows e t) (Advances claimed e)
        (λ s t. At root s t × At root s t) (At root) _ (λ t k. k) (λ s t k q. q.0)
        (Holds-both (IsSteady Any claimed) (Grows e) (At root) (At root) _
          (ensure_context-Holds Any claimed root e h tt)
          (elim (Option-cases (lookup root e.contexts)) [
            | inr (s, found) ↦ rw (found, ensure_context) (Grows-refl e e refl refl, found)
            | inl fresh ↦ rw (fresh, ensure_context) (create_context-Grows root e fresh)
          ]))

  checked_root-Advances :
      (d : RuleDispatcher) (root : ℕ) (e : Engine)
      → IsSteady Any claimed e
      → Holds (Advances claimed e) (λ r _. r ≡ root) (checked_root d root e)
  unfolding checked_root
  checked_root-Advances d root e h = elim (Bool-cases (ltb root (length d.compiled.expressions))) [
    | inl t ↦ rw t ((h, Grows-refl e e refl refl), refl)
    | inr f ↦ rw f (h, Grows-refl e e refl refl)
  ]

  enqueue_existing-Advances :
      (s : ContextState) (c : Conclusion) (e : Engine)
      → IsSteady Any claimed e
      → At s.root s e
      → conclusion_destination c ≡ s.root
      → Holds (Advances claimed e) (λ _ u. Seen u c) (enqueue_existing s c e)
  enqueue_existing-Advances s c e h found own =
      Holds-map (λ t. IsSteady Any claimed t × Grows e t) (Advances claimed e)
        (λ b t. Anything b t × Seen t c) (λ b t. Seen t c) _ (λ t k. k) (λ b t k q. q.1)
        (Holds-both (IsSteady Any claimed) (Grows e) Anything (λ b t. Seen t c) _
          (enqueue_existing-Holds Any claimed s c e h found tt)
          (enqueue_existing-Grows s c e found (h.1.each s.root s found).consistent own))

  -- What starts where contexts grew from `e` lets them grow from `e`.
  onward :
      {A : Type 0} (Q : A → Engine → Type 0) (e t : Engine) (p : Result A × Engine)
      → Grows e t
      → Holds (Advances claimed t) Q p
      → Holds (Advances claimed e) Q p
  onward Q e t p g =
      Holds-map (Advances claimed t) (Advances claimed e) Q Q p
        (λ u k. (k.0, Grows-trans e t u g k.1)) (λ a u k q. q)

  module _ (d : RuleDispatcher) where
    enqueue-Advances :
        (c : Conclusion) (e : Engine)
        → IsSteady Any claimed e
        → Holds (Advances claimed e) (λ _ u. Seen u c) (enqueue d c e)
    unfolding enqueue
    enqueue-Advances c e h =
        let I = Advances claimed e in
        let Aware = λ (b : Bool) (u : Engine). Seen u c in
        let root = conclusion_destination c in
        Holds-bind I (λ r _. r ≡ root) Aware (checked_root d root) _ e
          (checked_root-Advances d root e h)
          (λ r t k same.
            Holds-bind I (At r) Aware (ensure_context r) (λ s. enqueue_existing s c) t
              (onward (At r) e t _ k.1 (ensure_context-Advances r t k.0))
              (λ s u k' found.
                let owner = (k'.0.1.each r s found).owner in
                onward Aware e u _ k'.1 (
                  enqueue_existing-Advances s c u k'.0 (subst (λ q. At q s u) (sym owner) found)
                    (sym same ∙ sym owner))))

    pub enqueue_all-Advances :
        (cs : List Conclusion) (e : Engine)
        → IsSteady Any claimed e
        → Holds
            (Advances claimed e)
            (λ _ u. (x : Conclusion) → In x cs → Seen u x)
            (enqueue_all d cs e)
    unfolding enqueue_all
    enqueue_all-Advances [] e h = ((h, Grows-refl e e refl refl), λ x m. absurd m)
    enqueue_all-Advances (c ∷ cs) e h =
        let I = Advances claimed e in
        let Rest = λ (a : Unit {0}) (u : Engine). (x : Conclusion) → In x cs → Seen u x in
        let All = λ (a : Unit {0}) (u : Engine). (x : Conclusion) → In x (c ∷ cs) → Seen u x in
        Holds-bind I (λ b u. Seen u c) All (enqueue d c) (λ _. enqueue_all d cs) e
          (enqueue-Advances c e h)
          (λ b t k seen.
            Holds-map (λ u. Advances claimed t u) I Rest All _
              (λ u k'. (k'.0, Grows-trans e t u k.1 k'.1))
              (λ a u k' rest x m. elim m [
                | inl q ↦ subst (Seen u) (sym q) (Seen-Grows t u c k'.1 seen)
                | inr m' ↦ rest x m'
              ])
              (enqueue_all-Advances cs t k.0))
