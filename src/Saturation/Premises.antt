-- ===== src/Saturation/Premises.antt =====
-- The next premise of `_next_premise` (src/pyelk/reasoning/saturation.py) is at hand: what was done
-- is still done, and the premise is not.
use py_elk.Prelude.{
  ℕ, ◌≡◌, ◌≢◌, refl, sym, ap, subst, ◌∙◌, ◌⊎◌, inl, inr, List, [], ◌∷◌, Bool, true, false, Option,
  none, some, In, lookup, insert, rows, Bool-cases, ◌==◌, ==_iff, Option-cases, lookup-insert_self,
  lookup-insert_other, rows-insert_self, rows-insert_other, ok,
}
use py_elk.Conclusion.{Conclusion, conclusion_destination}
use py_elk.Context.{ContextState, pop_todo, pop_from, insert_owned}
use py_elk.Context.Invariant.{Known, IsConsistent}
use py_elk.Context.Process.{Inserts, pop_todo_lem, insert_owned_lem}
use py_elk.Context.Methods.{insert-own}
use py_elk.Rules.Index.{RuleDispatcher}
use py_elk.Saturation.Engine.{Engine, put, context_at}
use py_elk.Saturation.Schedule.{take_retry, record_insertion, take_agenda, next_premise}
use py_elk.Saturation.Steady.{IsSteady}
use py_elk.Saturation.Holds.{Ends, Ends-bind}
use py_elk.Saturation.Run.{List-cases}
use py_elk.Saturation.Routing.{At}
use py_elk.Saturation.Grows.{same-At}
use py_elk.Saturation.Arrival.{Any}
use py_elk.Saturation.Complete.{Moves, Moves-same, Moves-trans}

-- One context is replaced by one that stores no more but the premise at hand and knows no less.
pub replaced-Moves :
    (current : Option Conclusion) (root : ℕ) (s s' : ContextState) (e t : Engine)
    → At root s e
    → At root s' t
    → ((r : ℕ) → r ≢ root → lookup r t.contexts ≡ lookup r e.contexts)
    → t.retry ≡ e.retry
    → ((y : Conclusion) → In y s'.stored → current ≢ some y → In y s.stored)
    → ((x : Conclusion) → Known s x → Known s' x)
    → Moves none current e t
replaced-Moves current root s s' e t found now others retry stored known = record {
  back = λ y (z, there, m, waiting, other).
      let dest = conclusion_destination y in
      let calm : ¬ In y (rows dest e.retry) = subst (λ q. ¬ In y (rows dest q)) retry waiting in
      elim (Bool-cases (dest == root)) [
        | inr f ↦
            let apart : dest ≢ root = λ q. cc ((==_iff dest root).1 q) in
            (z, sym (others dest apart) ∙ there, m, calm, λ q. cc q)
        | inl b ↦
            let q = (==_iff dest root).0 b in
            let same : s' ≡ z = same-At root s' z t now (subst (λ k. At k z t) q there) in
            (
              s,
              subst (λ k. At k s e) (sym q) found,
              stored y (subst (λ (k : ContextState). In y k.stored) (sym same) m) other,
              calm,
              λ n. cc n,
            )
      ];
  seen = λ x (z, there, k).
      let dest = conclusion_destination x in
      elim (Bool-cases (dest == root)) [
        | inr f ↦
            let apart : dest ≢ root = λ q. cc ((==_iff dest root).1 q) in
            (z, others dest apart ∙ there, k)
        | inl b ↦
            let q = (==_iff dest root).0 b in
            let same : z ≡ s = same-At root z s e (subst (λ k. At k z e) q there) found in
            (s', subst (λ k. At k s' t) (sym q) now, known x (subst (λ k. Known k x) same k))
      ];
  stays = λ r z there. elim (Bool-cases (r == root)) [
    | inr f ↦ (z, others r (λ q. cc ((==_iff r root).1 q)) ∙ there)
    | inl b ↦ (s', subst (λ k. At k s' t) (sym ((==_iff r root).0 b)) now)
  ];
  came = λ r z there. elim (Bool-cases (r == root)) [
    | inr f ↦ inl (z, sym (others r (λ q. cc ((==_iff r root).1 q))) ∙ there)
    | inl b ↦ inl (s, subst (λ k. At k s e) (sym ((==_iff r root).0 b)) found)
  ];
  fewer = λ r c m. inl (subst (λ k. In c (rows r k)) retry m);
}

-- The retries of one root change.
pub retried-Moves :
    (current current' : Option Conclusion) (root : ℕ) (l : List Conclusion) (e : Engine)
    → ((y : Conclusion)
        → ¬ In y l
        → current' ≢ some y
        → (¬ In y (rows root e.retry)) × (current ≢ some y))
    → ((y : Conclusion) → conclusion_destination y ≢ root → current' ≢ some y → current ≢ some y)
    → ((y : Conclusion) → In y l → In y (rows root e.retry) ⊎ (conclusion_destination y ≡ root))
    → Moves current current' e (record e { retry = insert root l e.retry })
retried-Moves current current' root l e here elsewhere mine = record {
  back = λ y (z, there, m, waiting, other).
      let dest = conclusion_destination y in
      elim (Bool-cases (dest == root)) [
        | inl b ↦
            let q = (==_iff dest root).0 b in
            let now : ¬ In y (rows root (insert root l e.retry)) =
              subst (λ k. ¬ In y (rows k (insert root l e.retry))) q waiting in
            let (calm, free) =
              here y (subst (λ k. ¬ In y k) (rows-insert_self root l e.retry) now) other in
            (z, there, m, subst (λ k. ¬ In y (rows k e.retry)) (sym q) calm, free)
        | inr f ↦
            let apart : dest ≢ root = λ q. cc ((==_iff dest root).1 q) in
            (
              z,
              there,
              m,
              subst (λ k. ¬ In y k) (rows-insert_other dest root l e.retry apart) waiting,
              elsewhere y apart other,
            )
      ];
  seen = λ x k. k;
  stays = λ r s found. (s, found);
  came = λ r s found. inl (s, found);
  fewer = λ r c m. elim (Bool-cases (r == root)) [
    | inr f ↦
        inl (subst (In c) (rows-insert_other r root l e.retry (λ q. cc ((==_iff r root).1 q))) m)
    | inl b ↦
        let q = (==_iff r root).0 b in
        let now : In c l =
          subst (In c) (rows-insert_self root l e.retry)
            (subst (λ k. In c (rows k (insert root l e.retry))) q m) in
        elim (mine c now) [
          | inl old ↦ inl (subst (λ k. In c (rows k e.retry)) (sym q) old)
          | inr own ↦ inr (own ∙ sym q)
        ]
  ];
}

module _ (d : RuleDispatcher) (root : ℕ) where
  -- The premise belongs to the root.
  abbrev pub AtHand : Engine → Conclusion × Bool → Engine → Type 0
  AtHand e p t = Moves none (some p.0) e t × (conclusion_destination p.0 ≡ root)

  record_insertion-Moves :
      (c : Conclusion) (s s' t : ContextState) (b : Bool) (e e' : Engine)
      → At root s e
      → s.todo ≡ c ∷ s'.todo
      → s'.stored ≡ s.stored
      → t.root ≡ root
      → conclusion_destination c ≡ root
      → Inserts s' c t b
      → ((r : ℕ) → r ≢ root → lookup r e'.contexts ≡ lookup r e.contexts)
      → e'.retry ≡ e.retry
      → Ends (Moves none none e) (AtHand e) (record_insertion d c (ok (t, b)) e')
  unfolding record_insertion
  record_insertion-Moves c s s' t b e e' found agenda same owner own i others retry =
      let now : At root t (put t e') =
        subst (λ r. At r t (put t e')) owner (lookup-insert_self t.root t e'.contexts) in
      let moves : Moves none (some c) e (put t e') =
        replaced-Moves (some c) root s t e (put t e') found now
          (λ r apart.
            lookup-insert_other r t.root t e'.contexts (λ q. apart (q ∙ owner)) ∙ others r apart)
          retry
          (λ y m other. elim ((i.stored y).0 m) [
            | inl q ↦ absurd (other (ap some (sym q)))
            | inr m' ↦ subst (In y) same m'
          ])
          (λ x k. elim k [
            | inl m ↦ inl ((i.stored x).1 (inr (subst (In x) (sym same) m)))
            | inr m ↦ elim (subst (In x) agenda m) [
              | inl q ↦ inl ((i.stored x).1 (inl q))
              | inr m' ↦ inr (subst (In x) (sym i.same_todo) m')
            ]
          ]) in
      let counted =
        λ (u : Engine) (contexts : u.contexts ≡ (put t e').contexts) (retried : u.retry ≡ e'.retry).
          Moves-trans none (some c) (some c) e (put t e') u moves
            (Moves-same (some c) (put t e') u contexts retried) in
      elim b as (λ k. Ends (Moves none none e) (AtHand e) (record_insertion d c (ok (t, k)) e')) [
        | true ↦ (counted _ refl refl, own)
        | false ↦ (counted _ refl refl, own)
      ]

  take_agenda-Moves :
      (s : ContextState) (e : Engine) (todo : List Conclusion)
      → s.todo ≡ todo
      → s.root ≡ root
      → IsConsistent s
      → At root s e
      → Ends (Moves none none e) (AtHand e) (take_agenda d (pop_todo s) e)
  unfolding take_agenda
  take_agenda-Moves s e [] empty owner h found =
      let taken : pop_todo s ≡ (s, none) = (unfold pop_todo in ap (λ cs. pop_from cs s) empty) in
      rw taken (
        replaced-Moves none root s s e (put s e) found
          (subst (λ r. At r s (put s e)) owner (lookup-insert_self s.root s e.contexts))
          (λ r apart. lookup-insert_other r s.root s e.contexts (λ q. apart (q ∙ owner))) refl
          (λ y m other. m) (λ x k. k))
  take_agenda-Moves s e (c ∷ rest) agenda owner h found =
      let (popped, p) = pop_todo_lem s c rest agenda h in
      let s' : ContextState = (pop_todo s).0 in
      let taken : pop_todo s ≡ (s', some c) = ap (λ o. (s', o)) popped in
      let owner' : s'.root ≡ root = p.same_root ∙ owner in
      let inserted = insert_owned_lem s' c p.owned p.gone p.consistent in
      let own = (==_iff (conclusion_destination c) s'.root).1 p.owned in
      subst (λ q. Ends (Moves none none e) (AtHand e) (take_agenda d q e)) (sym taken)
        (subst (λ r. Ends (Moves none none e) (AtHand e) (record_insertion d c r (put s' e)))
          (sym (insert-own s' c own))
          (record_insertion-Moves c s s' (insert_owned c s').0 (insert_owned c s').1 e (put s' e)
            found p.agenda p.same_stored (inserted.same_root ∙ owner') (p.owned ∙ owner') inserted
            (λ r apart. lookup-insert_other r s'.root s' e.contexts (λ q. apart (q ∙ owner')))
            refl))

  pub context_at-same :
      (E : Engine → Type 0) (e : Engine)
      → E e
      → Ends E (λ s t. (t ≡ e) × At root s e) (context_at root e)
  unfolding context_at
  context_at-same E e h = elim (Option-cases (lookup root e.contexts)) [
    | inl none_there ↦ rw (none_there, context_at) h
    | inr (s, found) ↦ rw (found, context_at) (refl, refl)
  ]

  pub next_premise-Moves :
      (e : Engine)
      → IsSteady Any (some root) e
      → ((c : Conclusion) → In c (rows root e.retry) → conclusion_destination c ≡ root)
      → Ends (Moves none none e) (AtHand e) (next_premise d root e)
  unfolding next_premise take_retry
  next_premise-Moves e h owed = elim (List-cases (rows root e.retry)) [
    | inl none_left ↦
        rw (none_left, next_premise)
          (Ends-bind (Moves none none e) (λ s t. (t ≡ e) × At root s e) (AtHand e) (context_at root)
            (λ s. take_agenda d (pop_todo s)) e
            (context_at-same (Moves none none e) e (Moves-same none e e refl refl))
            (λ s t (same, found).
              let entry = h.1.each root s found in
              subst (λ u. Ends (Moves none none e) (AtHand e) (take_agenda d (pop_todo s) u))
                (sym same) (take_agenda-Moves s e s.todo refl entry.owner entry.consistent found)))
    | inr (c, rest, waiting) ↦
        let own = owed c (subst (In c) (sym waiting) (inl refl)) in
        let moves : Moves none (some c) e (record e { retry = insert root rest e.retry }) =
          retried-Moves none (some c) root rest e
            (λ y absent other. (
              λ m. elim (subst (In y) waiting m) [
                | inl q ↦ other (ap some (sym q))
                | inr m' ↦ absent m'
              ],
              λ q. cc q,
            ))
            (λ y apart other q. cc q) (λ y m. inl (subst (In y) (sym waiting) (inr m))) in
        rw (waiting, next_premise) (moves, own)
  ]
