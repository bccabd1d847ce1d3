-- ===== src/Saturation/Demand.antt =====
-- The scheduler of src/pyelk/reasoning/saturation.py stays steady while contexts are created and
-- products are published.
use py_elk.Prelude.{
  ℕ, ◌≡◌, refl, sym, subst, inl, inr, List, [], ◌∷◌, Option, some, Bool-cases, Option-cases, In,
  lookup, insert, lookup-insert_self, rows-insert_self, rows-insert_other, rows, ltb, length,
}
use py_elk.Conclusion.{Conclusion, initialized_at, conclusion_destination}
use py_elk.Context.{new_context}
use py_elk.Context.Invariant.{new_context-IsConsistent}
use py_elk.Rules.Index.{RuleDispatcher}
use py_elk.Saturation.Engine.{
  Engine, enqueue_existing, context_at, create_context, ensure_context, checked_root, enqueue,
}
use py_elk.Saturation.Schedule.{enqueue_all}
use py_elk.Saturation.Steady.{Entries, IsSteady, update-Entries}
use py_elk.Saturation.Holds.{Holds, Holds-bind}
use py_elk.Saturation.Routing.{Anything, At, context_at-Holds, enqueue_existing-Holds}

module _ (P : Conclusion → Type 0) (claimed : Option ℕ) where
  abbrev Steady : Engine → Type 0
  Steady = IsSteady P claimed

  -- A new context has nothing to do.
  added-Entries :
      (root : ℕ) (e : Engine)
      → IsSteady P claimed e
      → Entries P
          (insert root (new_context root) e.contexts)
          e.active
          claimed
          (insert root [] e.retry)
  unfolding new_context
  added-Entries root e (held, h) =
      let none_left : rows root (insert root [] e.retry) ≡ [] = rows-insert_self root [] e.retry in
      update-Entries h e.active claimed (insert root [] e.retry) root (new_context root)
        (record {
          owner = refl;
          consistent = new_context-IsConsistent root;
          stored = λ x m. absurd m;
          awaited = λ x m. absurd m;
          listed = λ q. cc q;
          served = λ w. elim w [
            | inl some_left ↦ absurd (some_left none_left)
            | inr more ↦ absurd (more refl)
          ];
        })
        (λ r a m. m) (λ r a m. m) (λ r a c. c) (λ r a. rows-insert_other r root [] e.retry a)

  pub ensure_context-Holds :
      (root : ℕ) (e : Engine)
      → IsSteady P claimed e
      → P (initialized_at root)
      → Holds (IsSteady P claimed) (At root) (ensure_context root e)
  unfolding ensure_context create_context new_context
  ensure_context-Holds root e h p = elim (Option-cases (lookup root e.contexts)) [
    | inr (s, found) ↦ rw (found, ensure_context) (h, found)
    | inl fresh ↦
        rw (fresh, ensure_context)
          (Holds-bind Steady Anything (At root)
            (enqueue_existing (new_context root) (initialized_at root)) (λ _. context_at root) _
            (enqueue_existing-Holds P claimed (new_context root) (initialized_at root) _
              (h.0, added-Entries root e h) (lookup-insert_self root (new_context root) e.contexts)
              p)
            (λ a t h' _. context_at-Holds Steady root t h'))
  ]

  pub checked_root-Holds :
      (d : RuleDispatcher) (root : ℕ) (e : Engine)
      → IsSteady P claimed e
      → Holds (IsSteady P claimed) (λ r _. r ≡ root) (checked_root d root e)
  unfolding checked_root
  checked_root-Holds d root e h = elim (Bool-cases (ltb root (length d.compiled.expressions))) [
    | inl t ↦ rw t (h, refl)
    | inr f ↦ rw f h
  ]

  module _ (d : RuleDispatcher) where
    pub enqueue-Holds :
        (c : Conclusion) (e : Engine)
        → IsSteady P claimed e
        → P c
        → P (initialized_at (conclusion_destination c))
        → Holds (IsSteady P claimed) Anything (enqueue d c e)
    unfolding enqueue
    enqueue-Holds c e h p first =
        Holds-bind Steady (λ r _. r ≡ conclusion_destination c) Anything
          (checked_root d (conclusion_destination c)) _ e
          (checked_root-Holds d (conclusion_destination c) e h)
          (λ r t h' same.
            Holds-bind Steady (At r) Anything (ensure_context r) (λ s. enqueue_existing s c) t
              (ensure_context-Holds r t h' (subst (λ q. P (initialized_at q)) (sym same) first))
              (λ s u h'' found.
                enqueue_existing-Holds P claimed s c u h''
                  (subst (λ q. lookup q u.contexts ≡ some s) (sym (h''.1.each r s found).owner)
                    found)
                  p))

    pub enqueue_all-Holds :
        (cs : List Conclusion) (e : Engine)
        → IsSteady P claimed e
        → ((x : Conclusion) → In x cs → P x × P (initialized_at (conclusion_destination x)))
        → Holds (IsSteady P claimed) Anything (enqueue_all d cs e)
    unfolding enqueue_all
    enqueue_all-Holds [] e h p = (h, tt)
    enqueue_all-Holds (c ∷ cs) e h p =
        Holds-bind Steady Anything Anything (enqueue d c) (λ _. enqueue_all d cs) e
          (enqueue-Holds c e h (p c (inl refl)).0 (p c (inl refl)).1)
          (λ a t h' _. enqueue_all-Holds cs t h' (λ x m. p x (inr m)))
