-- ===== src/Saturation/Kept.antt =====
-- `run` of src/pyelk/reasoning/saturation.py loses nothing: its roots are checked, their contexts are
-- made, and its loops run.
use py_elk.Prelude.{
  ℕ, ◌≡◌, refl, sym, subst, ◌∙◌, inl, inr, List, [], ◌∷◌, ◌++◌, Bool, Option, none, In, In-append,
  In-add, add, nat_ordered, Bool-cases, ltb, length, Result, ok, err,
}
use py_elk.Context.{ContextState}
use py_elk.Rules.Index.{RuleDispatcher}
use py_elk.Rules.Lookups.{IsIndexed, IsSymmetric}
use py_elk.Rules.Complete.{IsNamed}
use py_elk.Saturation.Actions.{pure}
use py_elk.Saturation.Engine.{Engine, Diagnostics, ensure_context, checked_root}
use py_elk.Saturation.Schedule.{note_interruption, check_roots, ensure_all, run}
use py_elk.Saturation.Steady.{IsSteady}
use py_elk.Saturation.Holds.{Holds, Holds-bind, Holds-map, Ends, Ends-bind, Ends-Holds, Ends-map}
use py_elk.Saturation.Routing.{At}
use py_elk.Saturation.Grows.{Grows-refl, Grows-trans}
use py_elk.Saturation.Arrival.{Any, Advances, ensure_context-Advances}
use py_elk.Saturation.Complete.{IsComplete, Moves-IsComplete, Moves-same, Grows-Moves, fewer_roots}
use py_elk.Saturation.Progress.{run_loop-Sane}

module _ (d : RuleDispatcher) (max_conclusions : Option ℕ) (interrupt : ℕ → Bool) where
  pub checked_root-same :
      (q : ℕ) (e : Engine) → Holds (λ t. t ≡ e) (λ r _. r ≡ q) (checked_root d q e)
  unfolding checked_root
  checked_root-same q e = elim (Bool-cases (ltb q (length d.compiled.expressions))) [
    | inl t ↦ rw t (refl, refl)
    | inr f ↦ rw f refl
  ]

  -- Every root is checked.
  check_roots-same :
      (roots : List ℕ) (e : Engine)
      → Holds
          (λ t. t ≡ e)
          (λ checked _. (r : ℕ) → In r roots → In r checked)
          (check_roots d max_conclusions interrupt roots e)
  unfolding check_roots
  check_roots-same [] e = (refl, λ r m. m)
  check_roots-same (q ∷ qs) e =
      let Here = λ (t : Engine). t ≡ e in
      let Above = λ (rs : List ℕ) (t : Engine). (r : ℕ) → In r qs → In r rs in
      let All = λ (rs : List ℕ) (t : Engine). (r : ℕ) → In r (q ∷ qs) → In r rs in
      Holds-bind Here (λ x _. x ≡ q) All (checked_root d q) _ e (checked_root-same q e)
        (λ x t at same.
          Holds-bind Here Above All (check_roots d max_conclusions interrupt qs)
            (λ xs. pure (add x xs)) t
            (subst (λ u. Holds Here Above (check_roots d max_conclusions interrupt qs u)) (sym at)
              (check_roots-same qs e))
            (λ xs u at' above. (
              at',
              λ r m.
                  (In-add r x xs).1
                    (elim m [ inl k ↦ inl (k ∙ sym same) | inr m' ↦ inr (above r m') ]),
            )))

  ensure_all-Advances :
      (roots : List ℕ) (e : Engine)
      → IsSteady Any none e
      → Holds
          (Advances none e)
          (λ _ t. (r : ℕ) → In r roots → (s : ContextState) × At r s t)
          (ensure_all d max_conclusions interrupt roots e)
  unfolding ensure_all
  ensure_all-Advances [] e h = ((h, Grows-refl e e refl refl), λ r m. absurd m)
  ensure_all-Advances (q ∷ qs) e h =
      let There = λ (rs : List ℕ) (t : Engine). (r : ℕ) → In r rs → (s : ContextState) × At r s t in
      Holds-bind (Advances none e) (At q) (λ _ t. There (q ∷ qs) t) (ensure_context q)
        (λ _. ensure_all d max_conclusions interrupt qs) e (ensure_context-Advances none q e h)
        (λ s t k found.
          Holds-map (Advances none t) (Advances none e) (λ _ u. There qs u)
            (λ _ u. There (q ∷ qs) u) _ (λ u k'. (k'.0, Grows-trans e t u k.1 k'.1))
            (λ a u k' rest r m. elim m [
              | inl same ↦
                  let (s', there, _, _) = k'.1.kept q s found in
                  subst (λ p. (z : ContextState) × At p z u) (sym same) (s', there)
              | inr m' ↦ rest r m'
            ])
            (ensure_all-Advances qs t k.0))

  note_interruption-Ends :
      (E : Engine → Type 0) (p : Result (Unit {0}) × Engine)
      → ((e : Engine) (counts : _) → E e → E (record e { counts = counts }))
      → Ends E (λ _ t. E t) p
      → Ends E (λ _ t. E t) (note_interruption d max_conclusions interrupt p)
  note_interruption-Ends E (ok u, e) same h = h
  note_interruption-Ends E (err x, e) same h = same e _ h

  module _ (ix : IsIndexed d) (sy : IsSymmetric d.properties) (named : IsNamed d) where
    abbrev Kept : List ℕ → Engine → Type 0
    Kept rs t = IsSteady Any none t × IsComplete d rs none t

    counted-Kept :
        (rs : List ℕ) (e : Engine) (counts : Diagnostics)
        → Kept rs e
        → Kept rs (record e { counts = counts })
    counted-Kept rs e counts h = (
      h.0,
      Moves-IsComplete d rs none none e _
          (Moves-same none e (record e { counts = counts }) refl refl) h.1,
    )

    fewer-Kept : (asked roots : List ℕ) (e : Engine) → Kept (asked ++ roots) e → Kept asked e
    fewer-Kept asked roots e h = (
      h.0,
      fewer_roots d asked (asked ++ roots) none e
          (λ r m. h.1.demanded r ((In-append r asked roots).1 (inl m))) h.1,
    )

    -- The roots that were asked for before, and those that are asked for now.
    pub run-Kept :
        (fuel : ℕ) (asked roots : List ℕ) (e : Engine)
        → Kept asked e
        → Ends
            (Kept asked)
            (λ _ t. Kept (asked ++ roots) t)
            (run d max_conclusions interrupt fuel roots e)
    unfolding run
    run-Kept fuel asked roots e h =
        let All = asked ++ roots in
        let Above = λ (rs : List ℕ) (t : Engine). (t ≡ e) × ((r : ℕ) → In r roots → In r rs) in
        let After = λ (a : Unit {0}) (t : Engine). Kept All t in
        Ends-bind (Kept asked) Above After (check_roots d max_conclusions interrupt roots) _ e
          (Ends-Holds (λ t. t ≡ e) (λ rs _. (r : ℕ) → In r roots → In r rs) (Kept asked) Above _
            (λ t at. subst (Kept asked) (sym at) h) (λ rs t at above. (at, above))
            (check_roots-same roots e))
          (λ rs t (at, above).
            let h' = subst (Kept asked) (sym at) h in
            let There =
              λ (a : Unit {0}) (u : Engine). (r : ℕ) → In r rs → (s : ContextState) × At r s u in
            let grown = λ (u : Engine) (k : Advances none t u).
              Moves-IsComplete d asked none none t u (Grows-Moves none t u k.1) h'.1 in
            Ends-bind (Kept asked) (λ a u. Kept All u) After
              (ensure_all d max_conclusions interrupt rs) _ t
              (Ends-Holds (Advances none t) There (Kept asked) (λ a u. Kept All u) _
                (λ u k. (k.0, grown u k))
                (λ a u k there. (
                  k.0,
                  fewer_roots d All asked none u
                      (λ r m. elim ((In-append r asked roots).0 m) [
                        | inl old ↦ (grown u k).demanded r old
                        | inr new ↦ there r (above r new)
                      ])
                      (grown u k),
                ))
                (ensure_all-Advances rs t h'.0))
              (λ a u ready.
                Ends-map (Kept All) (Kept asked) After After _ (λ z k. fewer-Kept asked roots z k)
                  (λ b z k. k)
                  (note_interruption-Ends (Kept All) _ (counted-Kept All) (
                    run_loop-Sane d ix sy named max_conclusions interrupt All fuel fuel (0, 0) u
                      ready))))
