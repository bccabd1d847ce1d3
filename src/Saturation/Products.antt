-- ===== src/Saturation/Products.antt =====
-- The scheduler of src/pyelk/reasoning/saturation.py stays steady while a premise is dispatched and
-- while the claimed context is worked on.
use py_elk.Prelude.{
  ℕ, zero, suc, ◌≡◌, refl, inl, inr, List, ◌∷◌, Bool, not, Option, some, Bool-cases, In, rows,
  Result, ok, err,
}
use py_elk.Conclusion.{Conclusion}
use py_elk.Rules.Index.{RuleDispatcher}
use py_elk.Rules.Lookups.{IsIndexed, IsSymmetric}
use py_elk.Rules.LinkHandlers.{dispatch}
use py_elk.Rules.Monotone.{Infers-mono}
use py_elk.Rules.SoundDispatch.{dispatch_indexed_sound}
use py_elk.Saturation.Engine.{Engine, context_at}
use py_elk.Saturation.Schedule.{
  put_back, publish_products, dispatch_premise, next_premise, has_local_work, work, exhausted,
}
use py_elk.Saturation.Steady.{IsClosed, IsSteady}
use py_elk.Saturation.Holds.{Holds, Holds-bind}
use py_elk.Saturation.Routing.{Anything, At, context_at-Holds}
use py_elk.Saturation.Demand.{enqueue_all-Holds}
use py_elk.Saturation.Service.{retried-IsSteady, next_premise-Holds}

module _ (P : Conclusion → Type 0) (d : RuleDispatcher) (ix : IsIndexed d)
    (sy : IsSymmetric d.properties)
    (closed : IsClosed d.compiled d.properties d.owl_thing d.owl_nothing P) (root : ℕ) where
  abbrev Steady : Engine → Type 0
  Steady = IsSteady P (some root)

  put_back-Holds :
      (c : Conclusion) (p : Result (Unit {0}) × Engine)
      → Holds (IsSteady P (some root)) Anything p
      → Holds (IsSteady P (some root)) Anything (put_back d root c p)
  unfolding put_back
  put_back-Holds c (ok u, e) h = h
  put_back-Holds c (err x, e) h = retried-IsSteady P root (c ∷ rows root e.retry) e h

  publish_products-Holds :
      (r : Result (List Conclusion)) (e : Engine)
      → IsSteady P (some root) e
      → ((out : List Conclusion) → r ≡ ok out → (x : Conclusion) → In x out → P x)
      → Holds (IsSteady P (some root)) Anything (publish_products d r e)
  unfolding publish_products
  publish_products-Holds (err x) e h p = h
  publish_products-Holds (ok out) e h p =
      enqueue_all-Holds P (some root) d out _ h
        (λ x m. (p out refl x m, closed.activated x (p out refl x m)))

  pub dispatch_premise-Holds :
      (c : Conclusion) (e : Engine)
      → IsSteady P (some root) e
      → Holds (IsSteady P (some root)) Anything (dispatch_premise d root c e)
  unfolding dispatch_premise
  dispatch_premise-Holds c e h = put_back-Holds c _ (
      Holds-bind Steady (At root) Anything (context_at root)
        (λ s. publish_products d (dispatch d s c)) e (context_at-Holds Steady root e h)
        (λ s t h' found.
          let entry = h'.1.each root s found in
          publish_products-Holds (dispatch d s c) t h' λ out returned x m. closed.inferred x (
            Infers-mono entry.stored
              (dispatch_indexed_sound d s c x out ix sy entry.consistent returned m))))

  module _ (max_conclusions : Option ℕ) (interrupt : ℕ → Bool) where
    pub work-Holds :
        (fuel : ℕ) (progress : ℕ × ℕ) (e : Engine)
        → IsSteady P (some root) e
        → Holds
            (IsSteady P (some root))
            Anything
            (work d max_conclusions interrupt fuel root progress e)
    unfolding work
    work-Holds zero progress e h = h
    work-Holds (suc fuel) (completed, calls) e h =
        elim (Bool-cases (not (has_local_work d root e))) [
          | inl done ↦ rw done (h, tt)
          | inr more ↦
              rw more (elim (Bool-cases (exhausted d max_conclusions interrupt completed)) [
                | inl spent ↦ rw spent h
                | inr within ↦ rw within (elim (Bool-cases (interrupt calls)) [
                  | inl stop ↦ rw stop h
                  | inr go ↦ rw go (
                      Holds-bind Steady Anything Anything (next_premise d root) _ e
                        (next_premise-Holds P root d e h)
                        (λ p t h' _.
                          Holds-bind Steady Anything Anything (dispatch_premise d root p.0) _ t
                            (dispatch_premise-Holds p.0 t h')
                            (λ u s h'' _. work-Holds fuel _ s h'')))
                ])
              ])
        ]
