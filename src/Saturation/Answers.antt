-- ===== src/Saturation/Answers.antt =====
-- `_dispatch` of src/pyelk/reasoning/saturation.py: when it returns, what follows from the premise is
-- known, and when it raises, the premise is to be retried.
use py_elk.Prelude.{
  ℕ, ◌+◌, ◌≡◌, ◌≢◌, refl, sym, ap, subst, ◌∙◌, ◌⊎◌, inl, inr, List, [], ◌∷◌, none, some,
  some-injective, In, rows, Bool-cases, has, has_iff, Result, ok, err, length,
}
use py_elk.Conclusion.{Conclusion, conclusion_destination}
use py_elk.Conclusion.Keys.{conclusion_ordered}
use py_elk.Context.{ContextState}
use py_elk.Rules.Index.{RuleDispatcher}
use py_elk.Rules.Monotone.{Infers-mono}
use py_elk.Rules.Lookups.{IsIndexed, IsSymmetric}
use py_elk.Rules.Complete.{IsNamed}
use py_elk.Rules.Exact.{dispatch_indexed_complete}
use py_elk.Rules.LinkHandlers.{dispatch}
use py_elk.Saturation.Engine.{Engine, count, context_at}
use py_elk.Saturation.Schedule.{put_back, publish_products, dispatch_premise}
use py_elk.Saturation.Steady.{IsSteady}
use py_elk.Saturation.Holds.{Ends, Ends-bind, Ends-Holds}
use py_elk.Saturation.Routing.{At}
use py_elk.Saturation.Grows.{Grows, same-At}
use py_elk.Saturation.Delivery.{Seen}
use py_elk.Saturation.Arrival.{Any, Advances, enqueue_all-Advances}
use py_elk.Saturation.Complete.{
  Done, IsComplete, Moves, Moves-IsComplete, Moves-same, Moves-trans, Grows-Moves,
}
use py_elk.Saturation.Premises.{retried-Moves, context_at-same}

same_or_other : (y c : Conclusion) → (y ≡ c) ⊎ (y ≢ c)
same_or_other y c = elim (Bool-cases (has y (c ∷ []))) [
  | inl t ↦ elim ((has_iff y (c ∷ [])).0 t) [ inl q ↦ inl q | inr nowhere ↦ absurd nowhere ]
  | inr f ↦ inr (λ q. cc ((has_iff y (c ∷ [])).1 (inl q)))
]

module _ (d : RuleDispatcher) (roots : List ℕ) (root : ℕ) (c : Conclusion) where
  -- All products are known.
  answered-IsComplete :
      (s : ContextState) (out : List Conclusion) (e u : Engine)
      → IsIndexed d
      → IsSymmetric d.properties
      → IsNamed d
      → IsSteady Any (some root) e
      → At root s e
      → dispatch d s c ≡ ok out
      → IsComplete d roots (some c) e
      → Moves (some c) (some c) e u
      → ((x : Conclusion) → In x out → Seen u x)
      → IsComplete d roots none u
  answered-IsComplete s out e u ix sy named steady found returned h m seen =
      let entry = steady.1.each root s found in
      let kept = Moves-IsComplete d roots (some c) (some c) e u m h in
      record {
        follows = λ x i.
            elim (dispatch_indexed_complete d s (Done e (some c)) c x out ix sy named
              entry.consistent
              (λ y (z, there, q, _, _) own.
                subst (λ (k : ContextState). In y k.stored)
                  (same-At root z s e (subst (λ r. At r z e) (own ∙ entry.owner) there) found) q)
              returned
              (Infers-mono
                (λ y (z, there, q, waiting, _). elim (same_or_other y c) [
                  | inl same ↦ inr same
                  | inr other ↦
                      inl (m.back y (z, there, q, waiting, λ k. other (sym (some-injective c y k))))
                ])
                i)) [ inl j ↦ m.seen x (h.follows x j) | inr q ↦ seen x q ];
        first = kept.first;
        owed = kept.owed;
        demanded = kept.demanded;
      }

  publish_products-Ends :
      (s : ContextState) (e : Engine)
      → IsIndexed d
      → IsSymmetric d.properties
      → IsNamed d
      → IsSteady Any (some root) e
      → At root s e
      → IsComplete d roots (some c) e
      → (r : Result (List Conclusion)) → dispatch d s c ≡ r
      → Ends
          (IsComplete d roots (some c))
          (λ _ u. IsComplete d roots none u)
          (publish_products d r e)
  unfolding publish_products
  publish_products-Ends s e ix sy named steady found h (err x) returned = h
  publish_products-Ends s e ix sy named steady found h (ok out) returned =
      let start : Engine =
        (count
          (λ n. record n {
            rule_dispatches = n.rule_dispatches + 1;
            product_candidates = n.product_candidates + length out;
          })
          e) in
      let moved = λ (u : Engine) (g : Grows start u).
        Moves-trans (some c) (some c) (some c) e start u (Moves-same (some c) e start refl refl)
          (Grows-Moves (some c) start u g) in
      Ends-Holds (Advances (some root) start) (λ _ u. (x : Conclusion) → In x out → Seen u x)
        (IsComplete d roots (some c)) (λ _ u. IsComplete d roots none u) _
        (λ u k. Moves-IsComplete d roots (some c) (some c) e u (moved u k.1) h)
        (λ a u k seen.
          answered-IsComplete s out e u ix sy named steady found returned h (moved u k.1) seen)
        (enqueue_all-Advances (some root) d out start steady)

  put_back-IsComplete :
      (p : Result (Unit {0}) × Engine)
      → conclusion_destination c ≡ root
      → Ends (IsComplete d roots (some c)) (λ _ u. IsComplete d roots none u) p
      → IsComplete d roots none (put_back d root c p).1
  unfolding put_back
  put_back-IsComplete (ok u, e) own h = h
  put_back-IsComplete (err x, e) own h =
      Moves-IsComplete d roots (some c) none e _
        (retried-Moves (some c) none root (c ∷ rows root e.retry) e
          (λ y absent other. (λ m. absent (inr m), λ k. absent (inl (sym (some-injective c y k)))))
          (λ y apart other k. apart (ap conclusion_destination (sym (some-injective c y k)) ∙ own))
          (λ y m. elim m [ inl q ↦ inr (ap conclusion_destination q ∙ own) | inr old ↦ inl old ]))
        h

  -- Whatever stops the dispatch, nothing is lost.
  pub dispatch_premise-IsComplete :
      (e : Engine)
      → IsIndexed d
      → IsSymmetric d.properties
      → IsNamed d
      → IsSteady Any (some root) e
      → conclusion_destination c ≡ root
      → IsComplete d roots (some c) e
      → IsComplete d roots none (dispatch_premise d root c e).1
  unfolding dispatch_premise
  dispatch_premise-IsComplete e ix sy named steady own h = put_back-IsComplete _ own (
      Ends-bind (IsComplete d roots (some c)) (λ s t. (t ≡ e) × At root s e)
        (λ _ u. IsComplete d roots none u) (context_at root)
        (λ s. publish_products d (dispatch d s c)) e
        (context_at-same d root (IsComplete d roots (some c)) e h)
        (λ s t (same, found).
          subst
            (λ u.
              Ends (IsComplete d roots (some c)) (λ _ w. IsComplete d roots none w)
                (publish_products d (dispatch d s c) u))
            (sym same)
            (publish_products-Ends s e ix sy named steady found h (dispatch d s c) refl)))
