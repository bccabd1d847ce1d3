-- ===== src/Saturation/Recovery.antt =====
-- What the scheduler of src/pyelk/reasoning/saturation.py keeps when a dispatch raises.
use py_elk.Prelude.{
  ℕ, ◌≡◌, ap, subst, List, [], ◌∷◌, true, false, none, some, arith, lookup, insert, lookup-insert,
  Result, ok, err, Error,
}
use py_elk.Conclusion.{Conclusion}
use py_elk.Rules.Index.{RuleDispatcher}
use py_elk.Saturation.Engine.{Engine}
use py_elk.Saturation.Schedule.{
  put_back, next_premise, has_local_work, dispatch_premise, take_retry,
}

-- The premise is at the head of the retries of its root.
retry_lem :
    (d : RuleDispatcher) (root : ℕ) (c : Conclusion) (r : Result (Unit {0}) × Engine) (x : Error)
    (t : Engine)
    → put_back d root c r ≡ (err x, t)
    → (rest : List Conclusion) × (lookup root t.retry ≡ some (c ∷ rest))
unfolding put_back
retry_lem d root c (ok u, e) x t h = let clash : ok u ≡ err x = ap (λ p. p.0) h in cc clash
retry_lem d root c (err y, e) x t h =
    let before : List Conclusion = elim (lookup root e.retry) [ none ↦ [] | some cs ↦ cs ] in
    (
      before,
      subst (λ (z : Engine). lookup root z.retry ≡ some (c ∷ before)) (ap (λ p. p.1) h)
          (ground (arith, lookup-insert root root (c ∷ before) e.retry)),
    )

module _ (d : RuleDispatcher) (root : ℕ) (c : Conclusion) (rest : List Conclusion) (t : Engine)
    (l : lookup root t.retry ≡ some (c ∷ rest)) where
  -- A context with a retry has work, and the retry comes before its agenda.
  has_local_work_retry : has_local_work d root t ≡ true
  unfolding has_local_work
  has_local_work_retry = rw (l, has_local_work)

  next_premise_retry :
      next_premise d root t ≡ (ok (c, false), record t { retry = insert root rest t.retry })
  unfolding next_premise take_retry
  next_premise_retry = rw (l, next_premise, take_retry)

-- When the dispatch of a premise raises, in a rule or while its products are published, the context
-- still has local work, and its next premise is that premise again, which is not counted as
-- inserted a second time.
pub dispatch_premise-next_premise :
    (d : RuleDispatcher) (root : ℕ) (c : Conclusion) (x : Error) (e t : Engine)
    → dispatch_premise d root c e ≡ (err x, t)
    → (has_local_work d root t ≡ true)
      × ((rest : List Conclusion) × (next_premise d root t
            ≡ (ok (c, false), record t { retry = insert root rest t.retry })))
unfolding dispatch_premise
dispatch_premise-next_premise d root c x e t h =
    let (rest, l) = retry_lem d root c _ x t h in
    (has_local_work_retry d root c rest t l, (rest, next_premise_retry d root c rest t l))
