-- ===== src/Saturation/Grows.antt =====
-- How the contexts of the scheduler change while conclusions are routed and flags are set
-- (src/pyelk/reasoning/saturation.py): nothing is stored, no agenda shrinks, and no retries change.
use py_elk.Prelude.{
  ℕ, ◌≡◌, ◌≢◌, refl, sym, ap, subst, ◌∙◌, ◌⊎◌, inl, inr, [], none, some, some-injective, In, lookup,
  rows, Bool-cases, ◌==◌, ==_iff,
}
use py_elk.Conclusion.{Conclusion, initialized_at}
use py_elk.Context.{ContextState}
use py_elk.Saturation.Engine.{Engine}
use py_elk.Saturation.Routing.{At}

pub record Grows (e t : Engine) : Type 0 where
  pub kept :
      (r : ℕ) (s : ContextState)
      → At r s e
      → (s' : ContextState) × At r s' t
        × (s'.stored ≡ s.stored)
        × ((x : Conclusion) → In x s.todo → In x s'.todo)
  pub came :
      (r : ℕ) (s' : ContextState)
      → At r s' t
      → ((s : ContextState) × At r s e) ⊎ (s'.stored ≡ []) × In (initialized_at r) s'.todo
  pub fewer : (r : ℕ) (c : Conclusion) → In c (rows r t.retry) → In c (rows r e.retry)
  pub retries : (r : ℕ) (s : ContextState) → At r s e → rows r t.retry ≡ rows r e.retry

pub same-At : (r : ℕ) (s t : ContextState) (e : Engine) → At r s e → At r t e → s ≡ t
same-At r s t e p q = some-injective s t (sym p ∙ q)

-- The contexts and the retries are the same.
pub Grows-refl : (e t : Engine) → t.contexts ≡ e.contexts → t.retry ≡ e.retry → Grows e t
Grows-refl e t same retry = record {
  kept = λ r s found. (s, subst (λ c. lookup r c ≡ some s) (sym same) found, refl, λ x m. m);
  came = λ r s found. inl (s, subst (λ c. lookup r c ≡ some s) same found);
  fewer = λ r c m. subst (λ k. In c (rows r k)) retry m;
  retries = λ r s found. ap (rows r) retry;
}

pub Grows-trans : (e t u : Engine) → Grows e t → Grows t u → Grows e u
Grows-trans e t u g k = record {
  kept = λ r s found.
      let (s', found', stored, todo) = g.kept r s found in
      let (s'', found'', stored', todo') = k.kept r s' found' in
      (s'', found'', stored' ∙ stored, λ x m. todo' x (todo x m));
  came = λ r s'' found''. elim (k.came r s'' found'') [
    | inr new ↦ inr new
    | inl (s', found') ↦ elim (g.came r s' found') [
      | inl old ↦ inl old
      | inr (empty, first) ↦
          let (z, there, stored, todo) = k.kept r s' found' in
          let same = same-At r z s'' u there found'' in
          inr (
            subst (λ q. q.stored ≡ []) same (stored ∙ empty),
            subst (λ q. In (initialized_at r) q.todo) same (todo (initialized_at r) first),
          )
    ]
  ];
  fewer = λ r c m. g.fewer r c (k.fewer r c m);
  retries = λ r s found.
      let (s', found', _, _) = g.kept r s found in k.retries r s' found' ∙ g.retries r s found;
}

-- One context is replaced by one that stores the same and awaits no less, or is new.
pub Grows-insert :
    (e t : Engine) (root : ℕ) (s' : ContextState)
    → At root s' t
    → ((r : ℕ) → r ≢ root → lookup r t.contexts ≡ lookup r e.contexts)
    → ((r : ℕ) → r ≢ root → rows r t.retry ≡ rows r e.retry)
    → ((s : ContextState) × At root s e
        × (s'.stored ≡ s.stored)
        × ((x : Conclusion) → In x s.todo → In x s'.todo)
        × (rows root t.retry ≡ rows root e.retry))
      ⊎ (lookup root e.contexts ≡ none)
        × (s'.stored ≡ [])
        × In (initialized_at root) s'.todo
        × (rows root t.retry ≡ [])
    → Grows e t
Grows-insert e t root s' now others retry change = record {
  kept = λ r s found. elim (Bool-cases (r == root)) [
    | inr other ↦
        let apart : r ≢ root = λ q. cc ((==_iff r root).1 q) in
        (s, others r apart ∙ found, refl, λ x m. m)
    | inl same ↦
        let q = (==_iff r root).0 same in
        elim change [
          | inl (z, there, stored, todo, _) ↦
              let one = same-At root z s e there (subst (λ k. At k s e) q found) in
              (
                s',
                subst (λ k. At k s' t) (sym q) now,
                stored ∙ ap (λ (k : ContextState). k.stored) one,
                λ x m. todo x (subst (λ k. In x k.todo) (sym one) m),
              )
          | inr (absent, _, _, _) ↦
              let clash : none ≡ some s = sym absent ∙ subst (λ k. At k s e) q found in
              absurd (cc clash)
        ]
  ];
  came = λ r z found. elim (Bool-cases (r == root)) [
    | inr other ↦
        let apart : r ≢ root = λ q. cc ((==_iff r root).1 q) in
        inl (z, sym (others r apart) ∙ found)
    | inl same ↦
        let q = (==_iff r root).0 same in
        elim change [
          | inl (s, there, _, _, _) ↦ inl (s, subst (λ k. At k s e) (sym q) there)
          | inr (_, empty, first, _) ↦
              let one = same-At root s' z t now (subst (λ k. At k z t) q found) in
              inr (
                subst (λ k. k.stored ≡ []) one empty,
                subst (λ k. In (initialized_at k) z.todo) (sym q)
                    (subst (λ k. In (initialized_at root) k.todo) one first),
              )
        ]
  ];
  fewer = λ r c m. elim (Bool-cases (r == root)) [
    | inr other ↦ subst (In c) (retry r (λ q. cc ((==_iff r root).1 q))) m
    | inl same ↦
        let q = (==_iff r root).0 same in
        elim change [
          | inl (_, _, _, _, kept) ↦
              subst (λ k. In c (rows k e.retry)) (sym q)
                (subst (In c) kept (subst (λ k. In c (rows k t.retry)) q m))
          | inr (_, _, _, none_left) ↦
              absurd (subst (In c) none_left (subst (λ k. In c (rows k t.retry)) q m))
        ]
  ];
  retries = λ r s found. elim (Bool-cases (r == root)) [
    | inr other ↦ retry r (λ q. cc ((==_iff r root).1 q))
    | inl same ↦
        let q = (==_iff r root).0 same in
        elim change [
          | inl (_, _, _, _, kept) ↦ subst (λ k. rows k t.retry ≡ rows k e.retry) (sym q) kept
          | inr (absent, _, _, _) ↦
              let clash : none ≡ some s = sym absent ∙ subst (λ k. At k s e) q found in
              absurd (cc clash)
        ]
  ];
}
