-- ===== src/Prelude/Loops.antt =====
-- `for` loops whose body may raise: loops that collect products, and loops over a state.
use mathlib.Core.Path.{◌≡◌, refl, sym, subst}
use mathlib.Core.Logic.{◌↔◌, ◌⊎◌, inl, inr}
use mathlib.Core.List.{List, [], ◌∷◌, ◌++◌}
use py_elk.Prelude.Lists.{In, In-append}
use py_elk.Prelude.Fallible.{Result, ok, err, ◌>>=◌, >>=-eq-ok, ok-injective}

module _ {C : Type 0} where
  -- One product list after another.
  infixr 40 ◌&◌
  unfoldable pub ◌&◌ : Result (List C) → Result (List C) → Result (List C)
  m & n = do a ← m; b ← n; ok (a ++ b)

  module _ {A : Type 0} where
    unfoldable pub for_each : List A → (A → Result (List C)) → Result (List C)
    for_each [] f = ok []
    for_each (x ∷ xs) f = do a ← f x; b ← for_each xs f; ok (a ++ b)

  -- The run returned, and `c` is among its products.
  abbrev pub Yields : C → Result (List C) → Type 0
  Yields c (ok out) = In c out
  Yields c (err e) = ⊥

  -- If the run returned, then `c` is among its products.
  abbrev pub Gives : C → Result (List C) → Type 0
  Gives c (ok out) = In c out
  Gives c (err e) = Unit

  pub Yields-& : (c : C) (m n : Result (List C)) → Yields c (m & n) → Yields c m ⊎ Yields c n
  unfolding ◌&◌
  Yields-& c (ok a) (ok b) h = (In-append c a b).0 h
  Yields-& c (ok a) (err e) h = absurd h
  Yields-& c (err e) n h = absurd h

  pub Gives-& : (c : C) (m n : Result (List C)) → Gives c m ⊎ Gives c n → Gives c (m & n)
  unfolding ◌&◌
  Gives-& c (ok a) (ok b) h = (In-append c a b).1 h
  Gives-& c (ok a) (err e) h = tt
  Gives-& c (err e) n h = tt

  -- The first part of a sequence gives the product, or what follows it does.
  pub take : (c : C) (m n : Result (List C)) → Gives c m → Gives c (m & n)
  take c m n g = Gives-& c m n (inl g)

  pub skip : (c : C) (m n : Result (List C)) → Gives c n → Gives c (m & n)
  skip c m n g = Gives-& c m n (inr g)

  module _ {A : Type 0} where
    pub Yields-bind :
        (c : C) (m : Result A) (f : A → Result (List C))
        → Yields c (m >>= f)
        → (a : A) × (m ≡ ok a) × Yields c (f a)
    Yields-bind c (ok a) f h = (a, refl, h)
    Yields-bind c (err e) f h = absurd h

    pub Gives-bind :
        (c : C) (m : Result A) (f : A → Result (List C))
        → ((a : A) → m ≡ ok a → Gives c (f a))
        → Gives c (m >>= f)
    Gives-bind c (ok a) f h = h a refl
    Gives-bind c (err e) f h = tt

    pub Yields-for_each :
        (c : C) (xs : List A) (f : A → Result (List C))
        → Yields c (for_each xs f)
        → (x : A) × In x xs × Yields c (f x)
    unfolding for_each
    Yields-for_each c [] f h = absurd h
    Yields-for_each c (x ∷ xs) f h = elim (Yields-& c (f x) (for_each xs f) (unfold ◌&◌ in h)) [
      | inl here ↦ (x, inl refl, here)
      | inr later ↦ let (y, m, g) = Yields-for_each c xs f later in (y, inr m, g)
    ]

    pub Gives-for_each :
        (c : C) (xs : List A) (f : A → Result (List C)) (x : A)
        → In x xs
        → Gives c (f x)
        → Gives c (for_each xs f)
    unfolding for_each ◌&◌
    Gives-for_each c [] f x m g = absurd m
    Gives-for_each c (y ∷ ys) f x (inl e) g =
        Gives-& c (f y) (for_each ys f) (inl (subst (λ z. Gives c (f z)) e g))
    Gives-for_each c (y ∷ ys) f x (inr m) g =
        Gives-& c (f y) (for_each ys f) (inr (Gives-for_each c ys f x m g))

module _ {S A : Type 0} where
  unfoldable pub fold_each : (S → A → Result S) → S → List A → Result S
  fold_each step s [] = ok s
  fold_each step s (x ∷ xs) = do s' ← step s x; fold_each step s' xs

  -- What each round adds to `T`, the whole loop adds for the elements that it went through.
  pub fold_each_iff :
      (T : S → Type 0) (E : A → Type 0) (step : S → A → Result S)
      → ((s : S) (x : A) (s' : S) → step s x ≡ ok s' → T s' ↔ (T s ⊎ E x))
      → (xs : List A) (s t : S) → fold_each step s xs ≡ ok t
      → T t ↔ (T s ⊎ ((x : A) × In x xs × E x))
  unfolding fold_each
  fold_each_iff T E step adds [] s t h =
      let e : s ≡ t = ok-injective h in
      (λ p. inl (subst T (sym e) p), λ q. elim q [ inl p ↦ subst T e p | inr (x, m, _) ↦ absurd m ])
  fold_each_iff T E step adds (x ∷ xs) s t h =
      let (s', e, k) = >>=-eq-ok (step s x) (λ r. fold_each step r xs) h in
      let (to, from) = fold_each_iff T E step adds xs s' t k in
      let (one, back) = adds s x s' e in
      (
        λ p. elim (to p) [
          | inl q ↦ elim (one q) [ inl r ↦ inl r | inr new ↦ inr (x, inl refl, new) ]
          | inr (y, m, new) ↦ inr (y, inr m, new)
        ],
        λ q. elim q [
          | inl p ↦ from (inl (back (inl p)))
          | inr (y, inl e, new) ↦ from (inl (back (inr (subst E e new))))
          | inr (y, inr m, new) ↦ from (inr (y, m, new))
        ],
      )
