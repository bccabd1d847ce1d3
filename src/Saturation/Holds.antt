-- ===== src/Saturation/Holds.antt =====
-- What holds after an action of src/pyelk/reasoning/saturation.py, whether it returned or raised.
use py_elk.Prelude.{◌↔◌, ◌≡◌, refl, ap, Result, ok, err}
use py_elk.Saturation.Actions.{Exec, continue, lift, ◌>>=◌}

module _ {S : Type 0} where
  -- The state has `I`; if a value was returned, it and the state are related by `Q`.
  abbrev pub Holds : {A : Type 0} → (S → Type 0) → (A → S → Type 0) → Result A × S → Type 0
  Holds I Q (ok a, s) = I s × Q a s
  Holds I Q (err x, s) = I s

  module _ {A B : Type 0} (I : S → Type 0) (Q : A → S → Type 0) (R : B → S → Type 0) where
    Holds-continue :
        (f : A → Exec S B) (p : Result A × S)
        → Holds I Q p
        → ((a : A) (s : S) → I s → Q a s → Holds I R (f a s))
        → Holds I R (continue p.0 f p.1)
    Holds-continue f (ok a, s) h k = k a s h.0 h.1
    Holds-continue f (err x, s) h k = h

    -- The second action starts where the first one returned.
    pub Holds-bind :
        (m : Exec S A) (f : A → Exec S B) (s : S)
        → Holds I Q (m s)
        → ((a : A) (t : S) → I t → Q a t → Holds I R (f a t))
        → Holds I R ((m >>= f) s)
    unfolding ◌>>=◌
    Holds-bind m f s h k = Holds-continue f (m s) h k

  pub Holds-state :
      {A : Type 0} (I : S → Type 0) (Q : A → S → Type 0) (p : Result A × S) → Holds I Q p → I p.1
  Holds-state I Q (ok a, s) h = h.0
  Holds-state I Q (err x, s) h = h

  pub lift-Holds :
      {A : Type 0} (I : S → Type 0) (Q : A → S → Type 0) (r : Result A) (s : S)
      → I s
      → ((a : A) → r ≡ ok a → Q a s)
      → Holds I Q (lift r s)
  unfolding lift
  lift-Holds I Q (ok a) s h k = (h, k a refl)
  lift-Holds I Q (err x) s h k = h

  pub bind_returned :
      {A B : Type 0} (m : Exec S A) (f : A → Exec S B) (s t : S) (a : A)
      → m s ≡ (ok a, t)
      → (m >>= f) s ≡ f a t
  unfolding ◌>>=◌
  bind_returned {A} m f s t a e = ap (λ (p : Result A × S). continue p.0 f p.1) e

  pub Holds-both :
      {A : Type 0} (I J : S → Type 0) (Q R : A → S → Type 0) (p : Result A × S)
      → Holds I Q p
      → Holds J R p
      → Holds (λ s. I s × J s) (λ a s. Q a s × R a s) p
  Holds-both I J Q R (ok a, s) h k = ((h.0, k.0), (h.1, k.1))
  Holds-both I J Q R (err x, s) h k = (h, k)

  pub Holds-map :
      {A : Type 0} (I J : S → Type 0) (Q R : A → S → Type 0) (p : Result A × S)
      → ((s : S) → I s → J s)
      → ((a : A) (s : S) → I s → Q a s → R a s)
      → Holds I Q p
      → Holds J R p
  Holds-map I J Q R (ok a, s) f g h = (f s h.0, g a s h.0 h.1)
  Holds-map I J Q R (err x, s) f g h = f s h

  -- If a value was returned, it and the state are related by `Q`, and else the state has `E`.
  abbrev pub Ends : {A : Type 0} → (S → Type 0) → (A → S → Type 0) → Result A × S → Type 0
  Ends E Q (ok a, s) = Q a s
  Ends E Q (err x, s) = E s

  module _ {A B : Type 0} (E : S → Type 0) (Q : A → S → Type 0) (R : B → S → Type 0) where
    Ends-continue :
        (f : A → Exec S B) (p : Result A × S)
        → Ends E Q p
        → ((a : A) (s : S) → Q a s → Ends E R (f a s))
        → Ends E R (continue p.0 f p.1)
    Ends-continue f (ok a, s) h k = k a s h
    Ends-continue f (err x, s) h k = h

    pub Ends-bind :
        (m : Exec S A) (f : A → Exec S B) (s : S)
        → Ends E Q (m s)
        → ((a : A) (t : S) → Q a t → Ends E R (f a t))
        → Ends E R ((m >>= f) s)
    unfolding ◌>>=◌
    Ends-bind m f s h k = Ends-continue f (m s) h k

  pub Ends-map :
      {A : Type 0} (E F : S → Type 0) (Q R : A → S → Type 0) (p : Result A × S)
      → ((s : S) → E s → F s)
      → ((a : A) (s : S) → Q a s → R a s)
      → Ends E Q p
      → Ends F R p
  Ends-map E F Q R (ok a, s) f g h = g a s h
  Ends-map E F Q R (err x, s) f g h = f s h

  pub Ends-Holds :
      {A : Type 0} (I : S → Type 0) (Q : A → S → Type 0) (E : S → Type 0) (R : A → S → Type 0)
      (p : Result A × S)
      → ((s : S) → I s → E s)
      → ((a : A) (s : S) → I s → Q a s → R a s)
      → Holds I Q p
      → Ends E R p
  Ends-Holds I Q E R (ok a, s) f g h = g a s h.0 h.1
  Ends-Holds I Q E R (err x, s) f g h = f s h

  pub Ends-both :
      {A : Type 0} (I : S → Type 0) (Q : A → S → Type 0) (E : S → Type 0) (R : A → S → Type 0)
      (F : S → Type 0) (T : A → S → Type 0) (p : Result A × S)
      → ((s : S) → I s → E s → F s)
      → ((a : A) (s : S) → I s → R a s → T a s)
      → Holds I Q p
      → Ends E R p
      → Ends F T p
  Ends-both I Q E R F T (ok a, s) f g h k = g a s h.0 k
  Ends-both I Q E R F T (err x, s) f g h k = f s h k

  -- Whether a value was returned or not, the state has `I`.
  pub Ends-state : {A : Type 0} (I : S → Type 0) (p : Result A × S) → Ends I (λ a s. I s) p ↔ I p.1
  Ends-state I (ok a, s) = (λ h. h, λ h. h)
  Ends-state I (err x, s) = (λ h. h, λ h. h)

  pub lift-Ends :
      {A : Type 0} (E : S → Type 0) (r : Result A) (s : S)
      → E s
      → Ends E (λ a t. (t ≡ s) × (r ≡ ok a)) (lift r s)
  unfolding lift
  lift-Ends E (ok a) s h = (refl, refl)
  lift-Ends E (err x) s h = h
