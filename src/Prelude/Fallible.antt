-- ===== src/Prelude/Fallible.antt =====
-- Operations that may raise: `err` carries the class of the exception. `out_of_fuel` stands for no
-- exception: a `while` loop of a model ends with it when it is given too few rounds.
use mathlib.Core.Path.{◌≡◌, refl}
use mathlib.Core.Option.{Option, none, some}

pub data Error : Type 0 where
  value_error index_error key_error assertion_error runtime_error stop_iteration : Error
  budget_exceeded interrupted out_of_fuel : Error

pub data Result {ℓ} (V : Type ℓ) : Type ℓ where
  ok : V → Result V
  err : Error → Result V

-- A value that is there, or the exception that its absence raises.
abbrev pub or_raise {ℓ} : {V : Type ℓ} → Error → Option V → Result V
or_raise raised none = err raised
or_raise raised (some found) = ok found

-- The next step of a run that has not raised.
infixl 5 ◌>>=◌
abbrev pub ◌>>=◌ {ℓ κ} : {V : Type ℓ} {W : Type κ} → Result V → (V → Result W) → Result W
err raised >>= next = err raised
ok value >>= next = next value

module _ {ℓ κ} {A : Type ℓ} {B : Type κ} where
  -- Inversion of a bind that returned.
  pub >>=-eq-ok :
      (run : Result A) (next : A → Result B) {last : B}
      → (run >>= next) ≡ ok last
      → (value : A) × (run ≡ ok value) × (next value ≡ ok last)
  >>=-eq-ok (err raised) next h = cc
  >>=-eq-ok (ok value) next h = (value, refl, h)

module _ {ℓ} {A : Type ℓ} where
  pub or_raise-eq-ok : (e : Error) (o : Option A) {a : A} → or_raise e o ≡ ok a → o ≡ some a
  or_raise-eq-ok e none h = cc
  or_raise-eq-ok e (some b) h = cc

  pub ok-injective : {a b : A} → ok a ≡ ok b → a ≡ b
  ok-injective h = cc
