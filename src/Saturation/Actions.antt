-- ===== src/Saturation/Actions.antt =====
-- Methods that change an object and may raise: the object comes back beside the exception too.
use py_elk.Prelude.{Result, ok, err}

abbrev pub Exec : Type 0 → Type 0 → Type 0
Exec Self V = Self → Result V × Self

module _ {Self : Type 0} where
  -- An assignment to fields of the object.
  unfoldable pub modify : (Self → Self) → Exec Self (Unit {0})
  modify change self = (ok tt, change self)

  module _ {V : Type 0} where
    unfoldable pub lift : Result V → Exec Self V
    lift outcome self = (outcome, self)

    unfoldable pub pure : V → Exec Self V
    pure value self = (ok value, self)

    module _ {W : Type 0} where
      abbrev pub continue : Result V → (V → Exec Self W) → Exec Self W
      continue (err raised) next self = (err raised, self)
      continue (ok value) next self = next value self

      infixl 5 ◌>>=◌ ◌>>◌
      -- opening this opens `pure`, `lift` and `modify` too
      unfoldable pub ◌>>=◌ : Exec Self V → (V → Exec Self W) → Exec Self W
      unfolding pure lift modify
      ◌>>=◌ step next self = let (outcome, after) = step self in continue outcome next after

      abbrev pub ◌>>◌ : Exec Self V → Exec Self W → Exec Self W
      step >> other = step >>= λ _. other
