-- ===== src/Prelude/Sets.antt =====
-- A Python set of ids, or of rows of ids, is kept as its sorted enumeration: what `sorted(s)`
-- gives is the list itself, and adding is an ordered insertion.
use Prim.Native.Nat.{ℕ, compare, Ordering}
use mathlib.Core.Path.{◌≡◌}
use mathlib.Core.Logic.{◌↔◌, ◌≢◌, ◌⊎◌, inl, inr}
use mathlib.Core.Bool.{Bool, true, false}
use mathlib.Core.List.{List, [], ◌∷◌}
use native.Mathlib.Omega.{arith}
use py_elk.Prelude.Lists.{In}
use py_elk.Prelude.Tests.{Bool-cases}

-- The comparison of `sorted`.
pub record Ordered (A : Type 0) : Type 0 where
  pub cmp : A → A → Ordering
  pub cmp-eq : (a b : A) → (cmp a b ≡ Ordering.eq) ↔ (a ≡ b)

pub nat_cmp-eq : (a b : ℕ) → (compare a b ≡ Ordering.eq) ↔ (a ≡ b)
nat_cmp-eq a b = ground arith

instance abbrev pub nat_ordered : Ordered ℕ
nat_ordered = record { cmp = compare; cmp-eq = nat_cmp-eq }

-- Python compares tuples from the left.
abbrev pub pair_cmp : ℕ × ℕ → ℕ × ℕ → Ordering
pair_cmp (a, b) (c, d) = elim (compare a c) [
  | Ordering.lt ↦ Ordering.lt
  | Ordering.eq ↦ compare b d
  | Ordering.gt ↦ Ordering.gt
]

pub pair_cmp-eq : (p q : ℕ × ℕ) → (pair_cmp p q ≡ Ordering.eq) ↔ (p ≡ q)
pair_cmp-eq p q = ground arith

instance abbrev pub pair_ordered : Ordered (ℕ × ℕ)
pair_ordered = record { cmp = pair_cmp; cmp-eq = pair_cmp-eq }

module _ {A : Type 0} ⦃o : Ordered A⦄ where
  -- `s.add(x)`
  unfoldable pub add : A → List A → List A
  add x [] = x ∷ []
  add x (y ∷ ys) = elim (o.cmp x y) [
    | Ordering.lt ↦ x ∷ y ∷ ys
    | Ordering.eq ↦ y ∷ ys
    | Ordering.gt ↦ y ∷ add x ys
  ]

  -- `x in s`
  unfoldable pub has : A → List A → Bool
  has x [] = false
  has x (y ∷ ys) = let rest = has x ys in elim (o.cmp x y) [ Ordering.eq ↦ true | _ ↦ rest ]

  pub has_iff : (x : A) (s : List A) → (has x s ≡ true) ↔ In x s
  unfolding has
  has_iff x [] = ground arith
  has_iff x (y ∷ ys) = ground (arith, has_iff x ys, o.cmp-eq x y)

  pub In-add : (a x : A) (s : List A) → In a (add x s) ↔ ((a ≡ x) ⊎ In a s)
  unfolding add
  In-add a x [] = ground arith
  In-add a x (y ∷ ys) = ground (arith, In-add a x ys, o.cmp-eq x y)

  -- `s.discard(x)`
  unfoldable pub discard : A → List A → List A
  discard x [] = []
  discard x (y ∷ ys) =
      let rest = discard x ys in elim (o.cmp x y) [ Ordering.eq ↦ rest | _ ↦ y ∷ rest ]

  pub In-discard : (a x : A) (s : List A) → In a (discard x s) ↔ (In a s × (a ≢ x))
  unfolding discard
  In-discard a x [] = ground arith
  In-discard a x (y ∷ ys) = ground (arith, In-discard a x ys, o.cmp-eq x y)

  pub Has-cases : (x : A) (s : List A) → In x s ⊎ ¬ In x s
  Has-cases x s = elim (Bool-cases (has x s)) [
    | inl yes' ↦ inl ((has_iff x s).0 yes')
    | inr no' ↦ inr (λ m. cc ((has_iff x s).1 m))
  ]
