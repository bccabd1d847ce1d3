-- ===== src/Conclusion/Keys.antt =====
-- The structural key of a conclusion (src/pyelk/reasoning/conclusions.py, `conclusion_key`):
-- comparing keys is comparing conclusions.
use Prim.Native.Nat.{compare, Ordering}
use py_elk.Prelude.{
  ℕ, zero, suc, ◌≡◌, ◌↔◌, refl, ap, List, [], ◌∷◌, arith, Option, none, some, Ordered,
}
use py_elk.Conclusion.{
  Conclusion, context_initialization, subcontext_initialization, decomposed, composed, forward_link,
  backward_link, propagation, disjoint_subsumer, class_inconsistency, conclusion_key,
  initialized_at, subcontext_at, decomposed_at, composed_at, forward_at, backward_at,
  propagation_at, disjoint_at, inconsistent_at,
}

-- Reads a conclusion back from its key.
from_key : List ℕ → Option Conclusion
from_key (zero ∷ r ∷ []) = some (initialized_at r)
from_key (suc zero ∷ d ∷ p ∷ []) = some (subcontext_at d p)
from_key (suc (suc zero) ∷ d ∷ e ∷ []) = some (decomposed_at d e)
from_key (suc (suc (suc zero)) ∷ d ∷ e ∷ []) = some (composed_at d e)
from_key (suc (suc (suc (suc zero))) ∷ d ∷ c ∷ t ∷ []) = some (forward_at d c t)
from_key (suc (suc (suc (suc (suc zero)))) ∷ d ∷ r ∷ s ∷ []) = some (backward_at d r s)
from_key (suc (suc (suc (suc (suc (suc zero))))) ∷ d ∷ r ∷ e ∷ []) = some (propagation_at d r e)
from_key (suc (suc (suc (suc (suc (suc (suc zero)))))) ∷ d ∷ g ∷ p ∷ []) = some (disjoint_at d g p)
from_key (suc (suc (suc (suc (suc (suc (suc (suc zero))))))) ∷ d ∷ []) = some (inconsistent_at d)
from_key _ = none

from_key-conclusion_key : (c : Conclusion) → from_key (conclusion_key c) ≡ some c
unfolding from_key conclusion_key
from_key-conclusion_key (context_initialization c) = refl
from_key-conclusion_key (subcontext_initialization c) = refl
from_key-conclusion_key (decomposed c) = refl
from_key-conclusion_key (composed c) = refl
from_key-conclusion_key (forward_link c) = refl
from_key-conclusion_key (backward_link c) = refl
from_key-conclusion_key (propagation c) = refl
from_key-conclusion_key (disjoint_subsumer c) = refl
from_key-conclusion_key (class_inconsistency c) = refl

-- Two conclusions with one key are one conclusion.
pub conclusion_key-injective : (a b : Conclusion) → conclusion_key a ≡ conclusion_key b → a ≡ b
conclusion_key-injective a b h =
    cc (ap from_key h, from_key-conclusion_key a, from_key-conclusion_key b)

-- Tuples of ids, compared from the left; a proper prefix comes first.
abbrev pub key_cmp : List ℕ → List ℕ → Ordering
key_cmp [] [] = Ordering.eq
key_cmp [] (b ∷ bs) = Ordering.lt
key_cmp (a ∷ as') [] = Ordering.gt
key_cmp (a ∷ as') (b ∷ bs) =
    let rest = key_cmp as' bs in
    elim (compare a b) [
      | Ordering.lt ↦ Ordering.lt
      | Ordering.eq ↦ rest
      | Ordering.gt ↦ Ordering.gt
    ]

pub key_cmp-eq : (a b : List ℕ) → (key_cmp a b ≡ Ordering.eq) ↔ (a ≡ b)
key_cmp-eq [] [] = ground arith
key_cmp-eq [] (b ∷ bs) = ground arith
key_cmp-eq (a ∷ as') [] = ground arith
key_cmp-eq (a ∷ as') (b ∷ bs) = ground (arith, key_cmp-eq as' bs)

instance abbrev pub key_ordered : Ordered (List ℕ)
key_ordered = record { cmp = key_cmp; cmp-eq = key_cmp-eq }

abbrev pub conclusion_cmp : Conclusion → Conclusion → Ordering
conclusion_cmp a b = key_cmp (conclusion_key a) (conclusion_key b)

pub conclusion_cmp-eq : (a b : Conclusion) → (conclusion_cmp a b ≡ Ordering.eq) ↔ (a ≡ b)
conclusion_cmp-eq a b = (
  λ h. conclusion_key-injective a b ((key_cmp-eq _ _).0 h),
  λ e. (key_cmp-eq _ _).1 (ap conclusion_key e),
)

-- Sets of keys, and dictionaries from the key of a conclusion to the conclusion, are kept as the
-- conclusions in the order of their keys.
instance abbrev pub conclusion_ordered : Ordered Conclusion
conclusion_ordered = record { cmp = conclusion_cmp; cmp-eq = conclusion_cmp-eq }
