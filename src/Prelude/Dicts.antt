-- ===== src/Prelude/Dicts.antt =====
-- Python dictionaries keyed by ids, kept in the order of their keys, and dictionaries of sets.
use Prim.Native.Nat.{ℕ, compare, Ordering}
use mathlib.Core.Path.{◌≡◌, refl}
use mathlib.Core.Logic.{◌↔◌, ◌≢◌, ◌⊎◌}
use mathlib.Core.Bool.{false}
use mathlib.Core.Option.{Option, none, some}
use mathlib.Core.List.{List, [], ◌∷◌}
use native.Mathlib.Omega.{arith}
use py_elk.Prelude.Lists.{In}
use py_elk.Prelude.Tests.{◌==◌, if◌then◌else◌}
use py_elk.Prelude.Sets.{Ordered, add, In-add}

abbrev pub Dict {ℓ} : Type ℓ → Type ℓ
Dict V = List (ℕ × V)

module _ {ℓ} {V : Type ℓ} where
  -- `d.get(k)`
  unfoldable pub lookup : ℕ → Dict V → Option V
  lookup k [] = none
  lookup k ((j, v) ∷ d) = if k == j then some v else lookup k d

  -- `d[k] = v`
  unfoldable pub insert : ℕ → V → Dict V → Dict V
  insert k v [] = (k, v) ∷ []
  insert k v ((j, w) ∷ d) = elim (compare k j) [
    | Ordering.lt ↦ (k, v) ∷ (j, w) ∷ d
    | Ordering.eq ↦ (k, v) ∷ d
    | Ordering.gt ↦ (j, w) ∷ insert k v d
  ]

  pub lookup-insert :
      (j k : ℕ) (v : V) (d : Dict V)
      → lookup j (insert k v d) ≡ (if j == k then some v else lookup j d)
  unfolding lookup insert
  lookup-insert j k v [] = refl
  lookup-insert j k v ((i, w) ∷ d) = ground (arith, lookup-insert j k v d)

  pub lookup-insert_self : (k : ℕ) (v : V) (d : Dict V) → lookup k (insert k v d) ≡ some v
  lookup-insert_self k v d = ground (arith, lookup-insert k k v d)

  pub lookup-insert_other :
      (j k : ℕ) (v : V) (d : Dict V) → j ≢ k → lookup j (insert k v d) ≡ lookup j d
  lookup-insert_other j k v d apart = ground (arith, lookup-insert j k v d)

module _ {V : Type 0} where
  -- The keys in order, each with the value that it is bound to: `sorted(d.items())`.
  entries : Dict V → Dict V → List (ℕ × V)
  entries d [] = []
  entries d ((k, _) ∷ rest) = elim (lookup k d) [
    | none ↦ entries d rest
    | some v ↦ (k, v) ∷ entries d rest
  ]

  unfoldable pub items : Dict V → List (ℕ × V)
  unfolding entries
  items d = entries d d

  In-entries : (d rest : Dict V) (k : ℕ) (v : V) → In (k, v) (entries d rest) → lookup k d ≡ some v
  unfolding entries
  In-entries d [] k v h = absurd h
  In-entries d ((j, w) ∷ rest) k v h = ground (arith, In-entries d rest k v)

  In-entries_of_lookup :
      (d rest : Dict V) (k : ℕ) (v w : V)
      → lookup k d ≡ some v
      → lookup k rest ≡ some w
      → In (k, v) (entries d rest)
  unfolding entries
  In-entries_of_lookup d [] k v w h found = unfold lookup in cc found
  In-entries_of_lookup d ((j, u) ∷ rest) k v w h found =
      let other : (k == j) ≡ false → lookup k rest ≡ some w =
        λ e. (unfold lookup in rw e at found) in
      ground (arith, other, In-entries_of_lookup d rest k v w h)

  pub In-items : (d : Dict V) (k : ℕ) (v : V) → In (k, v) (items d) ↔ (lookup k d ≡ some v)
  unfolding items
  In-items d k v = (In-entries d d k v, λ h. In-entries_of_lookup d d k v v h h)

-- A dictionary of sets.
module _ {A : Type 0} where
  -- `d.get(k, ())`
  abbrev pub rows : ℕ → Dict (List A) → List A
  rows k d = elim (lookup k d) [ none ↦ [] | some s ↦ s ]

  pub rows-insert_self : (k : ℕ) (l : List A) (d : Dict (List A)) → rows k (insert k l d) ≡ l
  rows-insert_self k l d = ground (arith, lookup-insert k k l d)

  pub rows-insert_other :
      (j k : ℕ) (l : List A) (d : Dict (List A)) → j ≢ k → rows j (insert k l d) ≡ rows j d
  rows-insert_other j k l d apart = ground (arith, lookup-insert j k l d)

module _ {A : Type 0} ⦃o : Ordered A⦄ where
  -- `d.setdefault(k, set()).add(v)`
  unfoldable pub add_to : ℕ → A → Dict (List A) → Dict (List A)
  add_to k v d = insert k (add v (rows k d)) d

  pub In-add_to :
      (j k : ℕ) (a v : A) (d : Dict (List A))
      → In a (rows j (add_to k v d)) ↔ (((j ≡ k) × (a ≡ v)) ⊎ In a (rows j d))
  unfolding add_to
  In-add_to j k a v d =
      ground (arith, lookup-insert j k (add v (rows k d)) d, In-add a v (rows k d))
