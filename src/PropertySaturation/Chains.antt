-- ===== src/PropertySaturation/Chains.antt =====
-- The chain table of `PropertySaturation` (src/pyelk/reasoning/properties.py): a chain is read out as
-- the sequence of its properties, and looked up by it.
use py_elk.Prelude.{
  ℕ, zero, suc, ◌<◌, ◌≡◌, ◌≢◌, refl, sym, ap, ◌∙◌, inl, inr, List, [], ◌∷◌, ◌++◌, Option, none,
  some, Option-cases, get_elem?, ok, arith,
}
use py_elk.PropertyView.{PropertyChainRecord}
use py_elk.PropertySaturation.{PropertySaturation, walk, reversed, lookup_chain, chain_properties}

-- A chain's suffix comes before it, as the constructor tests, and the keys are those of the table.
pub record IsChainTable (p : PropertySaturation) : Type 0 where
  pub earlier :
      (i j : ℕ) (r : PropertyChainRecord)
      → get_elem? p.chains i ≡ some r
      → r.suffix_chain ≡ some j
      → (j < i) × ((s : PropertyChainRecord) × (get_elem? p.chains j ≡ some s))
  pub keyed :
      (i : ℕ) (r : PropertyChainRecord)
      → get_elem? p.chains i ≡ some r
      → p.chain_ids_by_key r.first_property r.suffix_chain ≡ some i

module _ (p : PropertySaturation) where
  walk_one : (x : ℕ) (suffix : Option ℕ) → walk p (x ∷ []) suffix ≡ p.chain_ids_by_key x suffix
  unfolding walk
  walk_one x suffix = elim (Option-cases (p.chain_ids_by_key x suffix)) [
    | inl missing ↦ rw (missing, walk) refl
    | inr (current, found) ↦ rw (found, walk) refl
  ]

  walk-append :
      (xs : List ℕ) (x : ℕ) (suffix : Option ℕ) (k : ℕ)
      → walk p xs suffix ≡ some k
      → walk p (xs ++ x ∷ []) suffix ≡ p.chain_ids_by_key x (some k)
  unfolding walk
  walk-append [] x suffix k h = walk_one x suffix ∙ ap (p.chain_ids_by_key x) h
  walk-append (y ∷ ys) x suffix k h = elim (Option-cases (p.chain_ids_by_key y suffix)) [
    | inl missing ↦ (let bad : none ≡ some k = rw (missing, walk) at h in cc bad)
    | inr (current, found) ↦
        rw (found, walk) (walk-append ys x (some current) k (rw (found, walk) at h))
  ]

  module _ (h : IsChainTable p) where
    chain_properties-walk :
        (fuel i : ℕ) (r : PropertyChainRecord)
        → i < fuel
        → get_elem? p.chains i ≡ some r
        → (ps : List ℕ) × (chain_properties p fuel i ≡ ok (r.first_property ∷ ps))
          × (walk p (reversed (r.first_property ∷ ps)) none ≡ some i)
    unfolding chain_properties walk reversed
    chain_properties-walk zero i r below found = ground arith
    chain_properties-walk (suc fuel) i r below found = elim (Option-cases r.suffix_chain) [
      | inl single ↦ (
        [],
        rw (found, single) refl,
        walk_one r.first_property none
            ∙ ap (p.chain_ids_by_key r.first_property) (sym single)
            ∙ h.keyed i r found,
      )
      | inr (j, suffix) ↦
          let (before, (s, there)) = h.earlier i j r found suffix in
          let (ps, read, walked) = chain_properties-walk fuel j s (omega arith) there in
          (
            s.first_property ∷ ps,
            rw (found, suffix, read) refl,
            walk-append (reversed (s.first_property ∷ ps)) r.first_property none j walked
                ∙ ap (p.chain_ids_by_key r.first_property) (sym suffix)
                ∙ h.keyed i r found,
          )
    ]

-- Take a chain table in which the suffix of a chain comes before it and whose keys are those of its
-- records. A chain of the table is read out in at most as many rounds as its id and one more, its
-- properties are not empty, and looking them up gives the chain.
pub lookup_chain-chain_properties :
    (p : PropertySaturation) (fuel i : ℕ) (r : PropertyChainRecord)
    → IsChainTable p
    → i < fuel
    → get_elem? p.chains i ≡ some r
    → (ps : List ℕ) × (chain_properties p fuel i ≡ ok ps)
      × (ps ≢ [])
      × (lookup_chain p ps ≡ ok (some i))
unfolding lookup_chain
lookup_chain-chain_properties p fuel i r h below found =
    let (ps, read, walked) = chain_properties-walk p h fuel i r below found in
    (r.first_property ∷ ps, read, (λ e. cc e), ap ok walked)
