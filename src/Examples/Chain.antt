-- ===== src/Examples/Chain.antt =====
-- A chain table with the property 5 and the chain of 6 and 5, for src/pyelk/reasoning/properties.py.
use py_elk.Prelude.{
  ℕ, zero, suc, ◌<◌, ◌≡◌, ◌≢◌, refl, ap, subst, ◌∙◌, List, [], ◌∷◌, Option, none, some,
  some-injective, get_elem?, ok, ◌==◌, ◌&&◌, if◌then◌else◌, arith,
}
use py_elk.PropertyView.{PropertyChainRecord}
use py_elk.PropertySaturation.{PropertySaturation, chain_properties, lookup_chain}
use py_elk.PropertySaturation.Chains.{IsChainTable, lookup_chain-chain_properties}
use py_elk.Examples.Clash.{two_properties}

abbrev single : PropertyChainRecord
single = record { first_property = 5; suffix_chain = none }

abbrev double : PropertyChainRecord
double = record { first_property = 6; suffix_chain = some 0 }

abbrev chain_key : ℕ → Option ℕ → Option ℕ
chain_key property none = if property == 5 then some 0 else none
chain_key property (some suffix) = if property == 6 && suffix == 0 then some 1 else none

abbrev chained : PropertySaturation
chained = record two_properties { chains = single ∷ double ∷ []; chain_ids_by_key = chain_key }

chained-earlier :
    (i j : ℕ) (r : PropertyChainRecord)
    → get_elem? chained.chains i ≡ some r
    → r.suffix_chain ≡ some j
    → (j < i) × ((s : PropertyChainRecord) × (get_elem? chained.chains j ≡ some s))
chained-earlier zero j r found suffix =
    let e : none ≡ some j =
      ap (λ (s : PropertyChainRecord). s.suffix_chain) (some-injective single r found) ∙ suffix in
    absurd (cc e)
chained-earlier (suc zero) j r found suffix =
    let e : 0 ≡ j =
      some-injective 0 j (
        ap (λ (s : PropertyChainRecord). s.suffix_chain) (some-injective double r found)
        ∙ suffix) in
    subst (λ k. (k < 1) × ((s : PropertyChainRecord) × (get_elem? chained.chains k ≡ some s))) e
      (ground arith, (single, refl))
chained-earlier (suc (suc i)) j r found suffix = absurd (cc found)

chained-keyed :
    (i : ℕ) (r : PropertyChainRecord)
    → get_elem? chained.chains i ≡ some r
    → chained.chain_ids_by_key r.first_property r.suffix_chain ≡ some i
chained-keyed zero r found =
    subst (λ (s : PropertyChainRecord). chain_key s.first_property s.suffix_chain ≡ some 0)
      (some-injective single r found) refl
chained-keyed (suc zero) r found =
    subst (λ (s : PropertyChainRecord). chain_key s.first_property s.suffix_chain ≡ some 1)
      (some-injective double r found) refl
chained-keyed (suc (suc i)) r found = absurd (cc found)

chained-IsChainTable : IsChainTable chained
chained-IsChainTable = record { earlier = chained-earlier; keyed = chained-keyed }

one_is_below : 1 < 2
one_is_below = ground arith

lookup_chain-chain_properties_example :
    (ps : List ℕ) × (chain_properties chained 2 1 ≡ ok ps)
    × (ps ≢ [])
    × (lookup_chain chained ps ≡ ok (some 1))
lookup_chain-chain_properties_example =
    lookup_chain-chain_properties chained 2 1 double chained-IsChainTable one_is_below refl
