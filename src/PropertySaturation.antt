-- ===== src/PropertySaturation.antt =====
-- The result of property saturation and its lookups, `PropertySaturation` of
-- src/pyelk/reasoning/properties.py, which is what the class rules use as their property view. The
-- lists of conclusions that it also reports are left out: no lookup reads them. An id is not
-- checked again.
pub mod Chains
use py_elk.Prelude.{
  ℕ, zero, suc, ◌≡◌, List, [], ◌∷◌, ◌++◌, Option, none, some, Bool, true, false, Dict, lookup, rows,
  length, get_elem?, Result, ok, err, or_raise, ◌>>=◌, index_error, key_error, value_error,
  out_of_fuel, ltb, if◌then◌else◌,
}
use py_elk.PropertyView.{PropertyChainRecord, PropertyView, is_singleton}

-- A key of the chain table is a property and the suffix, if there is one.
pub record PropertySaturation : Type 0 where
  pub chains : List PropertyChainRecord
  pub compiled_chain_ids : List ℕ
  pub subchains_by_super : List (List ℕ)
  pub superchains_by_sub : List (List ℕ)
  pub ranges_by_property : Dict (List ℕ)
  pub non_redundant_by_left : Dict (Dict (List ℕ))
  pub redundant_by_left : Dict (Dict (List ℕ))
  pub non_redundant_by_right : Dict (Dict (List ℕ))
  pub redundant_by_right : Dict (Dict (List ℕ))
  pub singleton_chains : Dict ℕ
  pub chain_ids_by_key : ℕ → Option ℕ → Option ℕ

-- Python's `reversed`.
unfoldable pub reversed : List ℕ → List ℕ
reversed [] = []
reversed (x ∷ xs) = reversed xs ++ x ∷ []

module _ (p : PropertySaturation) where
  unfoldable pub compiled_chain : ℕ → Result ℕ
  compiled_chain chain = or_raise index_error (get_elem? p.compiled_chain_ids chain)

  unfoldable pub singleton_chain : ℕ → Result ℕ
  singleton_chain property = or_raise key_error (lookup property p.singleton_chains)

  unfoldable pub sub_chains : ℕ → Result (List ℕ)
  sub_chains super =
      if ltb super (length p.chains)
      then or_raise index_error (get_elem? p.subchains_by_super super)
      else err index_error

  unfoldable pub super_chains : ℕ → Result (List ℕ)
  super_chains sub =
      if ltb sub (length p.chains)
      then or_raise index_error (get_elem? p.superchains_by_sub sub)
      else err index_error

  -- The properties of the singletons among some chains.
  unfoldable pub named : List ℕ → Result (List ℕ)
  unfolding is_singleton
  named [] = ok []
  named (chain ∷ rest) = do
    record_ ← or_raise index_error (get_elem? p.chains chain)
    found ← named rest
    ok (if is_singleton record_ then record_.first_property ∷ found else found)

  unfoldable pub sub_properties : ℕ → Result (List ℕ)
  unfolding sub_chains named
  sub_properties super = do chains ← sub_chains super; named chains

  unfoldable pub ranges : ℕ → List ℕ
  ranges property = rows property p.ranges_by_property

  abbrev composed : Option (Dict (List ℕ)) → Dict (List ℕ)
  composed none = []
  composed (some index) = index

  unfoldable pub compositions_by_right : ℕ → Bool → Dict (List ℕ)
  compositions_by_right left redundant =
      composed (lookup left (if redundant then p.redundant_by_left else p.non_redundant_by_left))

  unfoldable pub compositions_by_left : ℕ → Bool → Result (Dict (List ℕ))
  compositions_by_left right redundant =
      if ltb right (length p.chains)
      then ok (
          composed
            (lookup right (if redundant then p.redundant_by_right else p.non_redundant_by_right)))
      else err index_error

  -- The loop of `lookup_chain` over the reversed properties, from a suffix.
  unfoldable pub walk : List ℕ → Option ℕ → Option ℕ
  walk [] suffix = suffix
  walk (property ∷ rest) suffix = elim (p.chain_ids_by_key property suffix) [
    | none ↦ none
    | some current ↦ walk rest (some current)
  ]

  unfoldable pub lookup_chain : List ℕ → Result (Option ℕ)
  unfolding walk reversed
  lookup_chain [] = err value_error
  lookup_chain (property ∷ rest) = ok (walk (reversed (property ∷ rest)) none)

  -- The loop of `chain_properties`, with the number of rounds that it may make.
  unfoldable pub chain_properties : ℕ → ℕ → Result (List ℕ)
  chain_properties zero current = err out_of_fuel
  chain_properties (suc fuel) current = do
    record_ ← or_raise index_error (get_elem? p.chains current)
    elim record_.suffix_chain [
      | none ↦ ok (record_.first_property ∷ [])
      | some suffix ↦ do rest ← chain_properties fuel suffix; ok (record_.first_property ∷ rest)
    ]

-- The protocol that the class rules ask for.
unfoldable pub property_view : PropertySaturation → PropertyView
property_view p = record {
  chains = p.chains;
  compiled_chain = compiled_chain p;
  singleton_chain = singleton_chain p;
  sub_properties = sub_properties p;
  ranges = ranges p;
  compositions_by_right = compositions_by_right p;
  compositions_by_left = compositions_by_left p;
}
