-- ===== src/PropertyView.antt =====
-- The read-only view of property saturation that the class rules consume: the protocol
-- `PropertyView` of src/pyelk/reasoning/rules.py, and the premises of src/pyelk/reasoning/
-- properties.py. An operation that may raise returns a `Result`.
use py_elk.Prelude.{ℕ, List, Option, none, some, Bool, true, false, Dict, Result}

pub record PropertyChainRecord : Type 0 where
  pub first_property : ℕ
  pub suffix_chain : Option ℕ

unfoldable pub is_singleton : PropertyChainRecord → Bool
is_singleton r = elim r.suffix_chain [ none ↦ true | some _ ↦ false ]

pub record SubPropertyChain : Type 0 where
  pub sub_chain : ℕ
  pub super_chain : ℕ

pub record PropertyRange : Type 0 where
  pub property : ℕ
  pub range : ℕ

-- The second argument of the composition indices is `redundant`.
pub record PropertyView : Type 0 where
  pub chains : List PropertyChainRecord
  pub compiled_chain : ℕ → Result ℕ
  pub singleton_chain : ℕ → Result ℕ
  pub sub_properties : ℕ → Result (List ℕ)
  pub ranges : ℕ → List ℕ
  pub compositions_by_right : ℕ → Bool → Dict (List ℕ)
  pub compositions_by_left : ℕ → Bool → Result (Dict (List ℕ))
