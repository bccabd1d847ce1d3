-- ===== src/Conclusion.antt =====
-- src/pyelk/reasoning/conclusions.py: the nine families of class conclusions, the context that
-- owns a conclusion, and its structural key. The check of each id against the 32-bit range in
-- `__post_init__` is `fits_u32`.

pub mod Keys
use py_elk.Prelude.{ℕ, List, [], ◌∷◌, Bool, ltb, ◌&&◌}
use py_elk.Ir.{u32_reserved}

pub record ContextInitialization : Type 0 where
  pub root : ℕ

pub record SubContextInitialization : Type 0 where
  pub destination : ℕ
  pub sub_destination_property : ℕ

pub record SubClassInclusionDecomposed : Type 0 where
  pub destination : ℕ
  pub subsumer : ℕ

pub record SubClassInclusionComposed : Type 0 where
  pub destination : ℕ
  pub subsumer : ℕ

pub record ForwardLink : Type 0 where
  pub destination : ℕ
  pub chain : ℕ
  pub target : ℕ

pub record BackwardLink : Type 0 where
  pub destination : ℕ
  pub relation : ℕ
  pub source : ℕ

pub record Propagation : Type 0 where
  pub destination : ℕ
  pub relation : ℕ
  pub carry_existential : ℕ

pub record DisjointSubsumer : Type 0 where
  pub destination : ℕ
  pub disjoint_group : ℕ
  pub position : ℕ

pub record ClassInconsistency : Type 0 where
  pub destination : ℕ

pub data Conclusion : Type 0 where
  context_initialization : ContextInitialization → Conclusion
  subcontext_initialization : SubContextInitialization → Conclusion
  decomposed : SubClassInclusionDecomposed → Conclusion
  composed : SubClassInclusionComposed → Conclusion
  forward_link : ForwardLink → Conclusion
  backward_link : BackwardLink → Conclusion
  propagation : Propagation → Conclusion
  disjoint_subsumer : DisjointSubsumer → Conclusion
  class_inconsistency : ClassInconsistency → Conclusion

-- Conclusions by their fields, in the order of the dataclasses.
abbrev pub initialized_at : ℕ → Conclusion
initialized_at r = context_initialization (record { root = r })

abbrev pub subcontext_at : ℕ → ℕ → Conclusion
subcontext_at d p =
    subcontext_initialization (record { destination = d; sub_destination_property = p })

abbrev pub decomposed_at : ℕ → ℕ → Conclusion
decomposed_at d e = decomposed (record { destination = d; subsumer = e })

abbrev pub composed_at : ℕ → ℕ → Conclusion
composed_at d e = composed (record { destination = d; subsumer = e })

abbrev pub forward_at : ℕ → ℕ → ℕ → Conclusion
forward_at d c t = forward_link (record { destination = d; chain = c; target = t })

abbrev pub backward_at : ℕ → ℕ → ℕ → Conclusion
backward_at d r s = backward_link (record { destination = d; relation = r; source = s })

abbrev pub propagation_at : ℕ → ℕ → ℕ → Conclusion
propagation_at d r e = propagation (record { destination = d; relation = r; carry_existential = e })

abbrev pub disjoint_at : ℕ → ℕ → ℕ → Conclusion
disjoint_at d g p = disjoint_subsumer (record { destination = d; disjoint_group = g; position = p })

abbrev pub inconsistent_at : ℕ → Conclusion
inconsistent_at d = class_inconsistency (record { destination = d })

unfoldable pub conclusion_destination : Conclusion → ℕ
conclusion_destination (context_initialization c) = c.root
conclusion_destination (subcontext_initialization c) = c.destination
conclusion_destination (decomposed c) = c.destination
conclusion_destination (composed c) = c.destination
conclusion_destination (forward_link c) = c.destination
conclusion_destination (backward_link c) = c.destination
conclusion_destination (propagation c) = c.destination
conclusion_destination (disjoint_subsumer c) = c.destination
conclusion_destination (class_inconsistency c) = c.destination

-- The discriminators are those of `ConclusionKind`.
unfoldable pub conclusion_key : Conclusion → List ℕ
conclusion_key (context_initialization c) = 0 ∷ c.root ∷ []
conclusion_key (subcontext_initialization c) = 1 ∷ c.destination ∷ c.sub_destination_property ∷ []
conclusion_key (decomposed c) = 2 ∷ c.destination ∷ c.subsumer ∷ []
conclusion_key (composed c) = 3 ∷ c.destination ∷ c.subsumer ∷ []
conclusion_key (forward_link c) = 4 ∷ c.destination ∷ c.chain ∷ c.target ∷ []
conclusion_key (backward_link c) = 5 ∷ c.destination ∷ c.relation ∷ c.source ∷ []
conclusion_key (propagation c) = 6 ∷ c.destination ∷ c.relation ∷ c.carry_existential ∷ []
conclusion_key (disjoint_subsumer c) = 7 ∷ c.destination ∷ c.disjoint_group ∷ c.position ∷ []
conclusion_key (class_inconsistency c) = 8 ∷ c.destination ∷ []

-- `_checked_id`
abbrev pub is_id : ℕ → Bool
is_id n = ltb n u32_reserved

-- What `__post_init__` demands of the fields.
unfoldable pub fits_u32 : Conclusion → Bool
fits_u32 (context_initialization c) = is_id c.root
fits_u32 (subcontext_initialization c) = is_id c.destination && is_id c.sub_destination_property
fits_u32 (decomposed c) = is_id c.destination && is_id c.subsumer
fits_u32 (composed c) = is_id c.destination && is_id c.subsumer
fits_u32 (forward_link c) = is_id c.destination && (is_id c.chain && is_id c.target)
fits_u32 (backward_link c) = is_id c.destination && (is_id c.relation && is_id c.source)
fits_u32 (propagation c) = is_id c.destination && (is_id c.relation && is_id c.carry_existential)
fits_u32 (disjoint_subsumer c) = is_id c.destination && (is_id c.disjoint_group && is_id c.position)
fits_u32 (class_inconsistency c) = is_id c.destination
