-- ===== src/Rules/Links.antt =====
-- The inferences of src/pyelk/reasoning/rules.py that conclude a link or a propagation.
use py_elk.Prelude.{ℕ, Option, none, some, Bool, ◌==◌, ◌&&◌, if◌then◌else◌}
use py_elk.Conclusion.{
  SubContextInitialization, SubClassInclusionDecomposed, SubClassInclusionComposed, ForwardLink,
  BackwardLink, Propagation,
}
use py_elk.PropertyView.{SubPropertyChain}

unfoldable pub forward_link_of_object_some_values_from :
    Option SubClassInclusionDecomposed → ℕ → ℕ → ℕ → Option ForwardLink
forward_link_of_object_some_values_from none existential relation_chain target = none
forward_link_of_object_some_values_from (some p) existential relation_chain target =
    if p.subsumer == existential
    then some (record { destination = p.destination; chain = relation_chain; target = target })
    else none

unfoldable pub backward_link_of_object_some_values_from :
    Option SubClassInclusionDecomposed → ℕ → ℕ → ℕ → Option BackwardLink
backward_link_of_object_some_values_from none existential relation target = none
backward_link_of_object_some_values_from (some p) existential relation target =
    if p.subsumer == existential
    then some (record { destination = target; relation = relation; source = p.destination })
    else none

unfoldable pub forward_link_of_object_has_self :
    Option SubClassInclusionDecomposed → ℕ → ℕ → Option ForwardLink
forward_link_of_object_has_self none has_self relation_chain = none
forward_link_of_object_has_self (some p) has_self relation_chain =
    if p.subsumer == has_self
    then some
        (record { destination = p.destination; chain = relation_chain; target = p.destination })
    else none

unfoldable pub backward_link_of_object_has_self :
    Option SubClassInclusionDecomposed → ℕ → ℕ → Option BackwardLink
backward_link_of_object_has_self none has_self relation = none
backward_link_of_object_has_self (some p) has_self relation =
    if p.subsumer == has_self
    then some (record { destination = p.destination; relation = relation; source = p.destination })
    else none

-- `premise == SubPropertyChain(sub, super)`
abbrev pub same_chains : SubPropertyChain → ℕ → ℕ → Bool
same_chains p sub super = p.sub_chain == sub && p.super_chain == super

unfoldable pub forward_link_composition :
    Option BackwardLink
    → Option SubPropertyChain
    → Option ForwardLink
    → Option SubPropertyChain
    → (composition backward_relation_chain composition_first_chain composition_suffix_chain : ℕ)
    → Option ForwardLink
forward_link_composition (some b) (some l) (some f) (some r) composition backward_chain first
      suffix =
    if b.destination == f.destination
      && (same_chains l backward_chain first && same_chains r f.chain suffix)
    then some (record { destination = b.source; chain = composition; target = f.target })
    else none
forward_link_composition _ _ _ _ composition backward_chain first suffix = none

-- The last step of `backward_link_composition`, on what the composition gave.
unfoldable pub expand_composition :
    Option ForwardLink
    → Option SubPropertyChain
    → (composition super_property super_property_chain : ℕ) → Option BackwardLink
expand_composition (some f) (some s) composition super_property super_chain =
    if same_chains s composition super_chain
    then some (record { destination = f.target; relation = super_property; source = f.destination })
    else none
expand_composition _ _ composition super_property super_chain = none

unfoldable pub backward_link_composition :
    Option BackwardLink
    → Option SubPropertyChain
    → Option ForwardLink
    → Option SubPropertyChain
    → Option SubPropertyChain
    → (composition super_property backward_relation_chain composition_first_chain : ℕ)
    → (composition_suffix_chain super_property_chain : ℕ) → Option BackwardLink
unfolding forward_link_composition expand_composition
backward_link_composition b l f r s composition super_property backward_chain first suffix
      super_chain =
    expand_composition (forward_link_composition b l f r composition backward_chain first suffix) s
      composition super_property super_chain

unfoldable pub backward_link_reversed_expanded :
    Option ForwardLink → Option SubPropertyChain → ℕ → ℕ → Option BackwardLink
backward_link_reversed_expanded (some f) (some s) super_property super_chain =
    if same_chains s f.chain super_chain
    then some (record { destination = f.target; relation = super_property; source = f.destination })
    else none
backward_link_reversed_expanded _ _ super_property super_chain = none

unfoldable pub propagation_generated :
    Option SubContextInitialization
    → Option SubClassInclusionComposed
    → Option SubPropertyChain
    → (filler carry_existential initialized_relation_chain carry_property_chain : ℕ)
    → Option Propagation
propagation_generated (some i) (some q) (some s) filler carry relation_chain carry_chain =
    if i.destination == q.destination
      && (q.subsumer == filler && same_chains s relation_chain carry_chain)
    then some (record {
      destination = i.destination;
      relation = i.sub_destination_property;
      carry_existential = carry;
    })
    else none
propagation_generated _ _ _ filler carry relation_chain carry_chain = none
