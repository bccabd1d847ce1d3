-- ===== src/Rules/Contradictions.antt =====
-- The inferences of src/pyelk/reasoning/rules.py that conclude a disjoint position or a
-- contradiction.
use py_elk.Prelude.{ℕ, Option, none, some, ◌==◌, ◌&&◌, not, if◌then◌else◌}
use py_elk.Conclusion.{
  SubClassInclusionDecomposed, SubClassInclusionComposed, BackwardLink, DisjointSubsumer,
  ClassInconsistency,
}

unfoldable pub disjoint_subsumer_from_subsumer :
    Option SubClassInclusionComposed → ℕ → ℕ → ℕ → Option DisjointSubsumer
disjoint_subsumer_from_subsumer none member group position = none
disjoint_subsumer_from_subsumer (some p) member group position =
    if p.subsumer == member
    then some (record { destination = p.destination; disjoint_group = group; position = position })
    else none

unfoldable pub class_inconsistency_of_disjoint_subsumers :
    Option DisjointSubsumer → Option DisjointSubsumer → Option ClassInconsistency
class_inconsistency_of_disjoint_subsumers (some p) (some q) =
    if p.destination == q.destination
      && (p.disjoint_group == q.disjoint_group && not (p.position == q.position))
    then some (record { destination = p.destination })
    else none
class_inconsistency_of_disjoint_subsumers _ _ = none

unfoldable pub class_inconsistency_of_object_complement_of :
    Option SubClassInclusionComposed
    → Option SubClassInclusionDecomposed
    → ℕ
    → ℕ
    → Option ClassInconsistency
class_inconsistency_of_object_complement_of (some p) (some q) negated complement =
    if p.destination == q.destination && (p.subsumer == negated && q.subsumer == complement)
    then some (record { destination = p.destination })
    else none
class_inconsistency_of_object_complement_of _ _ negated complement = none

unfoldable pub class_inconsistency_of_owl_nothing :
    Option SubClassInclusionDecomposed → ℕ → Option ClassInconsistency
class_inconsistency_of_owl_nothing none owl_nothing = none
class_inconsistency_of_owl_nothing (some p) owl_nothing =
    if p.subsumer == owl_nothing then some (record { destination = p.destination }) else none

unfoldable pub class_inconsistency_propagated :
    Option BackwardLink → Option ClassInconsistency → Option ClassInconsistency
class_inconsistency_propagated (some b) (some i) =
    if b.destination == i.destination then some (record { destination = b.source }) else none
class_inconsistency_propagated _ _ = none
