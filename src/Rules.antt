-- ===== src/Rules.antt =====
-- src/pyelk/reasoning/rules.py: the class inferences, the lookups of the rule dispatcher, and its
-- handlers. `Calculus` states the rules of ELK over the compiled ontology.
pub mod Subsumers
pub mod Links
pub mod Contradictions
pub mod Index
pub mod Decomposition
pub mod Composition
pub mod LinkHandlers
pub mod Calculus
pub mod Lookups
pub mod SoundInitialization
pub mod SoundSubsumers
pub mod SoundComposition
pub mod SoundLinks
pub mod SoundDispatch
pub mod IndexTables
pub mod Indexed
pub mod Tables
pub mod Construction
pub mod Dispatch
pub mod Joins
pub mod Exact
pub mod Complete
pub mod GivesComposed
pub mod GivesOthers
pub mod GivesLinks
pub mod GivesDecomposed
pub mod Monotone
pub mod Premises
