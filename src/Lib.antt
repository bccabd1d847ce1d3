-- ===== src/Lib.antt =====
-- The class saturation of pyELK: a duplicate-suppressing store of conclusions for each context, the
-- inference rules and the dispatcher that triggers them, and the scheduler that runs them to a
-- fixed point.
--
-- The parts, and how they interact. The indexer compiles an ontology into frozen tables
-- (src/pyelk/indexing/ir.py). The dispatcher (src/pyelk/reasoning/rules.py) freezes lookups over
-- the tables once. The scheduler (src/pyelk/reasoning/saturation.py) owns one context for each
-- expression that was demanded (src/pyelk/reasoning/contexts.py); it takes a conclusion
-- (src/pyelk/reasoning/conclusions.py) from the agenda of a context, stores it, has the dispatcher
-- produce what follows, and routes the products to the contexts that own them. Rules about
-- properties are answered by the property view, an interface that property saturation fills.
--
-- The files.
--   * Prelude: sets, dictionaries, results and loops. A Python set is its sorted list and a
--     dictionary an association list in the order of its keys, so that what the code sorts is read
--     off; a conclusion stands for its key in a set of keys.
--   * Ir: the records of the compiled ontology that class saturation reads.
--   * Conclusion, Conclusion/Keys: the conclusion classes, `conclusion_destination` and
--     `conclusion_key`. An id is a natural number; `_checked_id` is the test `is_id`, and
--     `fits_u32` says which conclusions the constructors accept. The functions below do not run
--     the test again.
--   * Context: `ContextState`, one function per method. Context/Invariant says when a context is
--     consistent: its indices hold what it stores, the pending keys are those of the agenda,
--     nothing on the agenda is stored or repeated, and a saturated context has no agenda.
--     Context/Process and Context/Methods are about its methods, Context/Frozen about the view
--     that `freeze` takes.
--   * PropertyView: the protocol `PropertyView`, a record of functions. PropertySaturation: the
--     result of property saturation and its lookups (src/pyelk/reasoning/properties.py), which
--     implement the protocol; a dictionary with pairs as keys is a function.
--     PropertySaturation/Chains is about its chain table.
--   * Rules/Subsumers, Rules/Links, Rules/Contradictions: the inference functions. A premise may be
--     missing, as in the code; the type tests of `_premise` are the types.
--   * Rules/Index: `RuleDispatcher.__init__`, which is `rule_dispatcher`. Rules/Decomposition,
--     Rules/Composition, Rules/LinkHandlers: the handlers and `dispatch`. A handler returns the
--     list of what it gives its producer, in order, or the exception it raises.
--   * Rules/Calculus: the rules themselves, as a data type over the tables of the ontology and any
--     set of stored conclusions. Rules/Lookups: what the lookups say of the tables, and what the
--     two composition indices of a property view say of each other. Rules/IndexTables,
--     Rules/Indexed, Rules/Tables, Rules/Construction: the lookups against the tables.
--     Rules/SoundInitialization, Rules/SoundSubsumers, Rules/SoundComposition, Rules/SoundLinks,
--     Rules/SoundDispatch, Rules/Dispatch, Rules/Joins: the products against the calculus.
--     Rules/Monotone: the calculus uses its premises positively. Rules/GivesComposed,
--     Rules/GivesDecomposed, Rules/GivesLinks, Rules/GivesOthers, Rules/Complete, Rules/Exact: the
--     calculus against the products, rule by rule.
--   * Saturation/Actions, Saturation/Engine, Saturation/Schedule: `SaturationEngine`. A method is an
--     action on the state of the engine, and what is written before an exception stays written.
--     Saturation/Recovery is about a dispatch that raises. Saturation/Holds has the rules for what
--     an action keeps, whether it returns or raises. Saturation/Steady says what holds of the
--     scheduler between two steps; Saturation/Routing, Saturation/Demand, Saturation/Service,
--     Saturation/Products, Saturation/Rounds, Saturation/Run and Saturation/Sound follow it through
--     `run`. Saturation/Complete says what it means that no inference is lost; Saturation/Grows,
--     Saturation/Delivery, Saturation/Arrival, Saturation/Premises, Saturation/Answers,
--     Saturation/Flags, Saturation/Progress, Saturation/Kept and Saturation/Closure follow that.
--     Saturation/Queries is `saturate_query_root`, and Saturation/Queries/Ran what it keeps.
--     Saturation/Derives has the derivations from demanded roots (Rules/Premises: with a list of
--     premises for each rule).
--   * Consistency: `evaluate_consistency` and the roots that it demands
--     (src/pyelk/reasoning/consistency.py). Consistency/Decides and Consistency/Derives are about its
--     decision, Consistency/Roots about the roots.
--   * Session: `SaturationSession`, the stages over the scheduler (src/pyelk/reasoning/session.py),
--     with the building of the property closure as a parameter. Session/Sound, Session/Makes,
--     Session/Served, Session/Decision, Session/Stages and Session/Operations are about what its operations keep.
--     What `snapshot` and `diagnostics` return is left out: `snapshot` changes the session as
--     `engine` does, and `diagnostics` only reads it.
--   * Examples, Examples/Runs, Examples/Clash, Examples/Chain, Examples/Staged: small ontologies and
--     tables, and each theorem below at one.
--
-- Bounds and fuel. The two `while` loops of `run` take the number of rounds they may make, and end
-- with the error `out_of_fuel` after them. The callable `interrupt` is a function of the number of
-- its calls. The theorems about `run` are about every number of rounds: what holds however a run
-- ends holds of one that was out of rounds as well, and what holds of a run that returns is about
-- one whose rounds were enough, since it then returns. How many are enough is not shown; a run that
-- was out of rounds can be taken up again, as one that was interrupted. The loop of
-- `chain_properties` takes rounds as well, and enough are given by the id of the chain.
--
-- Not modelled: the closures that property saturation computes, and the other stages that read the
-- saturated contexts (src/pyelk/reasoning: taxonomy, reduction, realization, queries, entailment,
-- completeness, contracts, wire), the indexer, the codecs, the results and the public
-- interface, and the backends. Tests of the type of an argument are the types of the model.
pub mod Prelude
pub mod Ir
pub mod Conclusion
pub mod Context
pub mod PropertyView
pub mod PropertySaturation
pub mod Rules
pub mod Saturation
pub mod Consistency
pub mod Session
pub mod Examples
