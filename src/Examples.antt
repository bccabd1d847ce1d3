-- ===== src/Examples.antt =====
-- A small ontology over the code of src/pyelk/reasoning/rules.py and contexts.py, and the theorems
-- of the development at it. The classes are `owl:Nothing`, `owl:Thing`, `A`, `B` and `C`, and the
-- only axiom says that `A` and `B` together are below `C`.
use py_elk.Prelude.{
  ℕ, arith, inr, ◌<◌, String, ◌≡◌, refl, List, [], ◌∷◌, map, Bool, true, false, some, In, ◌⊎◌, inl,
  ◌↔◌, ◌≢◌, lookup, insert, add, has, discard, add_to, for_each, ◌&◌, fold_each, ok, err,
  value_error, nat_ordered, pair_ordered,
}
use py_elk.Ir.{
  EntityKind, ExpressionTag, EntityRecord, ExpressionRecord, ExpressionOccurrence, CompiledOntology,
  owl_nothing_iri, owl_thing_iri,
}
use py_elk.Conclusion.{
  Conclusion, composed_at, subcontext_at, conclusion_destination, conclusion_key,
}
use py_elk.Conclusion.Keys.{conclusion_ordered, conclusion_key-injective}
use py_elk.Context.{
  ContextState, new_context, insert_owned, file, enqueue, enqueue_owned, pop_todo,
  insert as insert_conclusion, contains, freeze,
}
use py_elk.Context.Invariant.{IsConsistent, Enqueues, new_context-IsConsistent, enqueue_owned_lem}
use py_elk.Context.Process.{Inserts, insert_owned_lem}
use py_elk.Context.Methods.{enqueue_lem, insert_lem, pop_todo-insert}
use py_elk.Context.Frozen.{Shown, freeze-IsConsistent}
use py_elk.Rules.Decomposition.{on_subcontext_initialization}
use py_elk.Saturation.Engine.{Engine, new_engine}
use py_elk.Saturation.Schedule.{has_local_work, next_premise, dispatch_premise}
use py_elk.Saturation.Recovery.{dispatch_premise-next_premise}
use py_elk.PropertyView.{PropertyView}
use py_elk.Rules.Index.{RuleDispatcher, rule_dispatcher, index_by_tag, no_equivalences}
use py_elk.Rules.Lookups.{IsIndexed, IsSymmetric}
use py_elk.Rules.Calculus.{Infers, Expression}
use py_elk.Rules.Construction.{rule_dispatcher-IsIndexed}
use py_elk.Rules.LinkHandlers.{dispatch, dispatch_family}
use py_elk.Rules.Composition.{on_composed_subsumer, join_first}
use py_elk.Rules.Dispatch.{dispatch-Infers}
use py_elk.Rules.Joins.{dispatch-intersection}
pub mod Runs
pub mod Clash
pub mod Chain
pub mod Staged

abbrev class_of : ℕ → ExpressionRecord
class_of e = record { tag = ExpressionTag.class; arguments = e ∷ []; payload = [] }

abbrev entity : String → EntityRecord
entity iri = record { kind = EntityKind.class; iri = iri }

abbrev pub occurrence : ℕ → ℕ → ExpressionOccurrence
occurrence n p = record { negative = n; positive = p }

-- Expressions 0 to 4 are the classes in the order above, and 5 is the intersection of `A` and `B`.
abbrev pub ontology : CompiledOntology
ontology = record {
  entities = map entity (owl_nothing_iri ∷ owl_thing_iri ∷ "A" ∷ "B" ∷ "C" ∷ []);
  expressions =
      class_of 0
      ∷ class_of 1
      ∷ class_of 2
      ∷ class_of 3
      ∷ class_of 4
      ∷ record { tag = ExpressionTag.object_intersection_of; arguments = 2 ∷ 3 ∷ []; payload = [] }
      ∷ [];
  expression_occurrences =
      occurrence 0 0
      ∷ occurrence 0 0
      ∷ occurrence 1 0
      ∷ occurrence 1 0
      ∷ occurrence 0 1
      ∷ occurrence 1 0
      ∷ [];
  property_chains = [];
  subclass_axioms = (5, 4) ∷ [];
  equivalent_class_axioms = [];
  disjoint_groups = [];
  subproperty_axioms = [];
  property_ranges = [];
}

-- The view of an ontology without properties.
abbrev pub no_properties : PropertyView
no_properties = record {
  chains = [];
  compiled_chain = λ c. err value_error;
  singleton_chain = λ p. err value_error;
  sub_properties = λ c. err value_error;
  ranges = λ p. [];
  compositions_by_right = λ r b. [];
  compositions_by_left = λ c b. ok [];
}

pub no_properties-IsSymmetric : IsSymmetric no_properties
unfolding lookup
no_properties-IsSymmetric = record {
  left_right = λ relation chain left results h e. cc;
  right_left = λ relation chain left results h e. cc;
}

abbrev pub dispatcher : RuleDispatcher
dispatcher = record {
  compiled = ontology;
  properties = no_properties;
  owl_thing = 1;
  owl_nothing = 0;
  introduce_thing = false;
  decompose_nothing = false;
  subclasses = (5, 4 ∷ []) ∷ [];
  equivalences = no_equivalences;
  indexes = record {
    intersections_by_first = (2, (3, 5) ∷ []) ∷ [];
    intersections_by_second = (3, (2, 5) ∷ []) ∷ [];
    unions_by_disjunct = [];
    existentials_by_filler = [];
    complements_by_negated = [];
    positive_complements = [];
  };
  disjoint_by_member = [];
  told_super_properties = [];
}

pub dispatcher_made : rule_dispatcher ontology no_properties ≡ ok dispatcher
unfolding rule_dispatcher fold_each add_to add insert lookup index_by_tag
dispatcher_made = refl

rule_dispatcher-IsIndexed_example :
    IsIndexed dispatcher
    × (dispatcher.compiled ≡ ontology)
    × (dispatcher.properties ≡ no_properties)
rule_dispatcher-IsIndexed_example =
    rule_dispatcher-IsIndexed ontology no_properties dispatcher dispatcher_made

-- A context that is below `A` and `B`.
abbrev below_a : ContextState
below_a = (insert_owned (composed_at 7 2) (new_context 7)).0

abbrev pub below_both : ContextState
below_both = (insert_owned (composed_at 7 3) below_a).0

pub below_both-IsConsistent : IsConsistent below_both
unfolding new_context insert_owned file add has discard conclusion_destination conclusion_key
below_both-IsConsistent =
    (insert_owned_lem below_a (composed_at 7 3) refl (λ m. m)
      (insert_owned_lem (new_context 7) (composed_at 7 2) refl (λ m. m)
        (new_context-IsConsistent 7)).consistent).consistent

below_both-todo : ¬ In (composed_at 7 3) below_both.todo
unfolding new_context insert_owned file add has discard conclusion_destination conclusion_key
below_both-todo m = m

pub below_both-dispatch :
    dispatch dispatcher below_both (composed_at 7 3) ≡ ok (composed_at 7 5 ∷ [])
unfolding dispatch new_context insert_owned file add has discard conclusion_destination
    conclusion_key lookup for_each ◌&◌ contains dispatch_family on_composed_subsumer join_first
below_both-dispatch = refl

dispatch-Infers_example :
    Infers ontology no_properties 1 0 (λ y. In y below_both.stored) (composed_at 7 5)
dispatch-Infers_example =
    dispatch-Infers ontology no_properties dispatcher below_both (composed_at 7 3) (composed_at 7 5)
      (composed_at 7 5 ∷ []) dispatcher_made no_properties-IsSymmetric below_both-IsConsistent
      below_both-dispatch (inl refl)

pub intersection-Expression :
    Expression ontology 5 ExpressionTag.object_intersection_of (2 ∷ 3 ∷ []) (occurrence 1 0)
intersection-Expression = record { payload = []; row = refl; occurrence = refl }

pub below_both-again :
    dispatch dispatcher below_both (composed_at below_both.root 3) ≡ ok (composed_at 7 5 ∷ [])
unfolding dispatch new_context insert_owned file add has discard conclusion_destination
    conclusion_key lookup for_each ◌&◌ contains dispatch_family on_composed_subsumer join_first
below_both-again = refl

pub one_is_positive : 0 < 1
one_is_positive = ground arith

both_stored :
    In (composed_at below_both.root 2) below_both.stored
    × In (composed_at below_both.root 3) below_both.stored
unfolding new_context insert_owned file add has discard conclusion_destination conclusion_key
both_stored = (inl refl, inr (inl refl))

dispatch-intersection_example : In (composed_at below_both.root 5) (composed_at 7 5 ∷ [])
dispatch-intersection_example =
    dispatch-intersection ontology no_properties dispatcher below_both 2 3 5 3 [] (occurrence 1 0)
      (composed_at 7 5 ∷ []) dispatcher_made below_both-IsConsistent intersection-Expression
      one_is_positive both_stored.0 both_stored.1 (inr refl) below_both-again

pub stored_a : In (composed_at 7 2) below_both.stored
unfolding new_context insert_owned file add has discard conclusion_destination conclusion_key
stored_a = inl refl

-- The next candidate of that context.
enqueue_lem_example :
    (conclusion_destination (composed_at 7 5) ≡ below_both.root)
      × ((t : ContextState) × (b : Bool) × (enqueue (composed_at 7 5) below_both ≡ ok (t, b))
          × Enqueues below_both (composed_at 7 5) t b)
    ⊎ (conclusion_destination (composed_at 7 5) ≢ below_both.root)
      × (enqueue (composed_at 7 5) below_both ≡ err value_error)
enqueue_lem_example = enqueue_lem below_both (composed_at 7 5) below_both-IsConsistent

abbrev waiting : ContextState
waiting = (enqueue_owned (composed_at 7 5) below_both).0

waiting-IsConsistent : IsConsistent waiting
unfolding new_context insert_owned file conclusion_destination has add conclusion_key
waiting-IsConsistent =
    (enqueue_owned_lem below_both (composed_at 7 5) refl below_both-IsConsistent).consistent

waiting-root : conclusion_destination (composed_at 7 3) ≡ waiting.root
unfolding enqueue_owned new_context insert_owned file add has discard conclusion_key
    conclusion_destination
waiting-root = refl

waiting-todo : waiting.todo ≡ composed_at 7 5 ∷ []
unfolding enqueue_owned new_context insert_owned file add has discard conclusion_key
waiting-todo = refl

pop_todo-insert_example :
    ((pop_todo waiting).1 ≡ some (composed_at 7 5))
    × ((t : ContextState) × (insert_conclusion (composed_at 7 5) (pop_todo waiting).0
          ≡ ok (t, true))
        × IsConsistent t
        × (t.todo ≡ [])
        × ((x : Conclusion) → In x t.stored ↔ ((x ≡ composed_at 7 5) ⊎ In x waiting.stored)))
pop_todo-insert_example =
    pop_todo-insert waiting (composed_at 7 5) [] waiting-IsConsistent waiting-todo

conclusion_key-injective_example : composed_at 7 5 ≡ composed_at 7 5
conclusion_key-injective_example = conclusion_key-injective (composed_at 7 5) (composed_at 7 5) refl

-- `B` on the way to that context again.
insert_lem_example :
    (conclusion_destination (composed_at 7 3) ≡ below_both.root)
      × ((t : ContextState) × (b : Bool) × (insert_conclusion (composed_at 7 3) below_both
            ≡ ok (t, b))
          × Inserts below_both (composed_at 7 3) t b)
    ⊎ (conclusion_destination (composed_at 7 3) ≢ below_both.root)
      × (insert_conclusion (composed_at 7 3) below_both ≡ err value_error)
insert_lem_example = insert_lem below_both (composed_at 7 3) below_both-IsConsistent below_both-todo

freeze-IsConsistent_example :
    (In (composed_at 7 3) (freeze waiting).conclusions ↔ Shown (freeze waiting) (composed_at 7 3))
    × (In (composed_at 7 3) (freeze waiting).todo ↔ In (composed_at 7 3) waiting.todo)
    × (In (composed_at 7 3) (freeze waiting).todo
        → ¬ In (composed_at 7 3) (freeze waiting).conclusions)
freeze-IsConsistent_example =
    freeze-IsConsistent waiting (composed_at 7 3) waiting-IsConsistent waiting-root

-- A subcontext whose property the view does not know: its dispatch raises.
abbrev unknown : ContextState
unknown = (insert_owned (subcontext_at 7 0) below_both).0

abbrev engine : Engine
engine = record new_engine { contexts = (7, unknown) ∷ []; retry = (7, []) ∷ [] }

abbrev raised : Engine
raised = record engine { retry = (7, subcontext_at 7 0 ∷ []) ∷ [] }

engine_raises : dispatch_premise dispatcher 7 (subcontext_at 7 0) engine ≡ (err value_error, raised)
unfolding dispatch_premise dispatch dispatch_family contains new_context insert_owned file add has
    discard conclusion_destination conclusion_key lookup insert on_subcontext_initialization
engine_raises = refl

dispatch_premise-next_premise_example :
    (has_local_work dispatcher 7 raised ≡ true)
    × ((rest : List Conclusion) × (next_premise dispatcher 7 raised
          ≡ (ok (subcontext_at 7 0, false), record raised { retry = insert 7 rest raised.retry })))
dispatch_premise-next_premise_example =
    dispatch_premise-next_premise dispatcher 7 (subcontext_at 7 0) value_error engine raised
      engine_raises
