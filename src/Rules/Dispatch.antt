-- ===== src/Rules/Dispatch.antt =====
-- The dispatcher of src/pyelk/reasoning/rules.py against the calculus.
use py_elk.Prelude.{◌≡◌, subst, sym, List, In, ok}
use py_elk.Ir.{CompiledOntology}
use py_elk.Conclusion.{Conclusion}
use py_elk.Context.{ContextState}
use py_elk.Context.Invariant.{IsConsistent}
use py_elk.PropertyView.{PropertyView}
use py_elk.Rules.Index.{RuleDispatcher, rule_dispatcher}
use py_elk.Rules.Lookups.{IsSymmetric}
use py_elk.Rules.Calculus.{Infers}
use py_elk.Rules.Construction.{rule_dispatcher-IsIndexed}
use py_elk.Rules.SoundDispatch.{dispatch_indexed_sound}
use py_elk.Rules.LinkHandlers.{dispatch}

-- Take the dispatcher constructed for an ontology and a property view whose two composition indices
-- agree, and a context whose store is consistent. Whatever a returning dispatch of a premise
-- produces, one rule of the calculus concludes from conclusions that the context stores.
pub dispatch-Infers :
    (c : CompiledOntology) (v : PropertyView) (d : RuleDispatcher) (s : ContextState)
    (premise x : Conclusion) (out : List Conclusion)
    → rule_dispatcher c v ≡ ok d
    → IsSymmetric v
    → IsConsistent s
    → dispatch d s premise ≡ ok out
    → In x out
    → Infers c v d.owl_thing d.owl_nothing (λ y. In y s.stored) x
dispatch-Infers c v d s premise x out made sy h e m =
    let (indexed, same_c, same_v) = rule_dispatcher-IsIndexed c v d made in
    subst (λ w. Infers c w d.owl_thing d.owl_nothing (λ y. In y s.stored) x) same_v
      (subst (λ k. Infers k d.properties d.owl_thing d.owl_nothing (λ y. In y s.stored) x) same_c
        (dispatch_indexed_sound d s premise x out indexed (subst IsSymmetric (sym same_v) sy) h e
          m))
