-- ===== src/Rules/Monotone.antt =====
-- The rules of the calculus use their premises positively (src/pyelk/reasoning/rules.py).
use py_elk.Ir.{CompiledOntology}
use py_elk.PropertyView.{PropertyView}
use py_elk.Conclusion.{Conclusion}
use py_elk.Prelude.{ℕ}
use py_elk.Rules.Calculus.{
  Infers, tautology, owl_thing, subclass, compose, definition, defined_class, equivalent_first,
  equivalent_second, first_conjunct, second_conjunct, intersection, disjunct, some_values_backward,
  some_values_forward, has_self_backward, has_self_forward, has_self_range, complement, owl_nothing,
  disjoint_member, disjoint, subcontext, range, propagate, some_values, inconsistent_source,
  reverse, compose_forward, compose_backward,
}

module _ {c : CompiledOntology} {v : PropertyView} {thing nothing : ℕ} {P Q : Conclusion → Type 0}
    (f : (x : Conclusion) → P x → Q x) where
  pub Infers-mono : {x : Conclusion} → Infers c v thing nothing P x → Infers c v thing nothing Q x
  Infers-mono (tautology h1) = tautology (f _ h1)
  Infers-mono (owl_thing h1 h2 h3) = owl_thing h1 h2 (f _ h3)
  Infers-mono (subclass h1 h2) = subclass h1 (f _ h2)
  Infers-mono (compose h1) = compose (f _ h1)
  Infers-mono (definition h1 h2 h3 h4) = definition h1 h2 h3 (f _ h4)
  Infers-mono (defined_class h1 h2 h3 h4) = defined_class h1 h2 h3 (f _ h4)
  Infers-mono (equivalent_first h1 h2 h3 h4) = equivalent_first h1 h2 h3 (f _ h4)
  Infers-mono (equivalent_second h1 h2 h3 h4) = equivalent_second h1 h2 h3 (f _ h4)
  Infers-mono (first_conjunct h1 h2 h3) = first_conjunct h1 h2 (f _ h3)
  Infers-mono (second_conjunct h1 h2 h3) = second_conjunct h1 h2 (f _ h3)
  Infers-mono (intersection h1 h2 h3 h4) = intersection h1 h2 (f _ h3) (f _ h4)
  Infers-mono (disjunct i h1 h2 h3 h4) = disjunct i h1 h2 h3 (f _ h4)
  Infers-mono (some_values_backward h1 h2 h3) = some_values_backward h1 h2 (f _ h3)
  Infers-mono (some_values_forward h1 h2 h3 h4 h5) = some_values_forward h1 h2 h3 h4 (f _ h5)
  Infers-mono (has_self_backward h1 h2 h3) = has_self_backward h1 h2 (f _ h3)
  Infers-mono (has_self_forward h1 h2 h3 h4 h5) = has_self_forward h1 h2 h3 h4 (f _ h5)
  Infers-mono (has_self_range h1 h2 h3 h4) = has_self_range h1 h2 h3 (f _ h4)
  Infers-mono (complement h1 h2 h3 h4) = complement h1 h2 (f _ h3) (f _ h4)
  Infers-mono (owl_nothing h1 h2 h3) = owl_nothing h1 h2 (f _ h3)
  Infers-mono (disjoint_member h1 h2 h3) = disjoint_member h1 h2 (f _ h3)
  Infers-mono (disjoint i j h1 h2 h3) = disjoint i j h1 (f _ h2) (f _ h3)
  Infers-mono (subcontext h1) = subcontext (f _ h1)
  Infers-mono (range h1 h2) = range h1 (f _ h2)
  Infers-mono (propagate h1 h2 h3 h4 h5 h6 h7) = propagate h1 h2 h3 h4 h5 (f _ h6) (f _ h7)
  Infers-mono (some_values h1 h2) = some_values (f _ h1) (f _ h2)
  Infers-mono (inconsistent_source h1 h2) = inconsistent_source (f _ h1) (f _ h2)
  Infers-mono (reverse h1 h2 h3 h4) = reverse h1 h2 h3 (f _ h4)
  Infers-mono (compose_forward h1 h2 h3 h4) = compose_forward h1 h2 (f _ h3) (f _ h4)
  Infers-mono (compose_backward h1 h2 h3 h4 h5 h6) = compose_backward h1 h2 h3 h4 (f _ h5) (f _ h6)

-- Each rule has a premise.
module _ {c : CompiledOntology} {v : PropertyView} {thing nothing : ℕ} {P : Conclusion → Type 0}
    (none_is : (y : Conclusion) → ¬ P y) where
  pub Infers-premise : {x : Conclusion} → ¬ Infers c v thing nothing P x
  Infers-premise (tautology h1) = none_is _ h1
  Infers-premise (owl_thing _ _ h3) = none_is _ h3
  Infers-premise (subclass _ h2) = none_is _ h2
  Infers-premise (compose h1) = none_is _ h1
  Infers-premise (definition _ _ _ h4) = none_is _ h4
  Infers-premise (defined_class _ _ _ h4) = none_is _ h4
  Infers-premise (equivalent_first _ _ _ h4) = none_is _ h4
  Infers-premise (equivalent_second _ _ _ h4) = none_is _ h4
  Infers-premise (first_conjunct _ _ h3) = none_is _ h3
  Infers-premise (second_conjunct _ _ h3) = none_is _ h3
  Infers-premise (intersection _ _ _ h4) = none_is _ h4
  Infers-premise (disjunct _ _ _ _ h4) = none_is _ h4
  Infers-premise (some_values_backward _ _ h3) = none_is _ h3
  Infers-premise (some_values_forward _ _ _ _ h5) = none_is _ h5
  Infers-premise (has_self_backward _ _ h3) = none_is _ h3
  Infers-premise (has_self_forward _ _ _ _ h5) = none_is _ h5
  Infers-premise (has_self_range _ _ _ h4) = none_is _ h4
  Infers-premise (complement _ _ _ h4) = none_is _ h4
  Infers-premise (owl_nothing _ _ h3) = none_is _ h3
  Infers-premise (disjoint_member _ _ h3) = none_is _ h3
  Infers-premise (disjoint _ _ _ _ h3) = none_is _ h3
  Infers-premise (subcontext h1) = none_is _ h1
  Infers-premise (range _ h2) = none_is _ h2
  Infers-premise (propagate _ _ _ _ _ _ h7) = none_is _ h7
  Infers-premise (some_values _ h2) = none_is _ h2
  Infers-premise (inconsistent_source _ h2) = none_is _ h2
  Infers-premise (reverse _ _ _ h4) = none_is _ h4
  Infers-premise (compose_forward _ _ _ h4) = none_is _ h4
  Infers-premise (compose_backward _ _ _ _ _ h6) = none_is _ h6
