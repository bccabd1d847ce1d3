-- ===== src/Rules/Premises.antt =====
-- A rule of the calculus has one premise or two (src/pyelk/reasoning/rules.py).
use py_elk.Prelude.{ℕ, refl, sym, subst, inl, inr, List, [], ◌∷◌, In}
use py_elk.Ir.{CompiledOntology}
use py_elk.PropertyView.{PropertyView}
use py_elk.Conclusion.{Conclusion}
use py_elk.Rules.Calculus.{
  Infers, tautology, owl_thing, subclass, compose, definition, defined_class, equivalent_first,
  equivalent_second, first_conjunct, second_conjunct, intersection, disjunct, some_values_backward,
  some_values_forward, has_self_backward, has_self_forward, has_self_range, complement, owl_nothing,
  disjoint_member, disjoint, subcontext, range, propagate, some_values, inconsistent_source,
  reverse, compose_forward, compose_backward,
}

-- Listed premises with the property suffice.
abbrev pub FromList :
    CompiledOntology → PropertyView → ℕ → ℕ → (Conclusion → Type 0) → Conclusion → Type 0
FromList c v thing nothing P x =
    (premises : List Conclusion) × ((y : Conclusion) → In y premises → P y)
    × Infers c v thing nothing (λ y. In y premises) x

module _ {c : CompiledOntology} {v : PropertyView} {thing nothing : ℕ}
    {P : Conclusion → Type 0} where
  from_one :
      {x : Conclusion} (y : Conclusion)
      → P y
      → ((Q : Conclusion → Type 0) → Q y → Infers c v thing nothing Q x)
      → FromList c v thing nothing P x
  from_one y p k = (
    y ∷ [],
    λ z m. elim m [ inl q ↦ subst P (sym q) p | inr nowhere ↦ absurd nowhere ],
    k (λ z. In z (y ∷ [])) (inl refl),
  )

  from_two :
      {x : Conclusion} (y z : Conclusion)
      → P y
      → P z
      → ((Q : Conclusion → Type 0) → Q y → Q z → Infers c v thing nothing Q x)
      → FromList c v thing nothing P x
  from_two y z p q k = (
    y ∷ z ∷ [],
    λ w m. elim m [
      | inl e ↦ subst P (sym e) p
      | inr (inl e) ↦ subst P (sym e) q
      | inr (inr nowhere) ↦ absurd nowhere
    ],
    k (λ w. In w (y ∷ z ∷ [])) (inl refl) (inr (inl refl)),
  )

  pub Infers-FromList :
      {x : Conclusion} → Infers c v thing nothing P x → FromList c v thing nothing P x
  Infers-FromList (tautology h1) = from_one _ h1 (λ Q q. tautology q)
  Infers-FromList (owl_thing h1 h2 h3) = from_one _ h3 (λ Q q. owl_thing h1 h2 q)
  Infers-FromList (subclass h1 h2) = from_one _ h2 (λ Q q. subclass h1 q)
  Infers-FromList (compose h1) = from_one _ h1 (λ Q q. compose q)
  Infers-FromList (definition h1 h2 h3 h4) = from_one _ h4 (λ Q q. definition h1 h2 h3 q)
  Infers-FromList (defined_class h1 h2 h3 h4) = from_one _ h4 (λ Q q. defined_class h1 h2 h3 q)
  Infers-FromList (equivalent_first h1 h2 h3 h4) =
      from_one _ h4 (λ Q q. equivalent_first h1 h2 h3 q)
  Infers-FromList (equivalent_second h1 h2 h3 h4) =
      from_one _ h4 (λ Q q. equivalent_second h1 h2 h3 q)
  Infers-FromList (first_conjunct h1 h2 h3) = from_one _ h3 (λ Q q. first_conjunct h1 h2 q)
  Infers-FromList (second_conjunct h1 h2 h3) = from_one _ h3 (λ Q q. second_conjunct h1 h2 q)
  Infers-FromList (intersection h1 h2 h3 h4) = from_two _ _ h3 h4 (λ Q q r. intersection h1 h2 q r)
  Infers-FromList (disjunct i h1 h2 h3 h4) = from_one _ h4 (λ Q q. disjunct i h1 h2 h3 q)
  Infers-FromList (some_values_backward h1 h2 h3) =
      from_one _ h3 (λ Q q. some_values_backward h1 h2 q)
  Infers-FromList (some_values_forward h1 h2 h3 h4 h5) =
      from_one _ h5 (λ Q q. some_values_forward h1 h2 h3 h4 q)
  Infers-FromList (has_self_backward h1 h2 h3) = from_one _ h3 (λ Q q. has_self_backward h1 h2 q)
  Infers-FromList (has_self_forward h1 h2 h3 h4 h5) =
      from_one _ h5 (λ Q q. has_self_forward h1 h2 h3 h4 q)
  Infers-FromList (has_self_range h1 h2 h3 h4) = from_one _ h4 (λ Q q. has_self_range h1 h2 h3 q)
  Infers-FromList (complement h1 h2 h3 h4) = from_two _ _ h3 h4 (λ Q q r. complement h1 h2 q r)
  Infers-FromList (owl_nothing h1 h2 h3) = from_one _ h3 (λ Q q. owl_nothing h1 h2 q)
  Infers-FromList (disjoint_member h1 h2 h3) = from_one _ h3 (λ Q q. disjoint_member h1 h2 q)
  Infers-FromList (disjoint i j h1 h2 h3) = from_two _ _ h2 h3 (λ Q q r. disjoint i j h1 q r)
  Infers-FromList (subcontext h1) = from_one _ h1 (λ Q q. subcontext q)
  Infers-FromList (range h1 h2) = from_one _ h2 (λ Q q. range h1 q)
  Infers-FromList (propagate h1 h2 h3 h4 h5 h6 h7) =
      from_two _ _ h6 h7 (λ Q q r. propagate h1 h2 h3 h4 h5 q r)
  Infers-FromList (some_values h1 h2) = from_two _ _ h1 h2 (λ Q q r. some_values q r)
  Infers-FromList (inconsistent_source h1 h2) =
      from_two _ _ h1 h2 (λ Q q r. inconsistent_source q r)
  Infers-FromList (reverse h1 h2 h3 h4) = from_one _ h4 (λ Q q. reverse h1 h2 h3 q)
  Infers-FromList (compose_forward h1 h2 h3 h4) =
      from_two _ _ h3 h4 (λ Q q r. compose_forward h1 h2 q r)
  Infers-FromList (compose_backward h1 h2 h3 h4 h5 h6) =
      from_two _ _ h5 h6 (λ Q q r. compose_backward h1 h2 h3 h4 q r)
