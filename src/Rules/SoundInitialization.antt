-- ===== src/Rules/SoundInitialization.antt =====
-- Soundness of the handlers of src/pyelk/reasoning/rules.py: what the handler of an initialization
-- produces, one rule concludes from stored conclusions.
use py_elk.Prelude.{
  ℕ, ◌≡◌, refl, sym, subst, ◌⊎◌, inl, inr, true, In, has, has_iff, rows, nat_ordered, arith, Yields,
  Yields-bind, Yields-for_each,
}
use py_elk.Conclusion.{
  Conclusion, ContextInitialization, SubContextInitialization, context_initialization,
  subcontext_initialization, decomposed_at, composed_at, propagation_at, conclusion_destination,
}
use py_elk.Context.{ContextState}
use py_elk.Context.Invariant.{IsConsistent}
use py_elk.Rules.Index.{RuleDispatcher}
use py_elk.Rules.Lookups.{IsIndexed}
use py_elk.Rules.Calculus
use py_elk.Rules.Calculus.{Infers, Expression}
use py_elk.Rules.Decomposition.{
  on_context_initialization, carry_at, carry_filler, on_subcontext_initialization,
}

abbrev pub Concludes : RuleDispatcher → ContextState → Conclusion → Type 0
Concludes d s = Infers d.compiled d.properties d.owl_thing d.owl_nothing (λ x. In x s.stored)

module _ (d : RuleDispatcher) (ix : IsIndexed d) (s : ContextState) (h : IsConsistent s) where
  pub stored_composed : (e : ℕ) → In e s.composed_subsumers → In (composed_at s.root e) s.stored
  stored_composed e m = (h.filed (composed_at s.root e) (unfold conclusion_destination in refl)).1 m

  pub on_context_initialization_sound :
      (p : ContextInitialization) (x : Conclusion)
      → In (context_initialization p) s.stored
      → Yields x (on_context_initialization d p)
      → Concludes d s x
  unfolding on_context_initialization
  on_context_initialization_sound p x m y =
      let cases : (x ≡ decomposed_at p.root p.root)
          ⊎ (x ≡ composed_at p.root d.owl_thing) × (d.introduce_thing ≡ true) =
        ground arith in
      elim cases [
        | inl e ↦ subst (Concludes d s) (sym e) (Calculus.tautology m)
        | inr (e, t) ↦
            let (o, found, negative) = ix.thing.0 t in
            subst (Concludes d s) (sym e) (Calculus.owl_thing found negative m)
      ]

  carry_at_sound :
      (p : SubContextInitialization) (chain filler : ℕ) (row : ℕ × ℕ) (x : Conclusion)
      → In (subcontext_initialization p) s.stored
      → p.destination ≡ s.root
      → In filler s.composed_subsumers
      → In row (rows filler d.indexes.existentials_by_filler)
      → Yields x (carry_at d s p chain filler row)
      → Concludes d s x
  unfolding carry_at
  carry_at_sound p chain filler (e, q) x m own f row y =
      let (carry_chain, single, y') = Yields-bind x (d.properties.singleton_chain q) _ y in
      let (subs, found, y'') = Yields-bind x (d.properties.sub_properties carry_chain) _ y' in
      let (rest, why) = (ix.by_filler filler e q).0 row in
      let (o, expression, negative) = why in
      let cases : (x ≡ propagation_at p.destination p.sub_destination_property e)
          × (has p.sub_destination_property subs ≡ true) =
        ground arith in
      subst (Concludes d s) (sym cases.0) (
        Calculus.propagate expression negative single found
          ((has_iff p.sub_destination_property subs).0 cases.1) m
          (subst (λ r. In (composed_at r filler) s.stored) (sym own) (stored_composed filler f)))

  pub on_subcontext_initialization_sound :
      (p : SubContextInitialization) (x : Conclusion)
      → In (subcontext_initialization p) s.stored
      → p.destination ≡ s.root
      → Yields x (on_subcontext_initialization d s p)
      → Concludes d s x
  unfolding on_subcontext_initialization carry_filler
  on_subcontext_initialization_sound p x m own y =
      let (chain, single, y') =
        Yields-bind x (d.properties.singleton_chain p.sub_destination_property) _ y in
      let (filler, f, y'') = Yields-for_each x s.composed_subsumers (carry_filler d s p chain) y' in
      let (row, r, y''') =
        Yields-for_each x (rows filler d.indexes.existentials_by_filler)
          (carry_at d s p chain filler) y'' in
      carry_at_sound p chain filler row x m own f r y'''
