-- ===== src/Rules/SoundComposition.antt =====
-- Soundness of the handler of a composed subsumer in src/pyelk/reasoning/rules.py: what it
-- produces, one rule concludes from stored conclusions.
use py_elk.Prelude.{
  ℕ, ◌≡◌, refl, sym, subst, inl, inr, List, true, In, has, has_iff, rows, nat_ordered, arith, ok,
  Result, Yields, Yields-&, Yields-bind, Yields-for_each, for_each, ◌&◌,
}
use py_elk.Conclusion.{
  Conclusion, SubClassInclusionComposed, composed, decomposed_at, composed_at, subcontext_at,
  propagation_at, disjoint_at, inconsistent_at, conclusion_destination,
}
use py_elk.Context.{ContextState}
use py_elk.Context.Invariant.{IsConsistent}
use py_elk.Rules.Index.{RuleDispatcher}
use py_elk.Rules.Lookups.{IsIndexed}
use py_elk.Rules.Calculus
use py_elk.Rules.SoundInitialization.{Concludes, stored_composed}
use py_elk.Rules.Composition.{
  expand_subclass, compose_defined, expand_first, expand_second, join_second, join_first,
  compose_union, carry_relation, carry_existential, contradict_complement, note_disjoint,
  on_composed_subsumer,
}

module _ (d : RuleDispatcher) (ix : IsIndexed d) (s : ContextState) (h : IsConsistent s)
    (p : SubClassInclusionComposed) (x : Conclusion) (m : In (composed p) s.stored)
    (own : p.destination ≡ s.root) where
  here : In (composed_at s.root p.subsumer) s.stored
  here = subst (λ r. In (composed_at r p.subsumer) s.stored) own m

  expand_subclass_sound :
      (super : ℕ)
      → In super (rows p.subsumer d.subclasses)
      → Yields x (expand_subclass d s p super)
      → Concludes d s x
  unfolding expand_subclass
  expand_subclass_sound super row y =
      let e : x ≡ decomposed_at p.destination super = ground arith in
      subst (Concludes d s) (sym e) (Calculus.subclass ((ix.subclasses p.subsumer super).0 row) m)

  compose_defined_sound :
      (first : ℕ)
      → In first (rows p.subsumer d.equivalences.classes_by_definition)
      → Yields x (compose_defined d s p first)
      → Concludes d s x
  unfolding compose_defined
  compose_defined_sound first row y =
      let e : x ≡ composed_at p.destination first = ground arith in
      let (r, told, found, class) = (ix.defined first p.subsumer).0 row in
      subst (Concludes d s) (sym e) (Calculus.defined_class told found class m)

  expand_first_sound :
      (first : ℕ)
      → In first (rows p.subsumer d.equivalences.equivalent_first)
      → Yields x (expand_first d s p first)
      → Concludes d s x
  unfolding expand_first
  expand_first_sound first row y =
      let e : x ≡ decomposed_at p.destination first = ground arith in
      let (r, told, found, class) = (ix.firsts first p.subsumer).0 row in
      subst (Concludes d s) (sym e) (Calculus.equivalent_first told found class m)

  expand_second_sound :
      (second : ℕ)
      → In second (rows p.subsumer d.equivalences.equivalent_second)
      → Yields x (expand_second d s p second)
      → Concludes d s x
  unfolding expand_second
  expand_second_sound second row y =
      let e : x ≡ decomposed_at p.destination second = ground arith in
      let (r, told, found, class) = (ix.seconds p.subsumer second).0 row in
      subst (Concludes d s) (sym e) (Calculus.equivalent_second told found class m)

  join_second_sound :
      (row : ℕ × ℕ)
      → In row (rows p.subsumer d.indexes.intersections_by_first)
      → Yields x (join_second d s p row)
      → Concludes d s x
  unfolding join_second
  join_second_sound (b, e) row y =
      let (rest, why) = (ix.by_first p.subsumer b e).0 row in
      let (o, expression, negative) = why in
      let cases : (x ≡ composed_at p.destination e) × (has b s.composed_subsumers ≡ true) =
        ground arith in
      subst (Concludes d s) (sym cases.0) (
        Calculus.intersection expression negative m (
          subst (λ r. In (composed_at r b) s.stored) (sym own)
            (stored_composed d ix s h b ((has_iff b s.composed_subsumers).0 cases.1))))

  join_first_sound :
      (row : ℕ × ℕ)
      → In row (rows p.subsumer d.indexes.intersections_by_second)
      → Yields x (join_first d s p row)
      → Concludes d s x
  unfolding join_first
  join_first_sound (a, e) row y =
      let (rest, why) = (ix.by_second a p.subsumer e).0 row in
      let (o, expression, negative) = why in
      let cases : (x ≡ composed_at s.root e) × (has a s.composed_subsumers ≡ true) = ground arith in
      subst (Concludes d s) (sym cases.0) (
        Calculus.intersection expression negative
          (stored_composed d ix s h a ((has_iff a s.composed_subsumers).0 cases.1)) here)

  compose_union_sound :
      (row : ℕ × ℕ)
      → In row (rows p.subsumer d.indexes.unions_by_disjunct)
      → Yields x (compose_union d s p row)
      → Concludes d s x
  unfolding compose_union
  compose_union_sound (e, i) row y =
      let (args, why, at) = (ix.by_disjunct p.subsumer e i).0 row in
      let (o, expression, negative) = why in
      let e' : x ≡ composed_at p.destination e = ground arith in
      subst (Concludes d s) (sym e') (Calculus.disjunct i expression negative at m)

  carry_relation_sound :
      (e q chain : ℕ) (subs : List ℕ) (relation : ℕ)
      → In (e, q) (rows p.subsumer d.indexes.existentials_by_filler)
      → d.properties.singleton_chain q ≡ ok chain
      → d.properties.sub_properties chain ≡ ok subs
      → In relation s.initialized_subcontexts
      → Yields x (carry_relation d s p e chain subs relation)
      → Concludes d s x
  unfolding carry_relation
  carry_relation_sound e q chain subs relation row single found r y =
      let (rest, why) = (ix.by_filler p.subsumer e q).0 row in
      let (o, expression, negative) = why in
      let cases : (x ≡ propagation_at s.root relation e) × (has relation subs ≡ true) =
        ground arith in
      subst (Concludes d s) (sym cases.0) (
        Calculus.propagate expression negative single found ((has_iff relation subs).0 cases.1)
          ((h.filed (subcontext_at s.root relation) (unfold conclusion_destination in refl)).1 r)
          here)

  carry_existential_sound :
      (row : ℕ × ℕ)
      → In row (rows p.subsumer d.indexes.existentials_by_filler)
      → Yields x (carry_existential d s p row)
      → Concludes d s x
  unfolding carry_existential
  carry_existential_sound (e, q) row y =
      let (chain, single, y') = Yields-bind x (d.properties.singleton_chain q) _ y in
      let (subs, found, y'') = Yields-bind x (d.properties.sub_properties chain) _ y' in
      let (relation, r, z) =
        Yields-for_each x s.initialized_subcontexts (carry_relation d s p e chain subs) y'' in
      carry_relation_sound e q chain subs relation row single found r z

  contradict_complement_sound :
      (e : ℕ)
      → In e (rows p.subsumer d.indexes.complements_by_negated)
      → Yields x (contradict_complement d s p e)
      → Concludes d s x
  unfolding contradict_complement
  contradict_complement_sound e row y =
      let (rest, why) = (ix.by_negated p.subsumer e).0 row in
      let (o, expression, positive) = why in
      let cases : (x ≡ inconsistent_at s.root) × (has e s.decomposed_subsumers ≡ true) =
        ground arith in
      subst (Concludes d s) (sym cases.0) (
        Calculus.complement expression positive here (
          (h.filed (decomposed_at s.root e) (unfold conclusion_destination in refl)).1
            ((has_iff e s.decomposed_subsumers).0 cases.1)))

  note_disjoint_sound :
      (row : ℕ × ℕ)
      → In row (rows p.subsumer d.disjoint_by_member)
      → Yields x (note_disjoint d s p row)
      → Concludes d s x
  unfolding note_disjoint
  note_disjoint_sound (g, i) row y =
      let (members, group, at) = (ix.by_member p.subsumer g i).0 row in
      let e : x ≡ disjoint_at p.destination g i = ground arith in
      subst (Concludes d s) (sym e) (Calculus.disjoint_member group at m)

  -- A sound loop, and a sound loop before more.
  swept :
      {A : Type 0} (items : List A) (body : A → Result (List Conclusion))
      → ((a : A) → In a items → Yields x (body a) → Concludes d s x)
      → Yields x (for_each items body)
      → Concludes d s x
  swept items body sound y = let (a, i, z) = Yields-for_each x items body y in sound a i z

  chained :
      (first rest : Result (List Conclusion))
      → (Yields x first → Concludes d s x)
      → (Yields x rest → Concludes d s x)
      → Yields x (first & rest)
      → Concludes d s x
  chained first rest f g y = elim (Yields-& x first rest y) [ inl z ↦ f z | inr z ↦ g z ]

  pub on_composed_subsumer_sound : Yields x (on_composed_subsumer d s p) → Concludes d s x
  unfolding on_composed_subsumer
  on_composed_subsumer_sound = chained _ _ (swept _ _ expand_subclass_sound) (
      chained _ _ (swept _ _ compose_defined_sound) (
        chained _ _ (swept _ _ expand_first_sound) (
          chained _ _ (swept _ _ expand_second_sound) (
            chained _ _ (swept _ _ join_second_sound) (
              chained _ _ (swept _ _ join_first_sound) (
                chained _ _ (swept _ _ compose_union_sound) (
                  chained _ _ (swept _ _ carry_existential_sound) (
                    chained _ _ (swept _ _ contradict_complement_sound)
                      (swept _ _ note_disjoint_sound)))))))))
