-- ===== src/Rules/SoundLinks.antt =====
-- Soundness of the handlers for links, propagations, disjoint positions and contradictions in
-- src/pyelk/reasoning/rules.py.
use py_elk.Prelude.{
  ℕ, ◌≡◌, ◌≢◌, refl, sym, subst, ◌⊎◌, inl, inr, List, [], ◌∷◌, Bool, true, false, Option, none,
  some, In, rows, items, In-items, get_elem?, nat_ordered, arith, Option-cases, ok, or_raise,
  or_raise-eq-ok, index_error, assertion_error, Yields, Yields-&, Yields-bind, Yields-for_each,
  for_each, ◌>>=◌, >>=-eq-ok, ok-injective, if◌then◌else◌, Dict,
}
use py_elk.Conclusion.{
  Conclusion, ForwardLink, BackwardLink, forward_link, backward_link, forward_at, backward_at,
  conclusion_destination,
}
use py_elk.Context.{ContextState}
use py_elk.Context.Invariant.{IsConsistent}
use py_elk.PropertyView.{PropertyChainRecord, is_singleton}
use py_elk.Rules.Index.{RuleDispatcher}
use py_elk.Rules.Lookups.{IsIndexed, IsSymmetric}
use py_elk.Rules.Calculus
use py_elk.Rules.Calculus.{Composes, Extends, NotExtends}
use py_elk.Rules.SoundInitialization.{Concludes}
use py_elk.Rules.Decomposition.{is_nonempty}
use py_elk.Rules.LinkHandlers.{
  chain_is_extendable, expand_told, conclude_composition, produce_link_composition, reverse_told,
  compose_source, compose_relation, on_forward_link,
}

-- A row of a dictionary of sets stands under its key.
lookup_of_rows :
    {A : Type 0} (o : Option (List A)) (a : A)
    → In a (elim o [ none ↦ [] | some l ↦ l ])
    → (l : List A) × (o ≡ some l) × In a l
lookup_of_rows none a m = absurd m
lookup_of_rows (some l) a m = (l, refl, m)

abbrev pub Extendability : RuleDispatcher → ℕ → Bool → Type 0
Extendability d chain true =
    Extends d.properties chain false
    ⊎ NotExtends d.properties chain false × Extends d.properties chain true
Extendability d chain false =
    NotExtends d.properties chain false × NotExtends d.properties chain true

nonempty_cases :
    {A : Type 0} (l : List A)
    → (l ≡ []) × (is_nonempty l ≡ false) ⊎ (l ≢ []) × (is_nonempty l ≡ true)
nonempty_cases [] = inl (refl, refl)
nonempty_cases (a ∷ l) = inr (λ e. cc, refl)

-- The two composition indices decide whether a chain is extended further.
pub chain_is_extendable_lem :
    (d : RuleDispatcher) (chain : ℕ) (b : Bool)
    → chain_is_extendable d chain ≡ ok b
    → Extendability d chain b
unfolding chain_is_extendable
chain_is_extendable_lem d chain b h =
    let (plain, found, k) = >>=-eq-ok (d.properties.compositions_by_left chain false) _ h in
    elim (nonempty_cases plain) [
      | inr (more, test) ↦
          subst (Extendability d chain) (ok-injective (rw test at k)) (inl (plain, found, more))
      | inl (empty, test) ↦
          let none_plain : NotExtends d.properties chain false =
            subst (λ l. d.properties.compositions_by_left chain false ≡ ok l) empty found in
          let (others, found', e) =
            >>=-eq-ok (d.properties.compositions_by_left chain true) (λ l. ok (is_nonempty l))
              (rw test at k) in
          elim (nonempty_cases others) [
            | inr (more, test') ↦
                subst (Extendability d chain) (ok-injective (rw test' at e))
                  (inr (none_plain, (others, found', more)))
            | inl (empty', test') ↦ subst (Extendability d chain) (ok-injective (rw test' at e)) (
              none_plain,
              subst (λ l. d.properties.compositions_by_left chain true ≡ ok l) empty' found',
            )
          ]
    ]

module _ (d : RuleDispatcher) (ix : IsIndexed d) (s : ContextState) (h : IsConsistent s)
    (x : Conclusion) where
  expand_told_sound :
      (b : BackwardLink) (f : ForwardLink) (result backward_chain first suffix super : ℕ)
      → In (backward_link b) s.stored
      → In (forward_link f) s.stored
      → b.destination ≡ f.destination
      → Composes d.properties b.relation f.chain result
      → Extendability d result false
      → In super (rows result d.told_super_properties)
      → Yields x (expand_told d b f result backward_chain first suffix super)
      → Concludes d s x
  unfolding expand_told
  expand_told_sound b f result backward_chain first suffix super mb mf own composes ends row y =
      let (chain, single, y') = Yields-bind x (d.properties.singleton_chain super) _ y in
      let e : x ≡ backward_at f.target super b.source = ground arith in
      subst (Concludes d s) (sym e) (
        Calculus.compose_backward composes ends.0 ends.1 ((ix.told result super).0 row) mb
          (subst (λ r. In (forward_at r f.chain f.target) s.stored) (sym own) mf))

  conclude_composition_sound :
      (b : BackwardLink) (f : ForwardLink) (result backward_chain first suffix : ℕ)
      (extendable : Bool)
      → In (backward_link b) s.stored
      → In (forward_link f) s.stored
      → b.destination ≡ f.destination
      → Composes d.properties b.relation f.chain result
      → Extendability d result extendable
      → Yields x (conclude_composition d b f result backward_chain first suffix extendable)
      → Concludes d s x
  unfolding conclude_composition
  conclude_composition_sound b f result backward_chain first suffix true mb mf own composes extends
        y =
      let e : x ≡ forward_at b.source result f.target = ground arith in
      subst (Concludes d s) (sym e) (
        Calculus.compose_forward composes extends mb
          (subst (λ r. In (forward_at r f.chain f.target) s.stored) (sym own) mf))
  conclude_composition_sound b f result backward_chain first suffix false mb mf own composes ends
        y =
      let (super, row, z) =
        Yields-for_each x (rows result d.told_super_properties)
          (expand_told d b f result backward_chain first suffix) y in
      expand_told_sound b f result backward_chain first suffix super mb mf own composes ends row z

  pub produce_link_composition_sound :
      (b : BackwardLink) (f : ForwardLink) (result : ℕ)
      → In (backward_link b) s.stored
      → In (forward_link f) s.stored
      → b.destination ≡ f.destination
      → Composes d.properties b.relation f.chain result
      → Yields x (produce_link_composition d b f result)
      → Concludes d s x
  unfolding produce_link_composition
  produce_link_composition_sound b f result mb mf own composes y =
      let (r, found, y1) =
        Yields-bind x (or_raise index_error (get_elem? d.properties.chains result)) _ y in
      let (suffix, complex, y2) = Yields-bind x (or_raise assertion_error r.suffix_chain) _ y1 in
      let (backward_chain, single, y3) =
        Yields-bind x (d.properties.singleton_chain b.relation) _ y2 in
      let (first, single', y4) =
        Yields-bind x (d.properties.singleton_chain r.first_property) _ y3 in
      let (extendable, test, y5) = Yields-bind x (chain_is_extendable d result) _ y4 in
      conclude_composition_sound b f result backward_chain first suffix extendable mb mf own
        composes (chain_is_extendable_lem d result extendable test) y5

  reverse_told_sound :
      (p : ForwardLink) (r : PropertyChainRecord) (suffix super : ℕ)
      → In (forward_link p) s.stored
      → get_elem? d.properties.chains p.chain ≡ some r
      → r.suffix_chain ≡ some suffix
      → In super (rows p.chain d.told_super_properties)
      → Yields x (reverse_told d p super)
      → Concludes d s x
  unfolding reverse_told
  reverse_told_sound p r suffix super m found complex row y =
      let (chain, single, y') = Yields-bind x (d.properties.singleton_chain super) _ y in
      let e : x ≡ backward_at p.target super p.destination = ground arith in
      subst (Concludes d s) (sym e)
        (Calculus.reverse found complex ((ix.told p.chain super).0 row) m)

  pub stored_backward :
      (r a : ℕ) → In a (rows r s.backward_links) → In (backward_at s.root r a) s.stored
  stored_backward r a m =
      (h.filed (backward_at s.root r a) (unfold conclusion_destination in refl)).1 m

  pub stored_forward :
      (c t : ℕ) → In t (rows c s.forward_links) → In (forward_at s.root c t) s.stored
  stored_forward c t m =
      (h.filed (forward_at s.root c t) (unfold conclusion_destination in refl)).1 m

  module _ (sym' : IsSymmetric d.properties) where
    compose_relation_sound :
        (p : ForwardLink) (left : Dict (List ℕ)) (row : ℕ × List ℕ)
        → In (forward_link p) s.stored
        → p.destination ≡ s.root
        → d.properties.compositions_by_left p.chain false ≡ ok left
        → In row (items left)
        → Yields x (compose_relation d s p row)
        → Concludes d s x
    unfolding compose_relation compose_source
    compose_relation_sound p left (relation, results) m own found row y =
        let (source, b, y') =
          Yields-for_each x (rows relation s.backward_links) (compose_source d s p relation results)
            y in
        let link : BackwardLink = record {
          destination = s.root;
          relation = relation;
          source = source;
        } in
        let (result, r, z) = Yields-for_each x results (produce_link_composition d link p) y' in
        produce_link_composition_sound link p result (stored_backward relation source b) m (sym own)
          (
            results,
            sym'.left_right relation p.chain left results found
                ((In-items left relation results).0 row),
            r,
          )
          z

    reversed_sound :
        (p : ForwardLink) (r : PropertyChainRecord)
        → In (forward_link p) s.stored
        → get_elem? d.properties.chains p.chain ≡ some r
        → Yields x (
            if is_singleton r
            then ok []
            else for_each (rows p.chain d.told_super_properties) (reverse_told d p))
        → Concludes d s x
    reversed_sound p r m found y = elim (Option-cases r.suffix_chain) [
      | inl none' ↦ absurd (unfold is_singleton in rw (none', is_singleton) at y)
      | inr (suffix, complex) ↦
          let y' : Yields x (for_each (rows p.chain d.told_super_properties) (reverse_told d p)) =
            unfold is_singleton in rw (complex, is_singleton) at y in
          let (super, row, z) =
            Yields-for_each x (rows p.chain d.told_super_properties) (reverse_told d p) y' in
          reverse_told_sound p r suffix super m found complex row z
    ]

    pub on_forward_link_sound :
        (p : ForwardLink)
        → In (forward_link p) s.stored
        → p.destination ≡ s.root
        → Yields x (on_forward_link d s p)
        → Concludes d s x
    unfolding on_forward_link
    on_forward_link_sound p m own y =
        let (r, found, y') =
          Yields-bind x (or_raise index_error (get_elem? d.properties.chains p.chain)) _ y in
        elim (Yields-& x _
          (d.properties.compositions_by_left p.chain false
            >>= (λ l. for_each (items l) (compose_relation d s p)))
          y') [
            | inl z ↦ reversed_sound p r m (or_raise-eq-ok index_error _ found) z
            | inr z ↦
                let (left, found', z') =
                  Yields-bind x (d.properties.compositions_by_left p.chain false) _ z in
                let (row, i, z'') = Yields-for_each x (items left) (compose_relation d s p) z' in
                compose_relation_sound p left row m own found' i z''
          ]
