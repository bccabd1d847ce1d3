-- ===== src/Rules/GivesLinks.antt =====
-- What the handlers of links give (src/pyelk/reasoning/rules.py, `_on_forward_link`,
-- `_on_backward_link` and `_produce_link_composition`): the conclusion of each rule that has the link
-- as a premise.
use py_elk.Prelude.{
  ℕ, ◌≡◌, refl, sym, ◌∙◌, ◌⊎◌, inl, inr, Bool, true, false, some, In, arith, get_elem?, In-items,
  Gives, Gives-bind, Gives-for_each, take, skip, or_raise, index_error, assertion_error,
  ok-injective,
}
use py_elk.Conclusion.{
  Conclusion, ForwardLink, BackwardLink, composed_at, decomposed_at, subcontext_at, forward_at,
  backward_at, propagation_at, inconsistent_at, conclusion_destination,
}
use py_elk.Context.{ContextState}
use py_elk.Context.Invariant.{IsConsistent}
use py_elk.PropertyView.{PropertyChainRecord, is_singleton}
use py_elk.Rules.Index.{RuleDispatcher}
use py_elk.Rules.Calculus.{Extends, NotExtends, Composes, Told}
use py_elk.Rules.Lookups.{IsIndexed, IsSymmetric}
use py_elk.Rules.SoundLinks.{Extendability, chain_is_extendable_lem}
use py_elk.Rules.LinkHandlers.{
  chain_is_extendable, expand_told, conclude_composition, produce_link_composition, reverse_told,
  compose_source, compose_relation, on_forward_link, carry_back, attach_range, compose_target,
  compose_right, on_backward_link,
}

not_both :
    (d : RuleDispatcher) (chain : ℕ) (redundant : Bool)
    → Extends d.properties chain redundant
    → ¬ NotExtends d.properties chain redundant
not_both d chain redundant (left, found, more) none_left =
    more (ok-injective (sym found ∙ none_left))

extendable :
    (d : RuleDispatcher) (chain : ℕ) (b : Bool)
    → Extends d.properties chain false
      ⊎ NotExtends d.properties chain false × Extends d.properties chain true
    → Extendability d chain b
    → b ≡ true
extendable d chain true extends e = refl
extendable d chain false (inl plain) e = absurd (not_both d chain false plain e.0)
extendable d chain false (inr (_, redundant)) e = absurd (not_both d chain true redundant e.1)

not_extendable :
    (d : RuleDispatcher) (chain : ℕ) (b : Bool)
    → NotExtends d.properties chain false
    → NotExtends d.properties chain true
    → Extendability d chain b
    → b ≡ false
not_extendable d chain false plain redundant e = refl
not_extendable d chain true plain redundant (inl more) = absurd (not_both d chain false more plain)
not_extendable d chain true plain redundant (inr (_, more)) =
    absurd (not_both d chain true more redundant)

module _ (d : RuleDispatcher) (ix : IsIndexed d) where
  module _ (r relation source q chain target result : ℕ) (same : r ≡ q) where
    abbrev back : BackwardLink
    back = record { destination = r; relation = relation; source = source }

    abbrev forth : ForwardLink
    forth = record { destination = q; chain = chain; target = target }

    extended-Gives :
        Extends d.properties result false
          ⊎ NotExtends d.properties result false × Extends d.properties result true
        → Gives (forward_at source result target) (produce_link_composition d back forth result)
    unfolding produce_link_composition conclude_composition
    extended-Gives extends =
        Gives-bind _ (or_raise index_error (get_elem? d.properties.chains result)) _ (λ row _.
          Gives-bind _ (or_raise assertion_error row.suffix_chain) _ (λ suffix _.
            Gives-bind _ (d.properties.singleton_chain relation) _ (λ backward_chain _.
              Gives-bind _ (d.properties.singleton_chain row.first_property) _ (λ first_chain _.
                Gives-bind _ (chain_is_extendable d result) _ (λ b e.
                  (rw (extendable d result b extends (chain_is_extendable_lem d result b e))
                    (ground arith)))))))

    ended-Gives :
        (p : ℕ)
        → NotExtends d.properties result false
        → NotExtends d.properties result true
        → Told d.compiled d.properties result p
        → Gives (backward_at target p source) (produce_link_composition d back forth result)
    unfolding produce_link_composition conclude_composition expand_told
    ended-Gives p plain redundant told =
        Gives-bind _ (or_raise index_error (get_elem? d.properties.chains result)) _ (λ row _.
          Gives-bind _ (or_raise assertion_error row.suffix_chain) _ (λ suffix _.
            Gives-bind _ (d.properties.singleton_chain relation) _ (λ backward_chain _.
              Gives-bind _ (d.properties.singleton_chain row.first_property) _ (λ first_chain _.
                Gives-bind _ (chain_is_extendable d result) _ (λ b e.
                  (rw
                    (not_extendable d result b plain redundant
                      (chain_is_extendable_lem d result b e))
                    (Gives-for_each _ _ _ p ((ix.told result p).1 told) (
                      Gives-bind _ (d.properties.singleton_chain p) _
                        (λ super_chain _. ground arith)))))))))

  module _ (sy : IsSymmetric d.properties) (s : ContextState) (h : IsConsistent s) (r : ℕ)
      (own : r ≡ s.root) where
    abbrev pub forward : ℕ → ℕ → ForwardLink
    forward chain target = record { destination = r; chain = chain; target = target }

    abbrev pub backward : ℕ → ℕ → BackwardLink
    backward relation source = record { destination = r; relation = relation; source = source }

    -- A loop over a composition that the forward link takes part in, on its left.
    forward_loop-Gives :
        (x : Conclusion) (relation source chain target result : ℕ)
        → Composes d.properties relation chain result
        → In (backward_at r relation source) s.stored
        → Gives x (
            produce_link_composition d
              (record { destination = s.root; relation = relation; source = source })
              (forward chain target)
              result)
        → Gives x (on_forward_link d s (forward chain target))
    unfolding on_forward_link compose_relation compose_source conclusion_destination
    forward_loop-Gives x relation source chain target result (results, found, member) m g =
        Gives-bind _ (or_raise index_error (get_elem? d.properties.chains chain)) _ (λ row _.
          skip _ _ _ (
            Gives-bind _ (d.properties.compositions_by_left chain false) _ (λ left e.
              Gives-for_each _ _ _ (relation, results)
                ((In-items left relation results).1
                  (sy.right_left relation chain left results e found))
                (Gives-for_each _ _ _ source ((h.filed (backward_at r relation source) own).0 m)
                  (Gives-for_each _ _ _ result member g)))))

    backward_loop-Gives :
        (x : Conclusion) (relation source chain target result : ℕ)
        → Composes d.properties relation chain result
        → In (forward_at r chain target) s.stored
        → Gives x (
            produce_link_composition d
              (backward relation source)
              (record { destination = s.root; chain = chain; target = target })
              result)
        → Gives x (on_backward_link d s (backward relation source))
    unfolding on_backward_link compose_right compose_target conclusion_destination
    backward_loop-Gives x relation source chain target result (results, found, member) m g =
        skip _ _ _ (
          skip _ _ _ (
            skip _ _ _ (
              skip _ _ _ (
                Gives-for_each _ _ _ (chain, results)
                  ((In-items (d.properties.compositions_by_right relation false) chain results).1
                    found)
                  (Gives-for_each _ _ _ target ((h.filed (forward_at r chain target) own).0 m)
                    (Gives-for_each _ _ _ result member g))))))

    pub forward_extended-Gives :
        (relation source chain target result : ℕ)
        → Composes d.properties relation chain result
        → Extends d.properties result false
          ⊎ NotExtends d.properties result false × Extends d.properties result true
        → In (backward_at r relation source) s.stored
        → Gives (forward_at source result target) (on_forward_link d s (forward chain target))
    forward_extended-Gives relation source chain target result c extends m =
        forward_loop-Gives _ relation source chain target result c m
          (extended-Gives s.root relation source r chain target result (sym own) extends)

    pub forward_ended-Gives :
        (relation source chain target result p : ℕ)
        → Composes d.properties relation chain result
        → NotExtends d.properties result false
        → NotExtends d.properties result true
        → Told d.compiled d.properties result p
        → In (backward_at r relation source) s.stored
        → Gives (backward_at target p source) (on_forward_link d s (forward chain target))
    forward_ended-Gives relation source chain target result p c plain redundant told m =
        forward_loop-Gives _ relation source chain target result c m (
          ended-Gives s.root relation source r chain target result (sym own) p plain redundant told)

    pub backward_extended-Gives :
        (relation source chain target result : ℕ)
        → Composes d.properties relation chain result
        → Extends d.properties result false
          ⊎ NotExtends d.properties result false × Extends d.properties result true
        → In (forward_at r chain target) s.stored
        → Gives (forward_at source result target) (on_backward_link d s (backward relation source))
    backward_extended-Gives relation source chain target result c extends m =
        backward_loop-Gives _ relation source chain target result c m
          (extended-Gives r relation source s.root chain target result own extends)

    pub backward_ended-Gives :
        (relation source chain target result p : ℕ)
        → Composes d.properties relation chain result
        → NotExtends d.properties result false
        → NotExtends d.properties result true
        → Told d.compiled d.properties result p
        → In (forward_at r chain target) s.stored
        → Gives (backward_at target p source) (on_backward_link d s (backward relation source))
    backward_ended-Gives relation source chain target result p c plain redundant told m =
        backward_loop-Gives _ relation source chain target result c m
          (ended-Gives r relation source s.root chain target result own p plain redundant told)

    pub reverse-Gives :
        (chain target p suffix : ℕ) (row : PropertyChainRecord)
        → get_elem? d.properties.chains chain ≡ some row
        → row.suffix_chain ≡ some suffix
        → Told d.compiled d.properties chain p
        → Gives (backward_at target p r) (on_forward_link d s (forward chain target))
    unfolding on_forward_link reverse_told is_singleton
    reverse-Gives chain target p suffix row found long told = rw found (
        rw long (
          take _ _ _ (
            Gives-for_each _ _ _ p ((ix.told chain p).1 told)
              (Gives-bind _ (d.properties.singleton_chain p) _ (λ super_chain _. ground arith)))))

    pub subcontext-Gives :
        (relation source : ℕ)
        → Gives (subcontext_at r relation) (on_backward_link d s (backward relation source))
    unfolding on_backward_link
    subcontext-Gives relation source = take _ _ _ (ground arith)

    pub carried-Gives :
        (relation source e : ℕ)
        → In (propagation_at r relation e) s.stored
        → Gives (composed_at source e) (on_backward_link d s (backward relation source))
    unfolding on_backward_link carry_back conclusion_destination
    carried-Gives relation source e m = skip _ _ _ (
        take _ _ _
          (Gives-for_each _ _ _ e ((h.filed (propagation_at r relation e) own).0 m) (ground arith)))

    pub inconsistent_target-Gives :
        (relation source : ℕ)
        → In (inconsistent_at r) s.stored
        → Gives (inconsistent_at source) (on_backward_link d s (backward relation source))
    unfolding on_backward_link conclusion_destination
    inconsistent_target-Gives relation source m =
        let flag : s.inconsistent ≡ true = (h.filed (inconsistent_at r) own).0 m in
        skip _ _ _ (skip _ _ _ (take _ _ _ (rw flag (ground arith))))

    pub range-Gives :
        (relation source x : ℕ)
        → In x (d.properties.ranges relation)
        → Gives (decomposed_at r x) (on_backward_link d s (backward relation source))
    unfolding on_backward_link attach_range
    range-Gives relation source x m =
        skip _ _ _ (skip _ _ _ (skip _ _ _ (take _ _ _ (Gives-for_each _ _ _ x m (ground arith)))))
