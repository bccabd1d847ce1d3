-- ===== src/Rules/Complete.antt =====
-- The dispatcher of src/pyelk/reasoning/rules.py misses no inference: what the calculus concludes from
-- conclusions that were dispatched before and a new premise is produced, or followed before.
use py_elk.Prelude.{
  ◌≡◌, refl, sym, ap, subst, ◌∙◌, ◌⊎◌, inl, inr, List, some, In, get_elem?, ok, Gives,
}
use py_elk.Ir.{ExpressionRecord}
use py_elk.Conclusion.{Conclusion, conclusion_destination}
use py_elk.Context.{ContextState}
use py_elk.Context.Invariant.{IsConsistent}
use py_elk.Rules.Index.{RuleDispatcher}
use py_elk.Rules.Lookups.{IsIndexed, IsSymmetric}
use py_elk.Rules.LinkHandlers.{dispatch_family}
use py_elk.Rules.Calculus.{
  Infers, tautology, owl_thing, subclass, compose, definition, defined_class, equivalent_first,
  equivalent_second, first_conjunct, second_conjunct, intersection, disjunct, some_values_backward,
  some_values_forward, has_self_backward, has_self_forward, has_self_range, complement, owl_nothing,
  disjoint_member, disjoint, subcontext, range, propagate, some_values, inconsistent_source,
  reverse, compose_forward, compose_backward,
}
use py_elk.Rules.GivesComposed
use py_elk.Rules.GivesDecomposed
use py_elk.Rules.GivesLinks
use py_elk.Rules.GivesOthers

-- What `owl:Nothing` names is an expression.
abbrev pub IsNamed : RuleDispatcher → Type 0
IsNamed d = (r : ExpressionRecord) × (get_elem? d.compiled.expressions d.owl_nothing ≡ some r)

module _ (d : RuleDispatcher) (ix : IsIndexed d) (sy : IsSymmetric d.properties) (named : IsNamed d)
    (s : ContextState) (h : IsConsistent s) (D : Conclusion → Type 0)
    (stored : (y : Conclusion) → D y → conclusion_destination y ≡ s.root → In y s.stored)
    (premise : Conclusion) (here : In premise s.stored) (out : List Conclusion)
    (returned : dispatch_family d s premise ≡ ok out) where
  abbrev pub Before : Conclusion → Type 0
  Before y = Infers d.compiled d.properties d.owl_thing d.owl_nothing D y

  -- The premises of a rule now.
  abbrev pub Now : Conclusion → Type 0
  Now y = D y ⊎ (y ≡ premise)

  stored-Now : (y : Conclusion) → Now y → conclusion_destination y ≡ s.root → In y s.stored
  stored-Now y (inl q) own = stored y q own
  stored-Now y (inr e) own = subst (λ z. In z s.stored) (sym e) here

  owned_now : (y : Conclusion) → y ≡ premise → conclusion_destination y ≡ s.root
  owned_now y e = ap conclusion_destination e ∙ h.owned premise here

  given : (y x : Conclusion) → y ≡ premise → Gives x (dispatch_family d s y) → In x out
  given y x e g = subst (Gives x) returned (subst (λ z. Gives x (dispatch_family d s z)) e g)

  one :
      (y x : Conclusion)
      → Now y
      → (conclusion_destination y ≡ s.root → Gives x (dispatch_family d s y))
      → (D y → Before x)
      → Before x ⊎ In x out
  one y x (inl q) g old = inl (old q)
  one y x (inr e) g old = inr (given y x e (g (owned_now y e)))

  two :
      (y z x : Conclusion)
      → conclusion_destination y ≡ conclusion_destination z
      → Now y
      → Now z
      → (conclusion_destination y ≡ s.root → In z s.stored → Gives x (dispatch_family d s y))
      → (conclusion_destination z ≡ s.root → In y s.stored → Gives x (dispatch_family d s z))
      → (D y → D z → Before x)
      → Before x ⊎ In x out
  two y z x together (inl p) (inl q) f g old = inl (old p q)
  two y z x together (inr e) q f g old =
      let own = owned_now y e in inr (given y x e (f own (stored-Now z q (sym together ∙ own))))
  two y z x together p (inr e) f g old =
      let own = owned_now z e in inr (given z x e (g own (stored-Now y p (together ∙ own))))

  pub complete :
      {x : Conclusion}
      → Infers d.compiled d.properties d.owl_thing d.owl_nothing Now x
      → Before x ⊎ In x out
  unfolding dispatch_family conclusion_destination
  complete (tautology p) = one _ _ p (λ own. GivesOthers.tautology-Gives d ix _) (λ q. tautology q)
  complete (owl_thing {o} f n p) =
      one _ _ p (λ own. GivesOthers.owl_thing-Gives d ix _ o f n) (λ q. owl_thing f n q)
  complete (subclass m p) =
      one _ _ p (λ own. GivesComposed.subclass-Gives d ix s h _ own _ _ m) (λ q. subclass m q)
  complete (compose p) =
      one _ _ p (λ own. GivesDecomposed.compose-Gives d ix s h _ own _) (λ q. compose q)
  complete (definition {r} m f t p) =
      one _ _ p (λ own. GivesDecomposed.definition-Gives d ix s h _ own _ _ (r, m, f, t))
        (λ q. definition m f t q)
  complete (defined_class {r} m f t p) =
      one _ _ p (λ own. GivesComposed.defined_class-Gives d ix s h _ own _ _ (r, m, f, t))
        (λ q. defined_class m f t q)
  complete (equivalent_first {r} m f t p) =
      one _ _ p (λ own. GivesComposed.equivalent_first-Gives d ix s h _ own _ _ (r, m, f, t))
        (λ q. equivalent_first m f t q)
  complete (equivalent_second {r} m f t p) =
      one _ _ p (λ own. GivesComposed.equivalent_second-Gives d ix s h _ own _ _ (r, m, f, t))
        (λ q. equivalent_second m f t q)
  complete (first_conjunct {rest} {o} e n p) =
      one _ _ p (λ own. GivesDecomposed.first_conjunct-Gives d ix s h _ own _ o n _ _ rest e)
        (λ q. first_conjunct e n q)
  complete (second_conjunct {rest} {o} e n p) =
      one _ _ p (λ own. GivesDecomposed.second_conjunct-Gives d ix s h _ own _ o n _ _ rest e)
        (λ q. second_conjunct e n q)
  complete (intersection {rest} {o} e n p q) =
      two _ _ _ refl p q
        (λ own m. GivesComposed.first_operand-Gives d ix s h _ own _ _ _ rest (o, e, n) m)
        (λ own m. GivesComposed.second_operand-Gives d ix s h _ own _ _ _ rest (o, e, n) m)
        (λ a b. intersection e n a b)
  complete (disjunct i {args} {o} e n f p) =
      one _ _ p (λ own. GivesComposed.disjunct-Gives d ix s h _ own _ _ i args (o, e, n) f)
        (λ q. disjunct i e n f q)
  complete (some_values_backward {rest} {o} e n p) =
      one _ _ p (λ own. GivesDecomposed.some_values_backward-Gives d ix s h _ own _ o n _ _ rest e)
        (λ q. some_values_backward e n q)
  complete (some_values_forward {chain} {rest} {o} e n c x p) =
      one _ _ p
        (λ own. GivesDecomposed.some_values_forward-Gives d ix s h _ own _ o n _ _ chain rest e c x)
        (λ q. some_values_forward e n c x q)
  complete (has_self_backward {rest} {o} e n p) =
      one _ _ p (λ own. GivesDecomposed.has_self_backward-Gives d ix s h _ own _ o n _ rest e)
        (λ q. has_self_backward e n q)
  complete (has_self_forward {chain} {rest} {o} e n c x p) =
      one _ _ p
        (λ own. GivesDecomposed.has_self_forward-Gives d ix s h _ own _ o n _ chain rest e c x)
        (λ q. has_self_forward e n c x q)
  complete (has_self_range {rest} {o} e n m p) =
      one _ _ p (λ own. GivesDecomposed.has_self_range-Gives d ix s h _ own _ o n _ _ rest e m)
        (λ q. has_self_range e n m q)
  complete (complement {rest} {o} e n p q) =
      two _ _ _ refl p q (λ own m. GivesComposed.negated-Gives d ix s h _ own _ _ rest (o, e, n) m)
        (λ own m. GivesDecomposed.complement-Gives d ix s h _ own _ o n _ rest e m)
        (λ a b. complement e n a b)
  complete (owl_nothing {o} f n p) =
      one _ _ p (λ own. GivesDecomposed.owl_nothing-Gives d ix s h _ own named.0 o named.1 f n)
        (λ q. owl_nothing f n q)
  complete (disjoint_member {members} f t p) =
      one _ _ p (λ own. GivesComposed.disjoint_member-Gives d ix s h _ own _ _ _ members f t)
        (λ q. disjoint_member f t q)
  complete (disjoint i j apart p q) =
      two _ _ _ refl p q (λ own m. GivesOthers.disjoint-Gives _ s h own _ i j apart m)
        (λ own m. GivesOthers.disjoint-Gives _ s h own _ j i (λ e. apart (sym e)) m)
        (λ a b. disjoint i j apart a b)
  complete (subcontext p) =
      one _ _ p (λ own. GivesLinks.subcontext-Gives d ix sy s h _ own _ _) (λ q. subcontext q)
  complete (range m p) =
      one _ _ p (λ own. GivesLinks.range-Gives d ix sy s h _ own _ _ _ m) (λ q. range m q)
  complete (propagate {chain} {rest} {subs} {o} e n c f m p q) =
      two _ _ _ refl p q
        (λ own k.
          GivesOthers.initialized_filler-Gives d ix _ s h own _ _ _ chain _ rest subs (o, e, n) c f
            m k)
        (λ own k.
          GivesComposed.filler-Gives d ix s h _ own _ _ _ chain _ rest subs (o, e, n) c f m k)
        (λ a b. propagate e n c f m a b)
  complete (some_values p q) =
      two _ _ _ refl p q (λ own m. GivesLinks.carried-Gives d ix sy s h _ own _ _ _ m)
        (λ own m. GivesOthers.carried_back-Gives _ s h own _ _ _ m) (λ a b. some_values a b)
  complete (inconsistent_source p q) =
      two _ _ _ refl p q (λ own m. GivesLinks.inconsistent_target-Gives d ix sy s h _ own _ _ m)
        (λ own m. GivesOthers.inconsistent_source-Gives _ s h own _ _ m)
        (λ a b. inconsistent_source a b)
  complete (reverse {r} {suffix} f l t p) =
      one _ _ p (λ own. GivesLinks.reverse-Gives d ix sy s h _ own _ _ _ suffix r f l t)
        (λ q. reverse f l t q)
  complete (compose_forward c x p q) =
      two _ _ _ refl p q
        (λ own m. GivesLinks.backward_extended-Gives d ix sy s h _ own _ _ _ _ _ c x m)
        (λ own m. GivesLinks.forward_extended-Gives d ix sy s h _ own _ _ _ _ _ c x m)
        (λ a b. compose_forward c x a b)
  complete (compose_backward c x y t p q) =
      two _ _ _ refl p q
        (λ own m. GivesLinks.backward_ended-Gives d ix sy s h _ own _ _ _ _ _ _ c x y t m)
        (λ own m. GivesLinks.forward_ended-Gives d ix sy s h _ own _ _ _ _ _ _ c x y t m)
        (λ a b. compose_backward c x y t a b)
