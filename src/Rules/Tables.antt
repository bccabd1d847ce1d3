-- ===== src/Rules/Tables.antt =====
-- The loops of `RuleDispatcher.__init__` of src/pyelk/reasoning/rules.py: when one returns, its lookup
-- holds exactly the rows of its table.
use py_elk.Prelude.{
  ℕ, ◌≡◌, refl, sym, subst, ◌<◌, ◌↔◌, ◌⊎◌, List, [], ◌∷◌, Bool, true, false, some, In, rows, lookup,
  get_elem?, enumerate, ok, ok-injective, fold_each, fold_each_iff,
}
use py_elk.Ir.{ExpressionTag, CompiledOntology}
use py_elk.PropertyView.{PropertyView}
use py_elk.Rules.Calculus.{Told}
use py_elk.Rules.Lookups.{Negative, Positive, Equivalence}
use py_elk.Rules.Index.{
  Index, EquivalenceIndexes, ExpressionIndexes, no_equivalences, no_expressions, index_subclass,
  index_equivalence, index_expression, index_group, index_told,
}
use py_elk.Rules.IndexTables.{
  In-enumerate_zero, index_subclass-step, index_told-step, definitions-step, defined-step,
  firsts-step, seconds-step, Starts, Heads, by_first-tag, by_second-tag, by_filler-tag,
  by_negated-tag, complements-tag, by_disjunct-tag, index_members-rows, Hits,
}
use py_elk.Rules.Indexed.{collected, expressions_table, Starts-Meets, Heads-Meets, disjunct-Meets}

↔-trans : {A B C : Type 0} → A ↔ B → B ↔ C → A ↔ C
↔-trans f g = (λ a. g.0 (f.0 a), λ c. f.1 (g.1 c))

-- No row stands in an empty lookup.
not-In-rows : {A : Type 0} (k : ℕ) (a : A) → ¬ In a (rows k [])
unfolding lookup
not-In-rows k a m = m

module _ (c : CompiledOntology) where
  pub subclasses_table :
      (t : Index ℕ) (sub super : ℕ)
      → fold_each index_subclass [] c.subclass_axioms ≡ ok t
      → In super (rows sub t) ↔ In (sub, super) c.subclass_axioms
  subclasses_table t sub super h =
      collected
        (fold_each_iff (λ ix. In super (rows sub ix)) (λ row. (sub, super) ≡ row) index_subclass
          (index_subclass-step sub super) c.subclass_axioms [] t h)
        (not-In-rows sub super) (λ (row, m, e). subst (λ r. In r c.subclass_axioms) (sym e) m)
        (λ m. ((sub, super), m, refl))

  module _ (t : EquivalenceIndexes) (first second : ℕ)
      (h : fold_each (index_equivalence c) no_equivalences c.equivalent_class_axioms ≡ ok t) where
    hits :
        (named : Bool)
        → ((row : ℕ × ℕ) × In row c.equivalent_class_axioms × Hits c first second named row)
        → Equivalence c named first second
    hits named (row, m, (e, (r, found, class))) =
        (r, subst (λ x. In x c.equivalent_class_axioms) (sym e) m, found, class)

    Hits-of :
        (named : Bool)
        → Equivalence c named first second
        → ((row : ℕ × ℕ) × In row c.equivalent_class_axioms × Hits c first second named row)
    Hits-of named (r, m, found, class) = ((first, second), m, (refl, (r, found, class)))

    pub definitions_table :
        In second (rows first t.definitions_by_class) ↔ Equivalence c true first second
    definitions_table =
        collected
          (fold_each_iff (λ ix. In second (rows first ix.definitions_by_class))
            (Hits c first second true) (index_equivalence c)
            (λ s x s' e. definitions-step c first second s s' x e) c.equivalent_class_axioms
            no_equivalences t h)
          (not-In-rows first second) (hits true) (Hits-of true)

    pub defined_table :
        In first (rows second t.classes_by_definition) ↔ Equivalence c true first second
    defined_table =
        collected
          (fold_each_iff (λ ix. In first (rows second ix.classes_by_definition))
            (Hits c first second true) (index_equivalence c)
            (λ s x s' e. defined-step c first second s s' x e) c.equivalent_class_axioms
            no_equivalences t h)
          (not-In-rows second first) (hits true) (Hits-of true)

    pub firsts_table : In first (rows second t.equivalent_first) ↔ Equivalence c false first second
    firsts_table =
        collected
          (fold_each_iff (λ ix. In first (rows second ix.equivalent_first))
            (Hits c first second false) (index_equivalence c)
            (λ s x s' e. firsts-step c first second s s' x e) c.equivalent_class_axioms
            no_equivalences t h)
          (not-In-rows second first) (hits false) (Hits-of false)

    pub seconds_table :
        In second (rows first t.equivalent_second) ↔ Equivalence c false first second
    seconds_table =
        collected
          (fold_each_iff (λ ix. In second (rows first ix.equivalent_second))
            (Hits c first second false) (index_equivalence c)
            (λ s x s' e. seconds-step c first second s s' x e) c.equivalent_class_axioms
            no_equivalences t h)
          (not-In-rows first second) (hits false) (Hits-of false)

  pub groups_table :
      (t : Index (ℕ × ℕ)) (a g i : ℕ)
      → fold_each index_group [] (enumerate 0 c.disjoint_groups) ≡ ok t
      → In (g, i) (rows a t) ↔ (
          (members : List ℕ) × (get_elem? c.disjoint_groups g ≡ some members)
          × (get_elem? members i ≡ some a))
  unfolding index_group
  groups_table t a g i h =
      collected
        (fold_each_iff (λ ix. In (g, i) (rows a ix))
          (λ row. (g ≡ row.0) × In (i, a) (enumerate 0 row.1)) index_group
          (λ ix row ix' e.
            subst
              (λ r.
                In (g, i) (rows a r)
                ↔ (In (g, i) (rows a ix) ⊎ (g ≡ row.0) × In (i, a) (enumerate 0 row.1)))
              (ok-injective e) (index_members-rows a g i row.0 0 row.1 ix))
          (enumerate 0 c.disjoint_groups) [] t h)
        (not-In-rows a (g, i))
        (λ (row, m, (e, at)). (
          row.1,
          subst (λ n. get_elem? c.disjoint_groups n ≡ some row.1) (sym e)
              ((In-enumerate_zero c.disjoint_groups row.0 row.1).0 m),
          (In-enumerate_zero row.1 i a).0 at,
        ))
        (λ (members, found, at). (
          (g, members),
          (In-enumerate_zero c.disjoint_groups g members).1 found,
          (refl, (In-enumerate_zero members i a).1 at),
        ))

  pub Told-table :
      (v : PropertyView) (t : Index ℕ) (chain p : ℕ)
      → fold_each (index_told v) [] c.subproperty_axioms ≡ ok t
      → In p (rows chain t) ↔ Told c v chain p
  Told-table v t chain p h =
      collected
        (fold_each_iff (λ ix. In p (rows chain ix))
          (λ row. (v.compiled_chain row.0 ≡ ok chain) × (p ≡ row.1)) (index_told v)
          (index_told-step v chain p) c.subproperty_axioms [] t h)
        (not-In-rows chain p)
        (λ (row, m, (found, e)).
          (row.0, subst (λ q. In (row.0, q) c.subproperty_axioms) (sym e) m, found))
        (λ (compiled, m, found). ((compiled, p), m, (found, refl)))

  module _ (t : ExpressionIndexes)
      (h : fold_each (index_expression c) no_expressions (enumerate 0 c.expressions) ≡ ok t) where
    pub by_first_table :
        (a b e : ℕ)
        → In (b, e) (rows a t.intersections_by_first)
          ↔ ((rest : List ℕ) × Negative c e ExpressionTag.object_intersection_of (a ∷ b ∷ rest))
    by_first_table a b e =
        ↔-trans
          (expressions_table c e ExpressionTag.object_intersection_of (Starts a b)
            (λ o. 0 < o.negative) (λ ix. In (b, e) (rows a ix.intersections_by_first))
            (λ ix ix' n o. by_first-tag ix ix' n o a b e) t h (not-In-rows a (b, e)))
          (Starts-Meets c a b e ExpressionTag.object_intersection_of (λ o. 0 < o.negative))

    pub by_second_table :
        (a b e : ℕ)
        → In (a, e) (rows b t.intersections_by_second)
          ↔ ((rest : List ℕ) × Negative c e ExpressionTag.object_intersection_of (a ∷ b ∷ rest))
    by_second_table a b e =
        ↔-trans
          (expressions_table c e ExpressionTag.object_intersection_of (Starts a b)
            (λ o. 0 < o.negative) (λ ix. In (a, e) (rows b ix.intersections_by_second))
            (λ ix ix' n o. by_second-tag ix ix' n o a b e) t h (not-In-rows b (a, e)))
          (Starts-Meets c a b e ExpressionTag.object_intersection_of (λ o. 0 < o.negative))

    pub by_filler_table :
        (f e q : ℕ)
        → In (e, q) (rows f t.existentials_by_filler)
          ↔ ((rest : List ℕ) × Negative c e ExpressionTag.object_some_values_from (q ∷ f ∷ rest))
    by_filler_table f e q =
        ↔-trans
          (expressions_table c e ExpressionTag.object_some_values_from (Starts q f)
            (λ o. 0 < o.negative) (λ ix. In (e, q) (rows f ix.existentials_by_filler))
            (λ ix ix' n o. by_filler-tag ix ix' n o q f e) t h (not-In-rows f (e, q)))
          (Starts-Meets c q f e ExpressionTag.object_some_values_from (λ o. 0 < o.negative))

    pub by_negated_table :
        (a e : ℕ)
        → In e (rows a t.complements_by_negated)
          ↔ ((rest : List ℕ) × Positive c e ExpressionTag.object_complement_of (a ∷ rest))
    by_negated_table a e =
        ↔-trans
          (expressions_table c e ExpressionTag.object_complement_of (Heads a) (λ o. 0 < o.positive)
            (λ ix. In e (rows a ix.complements_by_negated))
            (λ ix ix' n o. by_negated-tag ix ix' n o a e) t h (not-In-rows a e))
          (Heads-Meets c a e ExpressionTag.object_complement_of (λ o. 0 < o.positive))

    pub complements_table :
        (a e : ℕ)
        → In a (rows e t.positive_complements)
          ↔ ((rest : List ℕ) × Positive c e ExpressionTag.object_complement_of (a ∷ rest))
    complements_table a e =
        ↔-trans
          (expressions_table c e ExpressionTag.object_complement_of (Heads a) (λ o. 0 < o.positive)
            (λ ix. In a (rows e ix.positive_complements))
            (λ ix ix' n o. complements-tag ix ix' n o a e) t h (not-In-rows e a))
          (Heads-Meets c a e ExpressionTag.object_complement_of (λ o. 0 < o.positive))

    pub by_disjunct_table :
        (a e i : ℕ)
        → In (e, i) (rows a t.unions_by_disjunct) ↔ (
            (args : List ℕ) × Negative c e ExpressionTag.object_union_of args
            × (get_elem? args i ≡ some a))
    by_disjunct_table a e i =
        ↔-trans
          (expressions_table c e ExpressionTag.object_union_of
            (λ args. In (i, a) (enumerate 0 args)) (λ o. 0 < o.negative)
            (λ ix. In (e, i) (rows a ix.unions_by_disjunct))
            (λ ix ix' n o. by_disjunct-tag ix ix' n o a e i) t h (not-In-rows a (e, i)))
          (disjunct-Meets c a e i ExpressionTag.object_union_of (λ o. 0 < o.negative))
