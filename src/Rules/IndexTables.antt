-- ===== src/Rules/IndexTables.antt =====
-- The loops of `RuleDispatcher.__init__` in src/pyelk/reasoning/rules.py fill the lookups with
-- exactly the rows of the tables.
use py_elk.Prelude.{
  ℕ, zero, suc, ◌+◌, ◌≡◌, subst, ◌<◌, ◌↔◌, ◌⊎◌, inl, inr, List, [], ◌∷◌, Bool, true, false, some,
  In, In-add_to, add_to, rows, nat_ordered, pair_ordered, get_elem?, enumerate, arith, or_raise,
  or_raise-eq-ok, index_error, ok, >>=-eq-ok,
}
use py_elk.Ir.{ExpressionTag, ExpressionRecord, ExpressionOccurrence, CompiledOntology, is_class}
use py_elk.PropertyView.{PropertyView}
use py_elk.Rules.Index.{
  Index, EquivalenceIndexes, ExpressionIndexes, index_subclass, index_equivalence, index_disjuncts,
  index_by_tag, index_members, index_told,
}

module _ {A : Type 0} where
  In-enumerate :
      (i : ℕ) (xs : List A) (j : ℕ) (a : A)
      → In (j, a) (enumerate i xs) ↔ ((k : ℕ) × (j ≡ i + k) × (get_elem? xs k ≡ some a))
  In-enumerate i [] j a = (λ m. absurd m, λ h. cc (h.2))
  In-enumerate i (x ∷ xs) j a = (
    λ m. elim m [
      | inl e ↦ (0, ground arith, ground arith)
      | inr n ↦ let (k, e, f) = (In-enumerate (suc i) xs j a).0 n in (suc k, omega arith, f)
    ],
    λ (k, e, f).
        elim k
            as (λ k. j ≡ i + k → get_elem? (x ∷ xs) k ≡ some a → In (j, a) (enumerate i (x ∷ xs))) [
              | zero ↦ λ e f. inl (ground arith)
              | suc k ↦ λ e f. inr ((In-enumerate (suc i) xs j a).1 (k, omega arith, f))
            ]
          e f,
  )

  pub In-enumerate_zero :
      (xs : List A) (j : ℕ) (a : A) → In (j, a) (enumerate 0 xs) ↔ (get_elem? xs j ≡ some a)
  In-enumerate_zero xs j a = (
    λ m.
        let (k, e, f) = (In-enumerate 0 xs j a).0 m in
        subst (λ i. get_elem? xs i ≡ some a) (omega arith) f,
    λ f. (In-enumerate 0 xs j a).1 (j, omega arith, f),
  )

pub index_subclass-step :
    (sub super : ℕ) (ix : Index ℕ) (row : ℕ × ℕ) (ix' : Index ℕ)
    → index_subclass ix row ≡ ok ix'
    → In super (rows sub ix') ↔ (In super (rows sub ix) ⊎ ((sub, super) ≡ row))
unfolding index_subclass
index_subclass-step sub super ix (a, b) ix' h = ground (arith, In-add_to sub a super b ix)

pub index_told-step :
    (v : PropertyView) (chain p : ℕ) (ix : Index ℕ) (row : ℕ × ℕ) (ix' : Index ℕ)
    → index_told v ix row ≡ ok ix'
    → In p (rows chain ix')
      ↔ (In p (rows chain ix) ⊎ (v.compiled_chain row.0 ≡ ok chain) × (p ≡ row.1))
unfolding index_told
index_told-step v chain p ix (a, b) ix' h =
    let (local, found, e) = >>=-eq-ok (v.compiled_chain a) _ h in
    ground (arith, In-add_to chain local p b ix)

-- The row is the equivalence of the two, and the first is named or not.
abbrev pub Hits : CompiledOntology → ℕ → ℕ → Bool → ℕ × ℕ → Type 0
Hits c first second named row =
    ((first, second) ≡ row)
    × ((r : ExpressionRecord) × (get_elem? c.expressions first ≡ some r) × (is_class r.tag ≡ named))

module _ (c : CompiledOntology) (first second : ℕ) (ix ix' : EquivalenceIndexes) (row : ℕ × ℕ)
    (h : index_equivalence c ix row ≡ ok ix') where
  pub definitions-step :
      In second (rows first ix'.definitions_by_class)
      ↔ (In second (rows first ix.definitions_by_class) ⊎ Hits c first second true row)
  unfolding index_equivalence
  definitions-step =
      let (r, found, e) = >>=-eq-ok (or_raise index_error (get_elem? c.expressions row.0)) _ h in
      let found' = or_raise-eq-ok index_error _ found in
      ground (arith, In-add_to first row.0 second row.1 ix.definitions_by_class)

  pub defined-step :
      In first (rows second ix'.classes_by_definition)
      ↔ (In first (rows second ix.classes_by_definition) ⊎ Hits c first second true row)
  unfolding index_equivalence
  defined-step =
      let (r, found, e) = >>=-eq-ok (or_raise index_error (get_elem? c.expressions row.0)) _ h in
      let found' = or_raise-eq-ok index_error _ found in
      ground (arith, In-add_to second row.1 first row.0 ix.classes_by_definition)

  pub firsts-step :
      In first (rows second ix'.equivalent_first)
      ↔ (In first (rows second ix.equivalent_first) ⊎ Hits c first second false row)
  unfolding index_equivalence
  firsts-step =
      let (r, found, e) = >>=-eq-ok (or_raise index_error (get_elem? c.expressions row.0)) _ h in
      let found' = or_raise-eq-ok index_error _ found in
      ground (arith, In-add_to second row.1 first row.0 ix.equivalent_first)

  pub seconds-step :
      In second (rows first ix'.equivalent_second)
      ↔ (In second (rows first ix.equivalent_second) ⊎ Hits c first second false row)
  unfolding index_equivalence
  seconds-step =
      let (r, found, e) = >>=-eq-ok (or_raise index_error (get_elem? c.expressions row.0)) _ h in
      let found' = or_raise-eq-ok index_error _ found in
      ground (arith, In-add_to first row.0 second row.1 ix.equivalent_second)

pub index_disjuncts-rows :
    (a e' i e n : ℕ) (args : List ℕ) (ix : Index (ℕ × ℕ))
    → In (e', i) (rows a (index_disjuncts e n args ix))
      ↔ (In (e', i) (rows a ix) ⊎ (e' ≡ e) × In (i, a) (enumerate n args))
unfolding index_disjuncts
index_disjuncts-rows a e' i e n [] ix = ground arith
index_disjuncts-rows a e' i e n (x ∷ xs) ix = ground (
  arith,
  index_disjuncts-rows a e' i e (suc n) xs (add_to x (e, n) ix),
  In-add_to a x (e', i) (e, n) ix,
)

pub index_members-rows :
    (a g' i g n : ℕ) (members : List ℕ) (ix : Index (ℕ × ℕ))
    → In (g', i) (rows a (index_members g n members ix))
      ↔ (In (g', i) (rows a ix) ⊎ (g' ≡ g) × In (i, a) (enumerate n members))
unfolding index_members
index_members-rows a g' i g n [] ix = ground arith
index_members-rows a g' i g n (x ∷ xs) ix = ground (
  arith,
  index_members-rows a g' i g (suc n) xs (add_to x (g, n) ix),
  In-add_to a x (g', i) (g, n) ix,
)

-- The first two arguments of an expression; its first argument.
abbrev pub Starts : ℕ → ℕ → List ℕ → Type 0
Starts a b [] = ⊥
Starts a b (x ∷ []) = ⊥
Starts a b (x ∷ y ∷ rest) = (a ≡ x) × (b ≡ y)

abbrev pub Heads : ℕ → List ℕ → Type 0
Heads a [] = ⊥
Heads a (x ∷ rest) = a ≡ x

module _ (ix ix' : ExpressionIndexes) (e : ℕ) (o : ExpressionOccurrence) where
  pub by_first-tag :
      (a b e' : ℕ) (tag : ExpressionTag) (args : List ℕ)
      → index_by_tag tag e args o ix ≡ ok ix'
      → In (b, e') (rows a ix'.intersections_by_first) ↔ (
          In (b, e') (rows a ix.intersections_by_first)
          ⊎ (e' ≡ e)
            × (tag ≡ ExpressionTag.object_intersection_of)
            × Starts a b args
            × (0 < o.negative))
  unfolding index_by_tag
  by_first-tag a b e' ExpressionTag.object_intersection_of [] h = ground arith
  by_first-tag a b e' ExpressionTag.object_intersection_of (x ∷ []) h = ground arith
  by_first-tag a b e' ExpressionTag.object_intersection_of (x ∷ y ∷ rest) h =
      ground (arith, In-add_to a x (b, e') (y, e) ix.intersections_by_first)
  by_first-tag a b e' _ args h = ground arith

  pub by_second-tag :
      (a b e' : ℕ) (tag : ExpressionTag) (args : List ℕ)
      → index_by_tag tag e args o ix ≡ ok ix'
      → In (a, e') (rows b ix'.intersections_by_second) ↔ (
          In (a, e') (rows b ix.intersections_by_second)
          ⊎ (e' ≡ e)
            × (tag ≡ ExpressionTag.object_intersection_of)
            × Starts a b args
            × (0 < o.negative))
  unfolding index_by_tag
  by_second-tag a b e' ExpressionTag.object_intersection_of [] h = ground arith
  by_second-tag a b e' ExpressionTag.object_intersection_of (x ∷ []) h = ground arith
  by_second-tag a b e' ExpressionTag.object_intersection_of (x ∷ y ∷ rest) h =
      ground (arith, In-add_to b y (a, e') (x, e) ix.intersections_by_second)
  by_second-tag a b e' _ args h = ground arith

  pub by_filler-tag :
      (a b e' : ℕ) (tag : ExpressionTag) (args : List ℕ)
      → index_by_tag tag e args o ix ≡ ok ix'
      → In (e', a) (rows b ix'.existentials_by_filler) ↔ (
          In (e', a) (rows b ix.existentials_by_filler)
          ⊎ (e' ≡ e)
            × (tag ≡ ExpressionTag.object_some_values_from)
            × Starts a b args
            × (0 < o.negative))
  unfolding index_by_tag
  by_filler-tag a b e' ExpressionTag.object_some_values_from [] h = ground arith
  by_filler-tag a b e' ExpressionTag.object_some_values_from (x ∷ []) h = ground arith
  by_filler-tag a b e' ExpressionTag.object_some_values_from (x ∷ y ∷ rest) h =
      ground (arith, In-add_to b y (e', a) (e, x) ix.existentials_by_filler)
  by_filler-tag a b e' _ args h = ground arith

  pub by_negated-tag :
      (a e' : ℕ) (tag : ExpressionTag) (args : List ℕ)
      → index_by_tag tag e args o ix ≡ ok ix'
      → In e' (rows a ix'.complements_by_negated) ↔ (
          In e' (rows a ix.complements_by_negated)
          ⊎ (e' ≡ e) × (tag ≡ ExpressionTag.object_complement_of) × Heads a args × (0 < o.positive))
  unfolding index_by_tag
  by_negated-tag a e' ExpressionTag.object_complement_of [] h = ground arith
  by_negated-tag a e' ExpressionTag.object_complement_of (x ∷ rest) h =
      ground (arith, In-add_to a x e' e ix.complements_by_negated)
  by_negated-tag a e' _ args h = ground arith

  pub complements-tag :
      (a e' : ℕ) (tag : ExpressionTag) (args : List ℕ)
      → index_by_tag tag e args o ix ≡ ok ix'
      → In a (rows e' ix'.positive_complements) ↔ (
          In a (rows e' ix.positive_complements)
          ⊎ (e' ≡ e) × (tag ≡ ExpressionTag.object_complement_of) × Heads a args × (0 < o.positive))
  unfolding index_by_tag
  complements-tag a e' ExpressionTag.object_complement_of [] h = ground arith
  complements-tag a e' ExpressionTag.object_complement_of (x ∷ rest) h =
      ground (arith, In-add_to e' e a x ix.positive_complements)
  complements-tag a e' _ args h = ground arith

  pub by_disjunct-tag :
      (a e' i : ℕ) (tag : ExpressionTag) (args : List ℕ)
      → index_by_tag tag e args o ix ≡ ok ix'
      → In (e', i) (rows a ix'.unions_by_disjunct) ↔ (
          In (e', i) (rows a ix.unions_by_disjunct)
          ⊎ (e' ≡ e)
            × (tag ≡ ExpressionTag.object_union_of)
            × In (i, a) (enumerate 0 args)
            × (0 < o.negative))
  unfolding index_by_tag
  by_disjunct-tag a e' i ExpressionTag.object_union_of args h =
      ground (arith, index_disjuncts-rows a e' i e 0 args ix.unions_by_disjunct)
  by_disjunct-tag a e' i _ args h = ground arith
