-- ===== src/Rules/Indexed.antt =====
-- The constructor of `RuleDispatcher` in src/pyelk/reasoning/rules.py gives lookups that agree with
-- the tables of the compiled ontology.
use py_elk.Prelude.{
  ℕ, ◌≡◌, refl, sym, subst, ◌∙◌, ◌↔◌, ◌⊎◌, inl, inr, List, [], ◌∷◌, some, In, get_elem?, enumerate,
  arith, or_raise, or_raise-eq-ok, index_error, ok, >>=-eq-ok, fold_each, fold_each_iff,
}
use mathlib.Core.Option.{some-injective}
use py_elk.Ir.{ExpressionTag, ExpressionRecord, ExpressionOccurrence, CompiledOntology}
use py_elk.Rules.Calculus.{Expression}
use py_elk.Rules.Index.{ExpressionIndexes, no_expressions, index_by_tag, index_expression}
use py_elk.Rules.IndexTables.{In-enumerate_zero, Starts, Heads}

-- A lookup that starts empty holds what the loop added.
pub collected : {T S X Q : Type 0} → T ↔ (S ⊎ X) → ¬ S → (X → Q) → (Q → X) → T ↔ Q
collected h none' to from =
    (λ t. elim (h.0 t) [ inl s ↦ absurd (none' s) | inr x ↦ to x ], λ q. h.1 (inr (from q)))

module _ (c : CompiledOntology) where
  -- The row of `e'` in the expression table meets the tests.
  abbrev pub Meets :
      ℕ → ExpressionTag → (List ℕ → Type 0) → (ExpressionOccurrence → Type 0) → Type 0
  Meets e tag S P =
      (r : ExpressionRecord) × (o : ExpressionOccurrence) × (get_elem? c.expressions e ≡ some r)
      × (get_elem? c.expression_occurrences e ≡ some o)
      × (r.tag ≡ tag)
      × S r.arguments
      × P o

  module _ (e' : ℕ) (tag : ExpressionTag) (S : List ℕ → Type 0) (P : ExpressionOccurrence → Type 0)
      (T : ExpressionIndexes → Type 0)
      (tagged : (ix ix' : ExpressionIndexes) (e : ℕ) (o : ExpressionOccurrence) (t : ExpressionTag)
          (args : List ℕ)
        → index_by_tag t e args o ix ≡ ok ix'
        → T ix' ↔ (T ix ⊎ (e' ≡ e) × (t ≡ tag) × S args × P o)) where
    abbrev pub Adds : ℕ × ExpressionRecord → Type 0
    Adds (e, r) =
        (o : ExpressionOccurrence) × (get_elem? c.expression_occurrences e ≡ some o)
        × (e' ≡ e)
        × (r.tag ≡ tag)
        × S r.arguments
        × P o

    step :
        (ix : ExpressionIndexes) (row : ℕ × ExpressionRecord) (ix' : ExpressionIndexes)
        → index_expression c ix row ≡ ok ix'
        → T ix' ↔ (T ix ⊎ Adds row)
    unfolding index_expression
    step ix (e, r) ix' h =
        let (o, found, h') =
          >>=-eq-ok (or_raise index_error (get_elem? c.expression_occurrences e)) _ h in
        let found' = or_raise-eq-ok index_error (get_elem? c.expression_occurrences e) found in
        let (to, from) = tagged ix ix' e o r.tag r.arguments h' in
        (
          λ t. elim (to t) [
            | inl old ↦ inl old
            | inr (same, t', starts, p) ↦ inr (o, found', same, t', starts, p)
          ],
          λ q. elim q [
            | inl old ↦ from (inl old)
            | inr (o', f, same, t', starts, p) ↦
                from (inr (same, t', starts, subst P (some-injective o' o (sym f ∙ found')) p))
          ],
        )

    pub expressions_table :
        (t : ExpressionIndexes)
        → fold_each (index_expression c) no_expressions (enumerate 0 c.expressions) ≡ ok t
        → ¬ T no_expressions
        → T t ↔ Meets e' tag S P
    expressions_table t h fresh =
        collected
          (fold_each_iff T Adds (index_expression c) step (enumerate 0 c.expressions) no_expressions
            t h)
          fresh
          (λ (row, m, (o, found, same, t', starts, p)). (
            row.1,
            o,
            subst (λ e. get_elem? c.expressions e ≡ some row.1) (sym same)
                ((In-enumerate_zero c.expressions row.0 row.1).0 m),
            subst (λ e. get_elem? c.expression_occurrences e ≡ some o) (sym same) found,
            t',
            starts,
            p,
          ))
          (λ (r, o, found, found', t', starts, p). (
            (e', r),
            (In-enumerate_zero c.expressions e' r).1 found,
            (o, found', refl, t', starts, p),
          ))

  Starts-args :
      (a b : ℕ) (args : List ℕ) → Starts a b args → (rest : List ℕ) × (args ≡ a ∷ b ∷ rest)
  Starts-args a b [] h = absurd h
  Starts-args a b (x ∷ []) h = absurd h
  Starts-args a b (x ∷ y ∷ rest) h = (rest, ground arith)

  Heads-args : (a : ℕ) (args : List ℕ) → Heads a args → (rest : List ℕ) × (args ≡ a ∷ rest)
  Heads-args a [] h = absurd h
  Heads-args a (x ∷ rest) h = (rest, ground arith)

  Expression-of :
      (e : ℕ) (r : ExpressionRecord) (tag : ExpressionTag) (args : List ℕ)
      (o : ExpressionOccurrence)
      → get_elem? c.expressions e ≡ some r
      → get_elem? c.expression_occurrences e ≡ some o
      → r.tag ≡ tag
      → r.arguments ≡ args
      → Expression c e tag args o
  Expression-of e r tag args o found found' t a = record {
    payload = r.payload;
    row = ground arith;
    occurrence = found';
  }

  pub Starts-Meets :
      (a b e : ℕ) (tag : ExpressionTag) (P : ExpressionOccurrence → Type 0)
      → Meets e tag (Starts a b) P ↔ (
          (rest : List ℕ) × ((o : ExpressionOccurrence) × Expression c e tag (a ∷ b ∷ rest) o
            × P o))
  Starts-Meets a b e tag P = (
    λ (r, o, found, found', t, starts, p).
        let (rest, args) = Starts-args a b r.arguments starts in
        (rest, (o, Expression-of e r tag (a ∷ b ∷ rest) o found found' t args, p)),
    λ (rest, (o, x, p)). (
      record { tag = tag; arguments = a ∷ b ∷ rest; payload = x.payload },
      o,
      x.row,
      x.occurrence,
      refl,
      (refl, refl),
      p,
    ),
  )

  pub Heads-Meets :
      (a e : ℕ) (tag : ExpressionTag) (P : ExpressionOccurrence → Type 0)
      → Meets e tag (Heads a) P
        ↔ ((rest : List ℕ) × ((o : ExpressionOccurrence) × Expression c e tag (a ∷ rest) o × P o))
  Heads-Meets a e tag P = (
    λ (r, o, found, found', t, starts, p).
        let (rest, args) = Heads-args a r.arguments starts in
        (rest, (o, Expression-of e r tag (a ∷ rest) o found found' t args, p)),
    λ (rest, (o, x, p)). (
      record { tag = tag; arguments = a ∷ rest; payload = x.payload },
      o,
      x.row,
      x.occurrence,
      refl,
      refl,
      p,
    ),
  )

  pub disjunct-Meets :
      (a e i : ℕ) (tag : ExpressionTag) (P : ExpressionOccurrence → Type 0)
      → Meets e tag (λ args. In (i, a) (enumerate 0 args)) P ↔ (
          (args : List ℕ) × ((o : ExpressionOccurrence) × Expression c e tag args o × P o)
          × (get_elem? args i ≡ some a))
  disjunct-Meets a e i tag P = (
    λ (r, o, found, found', t, at, p). (
      r.arguments,
      (o, Expression-of e r tag r.arguments o found found' t refl, p),
      (In-enumerate_zero r.arguments i a).0 at,
    ),
    λ (args, (o, x, p), at). (
      record { tag = tag; arguments = args; payload = x.payload },
      o,
      x.row,
      x.occurrence,
      refl,
      (In-enumerate_zero args i a).1 at,
      p,
    ),
  )
