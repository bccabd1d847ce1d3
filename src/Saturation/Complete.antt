-- ===== src/Saturation/Complete.antt =====
-- What the scheduler of src/pyelk/reasoning/saturation.py has done already: a stored conclusion is
-- done when it is neither waiting to be retried nor the premise at hand.
use py_elk.Prelude.{ℕ, ◌≡◌, ◌≢◌, sym, ap, subst, ◌∙◌, ◌⊎◌, inl, inr, List, Option, some, In, rows}
use py_elk.Conclusion.{Conclusion, initialized_at, conclusion_destination}
use py_elk.Context.{ContextState}
use py_elk.Rules.Index.{RuleDispatcher}
use py_elk.Rules.Calculus.{Infers}
use py_elk.Rules.Monotone.{Infers-mono}
use py_elk.Saturation.Engine.{Engine}
use py_elk.Saturation.Routing.{At}
use py_elk.Saturation.Grows.{Grows, Grows-refl, same-At}
use py_elk.Saturation.Delivery.{Seen, Seen-Grows}
use py_elk.Saturation.Arrival.{initialized-root}

-- `current` is the premise at hand.
abbrev pub Done : Engine → Option Conclusion → Conclusion → Type 0
Done e current y =
    (s : ContextState) × At (conclusion_destination y) s e
    × In y s.stored
    × (¬ In y (rows (conclusion_destination y) e.retry))
    × (current ≢ some y)

-- What follows by one rule from conclusions that are done is known to the context that owns it, each
-- context knows its initialization, what is to be
-- retried belongs to its root, and the roots have contexts.
pub record IsComplete (d : RuleDispatcher) (roots : List ℕ) (current : Option Conclusion)
    (e : Engine) : Type 0 where
  pub follows :
      (x : Conclusion)
      → Infers d.compiled d.properties d.owl_thing d.owl_nothing (Done e current) x
      → Seen e x
  pub first : (r : ℕ) (s : ContextState) → At r s e → Seen e (initialized_at r)
  pub owed : (r : ℕ) (c : Conclusion) → In c (rows r e.retry) → conclusion_destination c ≡ r
  pub demanded : (r : ℕ) → In r roots → (s : ContextState) × At r s e

-- A step after which no more is done than before and no less is known.
pub record Moves (current current' : Option Conclusion) (e t : Engine) : Type 0 where
  pub back : (y : Conclusion) → Done t current' y → Done e current y
  pub seen : (x : Conclusion) → Seen e x → Seen t x
  pub stays : (r : ℕ) (s : ContextState) → At r s e → (s' : ContextState) × At r s' t
  pub came :
      (r : ℕ) (s' : ContextState)
      → At r s' t
      → ((s : ContextState) × At r s e) ⊎ Seen t (initialized_at r)
  pub fewer :
      (r : ℕ) (c : Conclusion)
      → In c (rows r t.retry)
      → In c (rows r e.retry) ⊎ (conclusion_destination c ≡ r)

pub Moves-IsComplete :
    (d : RuleDispatcher) (roots : List ℕ) (current current' : Option Conclusion) (e t : Engine)
    → Moves current current' e t
    → IsComplete d roots current e
    → IsComplete d roots current' t
Moves-IsComplete d roots current current' e t m h = record {
  follows = λ x i. m.seen x (h.follows x (Infers-mono (λ y q. m.back y q) i));
  first = λ r s' found. elim (m.came r s' found) [
    | inl (s, there) ↦ m.seen (initialized_at r) (h.first r s there)
    | inr new ↦ new
  ];
  owed = λ r c q. elim (m.fewer r c q) [ inl old ↦ h.owed r c old | inr own ↦ own ];
  demanded = λ r q. let (s, there) = h.demanded r q in m.stays r s there;
}

pub Grows-Moves :
    (current : Option Conclusion) (e t : Engine) → Grows e t → Moves current current e t
Grows-Moves current e t g = record {
  back = λ y (s', found, m, waiting, other). elim (g.came (conclusion_destination y) s' found) [
    | inl (s, there) ↦
        let (z, found', stored, _) = g.kept (conclusion_destination y) s there in
        let same : z ≡ s' = same-At (conclusion_destination y) z s' t found' found in
        (
          s,
          there,
          subst (In y) (sym (ap (λ k. k.stored) same) ∙ stored) m,
          subst (λ l. ¬ In y l) (g.retries (conclusion_destination y) s there) waiting,
          other,
        )
    | inr (empty, _) ↦ absurd (subst (In y) empty m)
  ];
  seen = λ x k. Seen-Grows e t x g k;
  stays = λ r s found. let (s', there, _, _) = g.kept r s found in (s', there);
  came = λ r s' found. elim (g.came r s' found) [
    | inl old ↦ inl old
    | inr (_, m) ↦ inr (s', subst (λ q. At q s' t) (sym (initialized-root r)) found, inr m)
  ];
  fewer = λ r c m. inl (g.fewer r c m);
}

pub Moves-trans :
    (current current' current'' : Option Conclusion) (e t u : Engine)
    → Moves current current' e t
    → Moves current' current'' t u
    → Moves current current'' e u
Moves-trans current current' current'' e t u m n = record {
  back = λ y q. m.back y (n.back y q);
  seen = λ x k. n.seen x (m.seen x k);
  stays = λ r s found. let (s', there) = m.stays r s found in n.stays r s' there;
  came = λ r z found. elim (n.came r z found) [
    | inr new ↦ inr new
    | inl (s', there) ↦ elim (m.came r s' there) [
      | inl old ↦ inl old
      | inr new ↦ inr (n.seen (initialized_at r) new)
    ]
  ];
  fewer = λ r c q. elim (n.fewer r c q) [ inl q' ↦ m.fewer r c q' | inr own ↦ inr own ];
}

-- The same contexts and retries.
pub Moves-same :
    (current : Option Conclusion) (e t : Engine)
    → t.contexts ≡ e.contexts
    → t.retry ≡ e.retry
    → Moves current current e t
Moves-same current e t contexts retry = Grows-Moves current e t (Grows-refl e t contexts retry)

pub fewer_roots :
    (d : RuleDispatcher) (asked roots : List ℕ) (current : Option Conclusion) (e : Engine)
    → ((r : ℕ) → In r asked → (s : ContextState) × At r s e)
    → IsComplete d roots current e
    → IsComplete d asked current e
fewer_roots d asked roots current e there h = record {
  follows = h.follows;
  first = h.first;
  owed = h.owed;
  demanded = there;
}
