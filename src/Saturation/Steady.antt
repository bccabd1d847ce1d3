-- ===== src/Saturation/Steady.antt =====
-- What holds of the state of the scheduler (src/pyelk/reasoning/saturation.py) between any two of
-- its steps.
use py_elk.Prelude.{
  ℕ, ◌≡◌, ◌≢◌, sym, ap, subst, ◌∙◌, ◌⊎◌, inl, inr, List, [], true, Option, some, ◌==◌, ==_iff,
  Bool-cases, if◌then◌else◌, In, Dict, lookup, insert, lookup-insert, rows, some-injective,
}
use py_elk.Conclusion.{Conclusion, initialized_at, conclusion_destination}
use py_elk.Context.{ContextState}
use py_elk.Context.Invariant.{IsConsistent}
use py_elk.PropertyView.{PropertyView}
use py_elk.Ir.{CompiledOntology}
use py_elk.Rules.Calculus.{Infers}
use py_elk.Saturation.Engine.{Engine}

-- Whatever one rule concludes from conclusions with the property has it, and where a conclusion has
-- it, so has the initialization of the context that owns the conclusion.
pub record IsClosed (c : CompiledOntology) (v : PropertyView) (thing nothing : ℕ)
    (P : Conclusion → Type 0) : Type 0 where
  pub inferred : (x : Conclusion) → Infers c v thing nothing P x → P x
  pub activated : (x : Conclusion) → P x → P (initialized_at (conclusion_destination x))

-- Work that a context has left.
abbrev pub HasWork : List Conclusion → List Conclusion → Type 0
HasWork retries todo = (retries ≢ []) ⊎ (todo ≢ [])

-- A context and its entry in the scheduler: all that it knows has the property, it is in the queue
-- if its flag says so, and with work left it is in the queue or claimed.
pub record Entry (P : Conclusion → Type 0) (active : List ℕ) (claimed : Option ℕ)
    (retries : List Conclusion) (root : ℕ) (s : ContextState) : Type 0 where
  pub owner : s.root ≡ root
  pub consistent : IsConsistent s
  pub stored : (x : Conclusion) → In x s.stored → P x
  pub awaited : (x : Conclusion) → In x s.todo → P x
  pub listed : s.queued ≡ true → In root active
  pub served : HasWork retries s.todo → (s.queued ≡ true) ⊎ (claimed ≡ some root)

pub record Entries (P : Conclusion → Type 0) (contexts : Dict ContextState) (active : List ℕ)
    (claimed : Option ℕ) (retry : Dict (List Conclusion)) : Type 0 where
  pub each :
      (root : ℕ) (s : ContextState)
      → lookup root contexts ≡ some s
      → Entry P active claimed (rows root retry) root s
  pub known : (root : ℕ) → In root active → (s : ContextState) × (lookup root contexts ≡ some s)

-- `claimed` is the root that is being served.
abbrev pub IsSteady : (Conclusion → Type 0) → Option ℕ → Engine → Type 0
IsSteady P claimed e = (e.claimed_root ≡ claimed) × Entries P e.contexts e.active claimed e.retry

module _ {P : Conclusion → Type 0} {contexts : Dict ContextState} {active : List ℕ}
    {claimed : Option ℕ} {retry : Dict (List Conclusion)}
    (h : Entries P contexts active claimed retry) where
  -- A context is changed, and with it its place in the queue, the claim and its retries.
  pub update-Entries :
      (active' : List ℕ) (claimed' : Option ℕ) (retry' : Dict (List Conclusion)) (root : ℕ)
      (s : ContextState)
      → Entry P active' claimed' (rows root retry') root s
      → ((r : ℕ) → r ≢ root → In r active → In r active')
      → ((r : ℕ) → r ≢ root → In r active' → In r active)
      → ((r : ℕ) → r ≢ root → claimed ≡ some r → claimed' ≡ some r)
      → ((r : ℕ) → r ≢ root → rows r retry' ≡ rows r retry)
      → Entries P (insert root s contexts) active' claimed' retry'
  update-Entries active' claimed' retry' root s new more less held kept = record {
    each = λ r t found. elim (Bool-cases (r == root)) [
      | inl same ↦
          let e = (==_iff r root).0 same in
          let now : some s ≡ some t =
            sym (
              lookup-insert r root s contexts
              ∙ ap (λ b. if b then some s else lookup r contexts) same)
            ∙ found in
          subst (λ q. Entry P active' claimed' (rows q retry') q t) (sym e)
            (subst (Entry P active' claimed' (rows root retry') root) (some-injective s t now) new)
      | inr other ↦
          let apart : r ≢ root = λ e. cc ((==_iff r root).1 e) in
          let before : lookup r contexts ≡ some t =
            sym (
              lookup-insert r root s contexts
              ∙ ap (λ b. if b then some s else lookup r contexts) other)
            ∙ found in
          let old = h.each r t before in
          record {
            owner = old.owner;
            consistent = old.consistent;
            stored = old.stored;
            awaited = old.awaited;
            listed = λ q. more r apart (old.listed q);
            served = λ w. elim (old.served (subst (λ l. HasWork l t.todo) (kept r apart) w)) [
              | inl q ↦ inl q
              | inr q ↦ inr (held r apart q)
            ];
          }
    ];
    known = λ r m. elim (Bool-cases (r == root)) [
      | inl same ↦ (
        s,
        lookup-insert r root s contexts ∙ ap (λ b. if b then some s else lookup r contexts) same,
      )
      | inr other ↦
          let apart : r ≢ root = λ e. cc ((==_iff r root).1 e) in
          let (t, found) = h.known r (less r apart m) in
          (
            t,
            (lookup-insert r root s contexts
                  ∙ ap (λ b. if b then some s else lookup r contexts) other)
                ∙ found,
          )
    ];
  }
