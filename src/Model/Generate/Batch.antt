-- ===== src/Model/Generate/Batch.antt =====
-- What a batch is for: the spans in the order in which they are emitted, and the same spans by
-- service, which is how the generator stores them.
pub mod Laws
use spangen.Base.{
  ℕ, zero, suc, ◌+◌, ◌-◌, ◌≤◌, ◌<◌, ◌≡◌, refl, ap, sym, ◌∙◌, subst, List, [], ◌∷◌, ◌++◌, map,
  Option, none, some, some-injective, Bool, true, false, length, ◌==◌, if◌then◌else◌, length-map,
  Bool-cases, inl, inr, arith,
}
use spangen.Model.Catalog.{Service, Catalog}
use spangen.Model.Spans.{Span, ScopeSpans, ResourceSpans, add_to, add_to_first, str}
use spangen.Model.Generate.Emit.{find_scope, resource_of}

-- Each span with the service that owns it, in the order of the calls.
abbrev pub Log : Type 0 → Type 0
Log F = List (Service F × Span)

-- The spans of each service, the services in the order of their first span.
abbrev pub Batch : Type 0 → Type 0
Batch F = List (Service F × List Span)

module _ {F : Type 0} where
  unfoldable pub add_for : Service F → Span → Batch F → Batch F
  add_for s sp [] = (s, sp ∷ []) ∷ []
  add_for s sp ((t, sps) ∷ b) =
      let rest = add_for s sp b in
      if t.idx == s.idx then (t, sps ++ sp ∷ []) ∷ b else (t, sps) ∷ rest

  -- A log that follows a batch.
  unfoldable pub add_log : Batch F → Log F → Batch F
  add_log b [] = b
  add_log b ((s, sp) ∷ log) = add_log (add_for s sp b) log

  pub add_log-append : (b : Batch F) (k l : Log F) → add_log b (k ++ l) ≡ add_log (add_log b k) l
  unfolding add_log
  add_log-append b [] l = refl
  add_log-append b ((s, sp) ∷ k) l = add_log-append (add_for s sp b) k l

  -- The resource of a service with its spans.
  unfoldable pub group_of : Catalog F → Service F × List Span → ResourceSpans
  unfolding resource_of
  group_of cat (s, sps) = record (resource_of cat s) {
    scopes =
        (record { name = cat.scope_name; version = cat.scope_ver; attributes = []; spans = sps })
        ∷ [];
  }

  unfoldable pub positions : ℕ → Batch F → List (ℕ × ℕ)
  positions k [] = []
  positions k ((s, sps) ∷ b) = (s.idx, k) ∷ positions (suc k) b

  -- What `add_for` does to the positions and to the resources, for a service at position k + i.
  pub record IsAdded (cat : Catalog F) (k i : ℕ) (s : Service F) (sp : Span) (b : Batch F)
      : Type 0 where
    pub inside : i < length b
    pub still : positions k (add_for s sp b) ≡ positions k b
    pub added : map (group_of cat) (add_for s sp b) ≡ add_to i sp (map (group_of cat) b)

  pub add_for-present :
      (cat : Catalog F) (k : ℕ) (b : Batch F) (s : Service F) (sp : Span) {j : ℕ}
      → find_scope s.idx (positions k b) ≡ some j
      → (i : ℕ) × (j ≡ k + i) × IsAdded cat k i s sp b
  unfolding add_for find_scope positions
  add_for-present cat k [] s sp h = cc
  add_for-present cat k ((t, sps) ∷ b) s sp {j} h = elim (Bool-cases (t.idx == s.idx)) [
    | inl e ↦ (
      0,
      here (rw e at h),
      record {
        inside = omega arith;
        still = rw e refl;
        added = rw e (unfold add_to add_to_first group_of in refl);
      },
    )
    | inr e ↦ there e (add_for-present cat (suc k) b s sp (rw e at h))
  ]
    where
      here : some k ≡ some j → j ≡ k + 0
      here same = omega (arith, some-injective k j same)

      there :
          (t.idx == s.idx) ≡ false
          → (i : ℕ) × (j ≡ suc k + i) × IsAdded cat (suc k) i s sp b
          → (i : ℕ) × (j ≡ k + i) × IsAdded cat k i s sp ((t, sps) ∷ b)
      there e (i, at, ok) = (
        suc i,
        omega (arith, at),
        record {
          inside = omega (arith, ok.inside);
          still = rw e (ap (λ ps. (t.idx, k) ∷ ps) ok.still);
          added = rw e (unfold add_to in ap (λ rs. group_of cat (t, sps) ∷ rs) ok.added);
        },
      )

  -- A service that has none gets a group without spans first.
  pub record IsOpened (k : ℕ) (s : Service F) (b : Batch F) : Type 0 where
    pub places : positions k (b ++ (s, []) ∷ []) ≡ positions k b ++ (s.idx, k + length b) ∷ []
    pub found : find_scope s.idx (positions k (b ++ (s, []) ∷ [])) ≡ some (k + length b)
    pub same : (sp : Span) → add_for s sp (b ++ (s, []) ∷ []) ≡ add_for s sp b

  pub open-IsOpened :
      (k : ℕ) (b : Batch F) (s : Service F)
      → find_scope s.idx (positions k b) ≡ none
      → IsOpened k s b
  unfolding add_for find_scope positions
  open-IsOpened k [] s h = record {
    places = ap (λ j. (s.idx, j) ∷ []) (omega arith);
    found = rw (itself s.idx) (ap some (omega arith));
    same = λ sp. rw (itself s.idx) refl;
  }
    where
      itself : (n : ℕ) → (n == n) ≡ true
      itself n = ground arith
  open-IsOpened k ((t, sps) ∷ b) s h = elim (Bool-cases (t.idx == s.idx)) [
    | inl e ↦ ground arith
    | inr e ↦ further e (open-IsOpened (suc k) b s (rw e at h))
  ]
    where
      further : (t.idx == s.idx) ≡ false → IsOpened (suc k) s b → IsOpened k s ((t, sps) ∷ b)
      further e r = record {
        places =
            ap (λ ps. (t.idx, k) ∷ ps)
              (r.places ∙ ap (λ j. positions (suc k) b ++ (s.idx, j) ∷ []) (omega arith));
        found = rw e (r.found ∙ ap some (omega arith));
        same = λ sp. rw e (ap (λ c. (t, sps) ∷ c) (r.same sp));
      }
