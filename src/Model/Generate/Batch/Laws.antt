-- ===== src/Model/Generate/Batch/Laws.antt =====
-- A batch by service is its log: no span is lost, none is in two places, and the order stays.
use spangen.Base.{
  ℕ, suc, ◌+◌, ◌≡◌, refl, sym, ◌∙◌, ◌≢◌, inl, inr, List, [], ◌∷◌, ◌++◌, Bool, true, false, length,
  length-append, All, sum_of, ◌==◌, if◌then◌else◌, Bool-cases, arith,
}
use mathlib.Core.List.{append-nil, append_assoc}
use spangen.Model.Catalog.{Service}
use spangen.Model.Spans.{Span}
use spangen.Model.Generate.Batch.{Log, Batch, add_for, add_log}

module _ {F : Type 0} where
  -- The spans of the service with an index, in the log and in the batch.
  unfoldable pub spans_of : ℕ → Log F → List Span
  spans_of i [] = []
  spans_of i ((s, sp) ∷ log) = let rest = spans_of i log in if s.idx == i then sp ∷ rest else rest

  unfoldable pub stored_for : ℕ → Batch F → List Span
  stored_for i [] = []
  stored_for i ((s, sps) ∷ b) = if s.idx == i then sps else stored_for i b

  stored_for-add_for :
      (i : ℕ) (s : Service F) (sp : Span) (b : Batch F)
      → stored_for i (add_for s sp b)
        ≡ (if s.idx == i then stored_for i b ++ sp ∷ [] else stored_for i b)
  unfolding stored_for add_for
  stored_for-add_for i s sp [] = refl
  stored_for-add_for i s sp ((t, sps) ∷ b) = ground (arith, stored_for-add_for i s sp b)

  pub stored_for-add_log :
      (i : ℕ) (b : Batch F) (log : Log F)
      → stored_for i (add_log b log) ≡ stored_for i b ++ spans_of i log
  unfolding add_log spans_of
  stored_for-add_log i b [] = sym (append-nil _)
  stored_for-add_log i b ((s, sp) ∷ log) =
      stored_for-add_log i (add_for s sp b) log
      ∙ rw (stored_for-add_for i s sp b) (one (s.idx == i))
    where
      one :
          (c : Bool)
          → (if c then stored_for i b ++ sp ∷ [] else stored_for i b) ++ spans_of i log
            ≡ stored_for i b ++ (if c then sp ∷ spans_of i log else spans_of i log)
      one true = append_assoc (stored_for i b) (sp ∷ []) (spans_of i log)
      one false = refl

  -- Every service of the batch has an index of its own.
  abbrev pub Lacks : ℕ → Batch F → Type 0
  Lacks i b = All (λ (g : Service F × List Span). g.0.idx ≢ i) b

  unfoldable pub AreDistinct : Batch F → Type 0
  AreDistinct [] = Unit
  AreDistinct ((s, sps) ∷ b) = Lacks s.idx b × AreDistinct b

  Lacks-add_for :
      (i : ℕ) (s : Service F) (sp : Span) (b : Batch F)
      → s.idx ≢ i
      → Lacks i b
      → Lacks i (add_for s sp b)
  unfolding add_for
  Lacks-add_for i s sp [] n h = (n, tt)
  Lacks-add_for i s sp ((t, sps) ∷ b) n h = elim (Bool-cases (t.idx == s.idx)) [
    | inl e ↦ rw e h
    | inr e ↦ rw e (h.0, Lacks-add_for i s sp b n h.1)
  ]

  AreDistinct-add_for :
      (s : Service F) (sp : Span) (b : Batch F) → AreDistinct b → AreDistinct (add_for s sp b)
  unfolding add_for AreDistinct
  AreDistinct-add_for s sp [] h = (tt, tt)
  AreDistinct-add_for s sp ((t, sps) ∷ b) h = elim (Bool-cases (t.idx == s.idx)) [
    | inl e ↦ rw e h
    | inr e ↦
        rw e (Lacks-add_for t.idx s sp b (λ same. ground arith) h.0, AreDistinct-add_for s sp b h.1)
  ]

  pub AreDistinct-add_log :
      (b : Batch F) (log : Log F) → AreDistinct b → AreDistinct (add_log b log)
  unfolding add_log
  AreDistinct-add_log b [] h = h
  AreDistinct-add_log b ((s, sp) ∷ log) h =
      AreDistinct-add_log (add_for s sp b) log (AreDistinct-add_for s sp b h)

  -- The number of spans in a batch.
  abbrev pub size_of : Batch F → ℕ
  size_of b = sum_of (λ (g : Service F × List Span). length g.1) b

  size_of-add_for :
      (s : Service F) (sp : Span) (b : Batch F) → size_of (add_for s sp b) ≡ suc (size_of b)
  unfolding add_for sum_of
  size_of-add_for s sp [] = omega arith
  size_of-add_for s sp ((t, sps) ∷ b) = elim (Bool-cases (t.idx == s.idx)) [
    | inl e ↦ rw e (omega (arith, length-append sps (sp ∷ [])))
    | inr e ↦ rw e (omega (arith, size_of-add_for s sp b))
  ]

  pub size_of-add_log :
      (b : Batch F) (log : Log F) → size_of (add_log b log) ≡ size_of b + length log
  unfolding add_log
  size_of-add_log b [] = omega arith
  size_of-add_log b ((s, sp) ∷ log) =
      omega (arith, size_of-add_log (add_for s sp b) log, size_of-add_for s sp b)
