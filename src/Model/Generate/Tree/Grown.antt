-- ===== src/Model/Generate/Tree/Grown.antt =====
-- A trace as it grows: the spans emitted for it, each under one that was emitted before.
use spangen.Base.{
  ℕ, ◌+◌, ◌-◌, ◌<◌, ◌≡◌, sym, subst, List, [], ◌∷◌, ◌++◌, length, length-append, arith, ◌⊎◌, inr,
}
use spangen.Base.Int.{ℤ}
use spangen.Model.{Source}
use spangen.Model.Catalog.{Operation, Service}
use spangen.Model.Spans.{Span, Pdata}
use spangen.Model.Generate.{Settings, State}
use spangen.Model.Generate.Batch.{Log, Batch, add_for, add_log, add_log-append}
use spangen.Model.Generate.Emit.{parent_of}
use spangen.Model.Generate.Emit.Made.{IsMade}
use spangen.Model.Generate.Emit.Laws.{Represents}

abbrev pub IsKnown : List ℕ → List (List ℕ) → Type 0
IsKnown id [] = ⊥
IsKnown id (k ∷ known) = (id ≡ k) ⊎ IsKnown id known

module _ {F : Type 0} where
  -- The identifiers known after a log.
  unfoldable pub known_after : List (List ℕ) → Log F → List (List ℕ)
  known_after known [] = known
  known_after known ((s, sp) ∷ log) = known_after (sp.span_id ∷ known) log

  -- Every span of the log is in the trace, under one of the identifiers known before it.
  unfoldable pub Linked : List ℕ → List (List ℕ) → Log F → Type 0
  Linked trace_id known [] = Unit
  Linked trace_id known ((s, sp) ∷ log) =
      (sp.trace_id ≡ trace_id)
      × ((parent : List ℕ) × IsKnown parent known × (sp.parent ≡ parent_of parent))
      × Linked trace_id (sp.span_id ∷ known) log

  pub IsKnown-after :
      (id : List ℕ) (known : List (List ℕ)) (log : Log F)
      → IsKnown id known
      → IsKnown id (known_after known log)
  unfolding known_after
  IsKnown-after id known [] h = h
  IsKnown-after id known ((s, sp) ∷ log) h = IsKnown-after id (sp.span_id ∷ known) log (inr h)

  Linked-append :
      (trace_id : List ℕ) (known : List (List ℕ)) (k l : Log F)
      → Linked trace_id known k
      → Linked trace_id (known_after known k) l
      → Linked trace_id known (k ++ l)
  unfolding known_after Linked
  Linked-append trace_id known [] l h g = g
  Linked-append trace_id known ((s, sp) ∷ k) l h g =
      (h.0, h.1, Linked-append trace_id (sp.span_id ∷ known) k l h.2 g)

module _ {o : Source} {p : Pdata} (settings : Settings o.Float) where
  open o use {Float}

  -- From the batch b, with n spans to go, spans of the trace were added until `rest` remain.
  pub record Grown (trace_id : List ℕ) (known : List (List ℕ)) (b : Batch Float) (n rest : ℕ)
      (t : State o p) : Type 0 where
    pub log : Log Float
    pub holds : Represents o p settings t (add_log b log)
    pub count : rest + length log ≡ n
    pub linked : Linked trace_id known log

  module _ {trace_id : List ℕ} {known : List (List ℕ)} {b : Batch Float} where
    pub Grown-none :
        {n : ℕ} {t : State o p} → Represents o p settings t b → Grown trace_id known b n n t
    unfolding add_log Linked
    Grown-none h = record { log = []; holds = h; count = omega arith; linked = tt }

    -- One span, and what grew after it.
    pub Grown-cons :
        (svc : Service Float) {n rest : ℕ} {t : State o p} {parent : List ℕ} {op : Operation Float}
        {start dur : ℤ} {sp : Span}
        → 0 < n
        → IsKnown parent known
        → IsMade trace_id parent op start dur sp
        → Grown trace_id (sp.span_id ∷ known) (add_for svc sp b) (n - 1) rest t
        → Grown trace_id known b n rest t
    unfolding add_log Linked
    Grown-cons svc {parent} {sp} some_left k m g = record {
      log = (svc, sp) ∷ g.log;
      holds = g.holds;
      count = omega (arith, g.count);
      linked = (m.trace, (parent, k, m.under), g.linked);
    }

    pub Grown-append :
        {n m rest : ℕ} {s t : State o p} (g : Grown trace_id known b n m s)
        → Grown trace_id (known_after known g.log) (add_log b g.log) m rest t
        → Grown trace_id known b n rest t
    Grown-append {t} g h = record {
      log = g.log ++ h.log;
      holds = subst (Represents o p settings t) (sym (add_log-append b g.log h.log)) h.holds;
      count = omega (arith, length-append g.log h.log, g.count, h.count);
      linked = Linked-append trace_id known g.log h.log g.linked h.linked;
    }
