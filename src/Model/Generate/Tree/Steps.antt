-- ===== src/Model/Generate/Tree/Steps.antt =====
-- The steps of a trace: a draw, a span, and what follows them.
use spangen.Base.{
  ℕ, ◌<◌, ◌≡◌, sym, subst, List, some, get_elem?, get_elem?-lt, Indexed-get_elem?, arith,
}
use spangen.Base.Int.{ℤ}
use spangen.Base.State.{M, ◌>>=◌, ◌>>◌, Returns, returned, bind}
use spangen.Model.{Source}
use spangen.Model.Draw.{draw_norm, Any, Any-norm}
use spangen.Model.Catalog.{Operation, Service, Catalog}
use spangen.Model.Catalog.Build.Services.{IsService, IsTopology}
use spangen.Model.Spans.{Span, Pdata}
use spangen.Model.Generate.{Settings, State, on_rng}
use spangen.Model.Generate.Batch.{Batch, add_for}
use spangen.Model.Generate.Emit.{emit_span}
use spangen.Model.Generate.Emit.Made.{IsMade}
use spangen.Model.Generate.Emit.Laws.{
  on_rng-Returns, Represents, Represents-same, emit_span-Represents,
}
use spangen.Model.Generate.Tree.{sample_dur, read_last_id}

module _ {F : Type 0} (n : ℕ) (c : Catalog F) (i : ℕ) (t : IsTopology n c) where
  pub service_is : {s : Service F} → get_elem? c.services i ≡ some s → IsService n n i s
  service_is {s} e =
      subst (λ j. IsService n n j s) (omega arith)
        (Indexed-get_elem? (IsService n n) 0 i c.services t.services e)

  -- The service at a position of a topology.
  pub service_at : i < n → (s : Service F) × (get_elem? c.services i ≡ some s) × IsService n n i s
  service_at h =
      let (s, e) = get_elem?-lt c.services i (omega (arith, t.size)) in (s, e, service_is e)

module _ (o : Source) (p : Pdata) (settings : Settings o.Float) where
  open o use {Float}

  -- A draw, and what follows it.
  pub drawing :
      {A B : Type 0} {P : A → Type 0} {Q : B → State o p → Type 0} {b : Batch Float} (m : M o.Rng A)
      (k : A → M (State o p) B) (s : State o p)
      → Represents o p settings s b
      → Returns (λ a _. P a) (m s.rng)
      → ((a : A) (t : State o p) → P a → Represents o p settings t b → Returns Q (k a t))
      → Returns Q ((on_rng m >>= k) s)
  drawing m k s h r f =
      bind (on_rng m) k s (on_rng-Returns m s r)
        λ a t q. f a t q.0 (Represents-same o p settings h q.1 q.2)

  -- A span, its identifier, and what follows.
  pub emitting :
      {B : Type 0} {Q : B → State o p → Type 0} {b : Batch Float} (trace_id parent : List ℕ)
      (svc : Service Float) (op : Operation Float) (start dur : ℤ) (k : List ℕ → M (State o p) B)
      (s : State o p)
      → get_elem? settings.cat.services svc.idx ≡ some svc
      → Represents o p settings s b
      → ((sp : Span) (t : State o p)
          → IsMade trace_id parent op start dur sp
          → Represents o p settings t (add_for svc sp b)
          → Returns Q (k sp.span_id t))
      → Returns Q (
          (emit_span o p settings trace_id parent svc op start dur
              >> (read_last_id o p settings >>= k))
            s)
  unfolding read_last_id
  emitting {Q} trace_id parent svc op start dur k s known h f =
      bind (emit_span o p settings trace_id parent svc op start dur) _ s
        (emit_span-Represents o p settings trace_id parent svc op start dur _ s known h)
        λ u t r. subst (λ id. Returns Q (k id t)) (sym r.3) (f r.0 t r.1 r.2)

  pub Any-sample_dur : (op : Operation Float) (r : o.Rng) → Returns Any (sample_dur o op r)
  unfolding sample_dur
  Any-sample_dur op r = bind (draw_norm o) _ r (Any-norm o r) λ x t _. returned tt
