-- ===== src/Model/Generate/Emit.antt =====
-- generator.go: `scopeFor`, `emitSpan`, and the identifiers.
pub mod Made
pub mod Laws
use spangen.Base.{
  ℕ, zero, suc, ◌+◌, ◌/◌, ◌%◌, List, [], ◌∷◌, ◌++◌, map, Option, none, some, Bool, true, false,
  Text, codes, length, replicate, get_elem?, ◌==◌, if◌then◌else◌,
}
use spangen.Base.Int.{ℤ, ◌+ℤ◌, quot_ℤ, to_u64}
use spangen.Base.State.{M, ◌>>=◌, ◌>>◌, pure, or_panic}
use spangen.Model.{Source}
use spangen.Model.Draw.{draw_float, draw_u64}
use spangen.Model.Catalog.{Operation, Service, Catalog}
use spangen.Model.Spans.{Value, str, Event, Span, ResourceSpans, status_unset, status_error, Pdata}
use spangen.Model.Generate.{Settings, State, on_rng}
use spangen.Model.Generate.Attributes.{apply_attributes, exception_event, info_event}

-- `binary.LittleEndian.PutUint64`, for n bytes.
unfoldable pub le_bytes : ℕ → ℕ → List ℕ
le_bytes zero v = []
le_bytes (suc n) v = v % 256 ∷ le_bytes n (v / 256)

-- `id.IsEmpty()`: "returns true if id contains only zero bytes"
unfoldable pub is_empty_id : List ℕ → Bool
is_empty_id [] = true
is_empty_id (b ∷ id) = if b == 0 then is_empty_id id else false

abbrev pub no_span_id : List ℕ
no_span_id = replicate 8 0

unfoldable pub parent_of : List ℕ → List ℕ
parent_of parent = if is_empty_id parent then no_span_id else parent

unfoldable pub find_scope : ℕ → List (ℕ × ℕ) → Option ℕ
find_scope svc [] = none
find_scope svc ((s, k) ∷ scopes) = if s == svc then some k else find_scope svc scopes

-- The resource of a service, with one scope that has no span yet.
unfoldable pub resource_of : {F : Type 0} → Catalog F → Service F → ResourceSpans
resource_of cat s = record {
  attributes = map (λ kv. (kv.0, str kv.1)) s.resource_attrs;
  scopes =
      (record { name = cat.scope_name; version = cat.scope_ver; attributes = []; spans = [] }) ∷ [];
}

module _ (o : Source) where
  open o use {Float, Rng, less}

  unfoldable pub fill_trace_id : M Rng (List ℕ)
  unfolding le_bytes
  fill_trace_id = do a ← draw_u64 o; b ← draw_u64 o; pure (le_bytes 8 a ++ le_bytes 8 b)

  unfoldable pub fill_span_id : M Rng (List ℕ)
  unfolding le_bytes
  fill_span_id = do a ← draw_u64 o; pure (le_bytes 8 a)

  unfoldable pub processing : ℤ → ℤ → M Rng (List Event)
  processing start dur = do e ← info_event o (to_u64 (start +ℤ quot_ℤ dur 3)); pure (e ∷ [])

  -- The event of a span, for an error and for success.
  unfoldable pub span_events : Float → ℤ → ℤ → Bool → M Rng (List Event)
  span_events event_rate start dur true = do
    e ← exception_event o (to_u64 (start +ℤ quot_ℤ dur 2))
    pure (e ∷ [])
  span_events event_rate start dur false = do
    y ← draw_float o
    if less y event_rate then processing start dur else pure []

  -- The span that `emitSpan` fills, its draws in their order.
  unfoldable pub make_span : Settings Float → List ℕ → List ℕ → Operation Float → ℤ → ℤ → M Rng Span
  unfolding parent_of
  make_span settings trace_id parent op start dur = do
    id ← fill_span_id
    x ← draw_float o
    attributes ← apply_attributes o op (less x settings.error_rate)
    events ← span_events settings.event_rate start dur (less x settings.error_rate)
    pure (record {
      trace_id = trace_id;
      span_id = id;
      parent = parent_of parent;
      trace_state = [];
      name = op.name;
      kind = op.kind;
      start = to_u64 start;
      end = to_u64 (start +ℤ dur);
      attributes = attributes;
      code = if less x settings.error_rate then status_error else status_unset;
      message = if less x settings.error_rate then codes "operation failed" else [];
      events = events;
      links = [];
    })

module _ (o : Source) (p : Pdata) (settings : Settings o.Float) where
  -- The first use of a service in a batch adds its resource.
  unfoldable pub add_scope : Service o.Float → ℕ → M (State o p) ℕ
  unfolding resource_of
  add_scope service svc s =
      let k = length (p.resource_spans s.td) in
      some (
        k,
        record s {
          td = p.add_resource (resource_of settings.cat service) s.td;
          scopes = s.scopes ++ (svc, k) ∷ [];
        },
      )

  unfoldable pub scope_for : ℕ → M (State o p) ℕ
  unfolding find_scope
  scope_for svc s = elim (find_scope svc s.scopes) [
    | some k ↦ some (k, s)
    | none ↦ (or_panic (get_elem? settings.cat.services svc) >>= λ service. add_scope service svc) s
  ]

  -- Into the spans at position k, noting the identifier.
  unfoldable pub add_made : ℕ → Span → M (State o p) (Unit {0})
  add_made k sp s = some (tt, record s { td = p.add_span k sp s.td; last_span_id = sp.span_id })

  unfoldable pub emit_span :
      List ℕ → List ℕ → Service o.Float → Operation o.Float → ℤ → ℤ → M (State o p) (Unit {0})
  emit_span trace_id parent service op start dur = do
    k ← scope_for service.idx
    sp ← on_rng (make_span o settings trace_id parent op start dur)
    add_made k sp
