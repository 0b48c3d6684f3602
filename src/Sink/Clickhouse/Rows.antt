-- ===== src/Sink/Clickhouse/Rows.antt =====
-- clickhouse.go: the INSERT statement and the row of a span, in both schemas.
pub mod Columns
use spangen.Base.{
  ℕ, ◌+◌, ◌-◌, ◌/◌, ◌%◌, ◌^◌, List, [], ◌∷◌, ◌++◌, map, Option, none, some, Bool, true, false, Text,
  codes, text_eq, if◌then◌else◌,
}
use spangen.Base.Int.{ℤ, to_i64}
use spangen.Base.Format.{hex_digit}
use spangen.Config.Lists.{lookup, insert}
use spangen.Model.Catalog.{SpanKind}
use spangen.Model.Spans.{Value, StatusCode, Event, Link, Span}
use spangen.Model.Generate.Emit.{is_empty_id}

-- What the rows take from pdata and from encoding/json: `AsString`, the two `String`s, and
-- `json.Marshal` of a map, which may fail.
pub record Codec : Type 0 where
  pub as_string : Value → Text
  pub kind_string : SpanKind → Text
  pub code_string : StatusCode → Text
  pub marshal : List (Text × Text) → Option Text

-- An argument of `Append`. A nil slice is an empty list.
pub data Cell : Type 0 where
  time : ℕ → Cell
  text : Text → Cell
  u64 : ℕ → Cell
  i64 : ℤ → Cell
  attrs : List (Text × Text) → Cell
  times : List ℕ → Cell
  texts : List Text → Cell
  maps : List (List (Text × Text)) → Cell

unfoldable pub hex_bytes : List ℕ → Text
hex_bytes [] = []
hex_bytes (b ∷ id) = hex_digit (b / 16) ∷ hex_digit (b % 16) ∷ hex_bytes id

unfoldable pub trace_hex : List ℕ → Text
unfolding hex_bytes
trace_hex id = if is_empty_id id then [] else hex_bytes id

unfoldable pub span_hex : List ℕ → Text
unfolding hex_bytes
span_hex id = if is_empty_id id then [] else hex_bytes id

-- `sp.EndTimestamp()-sp.StartTimestamp()`
unfoldable pub duration : Span → ℕ
duration sp = (sp.end + 2 ^ 64 - sp.start) % 2 ^ 64

-- What the loops of `Send` know when they reach a span.
pub record Context : Type 0 where
  pub res_attrs : List (Text × Text)
  pub scope_attrs : List (Text × Text)
  pub svc_name : Text
  pub scope_name : Text
  pub scope_ver : Text

pub record Events (A : Type 0) : Type 0 where
  pub ts : List ℕ
  pub names : List Text
  pub attributes : List A

pub record Links (A : Type 0) : Type 0 where
  pub trace_ids : List Text
  pub span_ids : List Text
  pub states : List Text
  pub attributes : List A

module _ (c : Codec) where
  -- The loop of `attrMap`, over the map that it fills.
  unfoldable pub attr_loop : List (Text × Value) → List (Text × Text) → List (Text × Text)
  attr_loop [] out = out
  attr_loop ((k, v) ∷ m) out = attr_loop m (insert k (c.as_string v) out)

  unfoldable pub attr_map : List (Text × Value) → List (Text × Text)
  unfolding attr_loop
  attr_map m = attr_loop m []

  unfoldable pub json_attr : List (Text × Text) → Text
  json_attr [] = codes "{}"
  json_attr (kv ∷ m) = elim (c.marshal (kv ∷ m)) [ none ↦ codes "{}" | some s ↦ s ]

  -- The slices that `events` fills, with a rendering of the attributes: `attrMap`, or its JSON.
  unfoldable pub events_with : {A : Type 0} → (List (Text × Value) → A) → List Event → Events A
  events_with f es = record {
    ts = map (λ (e : Event). e.timestamp) es;
    names = map (λ (e : Event). e.name) es;
    attributes = map (λ (e : Event). f e.attributes) es;
  }

  unfoldable pub links_with : {A : Type 0} → (List (Text × Value) → A) → List Link → Links A
  links_with f ls = record {
    trace_ids = map (λ (l : Link). trace_hex l.trace_id) ls;
    span_ids = map (λ (l : Link). span_hex l.span_id) ls;
    states = map (λ (l : Link). l.trace_state) ls;
    attributes = map (λ (l : Link). f l.attributes) ls;
  }

  unfoldable pub events : Span → Events (List (Text × Text))
  unfolding events_with
  events sp = events_with attr_map sp.events

  unfoldable pub links : Span → Links (List (Text × Text))
  unfolding links_with
  links sp = links_with attr_map sp.links

  unfoldable pub events_json : Span → Events Text
  unfolding events_with
  events_json sp = events_with (λ m. json_attr (attr_map m)) sp.events

  unfoldable pub links_json : Span → Links Text
  unfolding links_with
  links_json sp = links_with (λ m. json_attr (attr_map m)) sp.links

  unfoldable pub append_span_map : Context → Span → List Cell
  unfolding trace_hex span_hex events links duration
  append_span_map x sp =
      let ev = events sp in
      let lk = links sp in
      time sp.start
      ∷ text (trace_hex sp.trace_id)
      ∷ text (span_hex sp.span_id)
      ∷ text (span_hex sp.parent)
      ∷ text sp.trace_state
      ∷ text sp.name
      ∷ text (c.kind_string sp.kind)
      ∷ text x.svc_name
      ∷ attrs x.res_attrs
      ∷ text x.scope_name
      ∷ text x.scope_ver
      ∷ attrs (attr_map sp.attributes)
      ∷ u64 (duration sp)
      ∷ text (c.code_string sp.code)
      ∷ text sp.message
      ∷ times ev.ts
      ∷ texts ev.names
      ∷ maps ev.attributes
      ∷ texts lk.trace_ids
      ∷ texts lk.span_ids
      ∷ texts lk.states
      ∷ maps lk.attributes
      ∷ []

  unfoldable pub append_span_json : Context → Span → List Cell
  unfolding trace_hex span_hex events_json links_json duration
  append_span_json x sp =
      let ev = events_json sp in
      let lk = links_json sp in
      time sp.start
      ∷ text (trace_hex sp.trace_id)
      ∷ text (span_hex sp.span_id)
      ∷ text (span_hex sp.parent)
      ∷ text sp.trace_state
      ∷ text sp.name
      ∷ text (c.kind_string sp.kind)
      ∷ text x.svc_name
      ∷ i64 (to_i64 (duration sp))
      ∷ text (c.code_string sp.code)
      ∷ text sp.message
      ∷ text (json_attr x.res_attrs)
      ∷ text (json_attr (attr_map sp.attributes))
      ∷ text (json_attr x.scope_attrs)
      ∷ text x.scope_name
      ∷ text x.scope_ver
      ∷ texts lk.trace_ids
      ∷ texts lk.span_ids
      ∷ texts lk.states
      ∷ texts lk.attributes
      ∷ times ev.ts
      ∷ texts ev.names
      ∷ texts ev.attributes
      ∷ []

  -- The row of a span, for `jsonAttrs`.
  unfoldable pub append_span : Bool → Context → Span → List Cell
  append_span true x sp = append_span_json x sp
  append_span false x sp = append_span_map x sp

abbrev pub json_columns : Text
json_columns =
    codes "\n\t\t\tTimestamp, TraceId, SpanId, ParentSpanId, TraceState, SpanName, SpanKind,"
    ++ codes "\n\t\t\tServiceName, Duration, StatusCode, StatusMessage,"
    ++ codes "\n\t\t\tResourceAttributes, SpanAttributes, ScopeAttributes, ScopeName, ScopeVersion,"
    ++ codes "\n\t\t\tLinks.TraceId, Links.SpanId, Links.TraceState, Links.Attributes,"
    ++ codes "\n\t\t\tEvents.Timestamp, Events.Name, Events.Attributes"

abbrev pub map_columns : Text
map_columns =
    codes "\n\t\tTimestamp, TraceId, SpanId, ParentSpanId, TraceState, SpanName, SpanKind,"
    ++ codes "\n\t\tServiceName, ResourceAttributes, ScopeName, ScopeVersion, SpanAttributes,"
    ++ codes "\n\t\tDuration, StatusCode, StatusMessage,"
    ++ codes "\n\t\tEvents.Timestamp, Events.Name, Events.Attributes,"
    ++ codes "\n\t\tLinks.TraceId, Links.SpanId, Links.TraceState, Links.Attributes"

unfoldable pub build_insert_sql : Text → Text → Text → Text
build_insert_sql db table schema =
    let columns = if text_eq schema (codes "json") then json_columns else map_columns in
    codes "INSERT INTO `"
    ++ (db ++ (codes "`.`" ++ (table ++ (codes "` (\n" ++ (columns ++ codes ")")))))
