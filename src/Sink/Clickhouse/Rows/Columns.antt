-- ===== src/Sink/Clickhouse/Rows/Columns.antt =====
-- The columns that the INSERT statement names, and the cells that a row has for them.
use spangen.Base.{
  ℕ, ◌≡◌, refl, ap, ◌∙◌, List, [], ◌∷◌, ◌++◌, map, Option, none, some, Bool, true, false, Text,
  codes, text_eq, ◌==◌, if◌then◌else◌, arith,
}
use spangen.Base.Int.{to_i64}
use spangen.Base.Fields.{split, trim_space}
use spangen.Base.Fields.Laws.{Lacks}
use spangen.Model.Spans.{Value, Event, Link, Span}
use spangen.Sink.Clickhouse.Rows.{
  Codec, Cell, time, text, u64, i64, attrs, times, texts, maps, trace_hex, span_hex, duration,
  Context, attr_map, json_attr, events_with, links_with, events, links, events_json, links_json,
  append_span_map, append_span_json, append_span, json_columns, map_columns, build_insert_sql,
}

-- The columns of otel_traces.
pub data Column : Type 0 where
  timestamp trace_id span_id parent_span_id trace_state span_name span_kind service_name : Column
  resource_attributes scope_name scope_version scope_attributes span_attributes duration_ns : Column
  status_code status_message events_timestamp events_name events_attributes : Column
  links_trace_id links_span_id links_trace_state links_attributes : Column

unfoldable pub column_name : Column → Text
column_name timestamp = codes "Timestamp"
column_name trace_id = codes "TraceId"
column_name span_id = codes "SpanId"
column_name parent_span_id = codes "ParentSpanId"
column_name trace_state = codes "TraceState"
column_name span_name = codes "SpanName"
column_name span_kind = codes "SpanKind"
column_name service_name = codes "ServiceName"
column_name resource_attributes = codes "ResourceAttributes"
column_name scope_name = codes "ScopeName"
column_name scope_version = codes "ScopeVersion"
column_name scope_attributes = codes "ScopeAttributes"
column_name span_attributes = codes "SpanAttributes"
column_name duration_ns = codes "Duration"
column_name status_code = codes "StatusCode"
column_name status_message = codes "StatusMessage"
column_name events_timestamp = codes "Events.Timestamp"
column_name events_name = codes "Events.Name"
column_name events_attributes = codes "Events.Attributes"
column_name links_trace_id = codes "Links.TraceId"
column_name links_span_id = codes "Links.SpanId"
column_name links_trace_state = codes "Links.TraceState"
column_name links_attributes = codes "Links.Attributes"

-- What follows the first c, and what stands before it.
unfoldable pub after_first : ℕ → Text → Option Text
after_first c [] = none
after_first c (d ∷ s) = if d == c then some s else after_first c s

unfoldable pub before_first : ℕ → Text → Text
before_first c [] = []
before_first c (d ∷ s) = let rest = before_first c s in if d == c then [] else d ∷ rest

-- The names in what follows the parenthesis.
unfoldable names_in : Option Text → Option (List Text)
names_in none = none
names_in (some rest) = some (map trim_space (split (before_first b')' rest) b','))

-- The names between the first parenthesis and the next.
unfoldable pub columns_of : Text → Option (List Text)
unfolding after_first names_in
columns_of sql = names_in (after_first b'(' sql)

module _ (c : Codec) where
  -- Attributes in a cell: a map, or in the json schema a JSON object.
  unfoldable pub attrs_cell : Bool → List (Text × Text) → Cell
  attrs_cell true m = text (json_attr c m)
  attrs_cell false m = attrs m

  unfoldable pub list_cell : Bool → List (List (Text × Value)) → Cell
  list_cell true ms = texts (map (λ m. json_attr c (attr_map c m)) ms)
  list_cell false ms = maps (map (attr_map c) ms)

  unfoldable pub duration_cell : Bool → ℕ → Cell
  duration_cell true n = i64 (to_i64 n)
  duration_cell false n = u64 n

  -- What a column holds for a span, in the json schema or in the other.
  unfoldable pub cell_of : Bool → Context → Span → Column → Cell
  unfolding attrs_cell list_cell duration_cell
  cell_of json x sp timestamp = time sp.start
  cell_of json x sp trace_id = text (trace_hex sp.trace_id)
  cell_of json x sp span_id = text (span_hex sp.span_id)
  cell_of json x sp parent_span_id = text (span_hex sp.parent)
  cell_of json x sp trace_state = text sp.trace_state
  cell_of json x sp span_name = text sp.name
  cell_of json x sp span_kind = text (c.kind_string sp.kind)
  cell_of json x sp service_name = text x.svc_name
  cell_of json x sp resource_attributes = attrs_cell json x.res_attrs
  cell_of json x sp scope_name = text x.scope_name
  cell_of json x sp scope_version = text x.scope_ver
  cell_of json x sp scope_attributes = attrs_cell json x.scope_attrs
  cell_of json x sp span_attributes = attrs_cell json (attr_map c sp.attributes)
  cell_of json x sp duration_ns = duration_cell json (duration sp)
  cell_of json x sp status_code = text (c.code_string sp.code)
  cell_of json x sp status_message = text sp.message
  cell_of json x sp events_timestamp = times (map (λ (e : Event). e.timestamp) sp.events)
  cell_of json x sp events_name = texts (map (λ (e : Event). e.name) sp.events)
  cell_of json x sp events_attributes = list_cell json (map (λ (e : Event). e.attributes) sp.events)
  cell_of json x sp links_trace_id = texts (map (λ (l : Link). trace_hex l.trace_id) sp.links)
  cell_of json x sp links_span_id = texts (map (λ (l : Link). span_hex l.span_id) sp.links)
  cell_of json x sp links_trace_state = texts (map (λ (l : Link). l.trace_state) sp.links)
  cell_of json x sp links_attributes = list_cell json (map (λ (l : Link). l.attributes) sp.links)

-- The columns in the order of each schema.
unfoldable pub order : Bool → List Column
order true =
    timestamp ∷ trace_id ∷ span_id ∷ parent_span_id ∷ trace_state ∷ span_name ∷ span_kind
    ∷ service_name ∷ duration_ns ∷ status_code ∷ status_message ∷ resource_attributes
    ∷ span_attributes ∷ scope_attributes ∷ scope_name ∷ scope_version ∷ links_trace_id
    ∷ links_span_id ∷ links_trace_state ∷ links_attributes ∷ events_timestamp ∷ events_name
    ∷ events_attributes ∷ []
order false =
    timestamp ∷ trace_id ∷ span_id ∷ parent_span_id ∷ trace_state ∷ span_name ∷ span_kind
    ∷ service_name ∷ resource_attributes ∷ scope_name ∷ scope_version ∷ span_attributes
    ∷ duration_ns ∷ status_code ∷ status_message ∷ events_timestamp ∷ events_name
    ∷ events_attributes ∷ links_trace_id ∷ links_span_id ∷ links_trace_state ∷ links_attributes ∷ []

after_first-append : (c : ℕ) (a s : Text) → Lacks c a → after_first c (a ++ s) ≡ after_first c s
unfolding after_first
after_first-append c [] s h = refl
after_first-append c (d ∷ a) s h = ground (arith, after_first-append c a s h.1)

-- The statement names the columns of its schema in that order.
columns_text : Bool → Text
columns_text json = if json then json_columns else map_columns

listed :
    (json : Bool)
    → map trim_space (split (before_first b')' (b'\n' ∷ columns_text json ++ codes ")")) b',')
      ≡ map column_name (order json)
unfolding split trim_space column_name order columns_text before_first
listed true = refl
listed false = refl

-- What follows the parenthesis, whatever the names of the database and the table.
after_names :
    (db table columns : Text)
    → Lacks b'(' db
    → Lacks b'(' table
    → after_first b'('
        (codes "INSERT INTO `" ++ (db ++ (codes "`.`" ++ (table ++ (codes "` (\n" ++ columns)))))
      ≡ some (b'\n' ∷ columns)
unfolding after_first
after_names db table columns hd ht =
    after_first-append b'(' db (codes "`.`" ++ (table ++ (codes "` (\n" ++ columns))) hd ∙ behind
  where
    behind :
        after_first b'(' (codes "`.`" ++ (table ++ (codes "` (\n" ++ columns)))
        ≡ some (b'\n' ∷ columns)
    behind = after_first-append b'(' table (codes "` (\n" ++ columns) ht

columns_of-build_insert_sql :
    (db table schema : Text)
    → Lacks b'(' db
    → Lacks b'(' table
    → columns_of (build_insert_sql db table schema)
      ≡ some (map column_name (order (text_eq schema (codes "json"))))
unfolding columns_of build_insert_sql columns_text names_in
columns_of-build_insert_sql db table schema hd ht =
    ap names_in
      (after_names db table (columns_text (text_eq schema (codes "json")) ++ codes ")") hd ht)
    ∙ ap some (listed (text_eq schema (codes "json")))

map-map {ℓ κ μ} :
    {A : Type ℓ} {B : Type κ} {C : Type μ} (f : A → B) (g : B → C) (xs : List A)
    → map (λ x. g (f x)) xs ≡ map g (map f xs)
map-map f g [] = refl
map-map f g (x ∷ xs) = ap (◌∷◌ (g (f x))) (map-map f g xs)

module _ (c : Codec) where
  row_ordered :
      (json : Bool) (x : Context) (sp : Span)
      → append_span c json x sp ≡ map (cell_of c json x sp) (order json)
  unfolding append_span append_span_map append_span_json events links events_json links_json
      events_with links_with cell_of order attrs_cell list_cell duration_cell
  row_ordered true x sp =
      rw
        (
          map-map (λ (e : Event). e.attributes) (λ m. json_attr c (attr_map c m)) sp.events,
          map-map (λ (l : Link). l.attributes) (λ m. json_attr c (attr_map c m)) sp.links,
        )
        refl
  row_ordered false x sp =
      rw
        (
          map-map (λ (e : Event). e.attributes) (attr_map c) sp.events,
          map-map (λ (l : Link). l.attributes) (attr_map c) sp.links,
        )
        refl

-- The statement and the rows agree: for every schema and every span, the columns that the INSERT names
-- are, one for one and in order, those whose cells the row has. The names of the database and of the
-- table are without a parenthesis.
pub append_span-columns :
    (c : Codec) (db table schema : Text) (x : Context) (sp : Span)
    → Lacks b'(' db
    → Lacks b'(' table
    → (cs : List Column) × (columns_of (build_insert_sql db table schema)
        ≡ some (map column_name cs))
      × (append_span c (text_eq schema (codes "json")) x sp
          ≡ map (cell_of c (text_eq schema (codes "json")) x sp) cs)
append_span-columns c db table schema x sp hd ht = (
  order (text_eq schema (codes "json")),
  columns_of-build_insert_sql db table schema hd ht,
  row_ordered c (text_eq schema (codes "json")) x sp,
)
