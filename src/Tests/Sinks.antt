-- ===== src/Tests/Sinks.antt =====
-- The sinks at concrete inputs.
use spangen.Base.{
  ℕ, zero, suc, ◌<◌, ◌≡◌, List, [], ◌∷◌, ◌++◌, map, none, some, false, Text, codes, text_eq, length,
  get_elem?, arith,
}
use spangen.Base.Int.{pos}
use spangen.Base.Result.{Result}
use spangen.Model.Catalog.{kind_server}
use spangen.Model.Spans.{Span, ResourceSpans, status_unset}
use spangen.Sink.Clickhouse.Rows.{Codec, Context, append_span, build_insert_sql}
use spangen.Sink.Clickhouse.Rows.Columns.{
  Column, columns_of, column_name, cell_of, append_span-columns,
}
use spangen.Sink.Clickhouse.Pick.{position, counter_behind, picks, picks-visits}
use spangen.Sink.Clickhouse.Send.{Client, BatchCall, SendError, ChSink, State, send}
use spangen.Sink.Clickhouse.Send.Rows.{rows_of}
use spangen.Sink.Clickhouse.Send.Laws.{Outcome, send-Outcome}
use spangen.Sink.Clickhouse.Native.{native_client}
use spangen.Sink.Clickhouse.Http.{Database, http_client}
use spangen.Sink.Clickhouse.Http.Laws.{open_txs, open_stmts, send-http_client}

abbrev pub codec : Codec
codec = record {
  as_string = λ v. codes "v";
  kind_string = λ k. codes "Server";
  code_string = λ c. codes "Unset";
  marshal = λ m. some (codes "json");
}

abbrev span : Span
span = record {
  trace_id = 1 ∷ [];
  span_id = 2 ∷ [];
  parent = 0 ∷ [];
  trace_state = [];
  name = codes "GET /";
  kind = kind_server;
  start = 5;
  end = 9;
  attributes = [];
  code = status_unset;
  message = [];
  events = [];
  links = [];
}

abbrev pub batch : List ResourceSpans
batch =
    (record {
      attributes = [];
      scopes =
          (record { name = codes "s"; version = []; attributes = []; spans = span ∷ span ∷ [] })
          ∷ [];
    })
    ∷ []

abbrev nothing_known : Context
nothing_known = record {
  res_attrs = [];
  scope_attrs = [];
  svc_name = [];
  scope_name = [];
  scope_ver = [];
}

append_span-columns_example :
    (cs : List Column) × (columns_of (build_insert_sql (codes "d") (codes "t") (codes "json"))
      ≡ some (map column_name cs))
    × (append_span codec (text_eq (codes "json") (codes "json")) nothing_known span
        ≡ map (cell_of codec (text_eq (codes "json") (codes "json")) nothing_known span) cs)
append_span-columns_example =
    append_span-columns codec (codes "d") (codes "t") (codes "json") nothing_known span
      (omega arith, tt) (omega arith, tt)

picks-visits_example :
    (cs : List ℕ) × (picks 2 (7 ∷ 8 ∷ []) 4 ≡ some (cs, 6))
    × (length cs ≡ 2)
    × ((i : ℕ) → i < 2 → (j : ℕ) × (get_elem? cs j ≡ get_elem? (7 ∷ 8 ∷ []) i))
picks-visits_example = picks-visits (7 ∷ 8 ∷ []) 4 (omega arith) (omega arith)

-- A native driver that refuses the second row: the world counts the rows.
abbrev pub picky : Client
picky = native_client (record {
  World = ℕ;
  Conn = Text;
  Err = Text;
  prepare_batch = λ conn sql release w. (none, w);
  append = λ row w. elim w [ zero ↦ (none, 1) | suc n ↦ (some (codes "full"), suc n) ];
  send = λ w. (none, w);
  abort = λ w. (none, w);
})

abbrev pub one_conn : ChSink Text
one_conn = record {
  conns = codes "a:9000" ∷ [];
  insert_sql = codes "INSERT";
  json_attrs = false;
  send_timeout = pos 1;
}

abbrev pub idle : State codec picky
idle = record { next = 0; world = 0; calls = [] }

send-Outcome_example :
    (conn : Text) × (r : Result (SendError Text) (Unit {0})) × (t : State codec picky)
    × (made : List (BatchCall Text)) × (send codec picky one_conn batch idle ≡ some (r, t))
    × (get_elem? (codes "a:9000" ∷ []) (position 1 0) ≡ some conn)
    × (t.next ≡ counter_behind 1 0)
    × (t.calls ≡ [] ++ made)
    × Outcome codec picky conn (codes "INSERT") (rows_of codec false batch) 0 r made t.world
send-Outcome_example = send-Outcome codec picky one_conn batch idle (omega arith)

-- A database that accepts all.
abbrev accepting : Database
accepting = record {
  World = ℕ;
  Conn = Text;
  Err = Text;
  begin_tx = λ conn w. (none, w);
  prepare_stmt = λ sql w. (none, w);
  exec_stmt = λ row w. (none, w);
  commit_tx = λ w. (none, w);
  rollback_tx = λ w. w;
  close_stmt = λ w. w;
}

abbrev idle_http : State codec (http_client accepting)
idle_http = record { next = 0; world = record { world = 0; calls = [] }; calls = [] }

send-http_client_example :
    (r : Result (SendError Text) (Unit {0})) × (t : State codec (http_client accepting)) × (send
        codec
        (http_client accepting)
        one_conn
        batch
        idle_http
      ≡ some (r, t))
    × (open_txs t.world.calls ≡ open_txs [])
    × (open_stmts t.world.calls ≡ open_stmts [])
send-http_client_example = send-http_client accepting codec one_conn batch idle_http (omega arith)
