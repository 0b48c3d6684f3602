-- ===== src/Sink/Clickhouse/Send.antt =====
-- clickhouse.go: `Send`. The client library is the parameter `Client`; the state keeps the calls that
-- are made on it.
pub mod Rows
pub mod Laws
pub mod Balance
pub mod Store
use spangen.Base.{ℕ, List, [], ◌∷◌, ◌++◌, Option, none, some, Bool, Text, codes}
use spangen.Base.Int.{ℤ}
use spangen.Base.Result.{Result, ok, err}
use spangen.Config.Env.{or_default}
use spangen.Config.Lists.{lookup}
use spangen.Model.Spans.{Span, ScopeSpans, ResourceSpans}
use spangen.Sink.Clickhouse.Rows.{Codec, Cell, Context, attr_map, append_span}
use spangen.Sink.Clickhouse.Pick.{pick}

-- `newBatch`, `Append`, `Send` and `Abort`, with the error or nil; a `Conn` stands for its protocol.
pub record Client : Type 1 where
  pub World : Type 0
  pub Conn : Type 0
  pub Err : Type 0
  pub new_batch : Conn → Text → World → Option Err × World
  pub append : List Cell → World → Option Err × World
  pub send : World → Option Err × World
  pub abort : World → World

pub data BatchCall (C : Type 0) : Type 0 where
  prepare : C → Text → BatchCall C
  append : List Cell → BatchCall C
  commit abort : BatchCall C

-- The wrapped errors of `Send`.
pub data SendError (E : Type 0) : Type 0 where
  prepare_batch append_row send_batch : E → SendError E

pub record ChSink (C : Type 0) : Type 0 where
  pub conns : List C
  pub insert_sql : Text
  pub json_attrs : Bool
  pub send_timeout : ℤ

module _ (c : Codec) where
  -- What is known of a scope, within its resource.
  unfoldable pub context_of : List (Text × Text) → ScopeSpans → Context
  context_of res_attrs scope = record {
    res_attrs = res_attrs;
    scope_attrs = attr_map c scope.attributes;
    svc_name = or_default (lookup (codes "service.name") res_attrs) [];
    scope_name = scope.name;
    scope_ver = scope.version;
  }

module _ (c : Codec) (cl : Client) where
  open cl use {World, Conn, Err}

  pub record State : Type 0 where
    pub next : ℕ
    pub world : World
    pub calls : List (BatchCall Conn)

  unfoldable pub begin : Conn → Text → State → Option Err × State
  begin conn sql s =
      let (e, w) = cl.new_batch conn sql s.world in
      (e, record s { world = w; calls = s.calls ++ prepare conn sql ∷ [] })

  unfoldable pub append_one : List Cell → State → Option Err × State
  append_one row s =
      let (e, w) = cl.append row s.world in
      (e, record s { world = w; calls = s.calls ++ append row ∷ [] })

  unfoldable pub commit_batch : State → Option Err × State
  commit_batch s =
      let (e, w) = cl.send s.world in (e, record s { world = w; calls = s.calls ++ commit ∷ [] })

  unfoldable pub abort_batch : State → State
  abort_batch s = record s { world = cl.abort s.world; calls = s.calls ++ abort ∷ [] }

  -- A loop goes on until the first error.
  abbrev pub go_on : Option Err × State → (State → Option Err × State) → Option Err × State
  go_on (none, s) k = k s
  go_on (some e, s) k = (some e, s)

  unfoldable pub span_loop : Bool → Context → List Span → State → Option Err × State
  span_loop json x [] s = (none, s)
  span_loop json x (sp ∷ sps) s =
      go_on (append_one (append_span c json x sp) s) (span_loop json x sps)

  unfoldable pub scope_loop :
      Bool → List (Text × Text) → List ScopeSpans → State → Option Err × State
  scope_loop json res_attrs [] s = (none, s)
  scope_loop json res_attrs (scope ∷ scopes) s =
      go_on (span_loop json (context_of c res_attrs scope) scope.spans s)
        (scope_loop json res_attrs scopes)

  unfoldable pub resource_loop : Bool → List ResourceSpans → State → Option Err × State
  resource_loop json [] s = (none, s)
  resource_loop json (r ∷ rs) s =
      go_on (scope_loop json (attr_map c r.attributes) r.scopes s) (resource_loop json rs)

  abbrev pub close_batch : Option Err × State → Result (SendError Err) (Unit {0}) × State
  close_batch (none, s) = (ok tt, s)
  close_batch (some e, s) = (err (send_batch e), s)

  -- Behind the loops: commit, or abort after an error.
  abbrev pub conclude : Option Err × State → Result (SendError Err) (Unit {0}) × State
  conclude (none, s) = close_batch (commit_batch s)
  conclude (some e, s) = (err (append_row e), abort_batch s)

  abbrev pub fill :
      Bool → List ResourceSpans → Option Err × State → Result (SendError Err) (Unit {0}) × State
  fill json rs (some e, s) = (err (prepare_batch e), s)
  fill json rs (none, s) = conclude (resource_loop json rs s)

  -- `none` is the panic of a sink without a connection.
  unfoldable pub send :
      ChSink Conn → List ResourceSpans → State → Option (Result (SendError Err) (Unit {0}) × State)
  send sink rs s = elim (pick sink.conns s.next) [
    | none ↦ none
    | some (conn, next) ↦
        some (fill sink.json_attrs rs (begin conn sink.insert_sql (record s { next = next })))
  ]
