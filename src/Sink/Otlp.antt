-- ===== src/Sink/Otlp.antt =====
-- internal/sink/otlp.go. gRPC and the OTLP client are the parameter `Grpc`.
pub mod Laws
use spangen.Base.{
  ℕ, zero, suc, ◌*◌, ◌^◌, List, [], ◌∷◌, ◌++◌, Option, none, some, Bool, true, false, not, Text,
  length, if◌then◌else◌,
}
use spangen.Base.Int.{ℤ, pos, pos_part, ltb_ℤ}
use spangen.Base.Result.{Result, ok, err}
use spangen.Config.{OtlpConfig}
use spangen.Sink.Clickhouse.Pick.{pick_client}

-- The options of the calls and of the connections.
pub record Options : Type 0 where
  pub insecure : Bool
  pub use_gzip : Bool
  pub max_send_size : ℕ

-- The answer to an export that did not fail: the spans that the collector rejected, and its message.
pub record PartialSuccess : Type 0 where
  pub rejected : ℤ
  pub message : Text

-- `grpc.NewClient`, `Close`, and `Export` on a connection, with the options and the metadata.
pub record Grpc : Type 1 where
  pub World : Type 0
  pub Conn : Type 0
  pub Err : Type 0
  pub Td : Type 0
  pub new_client : Text → Options → World → Result Err Conn × World
  pub close : Conn → World → World
  pub export : Conn → Options → List (Text × Text) → Td → World → Result Err PartialSuccess × World

pub data SendError (E : Type 0) : Type 0 where
  export_failed : E → SendError E
  spans_rejected : ℤ → Text → SendError E

-- Where the client is built: gzip only if asked for, and a limit of 32 MiB.
unfoldable pub options_of : OtlpConfig → Options
options_of o = record { insecure = o.insecure; use_gzip = o.gzip; max_send_size = 32 * 2 ^ 20 }

module _ (g : Grpc) where
  open g use {World, Conn, Err, Td}

  -- `mdCtx` is nil where there are no headers: then no metadata is sent.
  pub record OtlpSink : Type 0 where
    pub conns : List Conn
    pub timeout : ℤ
    pub metadata : List (Text × Text)
    pub options : Options

  -- Every connection is closed, in order.
  unfoldable pub close_conns : List Conn → World → World
  close_conns [] w = w
  close_conns (conn ∷ conns) w = close_conns conns (g.close conn w)

  abbrev pub after_dial :
      List Conn
      → (List Conn → World → Result Err (List Conn) × World)
      → Result Err Conn × World
      → Result Err (List Conn) × World
  after_dial conns rest (ok conn, w) = rest (conns ++ conn ∷ []) w
  after_dial conns rest (err e, w) = (err e, close_conns conns w)

  -- The loop, over the number of connections left to dial, behind those that are open.
  unfoldable pub dial_loop : ℕ → OtlpConfig → List Conn → World → Result Err (List Conn) × World
  unfolding options_of
  dial_loop zero o conns w = (ok conns, w)
  dial_loop (suc left) o conns w =
      after_dial conns (dial_loop left o) (g.new_client o.endpoint (options_of o) w)

  -- `n < 1` is raised to 1.
  unfoldable pub connections : OtlpConfig → ℕ
  connections o = if ltb_ℤ o.connections (pos 1) then 1 else pos_part o.connections

  abbrev pub dialled : OtlpConfig → Result Err (List Conn) × World → Result Err OtlpSink × World
  dialled o (err e, w) = (err e, w)
  dialled o (ok conns, w) = (
    ok (record {
      conns = conns;
      timeout = o.timeout;
      metadata = o.headers;
      options = options_of o;
    }),
    w,
  )

  unfoldable pub new_otlp : OtlpConfig → World → Result Err OtlpSink × World
  unfolding connections
  new_otlp o w = dialled o (dial_loop (connections o) o [] w)

  -- The answer of the collector: an error, or a rejection of some spans, or neither.
  abbrev pub answer : Result Err PartialSuccess → Result (SendError Err) (Unit {0})
  answer (err e) = err (export_failed e)
  answer (ok ps) =
      if ltb_ℤ (pos 0) ps.rejected then err (spans_rejected ps.rejected ps.message) else ok tt

  -- The sink's counter stands beside its world. `none` is the panic of a sink without a client.
  unfoldable pub send :
      OtlpSink → Td → ℕ → World → Option (Result (SendError Err) (Unit {0}) × ℕ × World)
  send sink td next w = elim (pick_client sink.conns next) [
    | none ↦ none
    | some (conn, after) ↦
        let (r, u) = g.export conn sink.options sink.metadata td w in some (answer r, after, u)
  ]
