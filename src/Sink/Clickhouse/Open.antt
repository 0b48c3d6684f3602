-- ===== src/Sink/Clickhouse/Open.antt =====
-- clickhouse.go: `NewClickHouse`, `Close`, and the options of a connection.
pub mod Connections
pub mod Laws
pub mod Settings
use spangen.Base.{
  ℕ, ◌+◌, ◌%◌, ◌^◌, List, [], ◌∷◌, ◌++◌, Option, none, some, Bool, true, false, not, Text, codes,
  text_eq, length, ◌==◌, if◌then◌else◌,
}
use spangen.Base.Int.{ℤ, pos, pos_part, ltb_ℤ, rem_ℤ, to_u64}
use spangen.Base.Result.{Result, ok, err}
use spangen.Config.{ChConfig}
use spangen.Config.Lists.{insert}
use spangen.Sink.Clickhouse.Rows.{build_insert_sql}
use spangen.Sink.Clickhouse.Send.{ChSink}

pub data Protocol : Type 0 where
  native http : Protocol

pub data Compression : Type 0 where
  zstd gzip no_compression lz4 : Compression

unfoldable pub ch_protocol : Text → Protocol
ch_protocol p = if text_eq p (codes "http") then http else native

unfoldable pub build_compression : Text → Compression
build_compression method =
    if text_eq method (codes "zstd")
    then zstd
    else if text_eq method (codes "gzip")
    then gzip
    else if text_eq method (codes "none")
    then no_compression
    else lz4

unfoldable pub clamp_u8 : ℤ → ℤ
clamp_u8 n = if ltb_ℤ n (pos 1) then pos 1 else if ltb_ℤ (pos 255) n then pos 255 else n

unfoldable pub clamp_min1 : ℤ → ℤ
clamp_min1 n = if ltb_ℤ n (pos 1) then pos 1 else n

-- `st[k] = v` where the test holds.
abbrev set_if : Bool → Text → ℤ → List (Text × ℤ) → List (Text × ℤ)
set_if test k v st = if test then insert k v st else st

unfoldable pub build_settings : ChConfig → List (Text × ℤ)
build_settings ch =
    let json : List (Text × ℤ) =
      set_if (text_eq ch.schema (codes "json")) (codes "output_format_native_write_json_as_string")
        (pos 1) [] in
    let waiting : List (Text × ℤ) =
      insert (codes "wait_for_async_insert") (if ch.wait_for_async then pos 1 else pos 0)
        (insert (codes "async_insert") (pos 1) json) in
    let sized : List (Text × ℤ) =
      set_if (ltb_ℤ (pos 0) ch.async_max_data_size) (codes "async_insert_max_data_size")
        ch.async_max_data_size waiting in
    let timed : List (Text × ℤ) =
      set_if (ltb_ℤ (pos 0) ch.async_busy_timeout_ms) (codes "async_insert_busy_timeout_ms")
        ch.async_busy_timeout_ms sized in
    if ch.async then timed else json

pub record Options : Type 0 where
  pub addr : List Text
  pub database : Text
  pub username : Text
  pub password : Text
  pub protocol : Protocol
  pub dial_timeout : ℤ
  pub max_open_conns : ℤ
  pub max_idle_conns : ℤ
  pub block_buffer_size : ℕ
  pub settings : List (Text × ℤ)
  pub compression : Compression
  pub insecure_tls : Bool

-- `mkOpts`. The buffer is converted to uint8.
unfoldable pub mk_opts : ChConfig → List Text → Options
unfolding ch_protocol build_compression clamp_u8 build_settings
mk_opts ch addrs = record {
  addr = addrs;
  database = ch.database;
  username = ch.username;
  password = ch.password;
  protocol = ch_protocol ch.protocol;
  dial_timeout = ch.dial_timeout;
  max_open_conns = ch.max_open_conns;
  max_idle_conns = ch.max_open_conns;
  block_buffer_size = to_u64 (clamp_u8 ch.block_buffer) % 256;
  settings = build_settings ch;
  compression = build_compression ch.compression;
  insecure_tls = ch.tls;
}

-- The driver: `clickhouse.Open`, `clickhouse.OpenDB`, the pool of a *sql.DB, `Ping` and `Close`, and
-- whether the text of an error contains "unexpected packet [72]".
pub record Driver : Type 1 where
  pub World : Type 0
  pub Conn : Type 0
  pub Err : Type 0
  pub open_native : Options → World → Result Err Conn × World
  pub open_db : Options → World → Conn × World
  pub set_max_open_conns : ℤ → Conn → World → World
  pub set_max_idle_conns : ℤ → Conn → World → World
  pub ping : Conn → World → Option Err × World
  pub close : Conn → World → Option Err × World
  pub is_http_answer : Err → Bool

-- An endpoint that does not open, or a ping that fails, with the hint or without.
pub data OpenError (E : Type 0) : Type 0 where
  open_shard : Text → E → OpenError E
  open_all : E → OpenError E
  ping_failed : E → Bool → OpenError E

abbrev pub is_roundrobin : ChConfig → Bool
is_roundrobin ch = text_eq ch.mode (codes "shard-roundrobin")

-- The counter at the start: `replicaIndex % len(s.conns)` where batches are rotated.
unfoldable pub first_next : {C : Type 0} → ChConfig → ℤ → List C → ℕ
first_next ch replica conns =
    if is_roundrobin ch
    then (if length conns == 0 then 0 else to_u64 (rem_ℤ replica (length conns)))
    else 0

unfoldable pub sink_of : {C : Type 0} → ChConfig → List C → ChSink C
unfolding build_insert_sql
sink_of ch conns = record {
  conns = conns;
  insert_sql = build_insert_sql ch.database ch.table ch.schema;
  json_attrs = text_eq ch.schema (codes "json");
  send_timeout = ch.send_timeout;
}

module _ (d : Driver) where
  open d use {World, Conn, Err}

  -- The HTTP protocol has the sizes of its pool set on the *sql.DB, and zero in the options.
  unfoldable pub open_http : ChConfig → List Text → World → Conn × World
  unfolding mk_opts clamp_min1
  open_http ch addrs w =
      let (db, w1) =
        d.open_db (record (mk_opts ch addrs) { max_open_conns = pos 0; max_idle_conns = pos 0 })
          w in
      let w2 = d.set_max_open_conns (clamp_min1 ch.max_open_conns) db w1 in
      (db, d.set_max_idle_conns (clamp_min1 ch.max_open_conns) db w2)

  unfoldable pub open_one : ChConfig → List Text → World → Result Err Conn × World
  unfolding open_http mk_opts ch_protocol
  open_one ch addrs w = elim (ch_protocol ch.protocol) [
    | http ↦ let (db, w1) = open_http ch addrs w in (ok db, w1)
    | native ↦ d.open_native (mk_opts ch addrs) w
  ]

  -- A connection behind those that are open.
  abbrev pub join_conn :
      Conn → Result (OpenError Err) (List Conn) × World → Result (OpenError Err) (List Conn) × World
  join_conn conn (ok conns, w) = (ok (conn ∷ conns), w)
  join_conn conn (err e, w) = (err e, w)

  abbrev pub after_open :
      Text
      → (World → Result (OpenError Err) (List Conn) × World)
      → Result Err Conn × World
      → Result (OpenError Err) (List Conn) × World
  after_open ep rest (ok conn, w) = join_conn conn (rest w)
  after_open ep rest (err e, w) = (err (open_shard ep e), w)

  -- The loop over the endpoints; it stops at the first that does not open.
  unfoldable pub open_each :
      ChConfig → List Text → World → Result (OpenError Err) (List Conn) × World
  open_each ch [] w = (ok [], w)
  open_each ch (ep ∷ eps) w = after_open ep (open_each ch eps) (open_one ch (ep ∷ []) w)

  abbrev pub one_conn : Result Err Conn × World → Result (OpenError Err) (List Conn) × World
  one_conn (ok conn, w) = (ok (conn ∷ []), w)
  one_conn (err e, w) = (err (open_all e), w)

  unfoldable pub open_conns : ChConfig → World → Result (OpenError Err) (List Conn) × World
  open_conns ch w =
      if is_roundrobin ch
      then open_each ch ch.endpoints w
      else one_conn (open_one ch ch.endpoints w)

  abbrev pub pinged :
      ChConfig
      → ℤ
      → List Conn
      → Option Err × World
      → Result (OpenError Err) (ChSink Conn × ℕ) × World
  pinged ch replica conns (none, w) = (ok (sink_of ch conns, first_next ch replica conns), w)
  pinged ch replica conns (some e, w) = (err (ping_failed e (d.is_http_answer e)), w)

  -- The ping of `s.conns[0]`, which panics where there is none.
  abbrev pub check_first :
      ChConfig
      → ℤ
      → Result (OpenError Err) (List Conn) × World
      → Option (Result (OpenError Err) (ChSink Conn × ℕ) × World)
  check_first ch replica (err e, w) = some (err e, w)
  check_first ch replica (ok [], w) = none
  check_first ch replica (ok (conn ∷ conns), w) =
      some (pinged ch replica (conn ∷ conns) (d.ping conn w))

  -- The sink with its counter, an error, or a panic.
  unfoldable pub new_clickhouse :
      ChConfig → ℤ → World → Option (Result (OpenError Err) (ChSink Conn × ℕ) × World)
  new_clickhouse ch replica w = check_first ch replica (open_conns ch w)

  -- `Close`: every connection is closed, and the first error returned.
  unfoldable pub close_loop : List Conn → Option Err → World → Option Err × World
  close_loop [] first w = (first, w)
  close_loop (conn ∷ conns) first w =
      let (e, w1) = d.close conn w in
      close_loop conns (elim first [ none ↦ e | some f ↦ some f ]) w1

  unfoldable pub close_sink : ChSink Conn → World → Option Err × World
  unfolding close_loop
  close_sink sink w = close_loop sink.conns none w
