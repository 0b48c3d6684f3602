-- ===== src/Model/Generate/Attributes.antt =====
-- generator.go: the attributes and the events of a span, and their pools of values.
pub mod Total
use spangen.Base.{
  ℕ, zero, suc, ◌+◌, List, [], ◌∷◌, ◌++◌, Bool, true, false, Text, codes, text_eq, length,
  if◌then◌else◌,
}
use spangen.Base.Int.{ℤ, pos}
use spangen.Base.Format.{decimal}
use spangen.Base.State.{M, ◌>>=◌, pure}
use spangen.Model.{Source}
use spangen.Model.Draw.{draw, pick}
use spangen.Model.Catalog.{
  OpType, http_server, http_client, db_client, rpc_server, rpc_client, internal, msg_producer,
  msg_consumer, Operation,
}
use spangen.Model.Spans.{Value, str, int, bool, Event}

abbrev pub exception_types : List Text
exception_types =
    codes "java.lang.RuntimeException"
    ∷ codes "context.DeadlineExceeded"
    ∷ codes "sql.ErrNoRows"
    ∷ codes "net.OpError"
    ∷ codes "ValidationError"
    ∷ []

abbrev pub info_stages : List Text
info_stages =
    codes "validate" ∷ codes "enrich" ∷ codes "persist" ∷ codes "publish" ∷ codes "respond" ∷ []

abbrev pub user_agents : List Text
user_agents =
    codes "Mozilla/5.0 (Windows NT 10.0; Win64; x64)"
    ∷ codes "Mozilla/5.0 (Macintosh; Intel Mac OS X 10_15)"
    ∷ codes "curl/8.4.0"
    ∷ codes "okhttp/4.12.0"
    ∷ codes "Go-http-client/2.0"
    ∷ codes "PostmanRuntime/7.36.0"
    ∷ []

abbrev pub error_statuses : List ℕ
error_statuses = 500 ∷ 502 ∷ 503 ∷ 504 ∷ 400 ∷ 404 ∷ []

abbrev pub good_statuses : List ℕ
good_statuses = 200 ∷ 200 ∷ 200 ∷ 201 ∷ 204 ∷ 304 ∷ []

-- UNKNOWN, DEADLINE, INTERNAL, UNAVAILABLE
abbrev pub grpc_errors : List ℕ
grpc_errors = 2 ∷ 4 ∷ 13 ∷ 14 ∷ []

unfoldable pub peer_host : Text → Text
peer_host [] = codes "localhost"
peer_host (c ∷ route) = codes "svc.shop.svc.cluster.local"

unfoldable pub db_port : Text → ℕ
db_port system =
    if text_eq system (codes "postgresql")
    then 5432
    else if text_eq system (codes "mysql")
    then 3306
    else if text_eq system (codes "redis")
    then 6379
    else if text_eq system (codes "mongodb")
    then 27017
    else if text_eq system (codes "cassandra")
    then 9042
    else 0

unfoldable pub msg_op : OpType → Text
msg_op msg_producer = codes "publish"
msg_op _ = codes "process"

module _ (o : Source) where
  open o use {Float, Rng}

  unfoldable pub status_code : Bool → M Rng ℕ
  status_code true = pick o error_statuses
  status_code false = pick o good_statuses

  unfoldable pub grpc_status : Bool → M Rng ℕ
  grpc_status true = pick o grpc_errors
  grpc_status false = pure 0

  unfoldable pub client_ip : M Rng Text
  client_ip = do
    b ← draw o 4
    c ← draw o 256
    d ← draw o 256
    pure (codes "10." ++ decimal b ++ b'.' ∷ decimal c ++ b'.' ∷ decimal d)

  unfoldable pub user_agent : M Rng Text
  user_agent = pick o user_agents

  -- The attributes that servers and clients share.
  unfoldable pub http_attributes : Operation Float → ℕ → List (Text × Value)
  http_attributes op status =
      (codes "http.request.method", str op.method)
      ∷ (codes "url.path", str op.route)
      ∷ (codes "url.scheme", str (codes "http"))
      ∷ (codes "network.protocol.version", str (codes "1.1"))
      ∷ (codes "server.address", str (peer_host op.route))
      ∷ (codes "server.port", int (pos 8080))
      ∷ (codes "http.response.status_code", int (pos status))
      ∷ []

  unfoldable pub server_attributes : Operation Float → M Rng (List (Text × Value))
  server_attributes op = do
    address ← client_ip
    agent ← user_agent
    pure (
        (codes "client.address", str address)
        ∷ (codes "user_agent.original", str agent)
        ∷ (codes "url.full", str (codes "http://" ++ peer_host op.route ++ op.route))
        ∷ [])

  unfoldable pub db_attributes : Operation Float → List (Text × Value)
  db_attributes op =
      (codes "db.system", str op.db_system)
      ∷ (codes "db.namespace", str op.db_name)
      ∷ (codes "db.operation.name", str op.db_op)
      ∷ (codes "db.collection.name", str op.collection)
      ∷ (codes "server.address", str (op.db_system ++ codes ".db.svc.cluster.local"))
      ∷ (codes "server.port", int (pos (db_port op.db_system)))
      ∷ (
        codes "db.query.text",
        str (op.db_op ++ codes " FROM " ++ op.collection ++ codes " WHERE id = ?"),
      )
      ∷ []

  unfoldable pub rpc_attributes : Operation Float → Bool → M Rng (List (Text × Value))
  rpc_attributes op is_err = do
    status ← grpc_status is_err
    pure (
        (codes "rpc.system", str (codes "grpc"))
        ∷ (codes "rpc.service", str op.rpc_service)
        ∷ (codes "rpc.method", str op.rpc_method)
        ∷ (codes "rpc.grpc.status_code", int (pos status))
        ∷ [])

  unfoldable pub msg_attributes : Operation Float → M Rng (List (Text × Value))
  msg_attributes op = do
    size ← draw o 8192
    pure (
        (codes "messaging.system", str (codes "kafka"))
        ∷ (codes "messaging.destination.name", str op.destination)
        ∷ (codes "messaging.operation", str (msg_op op.typ))
        ∷ (codes "messaging.message.body.size", int (pos (256 + size)))
        ∷ [])

  unfoldable pub internal_attributes : Operation Float → M Rng (List (Text × Value))
  internal_attributes op = do
    thread ← draw o 16
    pure (
        (codes "code.namespace", str op.name)
        ∷ (codes "thread.name", str (codes "worker-" ++ decimal thread))
        ∷ [])

  unfoldable pub http_server_attributes : Operation Float → Bool → M Rng (List (Text × Value))
  http_server_attributes op is_err = do
    status ← status_code is_err
    more ← server_attributes op
    pure (http_attributes op status ++ more)

  unfoldable pub http_client_attributes : Operation Float → Bool → M Rng (List (Text × Value))
  http_client_attributes op is_err = do
    status ← status_code is_err
    pure (http_attributes op status)

  unfoldable pub attributes_of : OpType → Operation Float → Bool → M Rng (List (Text × Value))
  attributes_of http_server op is_err = http_server_attributes op is_err
  attributes_of http_client op is_err = http_client_attributes op is_err
  attributes_of db_client op is_err = pure (db_attributes op)
  attributes_of rpc_server op is_err = rpc_attributes op is_err
  attributes_of rpc_client op is_err = rpc_attributes op is_err
  attributes_of msg_producer op is_err = msg_attributes op
  attributes_of msg_consumer op is_err = msg_attributes op
  attributes_of internal op is_err = internal_attributes op

  unfoldable pub apply_attributes : Operation Float → Bool → M Rng (List (Text × Value))
  apply_attributes op is_err = attributes_of op.typ op is_err

  unfoldable pub exception_event : ℕ → M Rng Event
  exception_event t = do
    typ ← pick o exception_types
    pure (record {
      name = codes "exception";
      timestamp = t;
      attributes =
          (codes "exception.type", str typ)
          ∷ (codes "exception.message", str (codes "request processing failed"))
          ∷ (codes "exception.escaped", bool false)
          ∷ [];
    })

  unfoldable pub info_event : ℕ → M Rng Event
  info_event t = do
    stage ← pick o info_stages
    pure (record {
      name = codes "processing";
      timestamp = t;
      attributes = (codes "stage", str stage) ∷ [];
    })
