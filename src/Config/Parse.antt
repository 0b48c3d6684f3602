-- ===== src/Config/Parse.antt =====
-- config.go: `Parse`, each option with its flag, its variable and its default.
pub mod Laws
use Prim.Native.Nat.{◌*◌}
use spangen.Base.{ℕ, List, [], ◌∷◌, Option, none, some, Bool, true, false, Text, codes}
use spangen.Base.Int.{ℤ, pos}
use spangen.Base.Result.{Result, ok, err, ◌>>=◌, ◌>>◌}
use spangen.Config.{Config, MetricsConfig, GenConfig, ChConfig, OtlpConfig}
use spangen.Config.Validate.{ConfigError, validate}
use spangen.Config.Lists.{split_csv, parse_kv}
use spangen.Config.Hash.{host_id, detect_replica_index}
use spangen.Config.Env.{Inputs, or_default, env, env_int, env_uint, env_float, env_bool, env_dur}

-- Nanoseconds in a second.
abbrev second : ℕ
second = 1000000000

module _ {F : Type 0} (i : Inputs F) where
  unfoldable pub text_var : Text → Text → Text → Text
  unfolding or_default env
  text_var flag var def = or_default (i.flag_text flag) (env i var def)

  unfoldable pub int_var : Text → Text → ℤ → ℤ
  unfolding or_default env_int
  int_var flag var def = or_default (i.flag_int flag) (env_int i var def)

  unfoldable pub uint_var : Text → Text → ℕ → ℕ
  unfolding or_default env_uint
  uint_var flag var def = or_default (i.flag_uint flag) (env_uint i var def)

  unfoldable pub float_var : Text → Text → F → F
  unfolding or_default env_float
  float_var flag var def = or_default (i.flag_float flag) (env_float i var def)

  unfoldable pub bool_var : Text → Text → Bool → Bool
  unfolding or_default env_bool
  bool_var flag var def = or_default (i.flag_bool flag) (env_bool i var def)

  unfoldable pub duration_var : Text → Text → ℤ → ℤ
  unfolding or_default env_dur
  duration_var flag var def = or_default (i.flag_duration flag) (env_dur i var def)

  unfoldable pub gen_config : GenConfig F
  unfolding int_var uint_var float_var duration_var
  gen_config = record {
    rate = float_var (codes "rate") (codes "SPANGEN_RATE") (i.float_lit 100000 0);
    ramp = duration_var (codes "ramp") (codes "SPANGEN_RAMP") (pos (30 * second));
    duration = duration_var (codes "duration") (codes "SPANGEN_DURATION") (pos 0);
    max_spans = uint_var (codes "max-spans") (codes "SPANGEN_MAX_SPANS") 0;
    workers = int_var (codes "workers") (codes "SPANGEN_WORKERS") (pos 0);
    services = int_var (codes "services") (codes "SPANGEN_SERVICES") (pos 30);
    spans_per_trace_min =
        int_var (codes "spans-per-trace-min") (codes "SPANGEN_SPANS_PER_TRACE_MIN") (pos 5);
    spans_per_trace_max =
        int_var (codes "spans-per-trace-max") (codes "SPANGEN_SPANS_PER_TRACE_MAX") (pos 20);
    error_rate = float_var (codes "error-rate") (codes "SPANGEN_ERROR_RATE") (i.float_lit 15 3);
    event_rate = float_var (codes "event-rate") (codes "SPANGEN_EVENT_RATE") (i.float_lit 10 2);
  }

  unfoldable pub ch_config : ChConfig
  unfolding text_var int_var bool_var duration_var
  ch_config = record {
    endpoints =
        split_csv
          (text_var (codes "ch.endpoints") (codes "SPANGEN_CH_ENDPOINTS") (codes "localhost:9000"));
    database = text_var (codes "ch.database") (codes "SPANGEN_CH_DATABASE") (codes "otel");
    table = text_var (codes "ch.table") (codes "SPANGEN_CH_TABLE") (codes "otel_traces");
    protocol = text_var (codes "ch.protocol") (codes "SPANGEN_CH_PROTOCOL") (codes "native");
    mode = text_var (codes "ch.mode") (codes "SPANGEN_CH_MODE") (codes "local");
    schema = text_var (codes "ch.schema") (codes "SPANGEN_CH_SCHEMA") (codes "map");
    username = text_var (codes "ch.username") (codes "SPANGEN_CH_USERNAME") (codes "default");
    password = text_var (codes "ch.password") (codes "SPANGEN_CH_PASSWORD") [];
    tls = bool_var (codes "ch.tls") (codes "SPANGEN_CH_TLS") false;
    compression = text_var (codes "ch.compression") (codes "SPANGEN_CH_COMPRESSION") (codes "lz4");
    batch_size = int_var (codes "ch.batch-size") (codes "SPANGEN_CH_BATCH_SIZE") (pos 5000);
    max_open_conns = int_var (codes "ch.max-conns") (codes "SPANGEN_CH_MAX_CONNS") (pos 16);
    block_buffer = int_var (codes "ch.block-buffer") (codes "SPANGEN_CH_BLOCK_BUFFER") (pos 16);
    async = bool_var (codes "ch.async") (codes "SPANGEN_CH_ASYNC") true;
    wait_for_async = bool_var (codes "ch.wait-for-async") (codes "SPANGEN_CH_WAIT_FOR_ASYNC") true;
    async_max_data_size =
        int_var (codes "ch.async-max-data-size") (codes "SPANGEN_CH_ASYNC_MAX_DATA_SIZE") (pos 0);
    async_busy_timeout_ms =
        int_var (codes "ch.async-busy-timeout-ms") (codes "SPANGEN_CH_ASYNC_BUSY_TIMEOUT_MS")
          (pos 0);
    dial_timeout =
        duration_var (codes "ch.dial-timeout") (codes "SPANGEN_CH_DIAL_TIMEOUT")
          (pos (10 * second));
    send_timeout =
        duration_var (codes "ch.send-timeout") (codes "SPANGEN_CH_SEND_TIMEOUT")
          (pos (30 * second));
  }

  unfoldable pub otlp_config : OtlpConfig
  unfolding text_var int_var bool_var duration_var
  otlp_config = record {
    endpoint =
        text_var (codes "otlp.endpoint") (codes "SPANGEN_OTLP_ENDPOINT") (codes "localhost:4317");
    insecure = bool_var (codes "otlp.insecure") (codes "SPANGEN_OTLP_INSECURE") true;
    headers = parse_kv (text_var (codes "otlp.headers") (codes "SPANGEN_OTLP_HEADERS") []);
    gzip = bool_var (codes "otlp.gzip") (codes "SPANGEN_OTLP_GZIP") false;
    spans_per_request =
        int_var (codes "otlp.spans-per-request") (codes "SPANGEN_OTLP_SPANS_PER_REQUEST")
          (pos 2000);
    connections = int_var (codes "otlp.connections") (codes "SPANGEN_OTLP_CONNECTIONS") (pos 4);
    timeout =
        duration_var (codes "otlp.timeout") (codes "SPANGEN_OTLP_TIMEOUT") (pos (30 * second));
  }

  -- The configuration before `validate`.
  unfoldable pub resolve : Config F
  unfolding text_var int_var uint_var env gen_config ch_config otlp_config
  resolve = record {
    sink = text_var (codes "sink") (codes "SPANGEN_SINK") (codes "clickhouse");
    replica_index =
        int_var (codes "replica-index") (codes "SPANGEN_REPLICA_INDEX")
          (detect_replica_index i.hostname (env i (codes "HOSTNAME") []));
    seed = uint_var (codes "seed") (codes "SPANGEN_SEED") 0x9E3779B97F4A7C15;
    host_id = host_id i.hostname (env i (codes "HOSTNAME") []) i.random i.now;
    metrics = record {
      addr = text_var (codes "metrics.addr") (codes "SPANGEN_METRICS_ADDR") (codes ":8888");
    };
    gen = gen_config;
    ch = ch_config;
    otlp = otlp_config;
  }

  unfoldable pub parse : Result ConfigError (Config F)
  unfolding resolve
  parse = do validate resolve; ok resolve
