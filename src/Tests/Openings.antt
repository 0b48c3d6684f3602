-- ===== src/Tests/Openings.antt =====
-- The opening of the sinks, and OTLP, at concrete inputs.
use spangen.Base.{
  ℕ, suc, ◌-◌, ◌≡◌, refl, ◌↔◌, List, [], ◌∷◌, none, some, true, false, Text, codes, text_eq,
  get_elem?, arith,
}
use spangen.Base.Int.{pos, ◌≤ℤ◌}
use spangen.Base.Result.{Result, ok}
use spangen.Config.{ChConfig, OtlpConfig}
use spangen.Config.Lists.{lookup}
use spangen.Config.Validate.{IsValidCh, OneOf}
use spangen.Sink.Clickhouse.Pick.{pick}
use spangen.Sink.Clickhouse.Send.{ChSink}
use spangen.Sink.Clickhouse.Open.{build_settings, first_next, Driver, OpenError, new_clickhouse}
use spangen.Sink.Clickhouse.Open.Laws.{IsSinkOf, new_clickhouse-IsSinkOf, first_shard}
use spangen.Sink.Clickhouse.Open.Settings.{
  wait_for_async, setting_name, setting_of, build_settings-lookup,
}
use spangen.Sink.Otlp as Otlp
use spangen.Sink.Otlp.Laws.{IsCounted, HasDialled, new_otlp-HasDialled, send-answer}

-- Two shards, written to in turn.
abbrev pub rotating : ChConfig
rotating = record {
  endpoints = codes "a:9000" ∷ codes "b:9000" ∷ [];
  database = codes "otel";
  table = codes "otel_traces";
  protocol = codes "native";
  mode = codes "shard-roundrobin";
  schema = codes "map";
  username = codes "default";
  password = [];
  tls = false;
  compression = codes "lz4";
  batch_size = pos 5000;
  max_open_conns = pos 16;
  block_buffer = pos 16;
  async = true;
  wait_for_async = false;
  async_max_data_size = pos 0;
  async_busy_timeout_ms = pos 200;
  dial_timeout = pos 10;
  send_timeout = pos 30;
}

-- A driver that opens every address and answers every ping.
abbrev pub willing : Driver
willing = record {
  World = ℕ;
  Conn = List Text;
  Err = Text;
  open_native = λ opt w. (ok opt.addr, suc w);
  open_db = λ opt w. (opt.addr, suc w);
  set_max_open_conns = λ n conn w. w;
  set_max_idle_conns = λ n conn w. w;
  ping = λ conn w. (none, w);
  close = λ conn w. (none, w);
  is_http_answer = λ e. false;
}

rotating-IsValidCh : IsValidCh rotating
unfolding OneOf
rotating-IsValidCh = record {
  protocol = ground arith;
  mode = ground arith;
  schema = ground arith;
  endpoints = λ e. cc;
  compression = ground arith;
  gzip = λ e. cc;
}

new_clickhouse-IsSinkOf_example :
    (r : Result (OpenError Text) (ChSink (List Text) × ℕ)) × (u : ℕ) × (new_clickhouse willing
        rotating
        (pos 3)
        0
      ≡ some (r, u))
    × IsSinkOf willing rotating (pos 3) 0 r
new_clickhouse-IsSinkOf_example =
    new_clickhouse-IsSinkOf willing rotating (pos 3) 0 rotating-IsValidCh

abbrev shards : List ℕ
shards = 7 ∷ 8 ∷ []

first_shard_example :
    (c : ℕ) × (pick shards (first_next rotating (pos 3) shards) ≡ some (c, 2))
    × (get_elem? shards 0 ≡ some c)
unfolding text_eq
first_shard_example = first_shard rotating 3 shards refl (omega arith) (omega arith)

build_settings-lookup_example :
    lookup (setting_name wait_for_async) (build_settings rotating)
    ≡ setting_of rotating wait_for_async
build_settings-lookup_example = build_settings-lookup rotating wait_for_async

-- A collector that takes all but a span; the world counts the connections.
abbrev pub collector : Otlp.Grpc
collector = record {
  World = ℕ;
  Conn = Text;
  Err = Text;
  Td = ℕ;
  new_client = λ endpoint options w. (ok endpoint, suc w);
  close = λ conn w. w - 1;
  export =
      λ conn options metadata td w. (ok (record { rejected = pos 1; message = codes "full" }), w);
}

unfoldable pub collector-IsCounted : IsCounted collector
collector-IsCounted = record {
  open_in = λ w. w;
  opened = λ o w h. refl;
  not_opened = λ o w h. cc;
  closed = λ c w. refl;
}

abbrev pub three : OtlpConfig
three = record {
  endpoint = codes "c:4317";
  insecure = true;
  headers = [];
  gzip = false;
  spans_per_request = pos 2000;
  connections = pos 3;
  timeout = pos 30;
}

new_otlp-HasDialled_example :
    HasDialled collector collector-IsCounted three 0 (Otlp.new_otlp collector three 0)
unfolding collector-IsCounted
new_otlp-HasDialled_example = new_otlp-HasDialled collector collector-IsCounted three 0

abbrev one_client : Otlp.OtlpSink collector
one_client = record {
  conns = codes "c:4317" ∷ [];
  timeout = pos 30;
  metadata = [];
  options = record { insecure = true; use_gzip = false; max_send_size = 5 };
}

send-answer_example :
    (conn : Text) × (i : ℕ) × (after : ℕ) × (r : Result (Otlp.SendError Text) (Unit {0}))
    × (get_elem? (codes "c:4317" ∷ []) i ≡ some conn)
    × (Otlp.send collector one_client 4 0 0 ≡ some (r, after, 0))
    × ((r ≡ ok tt) ↔ (
        (ps : Otlp.PartialSuccess) × ((collector.export
            (codes "c:4317")
            one_client.options
            []
            0
            0).0
          ≡ ok ps)
        × (ps.rejected ≤ℤ pos 0)))
send-answer_example = send-answer collector one_client 4 0 0 (omega arith)
