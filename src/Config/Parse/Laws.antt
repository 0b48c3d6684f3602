-- ===== src/Config/Parse/Laws.antt =====
-- `Parse` returns valid configurations only, and its defaults are one.
use spangen.Base.{[], ◌∷◌, true, false, codes, ◌≡◌, refl, subst, inl, inr, none, Text, arith}
use spangen.Base.Int.{pos}
use spangen.Base.Result.{Result, ok, err, ◌>>◌}
use spangen.Config.{Config, GenConfig, ChConfig, OtlpConfig}
use spangen.Base.Fields.{cut, split, trim_space}
use spangen.Config.Lists.{split_csv, parse_kv}
use spangen.Config.Validate.{ConfigError, validate, OneOf, IsValid, validate-IsValid}
use spangen.Config.Env.{Inputs, or_default, env_parsed}
use spangen.Config.Hash.{host_id, detect_replica_index}
use spangen.Config.Parse.{resolve, parse}

validated :
    {F : Type 0} (r : Result ConfigError (Unit {0})) (c : Config F) {d : Config F}
    → (r >> ok c) ≡ ok d
    → (r ≡ ok tt) × (c ≡ d)
validated (ok u) c h = (refl, cc)
validated (err e) c h = cc

-- `Parse` changes nothing behind the options.
pub parse_resolved : {F : Type 0} (i : Inputs F) {c : Config F} → parse i ≡ ok c → resolve i ≡ c
unfolding parse
parse_resolved i {c} h = (validated (validate (resolve i)) (resolve i) h).1

-- The program starts with a valid configuration only.
pub parse-IsValid : {F : Type 0} (i : Inputs F) {c : Config F} → parse i ≡ ok c → IsValid c
unfolding parse
parse-IsValid i {c} h =
    let (valid, same) = validated (validate (resolve i)) (resolve i) h in
    subst IsValid same ((validate-IsValid (resolve i)).0 valid)

-- Nothing is set: no flag, and no variable.
pub record IsUnset {F : Type 0} (i : Inputs F) : Type 0 where
  pub env : (k : Text) → i.lookup_env k ≡ none
  pub text : (k : Text) → i.flag_text k ≡ none
  pub int : (k : Text) → i.flag_int k ≡ none
  pub uint : (k : Text) → i.flag_uint k ≡ none
  pub float : (k : Text) → i.flag_float k ≡ none
  pub bool : (k : Text) → i.flag_bool k ≡ none
  pub duration : (k : Text) → i.flag_duration k ≡ none

-- The documented defaults, written out; the times are in nanoseconds. The replica index and the host
-- identifier are those of the machine.
abbrev pub default_ch : ChConfig
default_ch = record {
  endpoints = codes "localhost:9000" ∷ [];
  database = codes "otel";
  table = codes "otel_traces";
  protocol = codes "native";
  mode = codes "local";
  schema = codes "map";
  username = codes "default";
  password = [];
  tls = false;
  compression = codes "lz4";
  batch_size = pos 5000;
  max_open_conns = pos 16;
  block_buffer = pos 16;
  async = true;
  wait_for_async = true;
  async_max_data_size = pos 0;
  async_busy_timeout_ms = pos 0;
  dial_timeout = pos 10000000000;
  send_timeout = pos 30000000000;
}

abbrev pub default_otlp : OtlpConfig
default_otlp = record {
  endpoint = codes "localhost:4317";
  insecure = true;
  headers = [];
  gzip = false;
  spans_per_request = pos 2000;
  connections = pos 4;
  timeout = pos 30000000000;
}

abbrev pub default_gen : {F : Type 0} → Inputs F → GenConfig F
default_gen i = record {
  rate = i.float_lit 100000 0;
  ramp = pos 30000000000;
  duration = pos 0;
  max_spans = 0;
  workers = pos 0;
  services = pos 30;
  spans_per_trace_min = pos 5;
  spans_per_trace_max = pos 20;
  error_rate = i.float_lit 15 3;
  event_rate = i.float_lit 10 2;
}

abbrev pub defaults : {F : Type 0} → Inputs F → Config F
defaults i = record {
  sink = codes "clickhouse";
  replica_index = detect_replica_index i.hostname [];
  seed = 11400714819323198485;
  host_id = host_id i.hostname [] i.random i.now;
  metrics = record { addr = codes ":8888" };
  gen = default_gen i;
  ch = default_ch;
  otlp = default_otlp;
}

defaults-IsValid : {F : Type 0} (i : Inputs F) → IsValid (defaults i)
unfolding OneOf
defaults-IsValid i = record {
  sink = inl refl;
  ch = λ _. record {
    protocol = inl refl;
    mode = inl refl;
    schema = inl refl;
    endpoints = λ e. cc;
    compression = inr (inl refl);
    gzip = λ e. cc;
  };
  otlp = λ e. cc;
  range = omega arith;
  services = omega arith;
}

module _ {F : Type 0} (i : Inputs F) (u : IsUnset i) where
  resolve_default : resolve i ≡ defaults i
  unfolding resolve or_default env_parsed split_csv parse_kv split trim_space cut
  resolve_default = simp (u.env, u.text, u.int, u.uint, u.float, u.bool, u.duration) refl

-- With no flag and no variable set `Parse` succeeds, whatever the machine, with the defaults written out
-- above: the sink clickhouse on localhost:9000 in the map schema, with batches of 5000 spans, 30 services,
-- 5 to 20 spans in a trace and 100000 spans in a second, and the rest.
pub parse_default : {F : Type 0} (i : Inputs F) → IsUnset i → parse i ≡ ok (defaults i)
unfolding parse
parse_default i u =
    rw (resolve_default i u, (validate-IsValid (defaults i)).1 (defaults-IsValid i)) refl
