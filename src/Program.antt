-- ===== src/Program.antt =====
-- cmd/spangen/main.go: from the options to the engine, with the sink that is chosen. The registry of the
-- metrics, the drivers of both sinks, the options and what the model is drawn from are parameters.
pub mod Laws
pub mod Delivery
pub mod Rows
pub mod Session
pub mod Ingest
use spangen.Base.{ℕ, Option, none, some, Text, codes, text_eq, if◌then◌else◌}
use spangen.Base.Result.{Result, ok, err}
use spangen.Config.{Config}
use spangen.Config.Env.{Inputs}
use spangen.Config.Parse.{parse}
use spangen.Config.Validate.{ConfigError}
use spangen.Model.{Source}
use spangen.Sink.Clickhouse.Send.{ChSink}
use spangen.Sink.Clickhouse.Open.{Driver, OpenError, new_clickhouse}
use spangen.Sink.Otlp.{Grpc, OtlpSink, new_otlp}
use spangen.Metrics.{Prometheus, new_metrics}
use spangen.Engine.Setup.{Engine, new_engine}

module _ (d : Driver) (g : Grpc) where
  -- A `sink.Sink`: one of the two, with its counter, or nil.
  pub data Sink : Type 0 where
    no_sink : Sink
    clickhouse : ChSink d.Conn → ℕ → Sink
    otlp : OtlpSink g → ℕ → Sink

  -- The two calls of `log.Fatalf`.
  pub data StartError : Type 0 where
    config_failed : ConfigError → StartError
    clickhouse_failed : OpenError d.Err → StartError
    otlp_failed : g.Err → StartError

  -- The worlds of both drivers.
  pub record World : Type 0 where
    pub of_driver : d.World
    pub of_grpc : g.World

  abbrev pub from_clickhouse :
      World
      → Option (Result (OpenError d.Err) (ChSink d.Conn × ℕ) × d.World)
      → Option (Result StartError Sink × World)
  from_clickhouse w none = none
  from_clickhouse w (some (ok (sink, next), u)) =
      some (ok (clickhouse sink next), record w { of_driver = u })
  from_clickhouse w (some (err e, u)) = some (err (clickhouse_failed e), record w { of_driver = u })

  abbrev pub from_otlp :
      World → Result g.Err (OtlpSink g) × g.World → Result StartError Sink × World
  from_otlp w (ok sink, u) = (ok (otlp sink 0), record w { of_grpc = u })
  from_otlp w (err e, u) = (err (otlp_failed e), record w { of_grpc = u })

  -- The `switch`.
  unfoldable pub open_sink :
      {F : Type 0} → Config F → World → Option (Result StartError Sink × World)
  open_sink cfg w =
      if text_eq cfg.sink (codes "clickhouse")
      then from_clickhouse w (new_clickhouse d cfg.ch cfg.replica_index w.of_driver)
      else if text_eq cfg.sink (codes "otlp")
      then some (from_otlp w (new_otlp g cfg.otlp w.of_grpc))
      else some (ok no_sink, w)

  module _ (pr : Prometheus) (o : Source) where
    -- What `Run` is called on.
    pub record Started : Type 0 where
      pub cfg : Config o.Float
      pub metrics : pr.Registry
      pub sink : Sink
      pub engine : Engine o.Float

    abbrev pub with_engine :
        Config o.Float
        → pr.Registry
        → Sink
        → World
        → Option (Engine o.Float)
        → Option (Result StartError Started × World)
    with_engine cfg met sink w none = none
    with_engine cfg met sink w (some e) =
        some (ok (record { cfg = cfg; metrics = met; sink = sink; engine = e }), w)

    abbrev pub with_sink :
        Config o.Float
        → pr.Registry
        → Option (Result StartError Sink × World)
        → Option (Result StartError Started × World)
    with_sink cfg met none = none
    with_sink cfg met (some (err e, w)) = some (err e, w)
    with_sink cfg met (some (ok sink, w)) = with_engine cfg met sink w (new_engine o cfg)

    abbrev pub with_metrics :
        Config o.Float → World → Option pr.Registry → Option (Result StartError Started × World)
    with_metrics cfg w none = none
    with_metrics cfg w (some met) = with_sink cfg met (open_sink cfg w)

    abbrev pub with_config :
        World → Result ConfigError (Config o.Float) → Option (Result StartError Started × World)
    with_config w (err e) = some (err (config_failed e), w)
    with_config w (ok cfg) = with_metrics cfg w (new_metrics pr cfg.sink cfg.replica_index)

    -- `main`, up to `Run`; `none` is a panic.
    unfoldable pub start : Inputs o.Float → World → Option (Result StartError Started × World)
    unfolding open_sink
    start i w = with_config w (parse i)
