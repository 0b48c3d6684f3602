-- ===== src/Program/Laws.antt =====
-- What `main` has when it calls `Run`.
use spangen.Base.{
  Text, true, subst, ℕ, ◌<◌, ◌≡◌, refl, inl, inr, none, some, false, length, codes, text_eq,
  text_eq_iff, Bool-cases, arith, Option,
}
use spangen.Base.Result.{Result, ok, err}
use spangen.Config.{Config}
use spangen.Config.Env.{Inputs}
use spangen.Config.Validate.{ConfigError, OneOf, sinks, IsValid}
use spangen.Config.Parse.{resolve, parse}
use spangen.Config.Parse.Laws.{parse_resolved, parse-IsValid}
use spangen.Model.{Source}
use spangen.Sink.Clickhouse.Send.{ChSink}
use spangen.Sink.Clickhouse.Open.{Driver, OpenError, new_clickhouse}
use spangen.Sink.Clickhouse.Open.Laws.{IsSinkOf, new_clickhouse-IsSinkOf}
use spangen.Sink.Otlp.{Grpc, OtlpSink, new_otlp}
use spangen.Sink.Otlp.Laws.{HasConn, new_otlp-HasConn}
use spangen.Metrics.{Prometheus, collectors, new_metrics}
use spangen.Metrics.Laws.{every, is_ascii, IsRegistry, new_metrics-held}
use spangen.Engine.Setup.{Engine, new_engine}
use spangen.Engine.Setup.Batches.{IsInt64, IsEngineOf, new_engine-IsEngineOf}
use spangen.Program.{
  Sink, no_sink, clickhouse, otlp, StartError, config_failed, clickhouse_failed, otlp_failed, World,
  from_clickhouse, from_otlp, open_sink, Started, with_engine, with_sink, with_metrics, with_config,
  start,
}

sink_ascii : (s : Text) → OneOf s sinks → is_ascii s ≡ true
unfolding OneOf is_ascii every
sink_ascii s (inl e) = rw e refl
sink_ascii s (inr (inl e)) = rw e refl
sink_ascii s (inr (inr e)) = elim e [ ]

module _ (d : Driver) (g : Grpc) where
  -- A sink of the kind that is configured, with a connection.
  abbrev pub IsChosen : {F : Type 0} → Config F → World d g → Sink d g → Type 0
  IsChosen cfg w no_sink = ⊥
  IsChosen cfg w (clickhouse sink next) =
      (cfg.sink ≡ codes "clickhouse")
      × IsSinkOf d cfg.ch cfg.replica_index w.of_driver (ok (sink, next))
  IsChosen cfg w (otlp sink next) = (cfg.sink ≡ codes "otlp") × (0 < length sink.conns)

  -- The error of the sink that is configured.
  abbrev pub IsFailure : {F : Type 0} → Config F → StartError d g → Type 0
  IsFailure cfg (config_failed e) = ⊥
  IsFailure cfg (clickhouse_failed e) = cfg.sink ≡ codes "clickhouse"
  IsFailure cfg (otlp_failed e) = cfg.sink ≡ codes "otlp"

  abbrev Opened :
      {F : Type 0}
      → Config F
      → World d g
      → Option (Result (StartError d g) (Sink d g) × World d g)
      → Type 0
  Opened cfg w none = ⊥
  Opened cfg w (some (err e, v)) = IsFailure cfg e
  Opened cfg w (some (ok sink, v)) = IsChosen cfg w sink

  open_sink-Opened :
      {F : Type 0} (cfg : Config F) (w : World d g)
      → IsValid cfg
      → Opened cfg w (open_sink d g cfg w)
  unfolding open_sink OneOf
  open_sink-Opened cfg w valid = elim (Bool-cases (text_eq cfg.sink (codes "clickhouse"))) [
    | inl e ↦
        let same : cfg.sink ≡ codes "clickhouse" =
          (text_eq_iff cfg.sink (codes "clickhouse")).0 e in
        rw e (
          by_clickhouse same
            (new_clickhouse-IsSinkOf d cfg.ch cfg.replica_index w.of_driver (valid.ch same)))
    | inr e ↦ elim (Bool-cases (text_eq cfg.sink (codes "otlp"))) [
      | inl f ↦
          rw (e, f)
            (by_otlp ((text_eq_iff cfg.sink (codes "otlp")).0 f) (new_otlp g cfg.otlp w.of_grpc)
              (new_otlp-HasConn g cfg.otlp w.of_grpc))
      | inr f ↦ absurd (neither e f valid.sink)
    ]
  ]
    where
      by_clickhouse :
          cfg.sink ≡ codes "clickhouse"
          → (r : Result (OpenError d.Err) (ChSink d.Conn × ℕ)) × (u : d.World) × (new_clickhouse d
                cfg.ch cfg.replica_index w.of_driver
              ≡ some (r, u))
            × IsSinkOf d cfg.ch cfg.replica_index w.of_driver r
          → Opened cfg w
              (from_clickhouse d g w (new_clickhouse d cfg.ch cfg.replica_index w.of_driver))
      by_clickhouse same (ok (sink, next), u, e, h) = rw e (same, h)
      by_clickhouse same (err x, u, e, h) = rw e same

      by_otlp :
          cfg.sink ≡ codes "otlp"
          → (m : Result g.Err (OtlpSink g) × g.World) → HasConn g m
          → Opened cfg w (some (from_otlp d g w m))
      by_otlp same (ok sink, u) h = (same, h)
      by_otlp same (err e, u) h = same

      neither :
          text_eq cfg.sink (codes "clickhouse") ≡ false
          → text_eq cfg.sink (codes "otlp") ≡ false
          → OneOf cfg.sink sinks
          → ⊥
      neither e f h =
          ground
            (arith, text_eq_iff cfg.sink (codes "clickhouse"), text_eq_iff cfg.sink (codes "otlp"))

  module _ (pr : Prometheus) (k : IsRegistry pr) (o : Source) where
    -- What `main` comes to: an error of `Parse` or of the sink, or everything that `Run` needs.
    abbrev pub IsReady :
        World d g
        → Result ConfigError (Config o.Float)
        → Option (Result (StartError d g) (Started d g pr o) × World d g)
        → Type 0
    IsReady before parsed none = ⊥
    IsReady before parsed (some (err (config_failed e), w)) = parsed ≡ err e
    IsReady before parsed (some (err e, w)) =
        (cfg : Config o.Float) × (parsed ≡ ok cfg) × IsFailure cfg e
    IsReady before parsed (some (ok s, w)) =
        (parsed ≡ ok s.cfg)
        × IsValid s.cfg
        × (k.held s.metrics ≡ collectors s.cfg.sink)
        × IsChosen s.cfg before s.sink
        × IsEngineOf o s.cfg s.engine

    module _ (i : Inputs o.Float) (w : World d g) (cfg : Config o.Float)
        (is : parse i ≡ ok cfg) where
      running :
          (met : pr.Registry) (sink : Sink d g) (u : World d g)
          → IsValid cfg
          → k.held met ≡ collectors cfg.sink
          → IsChosen cfg w sink
          → (e : Engine o.Float) × (new_engine o cfg ≡ some e) × IsEngineOf o cfg e
          → IsReady w (parse i) (with_engine d g pr o cfg met sink u (new_engine o cfg))
      running met sink u valid holds chosen (e, made, engine) =
          rw made (is, valid, holds, chosen, engine)

      opened :
          (met : pr.Registry) (m : Option (Result (StartError d g) (Sink d g) × World d g))
          → IsValid cfg
          → IsInt64 cfg
          → k.held met ≡ collectors cfg.sink
          → Opened cfg w m
          → IsReady w (parse i) (with_sink d g pr o cfg met m)
      opened met none valid small holds h = h
      opened met (some (err (config_failed e), u)) valid small holds h = absurd h
      opened met (some (err (clickhouse_failed e), u)) valid small holds h = (cfg, is, h)
      opened met (some (err (otlp_failed e), u)) valid small holds h = (cfg, is, h)
      opened met (some (ok sink, u)) valid small holds h =
          running met sink u valid holds h (new_engine-IsEngineOf o cfg valid small)

      measured :
          IsValid cfg
          → IsInt64 cfg
          → (met : pr.Registry) × (new_metrics pr cfg.sink cfg.replica_index ≡ some met)
            × (k.held met ≡ collectors cfg.sink)
          → IsReady w
              (parse i)
              (with_metrics d g pr o cfg w (new_metrics pr cfg.sink cfg.replica_index))
      measured valid small (met, e, holds) =
          rw e (opened met (open_sink d g cfg w) valid small holds (open_sink-Opened cfg w valid))

    -- Whatever the options, the environment and the drivers answer, `main` comes to `Run` or to one of
    -- its two fatal errors, without a panic: where `Parse` succeeds, with the collectors registered, with
    -- the sink that is configured, which has a connection, and with an engine on which the workers run,
    -- or with the error of that sink; this for a maximum of spans per trace below 2^63.
    pub start-IsReady :
        (i : Inputs o.Float) (w : World d g)
        → IsInt64 (resolve i)
        → IsReady w (parse i) (start d g pr o i w)
    unfolding start
    start-IsReady i w fits = parsed (parse i) refl
      where
        parsed :
            (r : Result ConfigError (Config o.Float))
            → parse i ≡ r
            → IsReady w (parse i) (with_config d g pr o w r)
        parsed (err e) is = is
        parsed (ok cfg) is =
            let valid : IsValid cfg = parse-IsValid i is in
            measured i w cfg is valid (subst IsInt64 (parse_resolved i is) fits)
              (new_metrics-held pr k cfg.sink cfg.replica_index (sink_ascii cfg.sink valid.sink))
