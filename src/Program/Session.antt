-- ===== src/Program/Session.antt =====
-- cmd/spangen/main.go with the OTLP sink: from its construction over `Run` to the deferred `Close`. The
-- workers take turns as a schedule says, and `Run` returns once all of them have returned.
pub mod Laws
use spangen.Base.{ℕ, List, [], ◌∷◌, Option, none, some, Bool, true, false, ◌&&◌, if◌then◌else◌}
use spangen.Base.Result.{Result, ok, err}
use spangen.Config.{Config}
use spangen.Model.{Source}
use spangen.Model.Spans.{Pdata}
use spangen.Model.Generate.{State}
use spangen.Engine.{Counters}
use spangen.Engine.Setup.{Engine, new_engine}
use spangen.Engine.Schedule.{Environment, Local, returned, Turn, Workers, schedule}
use spangen.Engine.Launch.{setup_of, launch}
use spangen.Sink.Otlp.{Grpc, OtlpSink, SendError, new_otlp, close_conns, send}

-- The run context, the limiter and the time: whether the run is done, `cancel()`, `WaitN` (true where the
-- error is nil), a signal or the end of the duration, and what `Send` and a pause leave of it.
pub record RunContext : Type 1 where
  pub Moment : Type 0
  pub is_done : Moment → Bool
  pub cancel : Moment → Moment
  pub wait_n : ℕ → Moment → Bool × Moment
  pub elapse : Moment → Moment
  pub behind_send : Moment → Moment
  pub behind_pause : Moment → Moment

-- What `main` comes to: the error of the sink, or the counters of `Run`, which has returned or not.
pub data SessionEnd (E : Type 0) : Type 0 where
  failed : E → SessionEnd E
  running : Counters → SessionEnd E
  ended : Counters → SessionEnd E

abbrev pub is_returned : {T G : Type 0} → Local T G → Bool
is_returned returned = true
is_returned _ = false

-- What `wg.Wait` waits for.
abbrev pub all_returned : {T G : Type 0} → List (Local T G) → Bool
all_returned [] = true
all_returned (l ∷ ls) = is_returned l && all_returned ls

-- Both `Td` are ptrace.Traces; `as_request` is `ptraceotlp.NewExportRequestFromTraces`.
module _ (g : Grpc) (p : Pdata) (as_request : p.Td → g.Td) (rc : RunContext) where
  pub record Around : Type 0 where
    pub of_grpc : g.World
    pub next : ℕ
    pub moment : rc.Moment

  -- Whether the error is nil. The panic of a sink without a client stands for a refusal here; a sink that
  -- `NewOTLP` returns has one.
  abbrev pub taken :
      Around → Option (Result (SendError g.Err) (Unit {0}) × ℕ × g.World) → Bool × Around
  taken w none = (false, w)
  taken w (some (ok u, n, v)) =
      (true, record { of_grpc = v; next = n; moment = rc.behind_send w.moment })
  taken w (some (err e, n, v)) =
      (false, record { of_grpc = v; next = n; moment = rc.behind_send w.moment })

  -- The environment of the workers, with this sink.
  abbrev pub with_otlp : OtlpSink g → Environment p.Td
  with_otlp sink = record {
    outside = record {
      World = Around;
      deliver_to_sink = λ td w. taken w (send g sink (as_request td) w.next w.of_grpc);
      cancelled = λ w. rc.is_done w.moment;
      pause = λ w. record w { moment = rc.behind_pause w.moment };
    };
    cancel = λ w. record w { moment = rc.cancel w.moment };
    wait_n = λ n w. let (done, m) = rc.wait_n n w.moment in (done, record w { moment = m });
    elapse = λ w. record w { moment = rc.elapse w.moment };
  }

  module _ (o : Source) (cfg : Config o.Float) (procs clock : ℕ) (xs : List Turn) where
    -- The deferred `Close`, behind `Run`.
    abbrev pub closing :
        (sink : OtlpSink g) (e : Engine o.Float)
        → Option (Workers (with_otlp sink) (setup_of o p cfg e))
        → Option (SessionEnd g.Err × g.World)
    closing sink e none = none
    closing sink e (some ws) =
        if all_returned ws.locals
        then some (ended ws.state.counters, close_conns g sink.conns ws.state.world.of_grpc)
        else some (running ws.state.counters, ws.state.world.of_grpc)

    abbrev pub over_engine :
        OtlpSink g
        → g.World
        → rc.Moment
        → Option (Engine o.Float)
        → Option (SessionEnd g.Err × g.World)
    over_engine sink v m none = none
    over_engine sink v m (some e) = closing sink e (
        schedule (with_otlp sink) (setup_of o p cfg e) xs (
          launch o p (with_otlp sink) cfg e procs clock
            (record { of_grpc = v; next = 0; moment = m })))

    abbrev pub over_sink :
        rc.Moment → Result g.Err (OtlpSink g) × g.World → Option (SessionEnd g.Err × g.World)
    over_sink m (err e, v) = some (failed e, v)
    over_sink m (ok sink, v) = over_engine sink v m (new_engine o cfg)

    -- `main` behind `Parse`, for the sink "otlp"; `none` is a panic.
    unfoldable pub session : g.World → rc.Moment → Option (SessionEnd g.Err × g.World)
    session w m = over_sink m (new_otlp g cfg.otlp w)
