-- ===== src/Program/Session/Laws.antt =====
-- A session with the OTLP sink leaves nothing open.
use spangen.Base.{
  ℕ, ◌+◌, ◌*◌, ◌^◌, ◌≤◌, ◌<◌, ◌≡◌, refl, sym, ap, ◌∙◌, List, [], ◌∷◌, All, length, Option, none,
  some, some-injective, true, arith,
}
use spangen.Base.Int.{pos}
use spangen.Base.Result.{Result, ok, err}
use spangen.Config.{Config, effective_batch_size}
use spangen.Config.Validate.{IsValid}
use spangen.Model.{Source}
use spangen.Model.Spans.{Pdata}
use spangen.Engine.{Counters}
use spangen.Engine.Run.{worker_count}
use spangen.Engine.Setup.{Engine}
use spangen.Engine.Setup.Batches.{IsInt64, IsEngineOf, new_engine-IsEngineOf}
use spangen.Engine.Schedule.{Local, returned, Turn, Workers, start_all}
use spangen.Engine.Schedule.Follows.{IsContext}
use spangen.Engine.Schedule.Turns.{turns}
use spangen.Engine.Schedule.Keeps.{IsKept, schedule-keeps}
use spangen.Engine.Launch.{setup_of, launch}
use spangen.Engine.Launch.Laws.{run-ends, run-lt-max}
use spangen.Sink.Otlp.{Grpc, OtlpSink, SendError, new_otlp, send}
use spangen.Sink.Otlp.Laws.{
  IsCounted, HasDialled, new_otlp-HasDialled, send-answer, close_conns_open,
}
use spangen.Program.Session.{
  RunContext, SessionEnd, failed, running, ended, all_returned, Around, taken, with_otlp,
  over_engine, over_sink, session,
}

-- `cancel()` ends the run context, and nothing takes the end back.
pub record IsRunContext (rc : RunContext) : Type 0 where
  pub cancels : (m : rc.Moment) → rc.is_done (rc.cancel m) ≡ true
  pub sends : (m : rc.Moment) → rc.is_done m ≡ true → rc.is_done (rc.behind_send m) ≡ true
  pub pauses : (m : rc.Moment) → rc.is_done m ≡ true → rc.is_done (rc.behind_pause m) ≡ true
  pub waits : (n : ℕ) (m : rc.Moment) → rc.is_done m ≡ true → rc.is_done (rc.wait_n n m).1 ≡ true
  pub elapses : (m : rc.Moment) → rc.is_done m ≡ true → rc.is_done (rc.elapse m) ≡ true

-- An export opens no connection and closes none.
pub record IsSteady (g : Grpc) (k : IsCounted g) : Type 0 where
  pub exports :
      (sink : OtlpSink g) (conn : g.Conn) (td : g.Td) (w : g.World)
      → k.open_in (g.export conn sink.options sink.metadata td w).1 ≡ k.open_in w

all_returned-All :
    {T G : Type 0} (ls : List (Local T G)) → All (λ l. l ≡ returned) ls → all_returned ls ≡ true
all_returned-All [] h = refl
all_returned-All (l ∷ ls) h = rw (h.0, all_returned-All ls h.1) refl

module _ (g : Grpc) (p : Pdata) (as_request : p.Td → g.Td) (rc : RunContext) (k : IsCounted g) where
  module _ (c : IsRunContext rc) (st : IsSteady g k) (sink : OtlpSink g) where
    with_otlp-IsContext : IsContext (with_otlp g p as_request rc sink)
    with_otlp-IsContext = record {
      cancels = λ w. c.cancels w.moment;
      sends = λ td w h. lasts w h (send g sink (as_request td) w.next w.of_grpc);
      pauses = λ w h. c.pauses w.moment h;
      waits = λ n w h. c.waits n w.moment h;
      elapses = λ w h. c.elapses w.moment h;
    }
      where
        lasts :
            (w : Around g p as_request rc)
            → rc.is_done w.moment ≡ true
            → (m : Option (Result (SendError g.Err) (Unit {0}) × ℕ × g.World))
            → rc.is_done (taken g p as_request rc w m).1.moment ≡ true
        lasts w h none = h
        lasts w h (some (ok u, n, v)) = c.sends w.moment h
        lasts w h (some (err e, n, v)) = c.sends w.moment h

    with_otlp-IsKept :
        0 < length sink.conns
        → (n : ℕ) → IsKept (with_otlp g p as_request rc sink) (λ w. k.open_in w.of_grpc ≡ n)
    with_otlp-IsKept some_conn n = record {
      sends = λ td w h. sent td w h;
      pauses = λ w h. h;
      waits = λ i w h. h;
      cancels = λ w h. h;
      elapses = λ w h. h;
    }
      where
        same :
            (w : Around g p as_request rc) (r : Result (SendError g.Err) (Unit {0})) (i : ℕ)
            (v : g.World)
            → k.open_in v ≡ n
            → k.open_in (taken g p as_request rc w (some (r, i, v))).1.of_grpc ≡ n
        same w (ok u) i v h = h
        same w (err e) i v h = h

        sent :
            (td : p.Td) (w : Around g p as_request rc)
            → k.open_in w.of_grpc ≡ n
            → k.open_in
                (taken g p as_request rc w (send g sink (as_request td) w.next w.of_grpc)).1.of_grpc
              ≡ n
        sent td w h =
            let (conn, i, after, r, at, q, answers) =
              send-answer g sink (as_request td) w.next w.of_grpc some_conn in
            rw q (
              same w r after (g.export conn sink.options sink.metadata (as_request td) w.of_grpc).1
                (st.exports sink conn (as_request td) w.of_grpc ∙ h))

  -- An end with so many connections open: the sink failed, or `Run` has returned, with counters that add up
  -- and below the span limit.
  abbrev pub IsClosed : ℕ → ℕ → Option (SessionEnd g.Err × g.World) → Type 0
  IsClosed max n none = ⊥
  IsClosed max n (some (failed e, u)) = k.open_in u ≡ n
  IsClosed max n (some (running c, u)) = ⊥
  IsClosed max n (some (ended c, u)) =
      (k.open_in u ≡ n) × (c.sent + c.errors ≤ c.generated) × (c.sent + c.errors < max)

  module _ (c : IsRunContext rc) (st : IsSteady g k) (o : Source) (cfg : Config o.Float)
      (size rounds procs clock : ℕ) (xs : List Turn) where
    -- `Run` on the engine, and `Close`.
    closed :
        (sink : OtlpSink g) (v : g.World) (m : rc.Moment) (e : Engine o.Float) (n : ℕ)
        → IsEngineOf o cfg e
        → 0 < length sink.conns
        → k.open_in v ≡ n + length sink.conns
        → effective_batch_size cfg ≡ pos size
        → 0 < size
        → size * 20 < 2 ^ 64
        → length xs * size < 2 ^ 64
        → 0 < cfg.gen.max_spans
        → cfg.gen.max_spans ≤ rounds * size
        → ((i : ℕ) → i < worker_count cfg.gen.workers procs → 9 * rounds + 5 ≤ turns i xs)
        → IsClosed cfg.gen.max_spans n
            (over_engine g p as_request rc o cfg procs clock xs sink v m (some e))
    unfolding launch start_all
    closed sink v m e n is some_conn opened batch some_span small few limit enough fair =
        let context = with_otlp-IsContext c st sink in
        let w : Around g p as_request rc = record { of_grpc = v; next = 0; moment = m } in
        let (end, run, count, returns) =
          run-ends o p (with_otlp g p as_request rc sink) context cfg e size rounds procs clock w xs
            is batch some_span small few limit enough fair in
        let (other, again, covered, below) =
          run-lt-max o p (with_otlp g p as_request rc sink) context cfg e size procs clock w xs is
            batch some_span small few in
        let kept : k.open_in end.state.world.of_grpc ≡ n + length sink.conns =
          schedule-keeps (with_otlp g p as_request rc sink) (setup_of o p cfg e)
            (λ x. k.open_in x.of_grpc ≡ n + length sink.conns)
            (with_otlp-IsKept c st sink some_conn (n + length sink.conns)) xs
            (launch o p (with_otlp g p as_request rc sink) cfg e procs clock w) opened run in
        let counters : other.state.counters ≡ end.state.counters =
          ap
            (λ (x : Workers (with_otlp g p as_request rc sink) (setup_of o p cfg e)).
              x.state.counters)
            (some-injective other end (sym again ∙ run)) in
        let sent : other.state.counters.sent ≡ end.state.counters.sent =
          ap (λ (x : Counters). x.sent) counters in
        let errors : other.state.counters.errors ≡ end.state.counters.errors =
          ap (λ (x : Counters). x.errors) counters in
        let generated : other.state.counters.generated ≡ end.state.counters.generated =
          ap (λ (x : Counters). x.generated) counters in
        rw (run, all_returned-All end.locals returns)
          (
            omega (arith, close_conns_open g k sink.conns end.state.world.of_grpc, kept),
            omega (arith, covered, sent, errors, generated),
            omega (arith, below, limit, sent, errors),
          )

    -- A session with the OTLP sink ends with as many connections open as at its start: it fails to open one
    -- of its own and has closed the others, or `Run` returns and `Close` closes them all. `Run` then has
    -- sent or dropped no more spans than it has generated, and fewer than the span limit. This for a valid
    -- configuration with a span limit, of which so many batches are enough; under every schedule that gives
    -- each worker nine turns for each of these batches and five more, as long as the counter of generated
    -- spans does not wrap; for a batch size other than zero with twentyfold less than 2^64; and over a run
    -- context of which nothing takes the end back, and a client that opens one connection for each success,
    -- closes one for each Close, and does neither in an export.
    pub session-IsClosed :
        (w : g.World) (m : rc.Moment)
        → IsValid cfg
        → IsInt64 cfg
        → effective_batch_size cfg ≡ pos size
        → 0 < size
        → size * 20 < 2 ^ 64
        → length xs * size < 2 ^ 64
        → 0 < cfg.gen.max_spans
        → cfg.gen.max_spans ≤ rounds * size
        → ((i : ℕ) → i < worker_count cfg.gen.workers procs → 9 * rounds + 5 ≤ turns i xs)
        → IsClosed cfg.gen.max_spans
            (k.open_in w)
            (session g p as_request rc o cfg procs clock xs w m)
    unfolding session
    session-IsClosed w m valid fits batch some_span small few limit enough fair =
        opened (new_otlp g cfg.otlp w) (new_otlp-HasDialled g k cfg.otlp w)
      where
        opened :
            (r : Result g.Err (OtlpSink g) × g.World)
            → HasDialled g k cfg.otlp (k.open_in w) r
            → IsClosed cfg.gen.max_spans
                (k.open_in w)
                (over_sink g p as_request rc o cfg procs clock xs m r)
        opened (err e, v) h = h
        opened (ok sink, v) h =
            let (e, made, is) = new_engine-IsEngineOf o cfg valid fits in
            rw made (
              closed sink v m e (k.open_in w) is h.1 h.2 batch some_span small few limit enough
                fair)
