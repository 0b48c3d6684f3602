-- ===== src/Program/Ingest/Laws.antt =====
-- Behind a run over the ClickHouse sink, the spans counted as sent are the rows that are acknowledged.
use spangen.Base.{
  ℕ, ◌+◌, ◌*◌, ◌%◌, ◌^◌, ◌≤◌, ◌<◌, ◌≡◌, refl, sym, ap, ◌∙◌, List, [], ◌∷◌, map, All, length, Option,
  none, some, some-injective, true, false, sum_of, arith,
}
use spangen.Base.Int.{pos}
use spangen.Base.Result.{Result, ok, err}
use spangen.Config.{Config, effective_batch_size}
use spangen.Config.Validate.{IsValid}
use spangen.Model.{Source}
use spangen.Model.Spans.{Pdata}
use spangen.Model.Generate.{State}
use spangen.Engine.Run.{worker_count, run_seeds}
use spangen.Engine.Setup.{Engine, new_engine, generator_settings, new_generator, next_batch}
use spangen.Engine.Setup.Batches.{IsInt64, IsEngineOf, new_engine-IsEngineOf}
use spangen.Engine.Schedule.{Environment, Local, returned, Turn, Workers, schedule}
use spangen.Engine.Schedule.Follows.{IsContext}
use spangen.Engine.Schedule.Turns.{turns}
use spangen.Engine.Schedule.Stored.{IsStore, IsMeasured, to_count}
use spangen.Engine.Schedule.Books.{schedule-stored}
use spangen.Engine.Launch.{with_traces, setup_of, launch}
use spangen.Engine.Launch.Laws.{run-ends}
use spangen.Sink.Clickhouse.Rows.{Codec}
use spangen.Sink.Clickhouse.Send.{Client, ChSink, SendError, send}
use spangen.Sink.Clickhouse.Send as Sender
use spangen.Sink.Clickhouse.Send.Rows.{rows_of}
use spangen.Sink.Clickhouse.Send.Store.{audited, audited-IsStoring, IsStoring, send-Stores}
use spangen.Program.Delivery.{Surroundings, taken}
use spangen.Program.Rows.{fill_batch-rows}
use spangen.Program.Session.{RunContext}
use spangen.Program.Session.Laws.{IsRunContext}
use spangen.Program.Ingest.{run_of, over_clickhouse}

counted_all :
    {T G : Type 0} (ls : List (Local T G)) → All (λ l. l ≡ returned) ls → sum_of to_count ls ≡ 0
unfolding sum_of
counted_all [] h = refl
counted_all (l ∷ ls) h = omega (arith, ap to_count h.0, counted_all ls h.1)

module _ (c : Codec) (cl : Client) (p : Pdata) (rc : RunContext) (b : IsStoring cl)
    (sink : ChSink cl.Conn) where
  abbrev rows_in : p.Td → ℕ
  rows_in td = length (rows_of c sink.json_attrs (p.resource_spans td))

  over_clickhouse-IsContext : IsRunContext rc → IsContext (over_clickhouse c cl p rc sink)
  over_clickhouse-IsContext k = record {
    cancels = λ w. k.cancels w.moment;
    sends = λ td w h. lasts w h (send c cl sink (p.resource_spans td) w.of_sink);
    pauses = λ w h. k.pauses w.moment h;
    waits = λ n w h. k.waits n w.moment h;
    elapses = λ w h. k.elapses w.moment h;
  }
    where
      lasts :
          (w : Surroundings c cl (run_of c cl p rc))
          → rc.is_done w.moment ≡ true
          → (m : Option (Result (SendError cl.Err) (Unit {0}) × Sender.State c cl))
          → rc.is_done (taken c cl (run_of c cl p rc) w m).1.moment ≡ true
      lasts w h none = h
      lasts w h (some (ok u, t)) = k.sends w.moment h
      lasts w h (some (err e, t)) = k.sends w.moment h

  over_clickhouse-IsStore : IsStore (over_clickhouse c cl p rc sink) rows_in
  over_clickhouse-IsStore = record {
    stored = λ w. b.stored w.of_sink.world;
    accepts = λ td w q. took td w (send c cl sink (p.resource_spans td) w.of_sink) refl q;
    refuses = λ td w q. refused td w (send c cl sink (p.resource_spans td) w.of_sink) refl q;
    pauses = λ w. refl;
    waits = λ n w. refl;
    cancels = λ w. refl;
    elapses = λ w. refl;
  }
    where
      took :
          (td : p.Td) (w : Surroundings c cl (run_of c cl p rc))
          (m : Option (Result (SendError cl.Err) (Unit {0}) × Sender.State c cl))
          → send c cl sink (p.resource_spans td) w.of_sink ≡ m
          → (taken c cl (run_of c cl p rc) w m).0 ≡ true
          → b.stored (taken c cl (run_of c cl p rc) w m).1.of_sink.world
            ≡ b.stored w.of_sink.world + rows_in td
      took td w none q h = cc
      took td w (some (ok u, t)) q h = send-Stores c cl b sink (p.resource_spans td) w.of_sink q
      took td w (some (err e, t)) q h = cc

      refused :
          (td : p.Td) (w : Surroundings c cl (run_of c cl p rc))
          (m : Option (Result (SendError cl.Err) (Unit {0}) × Sender.State c cl))
          → send c cl sink (p.resource_spans td) w.of_sink ≡ m
          → (taken c cl (run_of c cl p rc) w m).0 ≡ false
          → b.stored (taken c cl (run_of c cl p rc) w m).1.of_sink.world ≡ b.stored w.of_sink.world
      refused td w none q h = refl
      refused td w (some (ok u, t)) q h = cc
      refused td w (some (err e, t)) q h = send-Stores c cl b sink (p.resource_spans td) w.of_sink q

  module _ (o : Source) (cfg : Config o.Float) where
    setup_of-IsMeasured :
        (e : Engine o.Float) → IsEngineOf o cfg e → IsMeasured (setup_of o p cfg e) rows_in
    unfolding setup_of next_batch
    setup_of-IsMeasured e is = record { measures = λ g {n} {td} {h} q. measured g n td h q }
      where
        measured :
            (g : State o p) (n : ℕ) (td : p.Td) (h : State o p)
            → (setup_of o p cfg e).fill g ≡ some (n, td, h)
            → rows_in td ≡ n
        measured g n td h q =
            let (count, t, filled, same) =
              fill_batch-rows o p c sink.json_attrs (generator_settings o e cfg.gen) e.batch
                (record g { td = p.new_traces }) is.runnable p.read-new_traces in
            let given : ◌≡◌ {A = ℕ × p.Td × State o p} (count, t.td, t) (n, td, h) =
              some-injective (count, t.td, t) (n, td, h) (sym (ap (with_traces o p) filled) ∙ q) in
            ap (λ (r : ℕ × p.Td × State o p). rows_in r.1) (sym given)
            ∙ same
            ∙ ap (λ (r : ℕ × p.Td × State o p). r.0) given

    -- Behind a run with a span limit the spans counted as sent are those that the count went up by.
    ingest-IsStoring :
        (size rounds procs clock : ℕ) (w : Surroundings c cl (run_of c cl p rc)) (xs : List Turn)
        → 0 < length sink.conns
        → IsRunContext rc
        → IsValid cfg
        → IsInt64 cfg
        → effective_batch_size cfg ≡ pos size
        → 0 < size
        → size * 20 < 2 ^ 64
        → length xs * size < 2 ^ 64
        → 0 < cfg.gen.max_spans
        → cfg.gen.max_spans ≤ rounds * size
        → ((i : ℕ) → i < worker_count cfg.gen.workers procs → 9 * rounds + 5 ≤ turns i xs)
        → (e : Engine o.Float) × (new_engine o cfg ≡ some e)
          × (end : Workers (over_clickhouse c cl p rc sink) (setup_of o p cfg e)) × (schedule
                (over_clickhouse c cl p rc sink)
                (setup_of o p cfg e)
                xs
                (launch o p (over_clickhouse c cl p rc sink) cfg e procs clock w)
              ≡ some end)
          × All (λ l. l ≡ returned) end.locals
          × ((b.stored w.of_sink.world + end.state.counters.sent) % 2 ^ 64
              ≡ b.stored end.state.world.of_sink.world % 2 ^ 64)
    unfolding launch over_clickhouse-IsStore
    ingest-IsStoring size rounds procs clock w xs some_conn k valid fits batch some_span small few
          limit enough fair =
        let (e, made, is) = new_engine-IsEngineOf o cfg valid fits in
        let (end, run, count, ended) =
          run-ends o p (over_clickhouse c cl p rc sink) (over_clickhouse-IsContext k) cfg e size
            rounds procs clock w xs is batch some_span small few limit enough fair in
        let books =
          schedule-stored (over_clickhouse c cl p rc sink) (setup_of o p cfg e) rows_in
            over_clickhouse-IsStore (setup_of-IsMeasured e is)
            (map (λ seed. new_generator o p seed clock) (run_seeds cfg procs)) w xs run in
        (
          e,
          made,
          end,
          run,
          ended,
          ap (λ n. n % 2 ^ 64) (omega (arith, counted_all end.locals ended)) ∙ books,
        )

module _ (c : Codec) (cl : Client) (p : Pdata) (rc : RunContext) (sink : ChSink cl.Conn)
    (o : Source) (cfg : Config o.Float) where
  abbrev over_audited : Environment p.Td
  over_audited = over_clickhouse c (audited cl) p rc sink

  -- A run over a ClickHouse sink with a connection and with a span limit, of which so many batches are enough,
  -- ends, and the spans that it counts as sent are then, modulo 2^64, the rows that the client has
  -- acknowledged in it: those of the batches whose rows and whose commit it answered without an error. This
  -- whatever the client answers and stores, and whichever connection a batch goes to; for a valid
  -- configuration; with each `Send` of the sink as one turn, under every schedule that gives each worker nine
  -- turns for each of these batches and five more, as long as the counter of generated spans does not wrap;
  -- for a batch size other than zero with twentyfold less than 2^64; and over a run context of which nothing
  -- takes the end back.
  pub ingest-acknowledged :
      (size rounds procs clock : ℕ) (w : Surroundings c (audited cl) (run_of c (audited cl) p rc))
      (xs : List Turn)
      → 0 < length sink.conns
      → IsRunContext rc
      → IsValid cfg
      → IsInt64 cfg
      → effective_batch_size cfg ≡ pos size
      → 0 < size
      → size * 20 < 2 ^ 64
      → length xs * size < 2 ^ 64
      → 0 < cfg.gen.max_spans
      → cfg.gen.max_spans ≤ rounds * size
      → ((i : ℕ) → i < worker_count cfg.gen.workers procs → 9 * rounds + 5 ≤ turns i xs)
      → (e : Engine o.Float) × (new_engine o cfg ≡ some e)
        × (end : Workers over_audited (setup_of o p cfg e)) × (schedule over_audited
              (setup_of o p cfg e)
              xs
              (launch o p over_audited cfg e procs clock w)
            ≡ some end)
        × All (λ l. l ≡ returned) end.locals
        × ((w.of_sink.world.acknowledged + end.state.counters.sent) % 2 ^ 64
            ≡ end.state.world.of_sink.world.acknowledged % 2 ^ 64)
  unfolding audited-IsStoring
  ingest-acknowledged = ingest-IsStoring c (audited cl) p rc (audited-IsStoring cl) sink o cfg
