-- ===== src/Program/Ingest.antt =====
-- engine.go over clickhouse.go: the workers of `Run`, with the ClickHouse sink as their `e.snk`.
pub mod Laws
use spangen.Base.{ℕ, Bool}
use spangen.Model.Spans.{Pdata}
use spangen.Engine.Schedule.{Environment}
use spangen.Sink.Clickhouse.Rows.{Codec}
use spangen.Sink.Clickhouse.Send.{Client, ChSink, send}
use spangen.Program.Delivery.{Run, Surroundings, taken}
use spangen.Program.Session.{RunContext}

module _ (c : Codec) (cl : Client) (p : Pdata) (rc : RunContext) where
  -- The run context, as `send` of the engine sees it.
  abbrev pub run_of : Run
  run_of = record {
    Moment = rc.Moment;
    is_done = rc.is_done;
    behind_send = rc.behind_send;
    behind_pause = rc.behind_pause;
  }

  -- The environment of the workers, with this sink. A whole `Send` is one turn: the batch and its
  -- connection's statement are the worker's own, the only thing of the sink that `Send` shares is the counter
  -- of `pick`, and what other workers send meanwhile shows in the client's answers, which are any.
  abbrev pub over_clickhouse : ChSink cl.Conn → Environment p.Td
  over_clickhouse sink = record {
    outside = record {
      World = Surroundings c cl run_of;
      deliver_to_sink =
          λ td w. taken c cl run_of w (send c cl sink (p.resource_spans td) w.of_sink);
      cancelled = λ w. rc.is_done w.moment;
      pause = λ w. record w { moment = rc.behind_pause w.moment };
    };
    cancel = λ w. record w { moment = rc.cancel w.moment };
    wait_n = λ n w. let (done, m) = rc.wait_n n w.moment in (done, record w { moment = m });
    elapse = λ w. record w { moment = rc.elapse w.moment };
  }
