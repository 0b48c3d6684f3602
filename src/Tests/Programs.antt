-- ===== src/Tests/Programs.antt =====
-- The start of the program, and its parts together, at concrete inputs.
use spangen.Base.{
  if◌then◌else◌, none, ◌&&◌, Text, ◌==◌, ◌++◌, Bool, ◌-◌, false, ℕ, ◌≡◌, refl, List, [], ◌∷◌, some,
  codes, arith,
}
use spangen.Base.Int.{pos}
use spangen.Config.Parse.{resolve, parse, gen_config}
use spangen.Engine.Setup.Batches.{IsInt64}
use spangen.Engine.{deliver}
use spangen.Engine.Send as Engine
use spangen.Model.Spans.{ResourceSpans}
use spangen.Model.Generate.{State}
use spangen.Model.Generate.Tree.{fill_batch}
use spangen.Sink.Clickhouse.Send.{BatchCall}
use spangen.Sink.Clickhouse.Send.Rows.{rows_of}
use spangen.Program.Delivery.{Run, with_clickhouse, Delivery, send-Delivery}
use spangen.Program.Rows.{appends, IsSent, fill_batch-IsSent}
use spangen.Base.Result.{Result}
use spangen.Sink.Clickhouse.Send.{SendError, send}
use spangen.Sink.Clickhouse.Send as Sender
use spangen.Metrics.{Collector, Prometheus}
use spangen.Metrics.Laws.{sound, every, apart, IsRegistry}
use spangen.Program.{World, start}
use spangen.Program.Laws.{IsReady, start-IsReady}
use spangen.Tests.Configs.{bare}
use spangen.Tests.Models.{fresh, counting, lists, one_service, one_service-IsRunnable}
use spangen.Tests.Sinks.{codec, batch, picky, one_conn, idle}
use spangen.Tests.Openings.{willing, collector}

abbrev untouched : World willing collector
untouched = record { of_driver = 0; of_grpc = 0 }

bare-IsInt64 : IsInt64 (resolve bare)
unfolding resolve gen_config
bare-IsInt64 = record { longest = omega arith }

-- A registry that refuses what Prometheus need not take.
abbrev strict : Prometheus
strict = record {
  Registry = List Collector;
  new_registry = [];
  must_register = λ c r. if sound c && every (apart c) r then some (r ++ c ∷ []) else none;
}

strict-IsRegistry : IsRegistry strict
strict-IsRegistry = record {
  held = λ r. r;
  held_new = refl;
  registers = λ c r s a. (r ++ c ∷ [], rw (s, a) refl, refl);
}

start-IsReady_example :
    IsReady willing collector strict strict-IsRegistry counting untouched
      (parse bare)
      (start willing collector strict counting bare untouched)
start-IsReady_example =
    start-IsReady willing collector strict strict-IsRegistry counting bare untouched bare-IsInt64

-- A run that goes on through three sends and pauses.
abbrev three_left : Run
three_left = record {
  Moment = ℕ;
  is_done = λ m. m == 0;
  behind_send = λ m. m - 1;
  behind_pause = λ m. m - 1;
}

abbrev over_picky : Engine.Outside (List ResourceSpans)
over_picky = with_clickhouse codec picky three_left one_conn

abbrev waiting : Engine.State over_picky
waiting = record {
  world = record { of_sink = idle; moment = 3 };
  counters = record { generated = 5; sent = 0; errors = 0 };
  calls = [];
}

send-Delivery_example :
    (sent : Bool) × (made : List (BatchCall Text)) × (t : Engine.State over_picky) × (Engine.send
        over_picky
        (pos 5)
        batch
        5
        waiting
      ≡ some t)
    × (t.counters ≡ deliver sent 5 waiting.counters)
    × (t.world.of_sink.calls ≡ [] ++ made)
    × Delivery codec picky three_left
        (codes "INSERT")
        (rows_of codec false batch)
        0
        sent
        made
        t.world.of_sink.world
send-Delivery_example =
    send-Delivery codec picky three_left one_conn batch (omega arith) (pos 5) 5 waiting
      (omega arith)

fill_batch-IsSent_example :
    (count : ℕ) × (t : State counting lists) × (r : Result (SendError Text) (Unit {0}))
    × (u : Sender.State codec picky) × (made : List (BatchCall Text)) × (fill_batch counting lists
          one_service
          (pos 3)
          fresh
        ≡ some (count, t))
    × (send codec picky one_conn t.td idle ≡ some (r, u))
    × (u.calls ≡ [] ++ made)
    × IsSent count (appends made) r
fill_batch-IsSent_example =
    fill_batch-IsSent counting lists codec picky one_service (pos 3) fresh one_conn idle
      one_service-IsRunnable refl (omega arith)
