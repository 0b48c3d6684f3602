-- ===== src/Tests/Ingests.antt =====
-- A run over the ClickHouse sink at concrete inputs.
use spangen.Base.{
  if◌then◌else◌, Bool, true, false, ◌==◌, [], ℕ, suc, ◌+◌, ◌%◌, ◌^◌, ◌≡◌, refl, none, some, All,
  Text, codes, text_eq, arith,
}
use spangen.Base.Int.{pos}
use spangen.Config.{Config, effective_batch_size}
use spangen.Config.Validate.{IsValid, validate, one_of, validate_ch, validate-IsValid}
use spangen.Engine.Setup.{Engine, new_engine}
use spangen.Engine.Setup.Batches.{IsInt64}
use spangen.Engine.Schedule.{returned, Workers, schedule}
use spangen.Engine.Launch.{setup_of, launch}
use spangen.Sink.Clickhouse.Send.{Client}
use spangen.Sink.Clickhouse.Send.Store.{audited}
use spangen.Program.Delivery.{Surroundings}
use spangen.Program.Ingest.{run_of, over_clickhouse}
use spangen.Program.Ingest.Laws.{ingest-acknowledged}
use spangen.Tests.Models.{counting, lists}
use spangen.Tests.Sinks.{codec, one_conn}
use spangen.Tests.Openings.{rotating}
use spangen.Tests.Launches.{capped, often, often-IsFair}
use spangen.Tests.Sessions.{clockwork, clockwork-IsRunContext}

-- A client that fails every other commit, and the third row in each hundred.
abbrev moody : Client
moody = record {
  World = ℕ × Bool;
  Conn = Text;
  Err = Text;
  new_batch = λ conn sql w. (none, w);
  append = λ row w.
      if w.0 == 2 then (some (codes "refused"), (suc w.0, w.1)) else (none, (suc w.0 % 100, w.1));
  send = λ w. if w.1 then (none, (w.0, false)) else (some (codes "timeout"), (w.0, true));
  abort = λ w. w;
}

abbrev ingesting : Config ℕ
ingesting = record capped { sink = codes "clickhouse"; ch = record rotating { batch_size = pos 3 } }

ingesting-IsValid : IsValid ingesting
unfolding validate text_eq one_of validate_ch
ingesting-IsValid = (validate-IsValid ingesting).0 refl

ingesting-IsInt64 : IsInt64 ingesting
ingesting-IsInt64 = record { longest = omega arith }

-- Two rows are acknowledged.
abbrev begun : Surroundings codec (audited moody) (run_of codec (audited moody) lists clockwork)
begun = record {
  of_sink = record {
    next = 0;
    world = record { world = (0, false); acknowledged = 2; taken = 0 };
    calls = [];
  };
  moment = 5;
}

ingest-acknowledged_example :
    (e : Engine ℕ) × (new_engine counting ingesting ≡ some e)
    × (end : Workers
        (over_clickhouse codec (audited moody) lists clockwork one_conn)
        (setup_of counting lists ingesting e))
    × (schedule
          (over_clickhouse codec (audited moody) lists clockwork one_conn)
          (setup_of counting lists ingesting e)
          often
          (launch counting lists
            (over_clickhouse codec (audited moody) lists clockwork one_conn)
            ingesting
            e
            4
            0
            begun)
        ≡ some end)
    × All (λ l. l ≡ returned) end.locals
    × ((2 + end.state.counters.sent) % 2 ^ 64 ≡ end.state.world.of_sink.world.acknowledged % 2 ^ 64)
unfolding effective_batch_size text_eq
ingest-acknowledged_example =
    ingest-acknowledged codec moody lists clockwork one_conn counting ingesting 3 7 4 0 begun often
      (omega arith) clockwork-IsRunContext ingesting-IsValid ingesting-IsInt64 refl (omega arith)
      (omega arith) (omega arith) (omega arith) (omega arith) often-IsFair
