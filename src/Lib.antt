-- ===== src/Lib.antt =====
-- spangen generates synthetic OpenTelemetry traces and sends them to ClickHouse or, over OTLP, to a
-- collector. This library models the program by its parts and proves what makes each correct.
--
-- The parts and how they interact
--   `main` (cmd/spangen/main.go) reads the configuration, registers the metrics, opens one of the two
--   sinks and runs the engine. The engine (internal/generate/engine.go) builds one topology of services
--   (internal/model/catalog.go) for all its workers. Each worker has a generator of its own
--   (internal/model/generator.go), which fills one batch after the other with whole traces; the worker
--   counts the batch, waits for the limiter, and hands the batch to the sink, with one retry. The sink
--   (internal/sink/clickhouse.go or internal/sink/otlp.go) turns the batch into the rows of one INSERT, or
--   exports it. The workers share three 64-bit counters and one run context.
--
-- Base: what every part shares. Lists, texts (lists of code points), decimal and hexadecimal numerals,
--   splitting and trimming, Go's integers with their wrap (Base/Int), bits (Base/Word), results and the
--   monad of code that changes a state and may panic (Base/Result, Base/State).
-- Config: internal/config/config.go. The records are in Config; `validate` in Config/Validate, with a
--   description of the configurations it should accept; `splitCSV` and `parseKV` in Config/Lists; the host
--   identifier and the replica index (`hostID`, `detectReplicaIndex`) in Config/Hash; the environment's
--   helpers in Config/Env and `Parse` in Config/Parse.
-- Engine: internal/generate/engine.go. `send` in Engine/Send, against a table of the fates of a batch;
--   `worker` in Engine/Workers, as steps of any number of workers on the shared counters, in any
--   order (Move is one step of a worker, Step one of the system, Reach the states that come up);
--   `worker` with `send` as code in Engine/Schedule, one step at a time (`advance`), for workers that take
--   turns under a schedule; Simulation, Runs and Refines below it relate that code to the relation, and
--   Turns, Countdown, Ending, Rounds, Going and Capped count the turns until the workers return, and Keeps,
--   Stored and Books follow what the workers share;
--   `seedFor` in Engine/Seed; the number of the workers and their seeds in Engine/Run; `New`, and the batches
--   of a worker, in Engine/Setup; `Run` on the engine that `New` returns in Engine/Launch; `ramp` in
--   Engine/Ramp; `sampleRate` and `logStatus` in Engine/Stats.
-- Metrics: internal/metrics/metrics.go, `New`.
-- Model: internal/model. The random draws are in Model/Draw, the data of the topology in Model/Catalog,
--   `BuildCatalog` in Model/Catalog/Build, what a batch holds in Model/Spans. Model/Generate has the
--   generator's state; Attributes, Emit and Tree below it have `applyAttributes`, `emitSpan` with
--   `scopeFor`, and `addChildren`, `genTrace` and `FillBatch`. Batch is the abstract view of a batch: the
--   services with their spans, which a log of (service, span) pairs gives.
-- Program: cmd/spangen/main.go, up to the call of `Run`, and four compositions: Session is the rest of `main`
--   with the OTLP sink, from NewOTLP over `Run` to the deferred `Close`; Ingest is `Run` over the ClickHouse
--   sink, a whole `Send` being one turn of the schedule, with a client that also counts the rows it has
--   acknowledged; Delivery the engine's `send` over it, Rows the rows of a batch that the generator has filled.
-- Sink: internal/sink. Of clickhouse.go, Rows has the INSERT and the rows, Pick the choice of a connection
--   (in both sinks), Send has `Send`, Open has `NewClickHouse` (its connections in Open/Connections), its
--   options and `Close`; Native and Http are the two protocols of `Send`, Http with its transactions. Otlp
--   has internal/sink/otlp.go.
-- Tests: data, runs and the theorems at concrete inputs.
--
-- How the code is read
--   A Go int, int64 or time.Duration is an integer ℤ; where the code adds or subtracts such numbers in a
--   way that a theorem depends on, the operation wraps at 64 bits (◌+i64◌, ◌-i64◌). The times of spans
--   are summed without a wrap and converted by `to_u64`. A uint64 is a natural number, reduced modulo
--   2^64 by each operation that can exceed it. A map is an association list, and a string a list of code
--   points. A panic is `none`; an error is an `err`, or a `some` where the code returns an error or nil.
--   Loops are recursions on a list or on a number of rounds. Two recursions are on fuel: `addChildren` is
--   given 7, since it goes no deeper than 6 from depth 1 on, and the loop of `FillBatch` is given its
--   target, since each trace has a span. A lack of fuel is a panic in the model.
--
-- Parameters, for what the code takes from elsewhere
--   Inputs (Config/Env): the flags, the environment, strconv and time.ParseDuration where they are not
--   written out, os.Hostname, crypto/rand. Source (Model): math/rand/v2, float64 and the clock, with the law
--   that IntN(n) is below n. Environment (Engine/Schedule): Outside, with `cancel()`, the limiter and
--   what ends a run from outside. Pdata (Model/Spans): the containers of pdata, with the laws that a new one is
--   empty and that AppendEmpty appends. Outside (Engine/Send): the sink, the run context and the pause.
--   RunContext (Program/Session): the run context, the limiter and the time.
--   Codec and Client (Sink/Clickhouse), NativeDriver (Native), Database (Http), Driver (Open) and Grpc (Otlp): the libraries of
--   the two sinks, whose answers come from a world that the calls change. Prometheus (Metrics): the registry.
--   Named hypotheses on them: IsBalanced and IsCounted (an open adds one, a close takes one away),
--   IsSteady (an export opens and closes nothing),
--   IsContext and IsRunContext (`cancel()` ends the run context, and nothing takes that back),
--   IsOrdered (the order of float64), IsRegistry (what Register accepts), IsUnset (nothing is set).
--
-- Not modelled
--   The HTTP endpoint of the metrics, signals and the log, which are calls of libraries without a decision
--   of their own; the deferred `Close` with the ClickHouse sink. Of `Run`, the duration and the signals appear as the end of
--   the run context at any time. In a step of a worker, `errors.Add` and the `errors.Load` for the log line
--   stand together, since what is loaded decides on the log line only. One `Send` of a sink is one turn of a
--   worker: two `Send`s share nothing in the code but the counter of `pick`, which is advanced atomically, so
--   what the one does meanwhile to the other shows in the answers of the library alone. A timeout is handed on as a value, and what comes of it is an error that a
--   library answers. The order in which Go walks a map is left out: attributes are lists, and a key that
--   is put again replaces the value (attr_map).
pub mod Base
pub mod Config
pub mod Engine
pub mod Metrics
pub mod Model
pub mod Program
pub mod Sink
pub mod Tests
