-- ===== src/Program/Delivery.antt =====
-- engine.go over clickhouse.go: `send` of the engine with the ClickHouse sink as its `e.snk`.
use spangen.Base.{
  ℕ, ◌<◌, ◌≡◌, refl, ap, ◌∙◌, ◌≢◌, List, ◌++◌, none, some, Option, Bool, true, false, length, Text,
}
use mathlib.Core.List.{append_assoc}
use spangen.Base.Int.{ℤ}
use spangen.Base.Result.{Result, ok, err}
use spangen.Engine.{deliver}
use spangen.Engine.Send as Engine
use spangen.Engine.Send.Laws.{
  Fate, is_taken, second_fate, second_try, first_fate, fate, fated, send-fated,
}
use spangen.Model.Spans.{ResourceSpans}
use spangen.Sink.Clickhouse.Rows.{Codec, Cell}
use spangen.Sink.Clickhouse.Send.{Client, BatchCall, SendError, ChSink, State, send}
use spangen.Sink.Clickhouse.Send.Rows.{rows_of}
use spangen.Sink.Clickhouse.Send.Laws.{Outcome, send-Outcome}

-- The run context and the time: whether the run is done, what `Send` and a pause leave of it.
pub record Run : Type 1 where
  pub Moment : Type 0
  pub is_done : Moment → Bool
  pub behind_send : Moment → Moment
  pub behind_pause : Moment → Moment

module _ (c : Codec) (cl : Client) (run : Run) where
  open cl use {Conn, Err}

  pub record Surroundings : Type 0 where
    pub of_sink : State c cl
    pub moment : run.Moment

  -- Whether the error is nil. The panic of a sink without a connection stands for a refusal here; the
  -- statements are about sinks with one.
  abbrev pub taken :
      Surroundings → Option (Result (SendError Err) (Unit {0}) × State c cl) → Bool × Surroundings
  taken w none = (false, w)
  taken w (some (ok u, t)) = (true, record { of_sink = t; moment = run.behind_send w.moment })
  taken w (some (err e, t)) = (false, record { of_sink = t; moment = run.behind_send w.moment })

  -- The engine's surroundings, with this sink.
  abbrev pub with_clickhouse : ChSink Conn → Engine.Outside (List ResourceSpans)
  with_clickhouse sink = record {
    World = Surroundings;
    deliver_to_sink = λ rs w. taken w (send c cl sink rs w.of_sink);
    cancelled = λ w. run.is_done w.moment;
    pause = λ w. record w { moment = run.behind_pause w.moment };
  }

  -- The attempts for these rows, with the calls on the client, what it answers and its worlds: one that
  -- delivers them all, behind one that failed at most; or one or two that failed.
  pub data Delivery (sql : Text) (rows : List (List Cell)) (w : cl.World)
      : Bool → List (BatchCall Conn) → cl.World → Type 0 where
    at_once :
        {conn : Conn} {made : List (BatchCall Conn)} {v : cl.World}
        → Outcome c cl conn sql rows w (ok tt) made v
        → Delivery sql rows w true made v
    at_second :
        {conn other : Conn} {e : SendError Err} {made more : List (BatchCall Conn)} {v u : cl.World}
        → Outcome c cl conn sql rows w (err e) made v
        → Outcome c cl other sql rows v (ok tt) more u
        → Delivery sql rows w true (made ++ more) u
    given_up :
        {conn : Conn} {e : SendError Err} {made : List (BatchCall Conn)} {v : cl.World}
        → Outcome c cl conn sql rows w (err e) made v
        → Delivery sql rows w false made v
    failed_twice :
        {conn other : Conn} {e f : SendError Err} {made more : List (BatchCall Conn)}
        {v u : cl.World}
        → Outcome c cl conn sql rows w (err e) made v
        → Outcome c cl other sql rows v (err f) more u
        → Delivery sql rows w false (made ++ more) u

  module _ (sink : ChSink Conn) (rs : List ResourceSpans) (h : 0 < length sink.conns) where
    abbrev engine : Engine.Outside (List ResourceSpans)
    engine = with_clickhouse sink

    abbrev rows : List (List Cell)
    rows = rows_of c sink.json_attrs rs

    -- One attempt.
    data Attempt (before : List (BatchCall Conn)) (v : cl.World)
        : Bool × Surroundings → Type 0 where
      took :
          {conn : Conn} {made : List (BatchCall Conn)} {w : Surroundings}
          → w.of_sink.calls ≡ before ++ made
          → Outcome c cl conn sink.insert_sql rows v (ok tt) made w.of_sink.world
          → Attempt before v (true, w)
      failed :
          {conn : Conn} {e : SendError Err} {made : List (BatchCall Conn)} {w : Surroundings}
          → w.of_sink.calls ≡ before ++ made
          → Outcome c cl conn sink.insert_sql rows v (err e) made w.of_sink.world
          → Attempt before v (false, w)

    attempt :
        (w : Surroundings) → Attempt w.of_sink.calls w.of_sink.world (engine.deliver_to_sink rs w)
    attempt w =
        let (conn, r, t, made, e, at, counter, calls, out) =
          send-Outcome c cl sink rs w.of_sink h in
        rw e (sorted r t calls out)
      where
        sorted :
            {conn : Conn} {made : List (BatchCall Conn)} (r : Result (SendError Err) (Unit {0}))
            (t : State c cl)
            → t.calls ≡ w.of_sink.calls ++ made
            → Outcome c cl conn sink.insert_sql rows w.of_sink.world r made t.world
            → Attempt w.of_sink.calls w.of_sink.world (taken w (some (r, t)))
        sorted (ok u) t calls out = took calls out
        sorted (err e) t calls out = failed calls out

    -- Both attempts.
    record HasDelivery (before : List (BatchCall Conn)) (v : cl.World) (r : Fate × Surroundings)
        : Type 0 where
      made : List (BatchCall Conn)
      calls : r.1.of_sink.calls ≡ before ++ made
      is : Delivery sink.insert_sql rows v (is_taken r.0) made r.1.of_sink.world

    second :
        {before made : List (BatchCall Conn)} {v : cl.World} {conn : Conn} {e : SendError Err}
        (w : Surroundings)
        → w.of_sink.calls ≡ before ++ made
        → Outcome c cl conn sink.insert_sql rows v (err e) made w.of_sink.world
        → (m : Bool × Surroundings) → Attempt w.of_sink.calls w.of_sink.world m
        → HasDelivery before v (second_fate engine m)
    unfolding second_fate
    second {before} {made} w known out (true, u) (took {made = more} calls good) = record {
      made = made ++ more;
      calls = calls ∙ ap (λ l. l ++ more) known ∙ append_assoc before made more;
      is = at_second out good;
    }
    second {before} {made} w known out (false, u) (failed {made = more} calls bad) = record {
      made = made ++ more;
      calls = calls ∙ ap (λ l. l ++ more) known ∙ append_assoc before made more;
      is = failed_twice out bad;
    }

    again :
        {before made : List (BatchCall Conn)} {v : cl.World} {conn : Conn} {e : SendError Err}
        (w : Surroundings) (done : Bool)
        → w.of_sink.calls ≡ before ++ made
        → Outcome c cl conn sink.insert_sql rows v (err e) made w.of_sink.world
        → HasDelivery before v (second_try engine rs w done)
    unfolding second_try
    again {made = made} w true known out = record { made = made; calls = known; is = given_up out }
    again w false known out =
        second (engine.pause w) known out (engine.deliver_to_sink rs (engine.pause w))
          (attempt (engine.pause w))

    first :
        {before : List (BatchCall Conn)} {v : cl.World} (m : Bool × Surroundings)
        → Attempt before v m
        → HasDelivery before v (first_fate engine rs m)
    unfolding first_fate
    first (true, w) (took {made = made} calls out) = record {
      made = made;
      calls = calls;
      is = at_once out;
    }
    first (false, w) (failed calls out) = again w (engine.cancelled w) calls out

    fate-HasDelivery :
        (w : Surroundings) → HasDelivery w.of_sink.calls w.of_sink.world (fate engine rs w)
    unfolding fate
    fate-HasDelivery w = first (engine.deliver_to_sink rs w) (attempt w)

    -- `send` of the engine over a ClickHouse sink with a connection returns, as long as the log period is not
    -- zero. It counts the batch as sent exactly where, in one attempt, the client has answered the batch, all
    -- its rows and the commit without an error; it then makes no further attempt. It counts the batch as
    -- dropped where the client answered the only attempt, or both, with an error.
    pub send-Delivery :
        (batch : ℤ) (n : ℕ) (s : Engine.State engine)
        → Engine.log_period engine batch ≢ 0
        → (sent : Bool) × (made : List (BatchCall Conn)) × (t : Engine.State engine) × (Engine.send
              engine batch rs n s
            ≡ some t)
          × (t.counters ≡ deliver sent n s.counters)
          × (t.world.of_sink.calls ≡ s.world.of_sink.calls ++ made)
          × Delivery sink.insert_sql rows s.world.of_sink.world sent made t.world.of_sink.world
    unfolding fated
    send-Delivery batch n s period =
        let d : HasDelivery s.world.of_sink.calls s.world.of_sink.world (fate engine rs s.world) =
          fate-HasDelivery s.world in
        (
          is_taken (fate engine rs s.world).0,
          d.made,
          fated engine (fate engine rs s.world) n s,
          send-fated engine batch rs n s period,
          refl,
          d.calls,
          d.is,
        )
