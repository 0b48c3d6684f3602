-- ===== src/Engine/Send.antt =====
-- engine.go: `send`. The sink, the run context and the clock belong to a world that the calls change.
pub mod Laws
use spangen.Base.{
  ℕ, zero, suc, ◌+◌, ◌*◌, ◌%◌, ◌^◌, List, [], ◌∷◌, ◌++◌, Bool, true, false, Option, none, some,
  if◌then◌else◌, ltb, ◌==◌,
}
use spangen.Base.Int.{ℤ, to_u64}
use spangen.Engine.{
  Counters, Call, send_attempts, deliver, inflight_inc, inflight_dec, observe_duration, batches_ok,
  batches_err, send_errors, spans_sent, dropped,
}

-- What `send` asks of its surroundings: `e.snk.Send` (true where the error is nil), `ctx.Err() != nil`
-- on the run context, and the pause between two attempts.
pub record Outside (T : Type 0) : Type 1 where
  pub World : Type 0
  pub deliver_to_sink : T → World → Bool × World
  pub cancelled : World → Bool
  pub pause : World → World

module _ {T : Type 0} (o : Outside T) where
  open o use {World, deliver_to_sink, cancelled, pause}

  pub record State : Type 0 where
    pub world : World
    pub counters : Counters
    pub calls : List Call

  -- A call on a metric.
  abbrev pub note : Call → State → State
  note c s = record s { calls = s.calls ++ c ∷ [] }

  -- The counters and the metrics behind an attempt that the sink took.
  abbrev pub accepted : ℕ → State → State
  accepted n s = record s {
    counters = deliver true n s.counters;
    calls = s.calls ++ batches_ok ∷ spans_sent n ∷ [];
  }

  -- `e.snk.Send` and the histogram: whether the sink took the batch, and the state after it.
  abbrev pub attempt_once : T → State → Bool × State
  attempt_once td s =
      let (taken, w) = deliver_to_sink td s.world in
      (taken, record s { world = w; calls = s.calls ++ observe_duration ∷ [] })

  -- The pause, except after the last attempt.
  abbrev pub pause_between : ℕ → State → State
  pause_between attempt s =
      if ltb (attempt + 1) send_attempts then record s { world = pause s.world } else s

  -- Behind an error: no further attempt once the run context is done.
  abbrev pub retry : (State → Bool × State) → ℕ → State → Bool × State
  retry again attempt s = elim (cancelled s.world) [
    | true ↦ (false, s)
    | false ↦ again (pause_between attempt s)
  ]

  abbrev pub after_attempt : (State → Bool × State) → ℕ → ℕ → Bool × State → Bool × State
  after_attempt again attempt n (true, s) = (true, accepted n s)
  after_attempt again attempt n (false, s) = retry again attempt (note send_errors s)

  -- The loop, over the number of attempts left; true where the sink took the batch.
  unfoldable pub attempts : ℕ → ℕ → T → ℕ → State → Bool × State
  attempts zero attempt td n s = (false, s)
  attempts (suc left) attempt td n s =
      after_attempt (attempts left (attempt + 1) td n) attempt n (attempt_once td s)

  -- `uint64(e.batch*20)`
  abbrev pub log_period : ℤ → ℕ
  log_period batch = to_u64 batch * 20 % 2 ^ 64

  -- A batch that was not taken is counted as dropped. The test of the log line divides by the log
  -- period: `none` is the panic of an integer division by zero.
  abbrev pub settle : ℤ → ℕ → Bool × State → Option State
  settle batch n (true, s) = some s
  settle batch n (false, s) =
      if log_period batch == 0
      then none
      else some (record s {
        counters = deliver false n s.counters;
        calls = s.calls ++ batches_err ∷ dropped n ∷ [];
      })

  -- The deferred call on the gauge.
  abbrev pub leave : Option State → Option State
  leave none = none
  leave (some s) = some (note inflight_dec s)

  unfoldable pub send : ℤ → T → ℕ → State → Option State
  unfolding attempts
  send batch td n s = leave (settle batch n (attempts send_attempts 0 td n (note inflight_inc s)))
