-- ===== src/Engine/Send/Laws.antt =====
-- `send` against a table of the four fates of a batch.
use spangen.Base.{
  ℕ, ◌≡◌, refl, ap, ◌∙◌, ◌≢◌, List, [], ◌∷◌, ◌++◌, Bool, true, false, none, some, arith, ◌==◌,
  Bool-cases, inl, inr,
}
use mathlib.Core.List.{append_assoc}
use spangen.Base.Int.{ℤ}
use spangen.Engine.{
  send_attempts, Call, deliver, inflight_inc, inflight_dec, observe_duration, batches_ok,
  batches_err, send_errors, spans_sent, dropped,
}
use spangen.Engine.Send.{
  Outside, State, attempts, note, accepted, after_attempt, retry, settle, leave, log_period, send,
}

pub data Fate : Type 0 where
  taken_first taken_second stopped_after_first refused_twice : Fate

abbrev pub is_taken : Fate → Bool
is_taken taken_first = true
is_taken taken_second = true
is_taken stopped_after_first = false
is_taken refused_twice = false

-- The calls on the metrics between the two on the gauge.
abbrev pub fate_calls : Fate → ℕ → List Call
fate_calls taken_first n = observe_duration ∷ batches_ok ∷ spans_sent n ∷ []
fate_calls taken_second n =
    observe_duration ∷ send_errors ∷ observe_duration ∷ batches_ok ∷ spans_sent n ∷ []
fate_calls stopped_after_first n = observe_duration ∷ send_errors ∷ batches_err ∷ dropped n ∷ []
fate_calls refused_twice n =
    observe_duration ∷ send_errors ∷ observe_duration ∷ send_errors ∷ batches_err ∷ dropped n ∷ []

period_test : {p : ℕ} → p ≢ 0 → (p == 0) ≡ false
period_test h = ground arith

module _ {T : Type 0} (o : Outside T) where
  open o use {World, deliver_to_sink, cancelled, pause}

  unfoldable pub second_fate : Bool × World → Fate × World
  second_fate (true, w) = (taken_second, w)
  second_fate (false, w) = (refused_twice, w)

  unfoldable pub second_try : T → World → Bool → Fate × World
  unfolding second_fate
  second_try td w true = (stopped_after_first, w)
  second_try td w false = second_fate (deliver_to_sink td (pause w))

  unfoldable pub first_fate : T → Bool × World → Fate × World
  unfolding second_try
  first_fate td (true, w) = (taken_first, w)
  first_fate td (false, w) = second_try td w (cancelled w)

  -- A second attempt, behind one pause, is made only if the first failed and the run goes on.
  unfoldable pub fate : T → World → Fate × World
  unfolding first_fate
  fate td w = first_fate td (deliver_to_sink td w)

  -- What the loop returns.
  tried : Fate × World → ℕ → State o → Bool × State o
  tried (taken_first, w) n s = (true, accepted o n (at_first w s))
    where
      at_first : World → State o → State o
      at_first w s = record s { world = w; calls = s.calls ++ observe_duration ∷ [] }
  tried (taken_second, w) n s = (true, accepted o n (record s { world = w; calls = calls }))
    where
      calls : List Call
      calls = s.calls ++ observe_duration ∷ send_errors ∷ observe_duration ∷ []
  tried (stopped_after_first, w) n s = (false, record s { world = w; calls = calls })
    where
      calls : List Call
      calls = s.calls ++ observe_duration ∷ send_errors ∷ []
  tried (refused_twice, w) n s = (false, record s { world = w; calls = calls })
    where
      calls : List Call
      calls = s.calls ++ observe_duration ∷ send_errors ∷ observe_duration ∷ send_errors ∷ []

  module _ (td : T) (n : ℕ) (s : State o) where
    loop : Bool × State o
    unfolding attempts
    loop = attempts o send_attempts 0 td n s

    loop_second :
        (v : World) (r : Bool × World)
        → deliver_to_sink td s.world ≡ (false, v)
        → cancelled v ≡ false
        → deliver_to_sink td (pause v) ≡ r
        → loop ≡ tried (second_fate r) n s
    unfolding loop tried second_fate
    loop_second v (true, w) e c d =
        rw (e, after_attempt, c, retry, d, after_attempt) (simp append_assoc)
    loop_second v (false, w) e c d = elim (Bool-cases (cancelled w)) [
      | inl done ↦
          rw (e, after_attempt, c, retry, d, after_attempt, done, retry) (simp append_assoc)
      | inr going ↦
          rw (e, after_attempt, c, retry, d, after_attempt, going, retry) (simp append_assoc)
    ]

    loop_failed :
        (v : World) (c : Bool)
        → deliver_to_sink td s.world ≡ (false, v)
        → cancelled v ≡ c
        → loop ≡ tried (second_try td v c) n s
    unfolding second_try
    loop_failed v true e c =
        unfold loop tried in (rw (e, after_attempt, c, retry) (simp append_assoc))
    loop_failed v false e c = loop_second v (deliver_to_sink td (pause v)) e c refl

    loop_first :
        (r : Bool × World) → deliver_to_sink td s.world ≡ r → loop ≡ tried (first_fate td r) n s
    unfolding first_fate
    loop_first (true, w) e = unfold loop tried in (rw e refl)
    loop_first (false, w) e = loop_failed w (cancelled w) e refl

    loop-tried : loop ≡ tried (fate td s.world) n s
    unfolding fate
    loop-tried = loop_first (deliver_to_sink td s.world) refl

  -- The state that the table promises.
  unfoldable pub fated : Fate × World → ℕ → State o → State o
  fated (f, w) n s = record {
    world = w;
    counters = deliver (is_taken f) n s.counters;
    calls = s.calls ++ inflight_inc ∷ (fate_calls f n ++ inflight_dec ∷ []);
  }

  send-loop :
      (batch : ℤ) (td : T) (n : ℕ) (s : State o)
      → send o batch td n s
        ≡ leave o (settle o batch n (tried (fate td s.world) n (note o inflight_inc s)))
  unfolding send loop
  send-loop batch td n s =
      ap (λ r. leave o (settle o batch n r)) (loop-tried td n (note o inflight_inc s))

  module _ (batch : ℤ) (n : ℕ) (s : State o) where
    settle-fated :
        (r : Fate × World)
        → log_period o batch ≢ 0
        → leave o (settle o batch n (tried r n (note o inflight_inc s))) ≡ some (fated r n s)
    unfolding tried fated
    settle-fated (taken_first, w) h = simp append_assoc
    settle-fated (taken_second, w) h = simp append_assoc
    settle-fated (stopped_after_first, w) h = rw (period_test h) (simp append_assoc)
    settle-fated (refused_twice, w) h = rw (period_test h) (simp append_assoc)

    settle_panics :
        (r : Fate × World)
        → log_period o batch ≡ 0
        → is_taken r.0 ≡ false
        → leave o (settle o batch n (tried r n (note o inflight_inc s))) ≡ none
    unfolding tried
    settle_panics (taken_first, w) h f = cc
    settle_panics (taken_second, w) h f = cc
    settle_panics (stopped_after_first, w) h f = rw h refl
    settle_panics (refused_twice, w) h f = rw h refl

  -- `send` makes one or two attempts, and does what the table says of its fate, as long as the log
  -- period is not zero.
  pub send-fated :
      (batch : ℤ) (td : T) (n : ℕ) (s : State o)
      → log_period o batch ≢ 0
      → send o batch td n s ≡ some (fated (fate td s.world) n s)
  send-fated batch td n s h = send-loop batch td n s ∙ settle-fated batch n s (fate td s.world) h

  -- A log period of zero makes `send` panic whenever the batch is dropped.
  pub send_panics :
      (batch : ℤ) (td : T) (n : ℕ) (s : State o)
      → log_period o batch ≡ 0
      → is_taken (fate td s.world).0 ≡ false
      → send o batch td n s ≡ none
  send_panics batch td n s h f =
      send-loop batch td n s ∙ settle_panics batch n s (fate td s.world) h f
