-- ===== src/Tests/Sessions.antt =====
-- A session with the OTLP sink at concrete inputs.
use spangen.Base.{ℕ, ◌-◌, refl, ◌==◌, ltb, text_eq, arith}
use spangen.Config.{effective_batch_size}
use spangen.Program.Session.{RunContext, session}
use spangen.Program.Session.Laws.{IsRunContext, IsSteady, IsClosed, session-IsClosed}
use spangen.Tests.Models.{counting, lists}
use spangen.Tests.Openings.{collector, collector-IsCounted}
use spangen.Tests.Launches.{capped, capped-IsValid, capped-IsInt64, often, often-IsFair}

-- A run with so many ticks left.
abbrev pub clockwork : RunContext
clockwork = record {
  Moment = ℕ;
  is_done = λ m. m == 0;
  cancel = λ m. 0;
  wait_n = λ n m. (ltb 0 m, m);
  elapse = λ m. m - 1;
  behind_send = λ m. m;
  behind_pause = λ m. m - 1;
}

pub clockwork-IsRunContext : IsRunContext clockwork
clockwork-IsRunContext = record {
  cancels = λ m. refl;
  sends = λ m h. h;
  pauses = λ m h. ground (arith, h);
  waits = λ n m h. h;
  elapses = λ m h. ground (arith, h);
}

collector-IsSteady : IsSteady collector collector-IsCounted
unfolding collector-IsCounted
collector-IsSteady = record { exports = λ sink conn td w. refl }

session-IsClosed_example :
    IsClosed collector lists
      (λ td. 0)
      clockwork
      collector-IsCounted
      20
      2
      (session collector lists (λ td. 0) clockwork counting capped 4 0 often 2 5)
unfolding effective_batch_size text_eq collector-IsCounted
session-IsClosed_example =
    session-IsClosed collector lists (λ td. 0) clockwork collector-IsCounted clockwork-IsRunContext
      collector-IsSteady counting capped 3 7 4 0 often 2 5 capped-IsValid capped-IsInt64 refl
      (omega arith) (omega arith) (omega arith) (omega arith) (omega arith) often-IsFair
