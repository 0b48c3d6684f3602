-- ===== src/Engine/Schedule/Rounds.antt =====
-- With a span limit, the turns that a worker takes until the limit is reached.
use spangen.Base.{ℕ, zero, suc, ◌+◌, ◌-◌, ◌*◌, ◌≤◌, ◌<◌, ◌≡◌, some, arith}
use spangen.Engine.Schedule.{
  Local, looping, generated, reached, counted, waited, trying, accepting, refused, dropping,
  returned, Setup,
}
use spangen.Engine.Schedule.Turns.{turns_left}

-- `FillBatch` returns, with so many spans.
pub record FillsUp {T G : Type 0} (u : Setup T G) (size : ℕ) : Type 0 where
  pub fills : (g : G) → (r : ℕ × T × G) × (u.fill g ≡ some r) × (r.0 ≡ size)

-- The turns of the attempts that are left.
abbrev pub retries : ℕ → ℕ
retries zero = 2
retries (suc k) = 0

module _ (max size : ℕ) where
  -- So many batches more reach the limit, when c spans are generated; with them, and p turns besides, no more
  -- than b turns are left.
  pub record Rounds (p c b : ℕ) : Type 0 where
    pub rounds : ℕ
    pub covers : max ≤ c + rounds * size
    pub enough : p + 9 * rounds ≤ b

  -- More spans may be generated meanwhile.
  more_Rounds : (p c d b : ℕ) → c ≤ d → Rounds p c b → Rounds p d b
  more_Rounds p c d b le h = record {
    rounds = h.rounds;
    covers = omega (arith, h.covers);
    enough = h.enough;
  }

  -- The next turn of a round.
  pub next_Rounds : (p q c d b : ℕ) → q < p → c ≤ d → Rounds p c b → Rounds q d (b - 1)
  next_Rounds p q c d b less more h = record {
    rounds = h.rounds;
    covers = omega (arith, h.covers);
    enough = omega (arith, h.enough);
  }

  -- A batch is counted, and the limit is not reached.
  pub counted_Rounds : (c b : ℕ) → c + size < max → Rounds 4 c b → Rounds 12 (c + size) (b - 1)
  counted_Rounds c b below h = by_rounds h.rounds h.covers h.enough
    where
      by_rounds : (r : ℕ) → max ≤ c + r * size → 4 + 9 * r ≤ b → Rounds 12 (c + size) (b - 1)
      by_rounds zero covers enough = record {
        rounds = 0;
        covers = omega (arith, covers);
        enough = omega (arith, covers);
      }
      by_rounds (suc r) covers enough = record {
        rounds = r;
        covers = omega (arith, covers);
        enough = omega (arith, enough);
      }

module _ {T G : Type 0} (max size : ℕ) where
  -- The turns that a worker has left are enough, as long as the run context is not done.
  abbrev pub Enough : Local T G → ℕ → ℕ → Type 0
  Enough (looping g) c b = Rounds max size 5 c b
  Enough (generated g td n) c b = Rounds max size 4 c b
  Enough (reached g td n) c b = Rounds max size 3 c b
  Enough (counted g td n) c b = Rounds max size 12 c b
  Enough (waited g td n) c b = Rounds max size 11 c b
  Enough (trying g td n k) c b = Rounds max size (8 + retries k) c b
  Enough (accepting g n) c b = Rounds max size 6 c b
  Enough (refused g td n k) c b = Rounds max size (7 + retries k) c b
  Enough (dropping g n) c b = Rounds max size 6 c b
  Enough returned c b = Unit

  -- The batch that is to be counted is full.
  abbrev pub IsFull : Local T G → Type 0
  IsFull (looping g) = Unit
  IsFull (generated g td n) = n ≡ size
  IsFull (reached g td n) = Unit
  IsFull (counted g td n) = Unit
  IsFull (waited g td n) = Unit
  IsFull (trying g td n k) = Unit
  IsFull (accepting g n) = Unit
  IsFull (refused g td n k) = Unit
  IsFull (dropping g n) = Unit
  IsFull returned = Unit

  -- They are enough behind the end as well.
  pub Enough-left : (l : Local T G) (c b : ℕ) → Enough l c b → turns_left l ≤ b
  Enough-left (looping g) c b h = omega (arith, h.enough)
  Enough-left (generated g td n) c b h = omega (arith, h.enough)
  Enough-left (reached g td n) c b h = omega (arith, h.enough)
  Enough-left (counted g td n) c b h = omega (arith, h.enough)
  Enough-left (waited g td n) c b h = omega (arith, h.enough)
  Enough-left (trying g td n k) c b h = omega (arith, h.enough)
  Enough-left (accepting g n) c b h = omega (arith, h.enough)
  Enough-left (refused g td n k) c b h = omega (arith, h.enough)
  Enough-left (dropping g n) c b h = omega (arith, h.enough)
  Enough-left returned c b h = omega arith

  pub Enough-more : (l : Local T G) (c d b : ℕ) → c ≤ d → Enough l c b → Enough l d b
  Enough-more (looping g) c d b le h = more_Rounds max size 5 c d b le h
  Enough-more (generated g td n) c d b le h = more_Rounds max size 4 c d b le h
  Enough-more (reached g td n) c d b le h = more_Rounds max size 3 c d b le h
  Enough-more (counted g td n) c d b le h = more_Rounds max size 12 c d b le h
  Enough-more (waited g td n) c d b le h = more_Rounds max size 11 c d b le h
  Enough-more (trying g td n k) c d b le h = more_Rounds max size (8 + retries k) c d b le h
  Enough-more (accepting g n) c d b le h = more_Rounds max size 6 c d b le h
  Enough-more (refused g td n k) c d b le h = more_Rounds max size (7 + retries k) c d b le h
  Enough-more (dropping g n) c d b le h = more_Rounds max size 6 c d b le h
  Enough-more returned c d b le h = tt
