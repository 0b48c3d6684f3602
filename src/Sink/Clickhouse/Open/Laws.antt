-- ===== src/Sink/Clickhouse/Open/Laws.antt =====
-- clickhouse.go: what `NewClickHouse` returns on a valid configuration.
use spangen.Base.{
  ◌+◌, ◌-◌, ◌%◌, zero, leb, ◌^◌, ◌==◌, get_elem?, ℕ, suc, ◌<◌, ◌≡◌, refl, ap, ◌∙◌, List, [], ◌∷◌,
  Option, none, some, Bool, true, false, codes, text_eq, length, if◌then◌else◌, arith,
}
use spangen.Base.Int.{ℤ, pos, negsuc, to_u64, sub_ℕ, rem_ℤ}
use spangen.Base.Result.{Result, ok, err}
use spangen.Config.{ChConfig}
use spangen.Config.Validate.{IsValidCh}
use spangen.Sink.Clickhouse.Rows.{build_insert_sql}
use native.Mathlib.Nat.{mod-lt}
use spangen.Sink.Clickhouse.Pick.{pick, picked_next}
use spangen.Sink.Clickhouse.Send.{ChSink}
use spangen.Sink.Clickhouse.Open.Connections.{
  rotates, expected, expected_pos, Connected, Opened, open_conns-Opened, length-Connected,
}
use spangen.Sink.Clickhouse.Open.{
  Driver, OpenError, is_roundrobin, open_conns, first_next, sink_of, pinged, check_first,
  new_clickhouse,
}

-- The counter's start over n connections: where batches are rotated, the remainder of the replica index, which
-- Go takes with the sign of the index, as a 64-bit number; and 0 otherwise.
abbrev pub start_at : Bool → ℤ → ℕ → ℕ
start_at true (pos r) n = (r % n) % 2 ^ 64
start_at true (negsuc r) n = (2 ^ 64 - (suc r % n) % 2 ^ 64) % 2 ^ 64
start_at false replica n = 0

to_u64-sub : (k : ℕ) → to_u64 (sub_ℕ 0 k) ≡ (2 ^ 64 - k % 2 ^ 64) % 2 ^ 64
to_u64-sub zero = refl
to_u64-sub (suc k) = rw past (omega arith)
  where
    past : leb (suc k) 0 ≡ false
    past = ground arith

first_next-start_at :
    {C : Type 0} (ch : ChConfig) (replica : ℤ) (conns : List C)
    → 0 < length conns
    → first_next ch replica conns ≡ start_at (rotates ch) replica (length conns)
unfolding first_next
first_next-start_at ch replica conns p = by_mode (is_roundrobin ch) replica
  where
    some_conns : (length conns == 0) ≡ false
    some_conns = ground arith

    by_mode :
        (rotated : Bool) (replica : ℤ)
        → (if rotated
            then (if length conns == 0 then 0 else to_u64 (rem_ℤ replica (length conns)))
            else 0)
          ≡ start_at rotated replica (length conns)
    by_mode true (pos r) = rw some_conns refl
    by_mode true (negsuc r) = rw some_conns (to_u64-sub (suc r % length conns))
    by_mode false replica = refl

module _ (d : Driver) where
  open d use {World, Conn, Err}

  -- The first connection answers a ping.
  abbrev pub Pings : List Conn → World → Type 0
  Pings [] v = ⊥
  Pings (conn ∷ conns) v = (d.ping conn v).0 ≡ none

  -- A sink opened in the world w: it has its connections, the first of which has answered a ping, and the
  -- statement, the schema and the start of the counter that the configuration says.
  abbrev pub IsSinkOf : ChConfig → ℤ → World → Result (OpenError Err) (ChSink Conn × ℕ) → Type 0
  IsSinkOf ch replica w (err e) = Unit
  IsSinkOf ch replica w (ok (sink, next)) =
      ((v : World) × Connected d (rotates ch) ch w sink.conns v × Pings sink.conns v)
      × (length sink.conns ≡ expected ch)
      × (0 < length sink.conns)
      × (sink.insert_sql ≡ build_insert_sql ch.database ch.table ch.schema)
      × (sink.json_attrs ≡ text_eq ch.schema (codes "json"))
      × (next ≡ start_at (rotates ch) replica (length sink.conns))

  -- For a valid configuration the constructor returns, whatever the driver answers: the ping finds a
  -- connection. Without an error the sink has, where batches are rotated, for each endpoint and in their order
  -- the connection that opening this endpoint alone has answered, and otherwise the only connection, opened
  -- on all endpoints; the first has answered the ping; its statement and schema are those of the
  -- configuration; and its counter starts at the remainder of the replica index by the number of
  -- connections, with the sign of the index and as a 64-bit number, where batches are rotated, else at 0.
  pub new_clickhouse-IsSinkOf :
      (ch : ChConfig) (replica : ℤ) (w : World)
      → IsValidCh ch
      → (r : Result (OpenError Err) (ChSink Conn × ℕ)) × (u : World) × (new_clickhouse d ch replica
            w
          ≡ some (r, u))
        × IsSinkOf ch replica w r
  unfolding new_clickhouse sink_of
  new_clickhouse-IsSinkOf ch replica w valid =
      checked (open_conns d ch w) (open_conns-Opened d ch w) (expected_pos ch valid.endpoints)
    where
      answered :
          (conn : Conn) (conns : List Conn) (v : World) (m : Option Err × World)
          → d.ping conn v ≡ m
          → Connected d (rotates ch) ch w (conn ∷ conns) v
          → IsSinkOf ch replica w (pinged d ch replica (conn ∷ conns) m).0
      answered conn conns v (none, u) is h = (
        (v, h, ap (λ m. m.0) is),
        length-Connected d ch w (conn ∷ conns) v h,
        omega arith,
        refl,
        refl,
        first_next-start_at ch replica (conn ∷ conns) (omega arith),
      )
      answered conn conns v (some e, u) is h = tt

      checked :
          (m : Result (OpenError Err) (List Conn) × World)
          → Opened d ch w m
          → 0 < expected ch
          → (r : Result (OpenError Err) (ChSink Conn × ℕ)) × (u : World) × (check_first d ch replica
                m
              ≡ some (r, u))
            × IsSinkOf ch replica w r
      checked (err e, v) o p = (err e, v, refl, tt)
      checked (ok [], v) o p = absurd (omega (arith, length-Connected d ch w [] v o))
      checked (ok (conn ∷ conns), v) o p =
          let m : Result (OpenError Err) (ChSink Conn × ℕ) × World =
            pinged d ch replica (conn ∷ conns) (d.ping conn v) in
          (m.0, m.1, refl, answered conn conns v (d.ping conn v) refl o)

-- Where batches are rotated, a replica's first batch goes to the shard behind the one that its index
-- selects: with the index r it is shard (r mod n + 1) mod n of n.
pub first_shard :
    {C : Type 0} (ch : ChConfig) (r : ℕ) (conns : List C)
    → is_roundrobin ch ≡ true
    → 1 < length conns
    → length conns < 2 ^ 64
    → (c : C) × (pick conns (first_next ch (pos r) conns) ≡ some (c, r % length conns + 1))
      × (get_elem? conns ((r % length conns + 1) % length conns) ≡ some c)
unfolding first_next
first_shard ch r conns rotated several fits =
    let small : r % length conns < length conns = mod-lt r (omega arith) in
    let (c, p, e) = picked_next conns (r % length conns) several (omega arith) in
    (c, rw (rotated, some_conns) (start small ∙ p), e)
  where
    some_conns : (length conns == 0) ≡ false
    some_conns = ground arith

    start :
        r % length conns < length conns
        → pick conns (r % length conns % 2 ^ 64) ≡ pick conns (r % length conns)
    start small = ap (pick conns) (omega arith)
