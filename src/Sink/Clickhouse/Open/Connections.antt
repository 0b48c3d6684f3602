-- ===== src/Sink/Clickhouse/Open/Connections.antt =====
-- clickhouse.go: the connections that `NewClickHouse` opens.
use spangen.Base.{
  inl, inr, Bool-cases, ℕ, suc, ◌<◌, ◌≡◌, refl, ap, ◌≢◌, List, [], ◌∷◌, Bool, true, false, Text,
  codes, text_eq, length, if◌then◌else◌, arith,
}
use spangen.Base.Result.{Result, ok, err}
use spangen.Config.{ChConfig}
use spangen.Sink.Clickhouse.Open.{
  Driver, OpenError, open_one, join_conn, after_open, open_each, one_conn, open_conns,
}

-- Whether batches are rotated over the endpoints.
abbrev pub rotates : ChConfig → Bool
rotates ch = text_eq ch.mode (codes "shard-roundrobin")

-- One connection for each endpoint where batches are rotated, else one for all.
unfoldable pub expected : ChConfig → ℕ
expected ch = if rotates ch then length ch.endpoints else 1

pub expected_pos : (ch : ChConfig) → ch.endpoints ≢ [] → 0 < expected ch
unfolding expected
expected_pos ch h = by_mode (rotates ch) ch.endpoints h
  where
    by_mode :
        (rotated : Bool) (eps : List Text) → eps ≢ [] → 0 < (if rotated then length eps else 1)
    by_mode true [] n = absurd (n refl)
    by_mode true (ep ∷ eps) n = omega arith
    by_mode false eps n = omega arith

module _ (d : Driver) where
  open d use {World, Conn, Err}

  -- The endpoints were opened one by one and in order, each for a connection of its own.
  abbrev pub Dials : ChConfig → List Text → World → List Conn → World → Type 0
  Dials ch [] w [] v = v ≡ w
  Dials ch [] w (conn ∷ conns) v = ⊥
  Dials ch (ep ∷ eps) w [] v = ⊥
  Dials ch (ep ∷ eps) w (conn ∷ conns) v =
      (u : World) × (open_one d ch (ep ∷ []) w ≡ (ok conn, u)) × Dials ch eps u conns v

  -- One connection for each endpoint where batches are rotated, else one for all endpoints.
  abbrev pub Connected : Bool → ChConfig → World → List Conn → World → Type 0
  Connected true ch w conns v = Dials ch ch.endpoints w conns v
  Connected false ch w conns v =
      (conn : Conn) × (conns ≡ conn ∷ []) × (open_one d ch ch.endpoints w ≡ (ok conn, v))

  -- The connections, where there is no error.
  abbrev Dialled :
      ChConfig → List Text → World → Result (OpenError Err) (List Conn) × World → Type 0
  Dialled ch eps w (ok conns, v) = Dials ch eps w conns v
  Dialled ch eps w (err e, v) = Unit

  open_each-Dialled :
      (ch : ChConfig) (eps : List Text) (w : World) → Dialled ch eps w (open_each d ch eps w)
  unfolding open_each
  open_each-Dialled ch [] w = refl
  open_each-Dialled ch (ep ∷ eps) w =
      opened (open_one d ch (ep ∷ []) w) refl (open_each-Dialled ch eps)
    where
      joined :
          (conn : Conn) (u : World)
          → open_one d ch (ep ∷ []) w ≡ (ok conn, u)
          → (m : Result (OpenError Err) (List Conn) × World) → Dialled ch eps u m
          → Dialled ch (ep ∷ eps) w (join_conn d conn m)
      joined conn u is (ok conns, v) h = (u, is, h)
      joined conn u is (err e, v) h = tt

      opened :
          (m : Result Err Conn × World)
          → open_one d ch (ep ∷ []) w ≡ m
          → ((u : World) → Dialled ch eps u (open_each d ch eps u))
          → Dialled ch (ep ∷ eps) w (after_open d ep (open_each d ch eps) m)
      opened (ok conn, u) is h = joined conn u is (open_each d ch eps u) (h u)
      opened (err e, u) is h = tt

  abbrev pub Opened : ChConfig → World → Result (OpenError Err) (List Conn) × World → Type 0
  Opened ch w (ok conns, v) = Connected (rotates ch) ch w conns v
  Opened ch w (err e, v) = Unit

  pub open_conns-Opened : (ch : ChConfig) (w : World) → Opened ch w (open_conns d ch w)
  unfolding open_conns
  open_conns-Opened ch w = elim (Bool-cases (rotates ch)) [ inl e ↦ rotated e | inr e ↦ whole e ]
    where
      each :
          rotates ch ≡ true
          → (m : Result (OpenError Err) (List Conn) × World) → Dialled ch ch.endpoints w m
          → Opened ch w m
      each e (ok conns, v) h = rw e h
      each e (err x, v) h = tt

      rotated :
          rotates ch ≡ true
          → Opened ch w (
              (if rotates ch
                then open_each d ch ch.endpoints w
                else one_conn d (open_one d ch ch.endpoints w)))
      rotated e =
          rw e (each e (open_each d ch ch.endpoints w) (open_each-Dialled ch ch.endpoints w))

      single :
          rotates ch ≡ false
          → (m : Result Err Conn × World) → open_one d ch ch.endpoints w ≡ m
          → Opened ch w (one_conn d m)
      single e (ok conn, v) is = rw e (conn, refl, is)
      single e (err x, v) is = tt

      whole :
          rotates ch ≡ false
          → Opened ch w (
              (if rotates ch
                then open_each d ch ch.endpoints w
                else one_conn d (open_one d ch ch.endpoints w)))
      whole e = rw e (single e (open_one d ch ch.endpoints w) refl)

  length-Dials :
      (ch : ChConfig) (eps : List Text) (w : World) (conns : List Conn) (v : World)
      → Dials ch eps w conns v
      → length conns ≡ length eps
  length-Dials ch [] w [] v h = refl
  length-Dials ch [] w (conn ∷ conns) v h = absurd h
  length-Dials ch (ep ∷ eps) w [] v h = absurd h
  length-Dials ch (ep ∷ eps) w (conn ∷ conns) v (u, is, h) =
      ap suc (length-Dials ch eps u conns v h)

  pub length-Connected :
      (ch : ChConfig) (w : World) (conns : List Conn) (v : World)
      → Connected (rotates ch) ch w conns v
      → length conns ≡ expected ch
  unfolding expected
  length-Connected ch w conns v h = by_mode (rotates ch) h
    where
      by_mode :
          (rotated : Bool)
          → Connected rotated ch w conns v
          → length conns ≡ (if rotated then length ch.endpoints else 1)
      by_mode true h = length-Dials ch ch.endpoints w conns v h
      by_mode false (conn, is, h) = ap length is
