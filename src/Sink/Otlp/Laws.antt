-- ===== src/Sink/Otlp/Laws.antt =====
-- What `NewOTLP` leaves open, and when `Send` reports success.
use spangen.Base.{
  ℕ, zero, suc, ◌+◌, ◌-◌, ◌≤◌, ◌<◌, ◌≡◌, refl, ◌↔◌, List, [], ◌∷◌, ◌++◌, some, length,
  length-append, get_elem?, if◌then◌else◌, subst, arith,
}
use spangen.Base.Int.{ℤ, pos, negsuc, ltb_ℤ, pos_part, ◌≤ℤ◌}
use spangen.Base.Result.{Result, ok, err}
use spangen.Config.{OtlpConfig}
use spangen.Sink.Clickhouse.Pick.{pick-pick_client}
use spangen.Sink.Otlp.{
  PartialSuccess, Grpc, SendError, options_of, OtlpSink, close_conns, after_dial, dial_loop,
  connections, dialled, new_otlp, answer, send,
}

-- A count of the connections that are open: one more for each that is dialled, one less for each that
-- is closed.
pub record IsCounted (g : Grpc) : Type 0 where
  pub open_in : g.World → ℕ
  pub opened :
      (o : OtlpConfig) (w : g.World) {c : g.Conn}
      → (g.new_client o.endpoint (options_of o) w).0 ≡ ok c
      → open_in (g.new_client o.endpoint (options_of o) w).1 ≡ suc (open_in w)
  pub not_opened :
      (o : OtlpConfig) (w : g.World) {e : g.Err}
      → (g.new_client o.endpoint (options_of o) w).0 ≡ err e
      → open_in (g.new_client o.endpoint (options_of o) w).1 ≡ open_in w
  pub closed : (c : g.Conn) (w : g.World) → open_in (g.close c w) ≡ open_in w - 1

connections_pos : (g : Grpc) (o : OtlpConfig) → 1 ≤ connections g o
unfolding connections
connections_pos g o = by_value o.connections
  where
    by_value : (n : ℤ) → 1 ≤ (if ltb_ℤ n (pos 1) then 1 else pos_part n)
    by_value (pos n) = ground arith
    by_value (negsuc n) = ground arith

module _ (g : Grpc) where
  open g use {World, Conn, Err}

  -- A connection, unless there is an error.
  abbrev pub HasConn : Result Err (OtlpSink g) × World → Type 0
  HasConn (ok sink, w) = 0 < length sink.conns
  HasConn (err e, w) = Unit

  abbrev SomeConn : Result Err (List Conn) × World → Type 0
  SomeConn (ok conns, w) = 0 < length conns
  SomeConn (err e, w) = Unit

  dial_loop-SomeConn :
      (left : ℕ) (o : OtlpConfig) (conns : List Conn) (w : World)
      → 0 < left + length conns
      → SomeConn (dial_loop g left o conns w)
  unfolding dial_loop
  dial_loop-SomeConn zero o conns w h = omega arith
  dial_loop-SomeConn (suc left) o conns w h =
      dial (g.new_client o.endpoint (options_of o) w) (dial_loop-SomeConn left o)
    where
      dial :
          (m : Result Err Conn × World)
          → ((all : List Conn) (u : World)
              → 0 < left + length all
              → SomeConn (dial_loop g left o all u))
          → SomeConn (after_dial g conns (dial_loop g left o) m)
      dial (ok c, u) more = more (conns ++ c ∷ []) u (omega (arith, length-append conns (c ∷ [])))
      dial (err e, u) more = tt

  pub new_otlp-HasConn : (o : OtlpConfig) (w : World) → HasConn (new_otlp g o w)
  unfolding new_otlp
  new_otlp-HasConn o w =
      built (dial_loop g (connections g o) o [] w)
        (dial_loop-SomeConn (connections g o) o [] w (omega (arith, connections_pos g o)))
    where
      built : (m : Result Err (List Conn) × World) → SomeConn m → HasConn (dialled g o m)
      built (ok conns, u) h = h
      built (err e, u) h = tt

module _ (g : Grpc) (k : IsCounted g) where
  open g use {World, Conn, Err, Td}
  open k use {open_in}

  pub close_conns_open :
      (conns : List Conn) (w : World) → open_in (close_conns g conns w) ≡ open_in w - length conns
  unfolding close_conns
  close_conns_open [] w = omega arith
  close_conns_open (conn ∷ conns) w =
      omega (arith, close_conns_open conns (g.close conn w), k.closed conn w)

  -- n more connections than at first are open, or after an error none.
  abbrev Dialled : ℕ → ℕ → Result Err (List Conn) × World → Type 0
  Dialled n before (ok conns, w) = (length conns ≡ n) × (open_in w ≡ before + n)
  Dialled n before (err e, w) = open_in w ≡ before

  dial_loop-Dialled :
      (left : ℕ) (o : OtlpConfig) (conns : List Conn) (before : ℕ) (w : World)
      → open_in w ≡ before + length conns
      → Dialled (left + length conns) before (dial_loop g left o conns w)
  unfolding dial_loop
  dial_loop-Dialled zero o conns before w h = omega (arith, h)
  dial_loop-Dialled (suc left) o conns before w h =
      dial (g.new_client o.endpoint (options_of o) w) (λ c. k.opened o w) (λ e. k.not_opened o w)
        (λ all u. dial_loop-Dialled left o all before u)
    where
      dial :
          (m : Result Err Conn × World)
          → ((c : Conn) → m.0 ≡ ok c → open_in m.1 ≡ suc (open_in w))
          → ((e : Err) → m.0 ≡ err e → open_in m.1 ≡ open_in w)
          → ((all : List Conn) (u : World)
              → open_in u ≡ before + length all
              → Dialled (left + length all) before (dial_loop g left o all u))
          → Dialled (suc left + length conns) before (after_dial g conns (dial_loop g left o) m)
      dial (ok c, u) opened failed more =
          let n : length (conns ++ c ∷ []) ≡ suc (length conns) =
            omega (arith, length-append conns (c ∷ [])) in
          subst (λ j. Dialled j before (dial_loop g left o (conns ++ c ∷ []) u)) (omega arith)
            (more (conns ++ c ∷ []) u (omega (arith, opened c refl)))
      dial (err e, u) opened failed more = omega (arith, close_conns_open conns u, failed e refl)

  -- What `NewOTLP` returns: as many connections as are asked for, one at least, all of them open; or an
  -- error, with nothing left open.
  abbrev pub HasDialled : OtlpConfig → ℕ → Result Err (OtlpSink g) × World → Type 0
  HasDialled o before (ok sink, w) =
      (length sink.conns ≡ connections g o)
      × (0 < length sink.conns)
      × (open_in w ≡ before + length sink.conns)
  HasDialled o before (err e, w) = open_in w ≡ before

  -- `NewOTLP` returns a sink with as many connections as are configured, and one where that is less
  -- than one; where a connection fails, it closes those that it has opened.
  pub new_otlp-HasDialled : (o : OtlpConfig) (w : World) → HasDialled o (open_in w) (new_otlp g o w)
  unfolding new_otlp
  new_otlp-HasDialled o w = built (dial_loop g (connections g o) o [] w) (
      subst (λ j. Dialled j (open_in w) (dial_loop g (connections g o) o [] w)) (omega arith)
        (dial_loop-Dialled (connections g o) o [] (open_in w) w (omega arith)))
    where
      built :
          (m : Result Err (List Conn) × World)
          → Dialled (connections g o) (open_in w) m
          → HasDialled o (open_in w) (dialled g o m)
      built (ok conns, u) h =
          (h.0, omega (arith, h.0, connections_pos g o), omega (arith, h.0, h.1))
      built (err e, u) h = h

module _ (g : Grpc) where
  open g use {World, Conn, Err, Td}

  answer_iff :
      (r : Result Err PartialSuccess)
      → (answer g r ≡ ok tt) ↔ ((ps : PartialSuccess) × (r ≡ ok ps) × (ps.rejected ≤ℤ pos 0))
  answer_iff (ok ps) = ((λ h. (ps, refl, none_rejected h)), λ x. accepted x.0 x.1 x.2)
    where
      none_rejected : answer g (ok ps) ≡ ok tt → ps.rejected ≤ℤ pos 0
      none_rejected h = ground arith

      accepted :
          (q : PartialSuccess)
          → ◌≡◌ {A = Result Err PartialSuccess} (ok ps) (ok q)
          → q.rejected ≤ℤ pos 0
          → answer g (ok ps) ≡ ok tt
      accepted q e le = ground arith
  answer_iff (err e) = ((λ h. cc), λ h. cc)

  -- `Send` on a sink with a connection exports the batch on one of them, once, with the metadata of the
  -- sink. It reports success exactly where the export did not fail and the collector rejected no span.
  pub send-answer :
      (sink : OtlpSink g) (td : Td) (next : ℕ) (w : World)
      → 0 < length sink.conns
      → (conn : Conn) × (i : ℕ) × (after : ℕ) × (r : Result (SendError Err) (Unit {0})) × (get_elem?
            sink.conns i
          ≡ some conn)
        × (send g sink td next w
            ≡ some (r, after, (g.export conn sink.options sink.metadata td w).1))
        × ((r ≡ ok tt) ↔ (
            (ps : PartialSuccess) × ((g.export conn sink.options sink.metadata td w).0 ≡ ok ps)
            × (ps.rejected ≤ℤ pos 0)))
  unfolding send
  send-answer sink td next w h =
      let (conn, i, after, p, picked, at) = pick-pick_client sink.conns next h in
      (
        conn,
        i,
        after,
        answer g (g.export conn sink.options sink.metadata td w).0,
        at,
        rw (picked, send) refl,
        answer_iff (g.export conn sink.options sink.metadata td w).0,
      )
