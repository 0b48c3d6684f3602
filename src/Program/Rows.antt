-- ===== src/Program/Rows.antt =====
-- generator.go into clickhouse.go: the rows of a batch that `FillBatch` has filled.
use spangen.Base.{
  suc, ◌≤◌, ◌<◌, subst, Text, ℕ, ◌+◌, ◌≡◌, refl, ap, ◌∙◌, List, [], ◌∷◌, ◌++◌, map, some, Bool,
  length, length-append, length-map, sum_of, arith,
}
use spangen.Base.Int.{ℤ, pos_part}
use spangen.Model.{Source}
use spangen.Model.Catalog.{Catalog}
use spangen.Model.Spans.{Span, Pdata}
use spangen.Model.Generate.{Settings, State}
use spangen.Model.Generate.Batch.{Batch, group_of}
use spangen.Model.Generate.Batch.Laws.{size_of}
use spangen.Model.Generate.Tree.{fill_batch}
use spangen.Model.Generate.Tree.Traces.{IsRunnable}
use spangen.Model.Generate.Tree.Fill.{fill_batch-AreDistinct}
use spangen.Base.Result.{Result, ok, err}
use spangen.Sink.Clickhouse.Rows.{Codec, Cell}
use spangen.Sink.Clickhouse.Send.{Client, BatchCall, append, commit, abort, SendError, ChSink, send}
use spangen.Sink.Clickhouse.Send as Sender
use spangen.Sink.Clickhouse.Send.Laws.{
  Outcome, not_prepared, aborted, not_committed, delivered, send-Outcome,
}
use spangen.Sink.Clickhouse.Send.Rows.{scope_rows, rows_of}

rows_of-length :
    {F : Type 0} (c : Codec) (json : Bool) (cat : Catalog F) (b : Batch F)
    → length (rows_of c json (map (group_of cat) b)) ≡ size_of b
unfolding rows_of scope_rows group_of sum_of
rows_of-length c json cat [] = refl
rows_of-length c json cat ((s, sps) ∷ b) = counted _ _ (rows_of-length c json cat b)
  where
    counted :
        {A : Type 0} (f : Span → A) (rest : List A)
        → length rest ≡ size_of b
        → length ((map f sps ++ []) ++ rest) ≡ length sps + size_of b
    counted f rest h = omega (
      arith,
      length-append (map f sps ++ []) rest,
      length-append (map f sps) [],
      length-map f sps,
      h,
    )

-- The rows of a filled batch.
pub fill_batch-rows :
    (o : Source) (p : Pdata) (c : Codec) (json : Bool) (settings : Settings o.Float)
    {n shortest longest : ℕ} (target : ℤ) (s : State o p)
    → IsRunnable n shortest longest settings
    → p.resource_spans s.td ≡ []
    → (count : ℕ) × (t : State o p) × (fill_batch o p settings target s ≡ some (count, t))
      × (length (rows_of c json (p.resource_spans t.td)) ≡ count)
fill_batch-rows o p c json settings target s runnable empty =
    let (t, log, b, e, traces, held, distinct, same, size) =
      fill_batch-AreDistinct o p settings runnable target s empty in
    (
      pos_part target,
      t,
      e,
      ap (λ rs. length (rows_of c json rs)) held ∙ rows_of-length c json settings.cat b ∙ size,
    )

-- The rows that are appended by these calls.
abbrev pub appends : {C : Type 0} → List (BatchCall C) → ℕ
appends [] = 0
appends (append row ∷ calls) = suc (appends calls)
appends (_ ∷ calls) = appends calls

appends-append :
    {C : Type 0} (rows : List (List Cell)) (calls : List (BatchCall C))
    → appends (map append rows ++ calls) ≡ length rows + appends calls
appends-append [] calls = omega arith
appends-append (row ∷ rows) calls = omega (arith, appends-append rows calls)

-- All rows of a batch where `Send` returns no error, and no more than these where it returns one.
abbrev pub IsSent : {E : Type 0} → ℕ → ℕ → Result (SendError E) (Unit {0}) → Type 0
IsSent count made (ok u) = made ≡ count
IsSent count made (err e) = made ≤ count

Outcome-IsSent :
    (c : Codec) (cl : Client) (conn : cl.Conn) (sql : Text) (rows : List (List Cell))
    {w v : cl.World} {r : Result (SendError cl.Err) (Unit {0})} {made : List (BatchCall cl.Conn)}
    → Outcome c cl conn sql rows w r made v
    → IsSent (length rows) (appends made) r
Outcome-IsSent c cl conn sql rows (not_prepared e) = omega arith
Outcome-IsSent c cl conn sql rows (aborted k l row same b a e) = omega (
  arith,
  appends-append {C = cl.Conn} (k ++ row ∷ []) (abort ∷ []),
  length-append k (row ∷ []),
  length-append k (row ∷ l),
  ap length same,
)
Outcome-IsSent c cl conn sql rows (not_committed b a e) =
    omega (arith, appends-append {C = cl.Conn} rows (commit ∷ []))
Outcome-IsSent c cl conn sql rows (delivered b a e) =
    omega (arith, appends-append {C = cl.Conn} rows (commit ∷ []))

-- On the batch that `FillBatch` fills, `Send` of a ClickHouse sink with a connection returns, whatever the
-- client answers. Without an error it has appended exactly as many rows as `FillBatch` has returned, the
-- number that the engine adds to its counters; with one, no more than these.
pub fill_batch-IsSent :
    (o : Source) (p : Pdata) (c : Codec) (cl : Client) (settings : Settings o.Float)
    {n shortest longest : ℕ} (target : ℤ) (s : State o p) (sink : ChSink cl.Conn)
    (k : Sender.State c cl)
    → IsRunnable n shortest longest settings
    → p.resource_spans s.td ≡ []
    → 0 < length sink.conns
    → (count : ℕ) × (t : State o p) × (r : Result (SendError cl.Err) (Unit {0})) × (u : Sender.State
        c cl)
      × (made : List (BatchCall cl.Conn)) × (fill_batch o p settings target s ≡ some (count, t))
      × (send c cl sink (p.resource_spans t.td) k ≡ some (r, u))
      × (u.calls ≡ k.calls ++ made)
      × IsSent count (appends made) r
fill_batch-IsSent o p c cl settings target s sink k runnable empty some_conn =
    let (count, t, filled, size) =
      fill_batch-rows o p c sink.json_attrs settings target s runnable empty in
    let (conn, r, u, made, sent, at, counter, calls, out) =
      send-Outcome c cl sink (p.resource_spans t.td) k some_conn in
    (
      count,
      t,
      r,
      u,
      made,
      filled,
      sent,
      calls,
      subst (λ j. IsSent j (appends made) r) size
          (Outcome-IsSent c cl conn sink.insert_sql
            (rows_of c sink.json_attrs (p.resource_spans t.td)) out),
    )
