-- ===== src/Sink/Clickhouse/Http/Laws.antt =====
-- Over HTTP, `Send` ends every transaction that it begins, and closes every statement.
use spangen.Base.{
  ℕ, suc, ◌-◌, ◌<◌, ◌≡◌, refl, ◌∙◌, List, [], ◌∷◌, Option, none, some, Text, length, arith,
}
use spangen.Base.Result.{Result}
use spangen.Model.Spans.{ResourceSpans}
use spangen.Sink.Clickhouse.Rows.{Codec}
use spangen.Sink.Clickhouse.Send.{SendError, ChSink, State, send}
use spangen.Sink.Clickhouse.Send.Laws.{send-Outcome}
use spangen.Sink.Clickhouse.Send.Balance.{IsBalanced, send_balanced}
use spangen.Sink.Clickhouse.Http.{
  Database, DbCall, tx_begun, stmt_prepared, row_executed, tx_committed, tx_rolled_back,
  stmt_closed, Session, noted, after_prepare, after_begin, new_batch, append_row, send_batch,
  abort_batch, http_client,
}

-- The transactions open behind calls, the latest first.
unfoldable pub open_txs : List DbCall → ℕ
open_txs [] = 0
open_txs (tx_begun ∷ calls) = suc (open_txs calls)
open_txs (stmt_prepared ∷ calls) = open_txs calls
open_txs (row_executed ∷ calls) = open_txs calls
open_txs (tx_committed ∷ calls) = open_txs calls - 1
open_txs (tx_rolled_back ∷ calls) = open_txs calls - 1
open_txs (stmt_closed ∷ calls) = open_txs calls

-- The statements open behind calls.
unfoldable pub open_stmts : List DbCall → ℕ
open_stmts [] = 0
open_stmts (tx_begun ∷ calls) = open_stmts calls
open_stmts (stmt_prepared ∷ calls) = suc (open_stmts calls)
open_stmts (row_executed ∷ calls) = open_stmts calls
open_stmts (tx_committed ∷ calls) = open_stmts calls
open_stmts (tx_rolled_back ∷ calls) = open_stmts calls
open_stmts (stmt_closed ∷ calls) = open_stmts calls - 1

module _ (db : Database) where
  open db use {World, Conn, Err}

  -- The count of what `newBatch` opens, given by that of the calls.
  record Counts (count : List DbCall → ℕ) : Type 0 where
    opened : (calls : List DbCall) → count (stmt_prepared ∷ tx_begun ∷ calls) ≡ suc (count calls)
    undone : (calls : List DbCall) → count (tx_rolled_back ∷ tx_begun ∷ calls) ≡ count calls
    row : (calls : List DbCall) → count (row_executed ∷ calls) ≡ count calls
    committed : (calls : List DbCall) → count (stmt_closed ∷ tx_committed ∷ calls) ≡ count calls - 1
    rolled_back :
        (calls : List DbCall) → count (stmt_closed ∷ tx_rolled_back ∷ calls) ≡ count calls - 1

  http_client-IsBalanced : (count : List DbCall → ℕ) → Counts count → IsBalanced (http_client db)
  unfolding new_batch append_row send_batch abort_batch
  http_client-IsBalanced count k = record {
    open_in = λ s. count s.calls;
    begun = λ conn sql s. begin_begun sql s (db.begin_tx conn s.world);
    not_begun = λ conn sql s. begin_not_begun sql s (db.begin_tx conn s.world);
    appended = λ row s. k.row s.calls;
    sent = λ s n h. omega (arith, k.committed s.calls);
    aborted = λ s n h. omega (arith, k.rolled_back s.calls);
  }
    where
      prepare_begun :
          (s : Session db) (m : Option Err × World)
          → (after_prepare db s m).0 ≡ none
          → count (after_prepare db s m).1.calls ≡ count (stmt_prepared ∷ s.calls)
      prepare_begun s (none, w) h = refl
      prepare_begun s (some e, w) h = cc

      begin_begun :
          (sql : Text) (s : Session db) (m : Option Err × World)
          → (after_begin db sql s m).0 ≡ none
          → count (after_begin db sql s m).1.calls ≡ suc (count s.calls)
      begin_begun sql s (none, w) h =
          prepare_begun (noted db tx_begun w s) (db.prepare_stmt sql w) h ∙ k.opened s.calls
      begin_begun sql s (some e, w) h = cc

      prepare_failed :
          {e : Err} (s : Session db) (m : Option Err × World)
          → (after_prepare db s m).0 ≡ some e
          → count (after_prepare db s m).1.calls ≡ count (tx_rolled_back ∷ s.calls)
      prepare_failed s (none, w) h = cc
      prepare_failed s (some e, w) h = refl

      begin_not_begun :
          (sql : Text) (s : Session db) (m : Option Err × World) {e : Err}
          → (after_begin db sql s m).0 ≡ some e
          → count (after_begin db sql s m).1.calls ≡ count s.calls
      begin_not_begun sql s (none, w) h =
          prepare_failed (noted db tx_begun w s) (db.prepare_stmt sql w) h ∙ k.undone s.calls
      begin_not_begun sql s (some e, w) h = refl

  open_txs-Counts : Counts open_txs
  unfolding open_txs
  open_txs-Counts = record {
    opened = λ calls. refl;
    undone = λ calls. omega arith;
    row = λ calls. refl;
    committed = λ calls. refl;
    rolled_back = λ calls. refl;
  }

  open_stmts-Counts : Counts open_stmts
  unfolding open_stmts
  open_stmts-Counts = record {
    opened = λ calls. refl;
    undone = λ calls. refl;
    row = λ calls. refl;
    committed = λ calls. refl;
    rolled_back = λ calls. refl;
  }

  -- Over HTTP `Send` on a sink with a connection returns, and behind it no transaction and no statement
  -- is open that was not open before: each that it began was committed or rolled back, and each
  -- statement closed, on every path.
  pub send-http_client :
      (c : Codec) (sink : ChSink Conn) (rs : List ResourceSpans) (s : State c (http_client db))
      → 0 < length sink.conns
      → (r : Result (SendError Err) (Unit {0})) × (t : State c (http_client db)) × (send c
            (http_client db)
            sink
            rs
            s
          ≡ some (r, t))
        × (open_txs t.world.calls ≡ open_txs s.world.calls)
        × (open_stmts t.world.calls ≡ open_stmts s.world.calls)
  unfolding http_client-IsBalanced
  send-http_client c sink rs s h =
      let (conn, r, t, made, e, at, counter, calls, outcome) =
        send-Outcome c (http_client db) sink rs s h in
      (
        r,
        t,
        e,
        send_balanced c (http_client db) (http_client-IsBalanced open_txs open_txs-Counts) sink rs s
            e,
        send_balanced c (http_client db) (http_client-IsBalanced open_stmts open_stmts-Counts) sink
            rs s e,
      )
