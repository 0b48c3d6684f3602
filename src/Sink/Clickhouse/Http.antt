-- ===== src/Sink/Clickhouse/Http.antt =====
-- clickhouse.go: the HTTP protocol, in which a batch is a transaction with a prepared statement. The
-- *sql.DB is the parameter `Database`.
pub mod Laws
use spangen.Base.{ℕ, List, [], ◌∷◌, Option, none, some, Text}
use spangen.Sink.Clickhouse.Rows.{Cell}
use spangen.Sink.Clickhouse.Send.{Client}

-- `BeginTx`, `PrepareContext`, `ExecContext`, `Commit`, `Rollback` and `Close` of the statement, with
-- the error or nil. The source drops the errors of the rollbacks that it does not return.
pub record Database : Type 1 where
  pub World : Type 0
  pub Conn : Type 0
  pub Err : Type 0
  pub begin_tx : Conn → World → Option Err × World
  pub prepare_stmt : Text → World → Option Err × World
  pub exec_stmt : List Cell → World → Option Err × World
  pub commit_tx : World → Option Err × World
  pub rollback_tx : World → World
  pub close_stmt : World → World

-- What became of transactions and statements; a call that failed opens nothing.
pub data DbCall : Type 0 where
  tx_begun stmt_prepared row_executed tx_committed tx_rolled_back stmt_closed : DbCall

module _ (db : Database) where
  open db use {World, Conn, Err}

  -- The calls, the latest first.
  pub record Session : Type 0 where
    pub world : World
    pub calls : List DbCall

  abbrev pub noted : DbCall → World → Session → Session
  noted call w s = record { world = w; calls = call ∷ s.calls }

  -- Behind `PrepareContext`: a rollback where it failed.
  abbrev pub after_prepare : Session → Option Err × World → Option Err × Session
  after_prepare s (none, w) = (none, noted stmt_prepared w s)
  after_prepare s (some e, w) = (some e, noted tx_rolled_back (db.rollback_tx w) s)

  abbrev pub after_begin : Text → Session → Option Err × World → Option Err × Session
  after_begin sql s (none, w) = after_prepare (noted tx_begun w s) (db.prepare_stmt sql w)
  after_begin sql s (some e, w) = (some e, record s { world = w })

  -- `newBatch` of httpConn.
  unfoldable pub new_batch : Conn → Text → Session → Option Err × Session
  new_batch conn sql s = after_begin sql s (db.begin_tx conn s.world)

  -- `Append`, `Send` and `Abort` of httpBatch; the statement is closed behind the return value.
  unfoldable pub append_row : List Cell → Session → Option Err × Session
  append_row row s = let (e, w) = db.exec_stmt row s.world in (e, noted row_executed w s)

  unfoldable pub send_batch : Session → Option Err × Session
  send_batch s =
      let (e, w) = db.commit_tx s.world in
      (e, noted stmt_closed (db.close_stmt w) (noted tx_committed w s))

  unfoldable pub abort_batch : Session → Session
  abort_batch s =
      let w = db.rollback_tx s.world in
      noted stmt_closed (db.close_stmt w) (noted tx_rolled_back w s)

  -- httpConn and httpBatch as a client of `Send`.
  abbrev pub http_client : Client
  http_client = record {
    World = Session;
    Conn = Conn;
    Err = Err;
    new_batch = new_batch;
    append = append_row;
    send = send_batch;
    abort = abort_batch;
  }
