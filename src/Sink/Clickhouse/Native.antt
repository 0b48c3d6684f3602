-- ===== src/Sink/Clickhouse/Native.antt =====
-- clickhouse.go: the native protocol, in which a batch is the driver's own. The driver.Conn is the
-- parameter `NativeDriver`.
use spangen.Base.{List, Option, Bool, true, Text}
use spangen.Sink.Clickhouse.Rows.{Cell}
use spangen.Sink.Clickhouse.Send.{Client}

-- `PrepareBatch`, with or without the option that gives the connection back to the pool, and `Append`,
-- `Send` and `Abort` of a batch, with the error or nil.
pub record NativeDriver : Type 1 where
  pub World : Type 0
  pub Conn : Type 0
  pub Err : Type 0
  pub prepare_batch : Conn → Text → (release : Bool) → World → Option Err × World
  pub append : List Cell → World → Option Err × World
  pub send : World → Option Err × World
  pub abort : World → Option Err × World

-- nativeConn and nativeBatch as a client of `Send`, which drops the error of `Abort`.
abbrev pub native_client : NativeDriver → Client
native_client n = record {
  World = n.World;
  Conn = n.Conn;
  Err = n.Err;
  new_batch = λ conn sql w. n.prepare_batch conn sql true w;
  append = n.append;
  send = n.send;
  abort = λ w. (n.abort w).1;
}
