-- ===== src/Sink/Clickhouse.antt =====
-- internal/sink/clickhouse.go, part by part: the rows, the choice of a connection, the sending of a
-- batch, and the opening of the sink.
pub mod Rows
pub mod Pick
pub mod Send
pub mod Open
pub mod Native
pub mod Http
