-- ===== src/Sink.antt =====
-- internal/sink: delivery of a batch, to ClickHouse or to a collector over OTLP. The clients of the
-- two backends are parameters: what they answer comes from a world that the calls change.
pub mod Clickhouse
pub mod Otlp
