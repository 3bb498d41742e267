-- ===== src/Net.antt =====
-- The streams to and from the message broker.
pub mod WriterPool
pub mod ReaderStream
pub mod Latency
pub mod Http
pub mod Service
pub mod Streams
pub mod Consumer
