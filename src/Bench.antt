-- ===== src/Bench.antt =====
-- The benchmark tool of bench/: a TCP client that measures connections to a server, and an echo server.
pub mod Types
pub mod Metrics
pub mod CpuUsage
pub mod Export
pub mod Sockets
pub mod Stream
pub mod Transmit
pub mod Reply
pub mod Received
pub mod Ledger
pub mod Latency
pub mod Finite
pub mod Answer
pub mod Outcome
pub mod Accounts
pub mod Options
pub mod Main
pub mod Report
pub mod Ranges
pub mod Samples
mod Tests
pub mod Connection
pub mod Client
pub mod Server
