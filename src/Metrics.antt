-- ===== src/Metrics.antt =====
-- The performance metrics of capture/src/performance_metrics.c, with the types and the inline
-- functions of capture/include/performance_metrics.h. `Record` has what the handler calls for each
-- connection, `Proc` the readers of /proc, `System` the CPU and memory figures, `Stats` the summary.
pub mod Types
pub mod Samples
pub mod Init
pub mod Record
pub mod Proc
pub mod System
pub mod Stats
pub mod Table
pub mod Export
mod Tests
