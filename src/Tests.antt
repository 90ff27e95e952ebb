-- ===== src/Tests.antt =====
-- The theorems at work on small libraries and small data.
pub mod Data
mod Squeezing
mod Guards
mod Streaming
mod Backends
mod ZstdStreaming
mod Inflating
mod Benchmarks
mod Chained
mod Fuzzing
mod Windows
mod ZstdChained
mod Flushed
mod Systems
