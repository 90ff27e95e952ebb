-- ===== src/Toy.antt =====
-- Small libraries that meet the hypotheses on zlib and zstd, over which the theorems are run.
pub mod Reader
pub mod Frame
pub mod Zlib
pub mod ZlibAccounts
pub mod ZlibOs
pub mod ZlibLawful
pub mod Partly
pub mod ZlibInflating
pub mod ZlibRoom
pub mod ZlibProgress
pub mod ZlibFlushing
pub mod ZlibShort
pub mod ZlibBound
pub mod Zstd
pub mod ZstdLawful
pub mod ZstdFrames
pub mod ZstdInflating
