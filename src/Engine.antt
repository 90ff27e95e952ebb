-- ===== src/Engine.antt =====
-- The compression libraries that the program calls, as parameters: their types, their entry points
-- and, in the children, the documented behaviour that the theorems rely on.
pub mod Zlib
pub mod Zstd
pub mod ZlibCodec
pub mod ZstdCodec
pub mod ZstdStreaming
pub mod ZlibInflating
pub mod ZstdInflating
pub mod ZlibRoom
pub mod ZlibProgress
pub mod ZlibFlushing
pub mod ZlibShort
