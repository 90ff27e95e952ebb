-- ===== src/Tests/Chained.antt =====
-- A compressor and a decompressor over the small zlib, one after the other.
use polliwog.Format.{Format}
use polliwog.Stream.Decompressor
use polliwog.Stream.Decompressor.{Decompressor}
