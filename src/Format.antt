-- ===== src/Format.antt =====
-- include/polliwog/format.hpp: the wire formats and the typed levels.
pub mod ZlibAnchors
pub mod ZstdAnchors
pub mod Names
use polliwog.Base.{String}
use polliwog.Base.Int.{ℤ}

-- enum class format
pub data Format : Type 0 where
  zlib : Format
  gzip : Format
  raw_deflate : Format
  zstd : Format
  lz4_frame : Format

unfoldable pub format_name : Format → String
format_name zlib = "zlib"
format_name gzip = "gzip"
format_name raw_deflate = "raw_deflate"
format_name zstd = "zstd"
format_name lz4_frame = "lz4_frame"

-- enum class zlib_level : int. An explicit init reaches every `int`, so a level is the `int` itself,
-- in a type of its own.
pub record ZlibLevel : Type 0 where
  pub as_int : ℤ

-- enum class zstd_level : int
pub record ZstdLevel : Type 0 where
  pub as_int : ℤ
