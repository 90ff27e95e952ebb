-- ===== src/Build.antt =====
-- The build's choice of backends: POLLIWOG_HAS_ZLIB and POLLIWOG_HAS_ZSTD of CMakeLists.txt, which the
-- sources test by `#ifdef`, together with the two libraries that they are linked with.
use polliwog.Base.{Bool}
use polliwog.Engine.Zlib.{ZlibApi}
use polliwog.Engine.Zstd.{ZstdApi}

pub record Build : Type 1 where
  pub has_zlib : Bool
  pub has_zstd : Bool
  pub zlib_api : ZlibApi
  pub zstd_api : ZstdApi
