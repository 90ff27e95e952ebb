-- ===== src/Zlib/Facade.antt =====
-- struct zlib_backend of src/detail/zlib.hpp and src/detail/zlib.cpp.
use polliwog.Base.{ℕ, ◌-◌, List, [], ◌∷◌, some, ◌==◌, if◌then◌else◌}
use polliwog.Base.Words.{u64_mod}
use polliwog.Error.{BackendId}
use polliwog.Format.{Format, ZlibLevel}
use polliwog.Backend.{Backend}
use polliwog.Engine.Zlib.{ZlibApi}
use polliwog.Zlib.Squeezer
use polliwog.Zlib.Squeezer.{ZlibSqueezer}
use polliwog.Zlib.Sweller
use polliwog.Zlib.Sweller.{ZlibSweller}

unfoldable pub formats : List Format
formats = Format.zlib ∷ Format.gzip ∷ Format.raw_deflate ∷ []

-- static_cast<long>(r) == Z_MEM_ERROR, where Z_MEM_ERROR is -4
unfoldable pub bound : ZlibApi → ZlibLevel → ℕ → ℕ
bound Z _ in_size = let r = Z.compress_bound in_size in if r == u64_mod - 4 then u64_mod - 1 else r

abbrev pub zlib_backend : ZlibApi → Backend
zlib_backend Z = record {
  Handle = ZlibSqueezer Z;
  Sweller = ZlibSweller Z;
  Level = ZlibLevel;
  id = BackendId.zlib;
  formats = formats;
  make_squeezer = Squeezer.construct Z;
  make_sweller = Sweller.construct Z;
  bound = bound Z;
  push = Squeezer.push Z;
  flush = Squeezer.flush Z;
  finish = λ h out. some (Squeezer.finish Z h out);
}
