-- ===== src/Zstd/Facade.antt =====
-- struct zstd_backend of src/detail/zstd.hpp and src/detail/zstd.cpp.
use polliwog.Base.{ℕ, ◌-◌, List, [], ◌∷◌, if◌then◌else◌}
use polliwog.Base.Words.{u64_mod}
use polliwog.Error.{BackendId}
use polliwog.Format.{Format, ZstdLevel}
use polliwog.Backend.{Backend}
use polliwog.Engine.Zstd.{ZstdApi}
use polliwog.Zstd.Squeezer
use polliwog.Zstd.Squeezer.{ZstdSqueezer}
use polliwog.Zstd.Sweller
use polliwog.Zstd.Sweller.{ZstdSweller}

unfoldable pub formats : List Format
formats = Format.zstd ∷ []

unfoldable pub bound : ZstdApi → ZstdLevel → ℕ → ℕ
bound Z _ in_size = let r = Z.compress_bound in_size in if Z.is_error r then u64_mod - 1 else r

abbrev pub zstd_backend : ZstdApi → Backend
zstd_backend Z = record {
  Handle = ZstdSqueezer Z;
  Sweller = ZstdSweller Z;
  Level = ZstdLevel;
  id = BackendId.zstd;
  formats = formats;
  make_squeezer = Squeezer.construct Z;
  make_sweller = Sweller.construct Z;
  bound = bound Z;
  push = Squeezer.push Z;
  flush = Squeezer.flush Z;
  finish = Squeezer.finish Z;
}
