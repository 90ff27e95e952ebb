-- ===== src/Squeeze/Guards.antt =====
-- The tests that src/squeeze.cpp makes before it calls a backend.
use polliwog.Base.{
  ℕ, ◌<◌, ◌≡◌, ◌↔◌, ◌⊎◌, Bool, true, false, ◌&&◌, ◌||◌, List, [], ◌∷◌, some, length, arith,
}
use polliwog.Base.Int.{ℤ, pos, negsuc}
use polliwog.Error.{Kind, BackendId}
use polliwog.Format.{Format, ZlibLevel}
use polliwog.Build.{Build}
use polliwog.Zlib.Squeezer as ZlibSqueezer
use polliwog.Zstd.Squeezer as ZstdSqueezer
use polliwog.Zlib.Facade as ZlibFacade
use polliwog.Zstd.Facade as ZstdFacade
use polliwog.Squeeze.{refuse, mismatch, bound, squeeze, swell}

-- Which formats a list of formats holds.
same_format : Format → Format → Bool
same_format Format.zlib Format.zlib = true
same_format Format.gzip Format.gzip = true
same_format Format.raw_deflate Format.raw_deflate = true
same_format Format.zstd Format.zstd = true
same_format Format.lz4_frame Format.lz4_frame = true
same_format _ _ = false

lists : List Format → Format → Bool
lists [] f = false
lists (g ∷ gs) f = same_format g f || lists gs f

-- A backend that is compiled in lists the format.
unfoldable pub serves : Build → Format → Bool
unfolding lists same_format ZlibFacade.formats ZstdFacade.formats
serves B f = B.has_zlib && lists ZlibFacade.formats f || B.has_zstd && lists ZstdFacade.formats f

-- The level is outside zlib's range, 0 to 9.
abbrev pub OutOfRange : ℤ → Type 0
OutOfRange (pos n) = 9 < n
OutOfRange (negsuc n) = Unit {0}

abbrev pub zlib_family : Format → Bool
zlib_family Format.zlib = true
zlib_family Format.gzip = true
zlib_family Format.raw_deflate = true
zlib_family Format.zstd = false
zlib_family Format.lz4_frame = false

module _ (B : Build) (lvl : ZlibLevel) (input out : List ℕ) where
  -- A format that no compiled-in backend lists is refused by both calls as format_mismatch, with the
  -- span as it was, and its bound is 0.
  pub unserved-mismatch :
      (f : Format)
      → serves B f ≡ false
      → (squeeze B f lvl input out ≡ some (mismatch out))
        × (swell B f input out ≡ some (mismatch out))
        × (bound B f lvl (length input) ≡ 0)
  unfolding serves squeeze swell bound
  unserved-mismatch Format.zlib h = ground arith
  unserved-mismatch Format.gzip h = ground arith
  unserved-mismatch Format.raw_deflate h = ground arith
  unserved-mismatch Format.zstd h = ground arith
  unserved-mismatch Format.lz4_frame h = ground arith

  -- squeeze is refused as level_unsupported exactly when the format is one of zlib's, zlib is compiled
  -- in and the level is below 0 or above 9, whatever the sizes of the spans.
  pub level_unsupported_iff :
      (f : Format)
      → (squeeze B f lvl input out ≡ some (refuse Kind.level_unsupported BackendId.zlib out))
        ↔ ((zlib_family f ≡ true) × (B.has_zlib ≡ true) × OutOfRange lvl.as_int)
  unfolding squeeze ZlibSqueezer.push ZstdSqueezer.push
  level_unsupported_iff Format.zlib = ground arith
  level_unsupported_iff Format.gzip = ground arith
  level_unsupported_iff Format.raw_deflate = ground arith
  level_unsupported_iff Format.zstd = ground arith
  level_unsupported_iff Format.lz4_frame = ground arith

  -- squeeze is refused as buffer_too_small, before anything is written, exactly when the span is shorter
  -- than the bound and the level is not refused first.
  pub buffer_too_small_iff :
      (f : Format)
      → (squeeze B f lvl input out ≡ some (refuse Kind.buffer_too_small BackendId.none out)) ↔ (
          ((zlib_family f ≡ false) ⊎ ¬ OutOfRange lvl.as_int)
          × (length out < bound B f lvl (length input)))
  unfolding squeeze ZlibSqueezer.push ZstdSqueezer.push
  buffer_too_small_iff Format.zlib = ground arith
  buffer_too_small_iff Format.gzip = ground arith
  buffer_too_small_iff Format.raw_deflate = ground arith
  buffer_too_small_iff Format.zstd = ground arith
  buffer_too_small_iff Format.lz4_frame = ground arith
