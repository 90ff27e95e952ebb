-- ===== src/Stream/Construction.antt =====
-- What the constructors of the two streaming classes do.
use polliwog.Base.{ℕ, ◌≡◌, ◌≢◌, refl, ◌↔◌, List, some, arith}
use polliwog.Format.{Format, ZlibLevel}
use polliwog.Build.{Build}
use polliwog.Zlib.{window_bits_for}
use polliwog.Zlib.Squeezer as ZlibSqueezer
use polliwog.Zlib.Sweller as ZlibSweller
use polliwog.Squeeze.{mismatch, squeeze, swell}
use polliwog.Squeeze.Guards.{OutOfRange}
use polliwog.Stream.{Made, make_squeezer, make_sweller}
use polliwog.Stream.Compressor
use polliwog.Stream.Compressor.{Compressor}
use polliwog.Stream.Decompressor

-- The constructor of the compressor throws exactly when the format is not zstd and the level is below 0
-- or above 9, whichever backends are compiled in.
pub construct-throws_iff :
    (B : Build) (f : Format) (lvl : ZlibLevel)
    → (Compressor.construct B f lvl ≡ some (Made.thrown "level_unsupported: zlib levels are 0-9"))
      ↔ ((f ≢ Format.zstd) × OutOfRange lvl.as_int)
unfolding Compressor.construct make_squeezer
construct-throws_iff B Format.zlib lvl = ground arith
construct-throws_iff B Format.gzip lvl = ground arith
construct-throws_iff B Format.raw_deflate lvl = ground arith
construct-throws_iff B Format.zstd lvl = ground arith
construct-throws_iff B Format.lz4_frame lvl = ground arith

-- The default case: the two constructors take lz4_frame for zlib, where the one-shot calls refuse it as
-- format_mismatch.
pub construct-lz4_frame :
    (B : Build) (lvl : ZlibLevel) (input out : List ℕ)
    → (Compressor.construct B Format.lz4_frame lvl ≡ Compressor.construct B Format.zlib lvl)
      × (Decompressor.construct B Format.lz4_frame ≡ Decompressor.construct B Format.zlib)
      × (squeeze B Format.lz4_frame lvl input out ≡ some (mismatch out))
      × (swell B Format.lz4_frame input out ≡ some (mismatch out))
unfolding Compressor.construct Decompressor.construct make_squeezer make_sweller squeeze swell
    ZlibSqueezer.construct ZlibSweller.construct window_bits_for
construct-lz4_frame B lvl input out = (refl, refl, refl, refl)
