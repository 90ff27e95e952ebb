-- ===== src/Tests/Guards.antt =====
-- The tests before a backend is called, and the constructors of the streaming classes.
use polliwog.Base.{
  zero, arith, replicate, length-replicate, ◌<◌, ◌≡◌, ◌≢◌, ◌↔◌, ◌⊎◌, refl, true, false, some,
  length,
}
use polliwog.Error.{Kind, BackendId}
use polliwog.Format.{Format}
use polliwog.Squeeze.{refuse, mismatch, squeeze, swell, bound}
use polliwog.Squeeze.Widths.{swell-too_long}
use polliwog.Squeeze.Swelling.{succeeds}
use polliwog.Toy.ZlibAccounts.{toy-ZlibLaws}
use polliwog.Squeeze.Guards.{
  OutOfRange, zlib_family, serves, unserved-mismatch, level_unsupported_iff, buffer_too_small_iff,
}
use polliwog.Stream.{Made}
use polliwog.Stream.Compressor
use polliwog.Stream.Construction.{construct-throws_iff}
use polliwog.Tests.Data.{full, bare, six, ten, zeros, data_bytes, opens_gzip}

unserved-mismatch_example :
    (squeeze bare Format.zstd six data_bytes (zeros 3) ≡ some (mismatch (zeros 3)))
    × (swell bare Format.zstd data_bytes (zeros 3) ≡ some (mismatch (zeros 3)))
    × (bound bare Format.zstd six 2 ≡ 0)
unfolding serves
unserved-mismatch_example = unserved-mismatch bare six data_bytes (zeros 3) Format.zstd refl

level_unsupported_iff_example :
    (squeeze full Format.gzip ten data_bytes (zeros 3)
      ≡ some (refuse Kind.level_unsupported BackendId.zlib (zeros 3)))
    ↔ ((zlib_family Format.gzip ≡ true) × (full.has_zlib ≡ true) × OutOfRange ten.as_int)
level_unsupported_iff_example = level_unsupported_iff full ten data_bytes (zeros 3) Format.gzip

buffer_too_small_iff_example :
    (squeeze full Format.gzip six data_bytes (zeros 3)
      ≡ some (refuse Kind.buffer_too_small BackendId.none (zeros 3)))
    ↔ (((zlib_family Format.gzip ≡ false) ⊎ ¬ OutOfRange six.as_int)
        × (length (zeros 3) < bound full Format.gzip six 2))
buffer_too_small_iff_example = buffer_too_small_iff full six data_bytes (zeros 3) Format.gzip

construct-throws_iff_example :
    (Compressor.construct full Format.gzip ten
      ≡ some (Made.thrown "level_unsupported: zlib levels are 0-9"))
    ↔ ((Format.gzip ≢ Format.zstd) × OutOfRange ten.as_int)
construct-throws_iff_example = construct-throws_iff full Format.gzip ten

swell-too_long_example :
    succeeds (swell full Format.gzip (replicate 4294967296 0) (zeros 3)) ≡ false
swell-too_long_example =
    swell-too_long full Format.gzip toy-ZlibLaws (replicate 4294967296 0) (zeros 3) opens_gzip
      (omega (arith, length-replicate 4294967296 zero))
