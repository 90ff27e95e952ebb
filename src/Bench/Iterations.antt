-- ===== src/Bench/Iterations.antt =====
-- The iterations of the benchmarks come back, with the data.
use polliwog.Base.{ℕ, ◌<◌, ◌≡◌, refl, List, some, length}
use polliwog.Base.Words.{u32_mod, u64_mod}
use polliwog.Error.{value}
use polliwog.Format.{Format, ZlibLevel}
use polliwog.Build.{Build}
use polliwog.Engine.Zlib.{ZlibLaws}
use polliwog.Engine.ZlibCodec.{ZlibCodec, HonestBound}
use polliwog.Zlib.{window_bits_for}
use polliwog.Squeeze.Stages.{Passes, Opens}
use polliwog.Squeeze.Fitting.{swell-squeeze_fit}
use polliwog.Bench.{squeeze_iteration, roundtrip_iteration}

-- The round trip of the one-shot benchmarks: whatever is not empty and passes the tests of squeeze comes back whole in a
-- buffer of its size, for an honest bound, when the data and the compressed buffer are below 4 GiB.
pub roundtrip_iteration-ends :
    (B : Build) (L : ZlibLaws B.zlib_api) (K : ZlibCodec B.zlib_api L) (f : Format)
    (lvl : ZlibLevel) (input compressed decompressed : List ℕ)
    → Passes B f lvl input compressed
    → Opens B f
    → B.zlib_api.compress_bound (length input) < u64_mod
    → HonestBound B.zlib_api (window_bits_for f)
    → 0 < length input
    → length input < u32_mod
    → length compressed < u32_mod
    → length decompressed ≡ length input
    → roundtrip_iteration B f lvl input compressed decompressed
      ≡ some (record { out = input; result = value (record { bytes_written = length input }) })
unfolding roundtrip_iteration squeeze_iteration
roundtrip_iteration-ends B L K f lvl input compressed decompressed p q word honest some_in small
      small_out size =
    let r =
      swell-squeeze_fit B L K f lvl input compressed decompressed p q word honest some_in small
        small_out size in
    rw (r.2, r.3, r.4) refl
