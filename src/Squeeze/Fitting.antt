-- ===== src/Squeeze/Fitting.antt =====
-- A round trip into a buffer that has exactly the data's size.
use mathlib.Core.List.{append-nil}
use polliwog.Base.{ℕ, ◌<◌, ◌≡◌, ap, ◌∙◌, List, ◌++◌, some, length, take, drop, drop-all, arith}
use polliwog.Base.Words.{u32_mod, u64_mod}
use polliwog.Error.{value}
use polliwog.Format.{Format, ZlibLevel}
use polliwog.Build.{Build}
use polliwog.Engine.Zlib.{ZlibLaws}
use polliwog.Engine.ZlibCodec.{ZlibCodec, HonestBound}
use polliwog.Zlib.{window_bits_for}
use polliwog.Squeeze.{Shot, squeeze, swell}
use polliwog.Squeeze.Stages.{Passes, Opens}
use polliwog.Squeeze.Roundtrip.{swell-squeeze}

-- The data fills its buffer.
pub swell-squeeze_fit :
    (B : Build) (L : ZlibLaws B.zlib_api) (K : ZlibCodec B.zlib_api L) (f : Format)
    (lvl : ZlibLevel) (input out dec : List ℕ)
    → Passes B f lvl input out
    → Opens B f
    → B.zlib_api.compress_bound (length input) < u64_mod
    → HonestBound B.zlib_api (window_bits_for f)
    → 0 < length input
    → length input < u32_mod
    → length out < u32_mod
    → length dec ≡ length input
    → (s : Shot) × (n : ℕ) × (squeeze B f lvl input out ≡ some s)
      × (s.result ≡ value (record { bytes_written = n }))
      × (swell B f (take n s.out) dec
          ≡ some (record { out = input; result = value (record { bytes_written = length input }) }))
swell-squeeze_fit B L K f lvl input out dec p q word honest some_in small small_out room =
    let r =
      swell-squeeze B L K f lvl input out dec p q word honest small small_out
        (omega (arith, room, small)) (omega (arith, room, some_in)) (omega (arith, room)) in
    let whole : input ++ drop (length input) dec ≡ input =
      ap (λ t. input ++ t) (drop-all (length input) dec (omega (arith, room))) ∙ append-nil input in
    (r.0, r.1, r.2, r.3, rw whole at r.4)
