-- ===== src/Fuzz/Compared.antt =====
-- The fuzz target comes to its comparison.
use polliwog.Base.{
  replicate, length-replicate, take, Option, ℕ, ◌<◌, ◌≡◌, refl, ap, ◌∙◌, true, false, List, [], ◌∷◌,
  some, length, ◌==◌, arith,
}
use polliwog.Base.Words.{u32_mod, u64_mod}
use polliwog.Format.{Format}
use polliwog.Format.ZlibAnchors
use polliwog.Build.{Build}
use polliwog.Engine.Zlib.{ZlibLaws}
use polliwog.Engine.ZlibCodec.{ZlibCodec, HonestBound}
use polliwog.Zlib.{window_bits_for}
use polliwog.Error.{Expected, value, unexpected}
use polliwog.Squeeze.{SqueezeResult, bound, swell}
use polliwog.Squeeze.Stages.{Passes, Opens}
use polliwog.Squeeze.Fitting.{swell-squeeze_fit}
use polliwog.Fuzz.{Outcome, memcmp_equal, swell_back, test_one_input}

memcmp_equal_self : (xs : List ℕ) → memcmp_equal xs xs (length xs) ≡ true
unfolding memcmp_equal
memcmp_equal_self [] = refl
memcmp_equal_self (x ∷ xs) =
    let e : (x == x) ≡ true = ground arith in rw (e, memcmp_equal_self xs) refl

-- A swell that gives the input back ends in a comparison of equals.
swell_back-compared :
    (B : Build) (input out : List ℕ) (n : ℕ)
    → swell B Format.zlib (take n out) (replicate (length input) 0)
      ≡ some (record { out = input; result = value (record { bytes_written = length input }) })
    → swell_back B input out n ≡ some (Outcome.compared true)
unfolding swell_back
swell_back-compared B input out n e =
    let same : (length input == length input) ≡ true = ground arith in
    rw (e, same, memcmp_equal_self input) refl

-- The fuzz target's round trip: on an input that is not empty, in a build whose zlib has an honest bound
-- below 4 GiB, the target comes to its memcmp, and the bytes that it compares are equal.
pub test_one_input-compared :
    (B : Build) (L : ZlibLaws B.zlib_api) (K : ZlibCodec B.zlib_api L) (input : List ℕ)
    → 0 < length input
    → Passes B Format.zlib ZlibAnchors.default_level input
        (replicate (bound B Format.zlib ZlibAnchors.default_level (length input)) 0)
    → Opens B Format.zlib
    → B.zlib_api.compress_bound (length input) < u64_mod
    → HonestBound B.zlib_api (window_bits_for Format.zlib)
    → length input < u32_mod
    → bound B Format.zlib ZlibAnchors.default_level (length input) < u32_mod
    → test_one_input B input ≡ some (Outcome.compared true)
unfolding test_one_input
test_one_input-compared B L K input some_in p q word honest small small_bound =
    let lvl = ZlibAnchors.default_level in
    let cap = bound B Format.zlib lvl (length input) in
    let out : List ℕ = replicate cap 0 in
    let size : length out ≡ cap = length-replicate cap 0 in
    let r =
      swell-squeeze_fit B L K Format.zlib lvl input out (replicate (length input) 0) p q word honest
        some_in small (omega (arith, size, small_bound)) (length-replicate (length input) 0) in
    let there : (length input == 0) ≡ false = ground arith in
    let bounded : (cap == 0) ≡ false = ground (arith, p.nonzero) in
    let finish : Expected SqueezeResult → Option Outcome = λ result. elim result [
      | unexpected e ↦ some Outcome.not_squeezed
      | value w ↦ swell_back B input r.0.out w.bytes_written
    ] in
    rw (there, bounded, r.2) (ap finish r.3 ∙ swell_back-compared B input r.0.out r.1 r.4)
