-- ===== src/Fuzz.antt =====
-- fuzz/fuzz_squeeze.cpp: what the one-shot fuzz target does with an input. The target always returns
-- 0; what it comes to is told apart here. `none` is a failed assertion in a backend's constructor.
pub mod Compared
pub mod Streaming
pub mod Rounds
pub mod Returns
pub mod Tail
use polliwog.Base.{
  ℕ, zero, suc, List, ◌∷◌, Bool, true, false, Option, some, length, take, replicate, ◌==◌, ◌&&◌,
  ◌>>=◌, if◌then◌else◌,
}
use polliwog.Error.{value, unexpected}
use polliwog.Format.{Format}
use polliwog.Format.ZlibAnchors
use polliwog.Build.{Build}
use polliwog.Squeeze.{bound, squeeze, swell}

-- Where the target returns: before squeeze, after an error of squeeze or of swell, after a count of bytes
-- that is not that of the input, or after memcmp, with whether it finds the two equal.
pub data Outcome : Type 0 where
  skipped : Outcome
  not_squeezed : Outcome
  not_swelled : Outcome
  other_size : Outcome
  compared : Bool → Outcome

-- memcmp(a, b, n) == 0
unfoldable pub memcmp_equal : List ℕ → List ℕ → ℕ → Bool
memcmp_equal xs ys zero = true
memcmp_equal (x ∷ xs) (y ∷ ys) (suc n) = x == y && memcmp_equal xs ys n
memcmp_equal _ _ (suc n) = false

module _ (B : Build) where
  -- what follows a squeeze that succeeded
  unfoldable pub swell_back : List ℕ → List ℕ → ℕ → Option Outcome
  unfolding memcmp_equal
  swell_back input out bytes_written = do
    dr ← swell B Format.zlib (take bytes_written out) (replicate (length input) 0)
    some (elim dr.result [
      | unexpected e ↦ Outcome.not_swelled
      | value r ↦
          if r.bytes_written == length input
          then Outcome.compared (memcmp_equal input dr.out (length input))
          else Outcome.other_size
    ])

  -- LLVMFuzzerTestOneInput
  unfoldable pub test_one_input : List ℕ → Option Outcome
  unfolding swell_back
  test_one_input input =
      let cap = bound B Format.zlib ZlibAnchors.default_level (length input) in
      if length input == 0
      then some Outcome.skipped
      else if cap == 0
      then some Outcome.skipped
      else (do
        sr ← squeeze B Format.zlib ZlibAnchors.default_level input (replicate cap 0)
        elim sr.result [
          | unexpected e ↦ some Outcome.not_squeezed
          | value r ↦ swell_back input sr.out r.bytes_written
        ])
