-- ===== src/Tests/Inflating.antt =====
-- The streaming decompressor over the small zlib: a stream in two parts, cut inside a mark.
use polliwog.Base.{arith, ℕ, ◌≡◌, refl, false, List, [], ◌∷◌, ◌++◌, some}
use polliwog.Error.{value}
use polliwog.Format.{Format}
use polliwog.Base.Words.{u32, sub64}
use polliwog.Zlib.{window_bits_for}
use polliwog.Zlib.Sweller as ZlibSweller
use polliwog.Zlib.Sweller.{ZlibSweller}
use polliwog.Stream.{StreamCall, SwellerVariant, swell_visitor}
use polliwog.Stream.Decompressor
use polliwog.Stream.Decompressor.{Decompressor}
use polliwog.Stream.Intake.{Intake}
use polliwog.Toy.Zlib as ToyZlib
use polliwog.Tests.Data.{full, zeros, sweller}

abbrev pub header : List ℕ
header = 0 ∷ 0 ∷ 0 ∷ 0 ∷ 0 ∷ 0 ∷ 0 ∷ 0 ∷ 0 ∷ 0 ∷ []

abbrev pub first : List ℕ
first = header ++ 1 ∷ []

abbrev pub second : List ℕ
second = 7 ∷ 1 ∷ 8 ∷ 0 ∷ []

abbrev pub begun : ZlibSweller ToyZlib.toy
begun = (ZlibSweller.push_more ToyZlib.toy (sweller Format.gzip) first (zeros 3)).handle

abbrev pub first_call : StreamCall (Decompressor full)
first_call = record {
  self = Decompressor.holding full (SwellerVariant.zlib begun);
  out = zeros 3;
  result = value (record { bytes_consumed = 11; bytes_produced = 0; done = false });
}

first-push :
    Decompressor.push full
      (Decompressor.holding full (SwellerVariant.zlib (sweller Format.gzip)))
      first
      (zeros 3)
    ≡ some first_call
unfolding Decompressor.push swell_visitor ZlibSweller.push_more zeros ToyZlib.toy window_bits_for
    u32 sub64
first-push = refl

pub first_part :
    Intake full
      (first ++ second)
      (Decompressor.holding full (SwellerVariant.zlib (sweller Format.gzip)))
      first
      []
      first_call.self
unfolding zeros
first_part =
    Intake.pushed _ [] [] first (zeros 3) second first_call
      (record { bytes_consumed = 11; bytes_produced = 0; done = false }) Intake.start refl
      (omega arith) first-push refl refl
