-- ===== src/Tests/ZstdChained.antt =====
-- The streaming decompressor over the small zstd: a frame in two parts, with a byte behind it, and the
-- frame is that of a compressor.
use polliwog.Base.{arith, ℕ, ◌≡◌, refl, false, true, List, [], ◌∷◌, ◌++◌, some, arith}
use polliwog.Base.Int.{pos}
use polliwog.Error.{value}
use polliwog.Format.{Format}
use polliwog.Zstd.Sweller as ZstdSweller
use polliwog.Zstd.Sweller.{ZstdSweller}
use polliwog.Stream.{StreamCall, SwellerVariant, swell_visitor}
use polliwog.Stream.Decompressor
use polliwog.Stream.Decompressor.{Decompressor}
use polliwog.Stream.Intake.{Intake}
use polliwog.Stream.ZstdIntake.{Report, push-Inflates_zstd}
use polliwog.Stream.Roundtrip.{push-finish_zstd}
use polliwog.Toy.Frame.{marks}
use polliwog.Toy.Zstd as ToyZstd
use polliwog.Toy.ZstdLawful.{toy-ZstdLaws, toy-ZstdCodec}
use polliwog.Toy.ZstdFrames.{toy-ZstdStreaming}
use polliwog.Toy.ZstdInflating.{toy-ZstdInflating}
use polliwog.Tests.Data.{
  full, zeros, data_bytes, zstd_squeezer, zstd_squeezer-made, zstd_sweller, zstd_sweller-made,
}
use polliwog.Tests.ZstdStreaming.{fed, most, one_push, finish_call, fed-finish}

abbrev whole_frame : List ℕ
whole_frame = most ++ 8 ∷ 0 ∷ []

whole_frame-Encodes : toy-ZstdCodec.Encodes data_bytes whole_frame
unfolding toy-ZstdCodec marks
whole_frame-Encodes = refl

abbrev start : Decompressor full
start = Decompressor.holding full (SwellerVariant.zstd zstd_sweller)

abbrev first : List ℕ
first = 1 ∷ 7 ∷ []

abbrev begun : ZstdSweller ToyZstd.toy
begun = (ZstdSweller.push_more ToyZstd.toy zstd_sweller first (zeros 2)).handle

abbrev first_call : StreamCall (Decompressor full)
first_call = record {
  self = Decompressor.holding full (SwellerVariant.zstd begun);
  out = 7 ∷ 0 ∷ [];
  result = value (record { bytes_consumed = 2; bytes_produced = 1; done = false });
}

first-push : Decompressor.push full start first (zeros 2) ≡ some first_call
unfolding Decompressor.push swell_visitor ZstdSweller.push_more zeros ToyZstd.toy
first-push = refl

first_part : Intake full (whole_frame ++ 9 ∷ []) start first (7 ∷ []) first_call.self
unfolding zeros
first_part =
    Intake.pushed start [] [] first (zeros 2) (1 ∷ 8 ∷ 0 ∷ 9 ∷ []) first_call
      (record { bytes_consumed = 2; bytes_produced = 1; done = false }) Intake.start refl
      (omega arith) first-push refl refl

-- The input goes past the end of the frame.
push-Inflates_zstd_example :
    (c : StreamCall (Decompressor full)) × (Decompressor.push full first_call.self
        (1 ∷ 8 ∷ 0 ∷ 9 ∷ [])
        (zeros 2)
      ≡ some c)
    × Report data_bytes whole_frame first (7 ∷ []) (1 ∷ 8 ∷ 0 ∷ 9 ∷ []) c
unfolding zeros
push-Inflates_zstd_example =
    push-Inflates_zstd full toy-ZstdLaws toy-ZstdCodec toy-ZstdInflating data_bytes whole_frame
      Format.zstd zstd_sweller begun first (7 ∷ []) (1 ∷ 8 ∷ 0 ∷ 9 ∷ []) (zeros 2) [] (9 ∷ [])
      zstd_sweller-made whole_frame-Encodes first_part refl (omega arith) (omega arith)

-- It ends with the frame.
push-finish_zstd_example :
    (c : StreamCall (Decompressor full)) × (Decompressor.push full first_call.self
        (1 ∷ 8 ∷ 0 ∷ [])
        (zeros 2)
      ≡ some c)
    × Report data_bytes whole_frame first (7 ∷ []) (1 ∷ 8 ∷ 0 ∷ []) c
unfolding zeros
push-finish_zstd_example =
    push-finish_zstd full toy-ZstdLaws toy-ZstdCodec toy-ZstdStreaming toy-ZstdInflating Format.zstd
      Format.zstd zstd_squeezer fed (record { as_int = pos 6 }) data_bytes most (zeros 4)
      finish_call (record { bytes_consumed = 0; bytes_produced = 2; done = true }) zstd_sweller
      begun first (7 ∷ []) (1 ∷ 8 ∷ 0 ∷ []) (zeros 2) (9 ∷ []) (9 ∷ []) zstd_squeezer-made one_push
      fed-finish refl (omega arith) zstd_sweller-made first_part refl (omega arith) (omega arith)
