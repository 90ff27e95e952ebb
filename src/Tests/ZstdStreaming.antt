-- ===== src/Tests/ZstdStreaming.antt =====
-- The streaming compressor over the small zstd: a push with too little room, and the finish.
use polliwog.Base.{ℕ, ◌≡◌, refl, false, true, List, [], ◌∷◌, ◌++◌, some, arith}
use polliwog.Error.{value}
use polliwog.Format.{Format}
use polliwog.Base.Int.{pos}
use polliwog.Zstd.Squeezer as ZstdSqueezer
use polliwog.Zstd.Squeezer.{ZstdSqueezer}
use polliwog.Squeeze.ZstdRoundtrip.{Swollen}
use polliwog.Squeeze.{swell}
use polliwog.Stream.{StreamCall, SqueezerVariant, push_visitor, finish_visitor}
use polliwog.Stream.Compressor
use polliwog.Stream.Compressor.{Compressor}
use polliwog.Stream.Steps.{Session}
use polliwog.Stream.ZstdSession.{finish-Encodes_zstd}
use polliwog.Stream.Swelling.{swell-finish_zstd}
use polliwog.Toy.Zstd as ToyZstd
use polliwog.Toy.ZstdLawful.{toy-ZstdLaws, toy-ZstdCodec}
use polliwog.Toy.ZstdFrames.{toy-ZstdStreaming}
use polliwog.Tests.Data.{full, zeros, data_bytes, zstd_squeezer, zstd_squeezer-made, opens_zstd}

-- The last mark does not fit, and is kept.
abbrev pub fed : ZstdSqueezer ToyZstd.toy
fed = (ZstdSqueezer.push_more ToyZstd.toy zstd_squeezer data_bytes (zeros 3)).handle

abbrev start : Compressor full
start = Compressor.holding full (SqueezerVariant.zstd zstd_squeezer)

abbrev then_fed : Compressor full
then_fed = Compressor.holding full (SqueezerVariant.zstd fed)

abbrev pub most : List ℕ
most = 1 ∷ 7 ∷ 1 ∷ []

abbrev push_call : StreamCall (Compressor full)
push_call = record {
  self = then_fed;
  out = most;
  result = value (record { bytes_consumed = 2; bytes_produced = 3; done = false });
}

start-push : Compressor.push full start data_bytes (zeros 3) ≡ some push_call
unfolding Compressor.push push_visitor ZstdSqueezer.push_more zeros ToyZstd.toy
start-push = refl

pub one_push : Session full start data_bytes most then_fed
one_push =
    Session.pushed start [] [] data_bytes (zeros 3) push_call
      (record { bytes_consumed = 2; bytes_produced = 3; done = false }) Session.start start-push
      refl

abbrev pub finish_call : StreamCall (Compressor full)
finish_call = record {
  self = Compressor.holding full (SqueezerVariant.zstd zstd_squeezer);
  out = 8 ∷ 0 ∷ zeros 2;
  result = value (record { bytes_consumed = 0; bytes_produced = 2; done = true });
}

pub fed-finish : Compressor.finish full then_fed (zeros 4) ≡ some finish_call
unfolding Compressor.finish finish_visitor ZstdSqueezer.finish ZstdSqueezer.finish_loop
    ZstdSqueezer.push_more zeros ToyZstd.toy
fed-finish = refl

finish-Encodes_zstd_example : toy-ZstdCodec.Encodes data_bytes (most ++ 8 ∷ 0 ∷ [])
unfolding zeros
finish-Encodes_zstd_example =
    finish-Encodes_zstd full toy-ZstdLaws toy-ZstdCodec toy-ZstdStreaming Format.zstd
      (record { as_int = pos 6 }) zstd_squeezer fed data_bytes most (zeros 4) finish_call
      (record { bytes_consumed = 0; bytes_produced = 2; done = true }) zstd_squeezer-made one_push
      fed-finish refl (omega arith)

swell-finish_zstd_example :
    Swollen (swell full Format.zstd (most ++ 8 ∷ 0 ∷ []) (zeros 5)) data_bytes (zeros 5)
unfolding zeros
swell-finish_zstd_example =
    swell-finish_zstd full toy-ZstdLaws toy-ZstdCodec toy-ZstdStreaming Format.zstd
      (record { as_int = pos 6 }) zstd_squeezer fed data_bytes most (zeros 4) (zeros 5) finish_call
      (record { bytes_consumed = 0; bytes_produced = 2; done = true }) zstd_squeezer-made one_push
      fed-finish refl (omega arith) opens_zstd (omega arith) (omega arith)
