-- ===== src/Tests/Streaming.antt =====
-- The streaming compressor: a session of one push over the small zlib.
use polliwog.Base.{ℕ, ◌≡◌, refl, false, List, [], ◌∷◌, ◌++◌, Option, some, take, drop, arith, true}
use polliwog.Base.Words.{u32, sub64}
use polliwog.Error.{value, unexpected}
use polliwog.Format.{Format}
use polliwog.Backend.{Call}
use polliwog.Backend.Contract.{Returns}
use polliwog.Engine.Zlib.{Flush, stream_end}
use polliwog.Engine.Zstd.{e_end}
use polliwog.Zlib.{window_bits_for, aim}
use polliwog.Zstd.{in_buffer, out_buffer}
use polliwog.Zlib.Squeezer as ZlibSqueezer
use polliwog.Zlib.Squeezer.{ZlibSqueezer}
use polliwog.Zstd.Squeezer as ZstdSqueezer
use polliwog.Zstd.Squeezer.{ZstdSqueezer}
use polliwog.Squeeze.{swell, level_outside}
use polliwog.Stream.{
  StreamCall, Made, SqueezerVariant, format_mismatch_err, SwellerVariant, swell_visitor,
  make_sweller, sweller_zlib, push_visitor, finish_visitor, make_squeezer, squeezer_zlib,
}
use polliwog.Stream.Compressor
use polliwog.Stream.Compressor.{Compressor}
use polliwog.Stream.Answers.{Answered}
use polliwog.Stream.Served.{server}
use polliwog.Stream.History.{History, calls-Answered, calls-mismatch}
use polliwog.Stream.Decompressor
use polliwog.Stream.Decompressor.{Decompressor}
use polliwog.Stream.Pushes
use polliwog.Stream.Pushes.{Pushes, pushes-Answered}
use polliwog.Zlib.Sweller as ZlibSweller
use polliwog.Stream.Steps.{Session}
use polliwog.Stream.Session.{finish-Encodes}
use polliwog.Stream.Swelling.{swell-finish}
use polliwog.Stream.Done.{finish-unfinished}
use polliwog.Toy.Zlib as ToyZlib
use polliwog.Toy.ZlibAccounts.{toy-ZlibLaws}
use polliwog.Toy.ZlibLawful.{toy-ZlibCodec}
use polliwog.Toy.Zstd as ToyZstd
use polliwog.Base.Int.{pos}
use polliwog.Toy.ZstdFrames.{toy-ZstdStreaming}
use polliwog.Toy.ZstdLawful.{toy-ZstdLaws, toy-ZstdCodec}
use polliwog.Tests.Data.{
  full, bare, six, zeros, zstd_squeezer-made, data_bytes, squeezer, squeezer-made, sweller,
  opens_gzip, zstd_squeezer,
}

-- The handle after the push, the object around it, and what the push gave.
abbrev pub fed : ZlibSqueezer ToyZlib.toy
fed = (ZlibSqueezer.push_more ToyZlib.toy (squeezer Format.gzip) data_bytes (zeros 20)).handle

abbrev pub start : Compressor full
start = Compressor.holding full (SqueezerVariant.zlib (squeezer Format.gzip))

abbrev pub then_fed : Compressor full
then_fed = Compressor.holding full (SqueezerVariant.zlib fed)

abbrev pub header_and_marks : List ℕ
header_and_marks = 0 ∷ 0 ∷ 0 ∷ 0 ∷ 0 ∷ 0 ∷ 0 ∷ 0 ∷ 0 ∷ 0 ∷ 1 ∷ 7 ∷ 1 ∷ 8 ∷ []

abbrev pub push_call : StreamCall (Compressor full)
push_call = record {
  self = then_fed;
  out = header_and_marks ++ zeros 6;
  result = value (record { bytes_consumed = 2; bytes_produced = 14; done = false });
}

pub start-push : Compressor.push full start data_bytes (zeros 20) ≡ some push_call
unfolding Compressor.push push_visitor ZlibSqueezer.push_more zeros ToyZlib.toy window_bits_for u32
    sub64
start-push = refl

pub one_push : Session full start data_bytes header_and_marks then_fed
one_push =
    Session.pushed start [] [] data_bytes (zeros 20) push_call
      (record { bytes_consumed = 2; bytes_produced = 14; done = false }) Session.start start-push
      refl

pub fed_ends : (ToyZlib.toy.deflate (aim fed.stream [] (zeros 3)) Flush.finish).ret ≡ stream_end
unfolding ZlibSqueezer.push_more zeros ToyZlib.toy window_bits_for u32
fed_ends = refl

abbrev pub finish_call : StreamCall (Compressor full)
finish_call = record {
  self =
      Compressor.holding full
        (SqueezerVariant.zlib (ZlibSqueezer.finish ToyZlib.toy fed (zeros 3)).handle);
  out = 0 ∷ zeros 2;
  result = value (record { bytes_consumed = 0; bytes_produced = 1; done = true });
}

pub fed-finish : Compressor.finish full then_fed (zeros 3) ≡ some finish_call
unfolding Compressor.finish finish_visitor ZlibSqueezer.finish ZlibSqueezer.push_more zeros
    ToyZlib.toy window_bits_for u32 sub64
fed-finish = refl

finish-Encodes_example :
    (c : StreamCall (Compressor full)) × (n : ℕ) × (Compressor.finish full then_fed (zeros 3)
      ≡ some c)
    × (c.result ≡ value (record { bytes_consumed = 0; bytes_produced = n; done = true }))
    × toy-ZlibCodec.Encodes
        (window_bits_for Format.gzip)
        data_bytes
        (header_and_marks ++ take n c.out)
finish-Encodes_example =
    finish-Encodes full toy-ZlibLaws toy-ZlibCodec Format.gzip (squeezer Format.gzip) fed six
      data_bytes header_and_marks (zeros 3) (squeezer-made Format.gzip) one_push fed_ends

swell-finish_example :
    swell full Format.gzip (header_and_marks ++ 0 ∷ []) (zeros 5)
    ≡ some (record {
      out = data_bytes ++ drop 2 (zeros 5);
      result = value (record { bytes_written = 2 });
    })
unfolding zeros
swell-finish_example =
    swell-finish full toy-ZlibLaws toy-ZlibCodec Format.gzip (squeezer Format.gzip) fed six
      data_bytes header_and_marks (zeros 3) (zeros 5) finish_call
      (record { bytes_consumed = 0; bytes_produced = 1; done = true }) (squeezer-made Format.gzip)
      one_push fed_ends fed-finish refl opens_gzip (omega arith) (omega arith) (omega arith)
      (omega arith)

pub start-made : Compressor.construct full Format.gzip six ≡ some (Made.made start)
unfolding Compressor.construct level_outside make_squeezer squeezer_zlib ZlibSqueezer.construct
    ToyZlib.toy
start-made = refl

calls-Answered_example :
    let id = server full Format.gzip in
    Returns
      (Compressor.push full then_fed data_bytes (zeros 3))
      (Answered full toy-ZlibLaws toy-ZstdLaws id data_bytes (zeros 3))
    × Returns
        (Compressor.flush full then_fed (zeros 3))
        (Answered full toy-ZlibLaws toy-ZstdLaws id [] (zeros 3))
    × Returns
        (Compressor.finish full then_fed (zeros 3))
        (Answered full toy-ZlibLaws toy-ZstdLaws id [] (zeros 3))
calls-Answered_example =
    calls-Answered full toy-ZlibLaws toy-ZstdLaws Format.gzip six start then_fed data_bytes
      (zeros 3) start-made
      (History.pushed start data_bytes (zeros 20) push_call History.start start-push)

abbrev stub : Compressor bare
stub = Compressor.holding bare SqueezerVariant.zlib_stub

stub-made : Compressor.construct bare Format.gzip six ≡ some (Made.made stub)
unfolding Compressor.construct level_outside make_squeezer squeezer_zlib
stub-made = refl

calls-mismatch_example :
    let refused : Option (StreamCall (Compressor bare)) =
      some (record { self = stub; out = zeros 3; result = unexpected format_mismatch_err }) in
    (Compressor.push bare stub data_bytes (zeros 3) ≡ refused)
    × (Compressor.flush bare stub (zeros 3) ≡ refused)
    × (Compressor.finish bare stub (zeros 3) ≡ refused)
unfolding server
calls-mismatch_example =
    calls-mismatch bare toy-ZlibLaws toy-ZstdLaws Format.gzip six stub stub data_bytes (zeros 3)
      refl stub-made History.start

-- Nothing of the frame fits into an empty span.
abbrev stuck : Call (ZstdSqueezer ToyZstd.toy)
stuck = record {
  handle = record zstd_squeezer {
    ctx = (ToyZstd.toy.compress_stream2 zstd_squeezer.ctx (out_buffer []) (in_buffer []) e_end).ctx;
  };
  out = [];
  result = value (record { bytes_in = 0; bytes_out = 0; done = false });
}

zstd_squeezer-finish : ZstdSqueezer.finish ToyZstd.toy zstd_squeezer [] ≡ some stuck
unfolding ZstdSqueezer.finish ZstdSqueezer.finish_loop ToyZstd.toy
zstd_squeezer-finish = refl

finish-unfinished_example :
    (c : StreamCall (Compressor full)) × (h' : ZstdSqueezer ToyZstd.toy) × (Compressor.finish full
        (Compressor.holding full (SqueezerVariant.zstd zstd_squeezer))
        []
      ≡ some c)
    × (c.result ≡ value (record { bytes_consumed = 0; bytes_produced = 0; done = true }))
    × (c.self ≡ Compressor.holding full (SqueezerVariant.zstd h'))
    × toy-ZstdStreaming.Closing h'.ctx [] (take 0 c.out)
finish-unfinished_example =
    finish-unfinished full toy-ZstdLaws toy-ZstdCodec toy-ZstdStreaming Format.zstd
      (record { as_int = pos 6 }) zstd_squeezer zstd_squeezer [] [] [] stuck
      (record { bytes_in = 0; bytes_out = 0; done = false }) zstd_squeezer-made Session.start
      zstd_squeezer-finish refl refl

-- A decompressor after a push of the header.
abbrev inflater : Decompressor full
inflater = Decompressor.holding full (SwellerVariant.zlib (sweller Format.gzip))

inflater-made : Decompressor.construct full Format.gzip ≡ some inflater
unfolding Decompressor.construct make_sweller sweller_zlib ZlibSweller.construct ToyZlib.toy
inflater-made = refl

abbrev header_call : StreamCall (Decompressor full)
header_call = record {
  self = Decompressor.holding full (
      SwellerVariant.zlib
        (ZlibSweller.push_more ToyZlib.toy (sweller Format.gzip) (zeros 10) (zeros 3)).handle);
  out = zeros 3;
  result = value (record { bytes_consumed = 10; bytes_produced = 0; done = false });
}

inflater-push : Decompressor.push full inflater (zeros 10) (zeros 3) ≡ some header_call
unfolding Decompressor.push swell_visitor ZlibSweller.push_more zeros ToyZlib.toy window_bits_for
    u32 sub64
inflater-push = refl

pushes-Answered_example :
    Returns (Decompressor.push full header_call.self (1 ∷ 7 ∷ 0 ∷ []) (zeros 3)) (
      Pushes.Answered full toy-ZlibLaws toy-ZstdLaws
        (server full Format.gzip)
        (1 ∷ 7 ∷ 0 ∷ [])
        (zeros 3))
pushes-Answered_example =
    pushes-Answered full toy-ZlibLaws toy-ZstdLaws Format.gzip inflater header_call.self
      (1 ∷ 7 ∷ 0 ∷ []) (zeros 3) inflater-made
      (Pushes.pushed inflater (zeros 10) (zeros 3) header_call Pushes.start inflater-push)
