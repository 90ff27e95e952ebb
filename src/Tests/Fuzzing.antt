-- ===== src/Tests/Fuzzing.antt =====
-- The streaming fuzz target over the small zlib.
use polliwog.Base.{ℕ, ◌≤◌, ◌≡◌, refl, List, ◌++◌, some, take, arith}
use polliwog.Format.{Format}
use polliwog.Zlib.{window_bits_for}
use polliwog.Error.{value}
use polliwog.Stream.{StreamCall, StreamResult, SqueezerVariant}
use polliwog.Stream.Steps.{Session}
use polliwog.Stream.Compressor
use polliwog.Stream.Compressor.{Compressor}
use polliwog.Fuzz.Streaming.{Return, capacity, decompress, test_one_stream}
use polliwog.Fuzz.Returns.{test_one_stream-returns}
use polliwog.Fuzz.Tail.{test_one_stream-tail}
use polliwog.Toy.Zlib as ToyZlib
use polliwog.Toy.ZlibAccounts.{toy-ZlibLaws}
use polliwog.Toy.ZlibLawful.{toy-ZlibCodec}
use polliwog.Toy.ZlibRoom.{toy-ZlibRoom}
use polliwog.Toy.ZlibProgress.{toy-ZlibProgress}
use polliwog.Tests.Data.{full, data_bytes, squeezer, squeezer-made, sweller, sweller-made}

test_one_stream-returns_example : (r : Return) × (test_one_stream full data_bytes ≡ some r)
test_one_stream-returns_example =
    test_one_stream-returns full toy-ZlibLaws (toy-ZlibProgress (window_bits_for Format.zlib))
      data_bytes (squeezer Format.zlib) (sweller Format.zlib) refl (squeezer-made Format.zlib)
      (sweller-made Format.zlib)

bound_fits : ToyZlib.toy.compress_bound 2 ≤ capacity
unfolding ToyZlib.toy
bound_fits = omega arith

test_one_stream-tail_example :
    (made : List ℕ) × (comp : Compressor full) × (out : List ℕ) × (c : StreamCall (Compressor full))
    × (r : StreamResult) × Session full
        (Compressor.holding full (SqueezerVariant.zlib (squeezer Format.zlib)))
        data_bytes
        made
        comp
    × (Compressor.finish full comp out ≡ some c)
    × (c.result ≡ value r)
    × toy-ZlibCodec.Encodes
        (window_bits_for Format.zlib)
        data_bytes
        (made ++ take r.bytes_produced c.out)
    × (test_one_stream full data_bytes ≡ decompress full data_bytes (take r.bytes_produced c.out))
test_one_stream-tail_example =
    test_one_stream-tail full toy-ZlibLaws toy-ZlibCodec
      (toy-ZlibRoom (window_bits_for Format.zlib)) data_bytes (squeezer Format.zlib) (omega arith)
      bound_fits refl (squeezer-made Format.zlib)
