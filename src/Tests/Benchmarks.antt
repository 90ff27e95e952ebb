-- ===== src/Tests/Benchmarks.antt =====
-- The benchmarks and the fuzz target over the small zlib.
use polliwog.Base.{ℕ, ◌≤◌, ◌≡◌, refl, true, List, some, length, take, arith, length-replicate}
use polliwog.Format.{Format}
use polliwog.Format.ZlibAnchors
use polliwog.Zlib.{window_bits_for}
use polliwog.Zlib.Facade as ZlibFacade
use polliwog.Squeeze.{bound}
use polliwog.Squeeze.Stages.{Passes, Opens}
use polliwog.Bench.{bound_buffer}
use polliwog.Bench.Streaming.{Squeezing, compress}
use polliwog.Bench.Squeezing.{compress-Encodes}
use polliwog.Fuzz.{Outcome, test_one_input}
use polliwog.Fuzz.Compared.{test_one_input-compared}
use polliwog.Toy.Zlib as ToyZlib
use polliwog.Toy.ZlibAccounts.{toy-ZlibLaws}
use polliwog.Toy.ZlibLawful.{toy-ZlibCodec}
use polliwog.Toy.ZlibBound.{toy-HonestBound}
use polliwog.Toy.ZlibRoom.{toy-ZlibRoom}
use polliwog.Tests.Data.{full, data_bytes, squeezer, squeezer-made, sweller, sweller-made}

zlib_bound : bound full Format.zlib ZlibAnchors.default_level 2 ≡ 16
unfolding bound ZlibFacade.bound ToyZlib.toy
zlib_bound = refl

library_bound : ToyZlib.toy.compress_bound 2 ≡ 16
unfolding ToyZlib.toy
library_bound = refl

abbrev buffer : List ℕ
buffer = bound_buffer full Format.zlib ZlibAnchors.default_level data_bytes

buffer_size : length buffer ≡ bound full Format.zlib ZlibAnchors.default_level 2
unfolding bound_buffer
buffer_size = length-replicate (bound full Format.zlib ZlibAnchors.default_level 2) 0

abbrev passes_zlib : Passes full Format.zlib ZlibAnchors.default_level data_bytes buffer
passes_zlib = record {
  family = refl;
  built = refl;
  in_range = λ h. omega (arith, h);
  nonzero = omega (arith, zlib_bound);
  room = omega (arith, buffer_size);
  handle = squeezer Format.zlib;
  made = squeezer-made Format.zlib;
}

abbrev opens_zlib : Opens full Format.zlib
opens_zlib = record {
  family = refl;
  built = refl;
  handle = sweller Format.zlib;
  made = sweller-made Format.zlib;
}

compress-Encodes_example :
    (s : Squeezing full) × (compress full data_bytes buffer ≡ some s)
    × toy-ZlibCodec.Encodes (window_bits_for Format.zlib) data_bytes (take s.c_off s.compressed)
    × (s.c_off ≤ length s.compressed)
    × (length s.compressed ≡ length buffer)
compress-Encodes_example =
    compress-Encodes full toy-ZlibLaws toy-ZlibCodec (toy-ZlibRoom (window_bits_for Format.zlib))
      data_bytes (squeezer Format.zlib) buffer refl (squeezer-made Format.zlib) buffer_size
      (omega (arith, buffer_size, zlib_bound))

test_one_input-compared_example : test_one_input full data_bytes ≡ some (Outcome.compared true)
unfolding bound_buffer
test_one_input-compared_example =
    test_one_input-compared full toy-ZlibLaws toy-ZlibCodec data_bytes (omega arith) passes_zlib
      opens_zlib (omega (arith, library_bound)) (toy-HonestBound (window_bits_for Format.zlib))
      (omega arith) (omega (arith, zlib_bound))
