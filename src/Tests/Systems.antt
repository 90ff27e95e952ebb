-- ===== src/Tests/Systems.antt =====
-- Two builds whose zlibs write different bytes for the system in a gzip header.
use polliwog.Base.{
  ℕ, ◌<◌, ◌≤◌, ◌≡◌, ◌≢◌, refl, sym, true, some, length, set, get_elem?, get_elem?-set_ne, arith,
}
use polliwog.Base.Words.{u32, sub64}
use polliwog.Error.{value}
use polliwog.Format.{Format}
use polliwog.Backend.{Progress}
use polliwog.Build.{Build}
use polliwog.Zlib.{zeroed, window_bits_for}
use polliwog.Base.Int.{pos}
use polliwog.Zlib.Squeezer as ZlibSqueezer
use polliwog.Zlib.Squeezer.{ZlibSqueezer}
use polliwog.Zlib.Facade as ZlibFacade
use polliwog.Squeeze.{Shot, bound, squeeze}
use polliwog.Squeeze.Stages.{Passes}
use polliwog.Squeeze.Gzip.{squeeze-gzip_os, squeeze-gzip_deterministic}
use polliwog.Toy.Zlib as ToyZlib
use polliwog.Toy.ZlibAccounts.{deflate_with-Accounts, toy-ZlibLaws}
use polliwog.Toy.ZlibOs.{other_toy, other_toy-ZlibLaws}
use polliwog.Toy.Zstd as ToyZstd
use polliwog.Tests.Data.{full, six, zeros, data_bytes, squeezer, passes_gzip}

abbrev other : Build
other = record { has_zlib = true; has_zstd = true; zlib_api = other_toy; zstd_api = ToyZstd.toy }

abbrev other_squeezer : ZlibSqueezer other_toy
other_squeezer = record {
  stream = (other_toy.deflate_init2 zeroed (pos 6) (window_bits_for Format.gzip) 8).1;
}

other_squeezer-made : ZlibSqueezer.construct other_toy Format.gzip six ≡ some other_squeezer
unfolding ZlibSqueezer.construct other_toy ToyZlib.toy
other_squeezer-made = refl

other_room :
    (0 < bound other Format.gzip six 2) × (bound other Format.gzip six 2 ≤ length (zeros 40))
unfolding bound zeros ZlibFacade.bound other_toy ToyZlib.toy
other_room = (omega arith, omega arith)

abbrev passes_other : Passes other Format.gzip six data_bytes (zeros 40)
passes_other = record {
  family = refl;
  built = refl;
  in_range = λ h. omega (arith, h);
  nonzero = other_room.0;
  room = other_room.1;
  handle = other_squeezer;
  made = other_squeezer-made;
}

abbrev gzip_progress : Progress
gzip_progress = record { bytes_in = 2; bytes_out = 15; done = true }

-- The two libraries agree but for byte 9, where one writes 0 and the other 3.
differ :
    ((ZlibSqueezer.push other_toy other_squeezer data_bytes (zeros 40)).result
      ≡ value gzip_progress)
    × ((ZlibSqueezer.push other_toy other_squeezer data_bytes (zeros 40)).out
        ≡ set (ZlibSqueezer.push ToyZlib.toy (squeezer Format.gzip) data_bytes (zeros 40)).out 9 3)
unfolding zeros other_toy ToyZlib.toy ZlibSqueezer.push window_bits_for u32 sub64
    deflate_with-Accounts
differ = (refl, refl)

same_progress :
    (ZlibSqueezer.push ToyZlib.toy (squeezer Format.gzip) data_bytes (zeros 40)).result
    ≡ value gzip_progress
unfolding zeros ToyZlib.toy ZlibSqueezer.push window_bits_for u32 sub64
same_progress = refl

agree :
    (j : ℕ)
    → j ≢ 9
    → get_elem? (ZlibSqueezer.push ToyZlib.toy (squeezer Format.gzip) data_bytes (zeros 40)).out j
      ≡ get_elem? (ZlibSqueezer.push other_toy other_squeezer data_bytes (zeros 40)).out j
agree j ne =
    let plain = (ZlibSqueezer.push ToyZlib.toy (squeezer Format.gzip) data_bytes (zeros 40)).out in
    rw differ.1 (sym (get_elem?-set_ne plain 9 j 3 (λ q. ne (sym q))))

squeeze-gzip_deterministic_example :
    squeeze full Format.gzip six data_bytes (zeros 40)
    ≡ squeeze other Format.gzip six data_bytes (zeros 40)
squeeze-gzip_deterministic_example =
    squeeze-gzip_deterministic six data_bytes (zeros 40) full other toy-ZlibLaws other_toy-ZlibLaws
      passes_gzip passes_other gzip_progress same_progress differ.0 (omega arith) agree

squeeze-gzip_os_example :
    (s : Shot) × (squeeze other Format.gzip six data_bytes (zeros 40) ≡ some s)
    × (get_elem? s.out 9 ≡ some 0xff)
    × ((j : ℕ)
        → j ≢ 9
        → get_elem? s.out j
          ≡ get_elem? (ZlibSqueezer.push other_toy other_squeezer data_bytes (zeros 40)).out j)
squeeze-gzip_os_example =
    squeeze-gzip_os six data_bytes (zeros 40) other other_toy-ZlibLaws passes_other gzip_progress
      differ.0 (omega arith)
