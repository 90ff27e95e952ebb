-- ===== src/Tests/Data.antt =====
-- The builds, levels, spans and handles of the tests.
use polliwog.Base.{
  ℕ, zero, suc, length, ◌<◌, ◌≤◌, ◌≡◌, refl, true, false, List, [], ◌∷◌, ◌++◌, some, arith,
}
use polliwog.Base.Int.{pos}
use polliwog.Error.{value}
use polliwog.Format.{Format, ZlibLevel}
use polliwog.Build.{Build}
use polliwog.Base.Words.{u32, sub64}
use polliwog.Zlib.{zeroed, window_bits_for}
use polliwog.Zlib.Squeezer as ZlibSqueezer
use polliwog.Zlib.Squeezer.{ZlibSqueezer}
use polliwog.Zlib.Sweller as ZlibSweller
use polliwog.Zlib.Sweller.{ZlibSweller}
use polliwog.Zlib.Facade as ZlibFacade
use polliwog.Squeeze.{Shot, bound, squeeze, swell, with_room, level_outside, patch_os}
use polliwog.Squeeze.Stages.{Passes, Opens}
use polliwog.Squeeze.ZstdRoundtrip
use polliwog.Zstd.Squeezer as ZstdSqueezer
use polliwog.Zstd.Squeezer.{ZstdSqueezer}
use polliwog.Zstd.Sweller as ZstdSweller
use polliwog.Zstd.Sweller.{ZstdSweller}
use polliwog.Zstd.Facade as ZstdFacade
use polliwog.Toy.Zlib as ToyZlib
use polliwog.Toy.Zstd as ToyZstd

-- Both backends, neither, and zlib alone.
abbrev pub full : Build
full = record { has_zlib = true; has_zstd = true; zlib_api = ToyZlib.toy; zstd_api = ToyZstd.toy }

abbrev pub bare : Build
bare = record { has_zlib = false; has_zstd = false; zlib_api = ToyZlib.toy; zstd_api = ToyZstd.toy }

abbrev pub six : ZlibLevel
six = record { as_int = pos 6 }

abbrev pub ten : ZlibLevel
ten = record { as_int = pos 10 }

unfoldable pub zeros : ℕ → List ℕ
zeros zero = []
zeros (suc n) = 0 ∷ zeros n

abbrev pub data_bytes : List ℕ
data_bytes = 7 ∷ 8 ∷ []

-- A new zlib squeezer of the small zlib, and a new sweller.
abbrev pub squeezer : Format → ZlibSqueezer ToyZlib.toy
squeezer f = record { stream = (ToyZlib.toy.deflate_init2 zeroed (pos 6) (window_bits_for f) 8).1 }

abbrev pub sweller : Format → ZlibSweller ToyZlib.toy
sweller f = record { stream = (ToyZlib.toy.inflate_init2 zeroed (window_bits_for f)).1 }

pub squeezer-made : (f : Format) → ZlibSqueezer.construct ToyZlib.toy f six ≡ some (squeezer f)
unfolding ZlibSqueezer.construct ToyZlib.toy
squeezer-made f = refl

pub sweller-made : (f : Format) → ZlibSweller.construct ToyZlib.toy f ≡ some (sweller f)
unfolding ZlibSweller.construct ToyZlib.toy
sweller-made f = refl

pub gzip_room :
    (0 < bound full Format.gzip six 2) × (bound full Format.gzip six 2 ≤ length (zeros 40))
unfolding bound zeros ZlibFacade.bound ToyZlib.toy
gzip_room = (omega arith, omega arith)

abbrev pub passes_gzip : Passes full Format.gzip six data_bytes (zeros 40)
passes_gzip = record {
  family = refl;
  built = refl;
  in_range = λ h. omega (arith, h);
  nonzero = gzip_room.0;
  room = gzip_room.1;
  handle = squeezer Format.gzip;
  made = squeezer-made Format.gzip;
}

abbrev pub opens_gzip : Opens full Format.gzip
opens_gzip = record {
  family = refl;
  built = refl;
  handle = sweller Format.gzip;
  made = sweller-made Format.gzip;
}

-- What the small zlib makes of the two bytes, with the OS byte patched, and what swell reads.
abbrev pub gzip_bytes : List ℕ
gzip_bytes = 0 ∷ 0 ∷ 0 ∷ 0 ∷ 0 ∷ 0 ∷ 0 ∷ 0 ∷ 0 ∷ 255 ∷ 1 ∷ 7 ∷ 1 ∷ 8 ∷ 0 ∷ []

abbrev pub gzip_shot : Shot
gzip_shot = record { out = gzip_bytes ++ zeros 25; result = value (record { bytes_written = 15 }) }

pub squeeze-gzip_shot : squeeze full Format.gzip six data_bytes (zeros 40) ≡ some gzip_shot
unfolding squeeze bound with_room level_outside patch_os ZlibSqueezer.construct ZlibSqueezer.push
    ZlibFacade.bound zeros ToyZlib.toy u32 window_bits_for sub64
squeeze-gzip_shot = refl

abbrev pub plain_shot : Shot
plain_shot = record { out = data_bytes ++ zeros 3; result = value (record { bytes_written = 2 }) }

pub swell-plain_shot : swell full Format.gzip gzip_bytes (zeros 5) ≡ some plain_shot
unfolding swell ZlibSweller.construct ZlibSweller.push zeros ToyZlib.toy window_bits_for u32 sub64
swell-plain_shot = refl

-- zstd, over the small zstd.
pub zstd_bounds :
    (ToyZstd.toy.is_error (ToyZstd.toy.compress_bound 2) ≡ false)
    × (0 < bound full Format.zstd six 2)
    × (bound full Format.zstd six 2 ≤ length (zeros 8))
unfolding bound zeros ZstdFacade.bound ToyZstd.toy
zstd_bounds = (refl, omega arith, omega arith)

abbrev pub zstd_squeezer : ZstdSqueezer ToyZstd.toy
unfolding ToyZstd.toy
zstd_squeezer = record {
  ctx = record { pending = []; closed = false };
  fmt = Format.zstd;
  level = pos 6;
}

pub zstd_squeezer-made :
    ZstdSqueezer.construct ToyZstd.toy Format.zstd (record { as_int = pos 6 }) ≡ some zstd_squeezer
unfolding ToyZstd.toy ZstdSqueezer.construct zstd_squeezer
zstd_squeezer-made = refl

abbrev pub zstd_sweller : ZstdSweller ToyZstd.toy
unfolding ToyZstd.toy
zstd_sweller = record { ctx = false; fmt = Format.zstd }

pub zstd_sweller-made : ZstdSweller.construct ToyZstd.toy Format.zstd ≡ some zstd_sweller
unfolding ToyZstd.toy ZstdSweller.construct zstd_sweller
zstd_sweller-made = refl

abbrev pub passes_zstd : ZstdRoundtrip.Passes full six data_bytes (zeros 8)
passes_zstd = record {
  built = refl;
  bounded = zstd_bounds.0;
  nonzero = zstd_bounds.1;
  room = zstd_bounds.2;
  handle = zstd_squeezer;
  made = zstd_squeezer-made;
}

abbrev pub opens_zstd : ZstdRoundtrip.Opens full
opens_zstd = record { built = refl; handle = zstd_sweller; made = zstd_sweller-made }
