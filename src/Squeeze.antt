-- ===== src/Squeeze.antt =====
-- include/polliwog/squeeze.hpp and src/squeeze.cpp: one-shot compress and decompress.
-- A call gives the bytes of the caller's output span after it and the returned `std::expected`;
-- `none` is an assertion that failed in a backend's constructor.
pub mod Guards
pub mod Spans
pub mod Stages
pub mod Gzip
pub mod ZstdRoundtrip
pub mod Roundtrip
pub mod Widths
pub mod Fitting
pub mod Swelling
pub mod Short
use polliwog.Base.{
  ℕ, List, Option, some, Bool, ◌||◌, ◌&&◌, ltb, leb, ◌==◌, if◌then◌else◌, length, set, map_some,
}
use polliwog.Base.Int.{pos, ltb_ℤ}
use polliwog.Error.{Error, Kind, BackendId, Expected, value, unexpected}
use polliwog.Format.{Format, ZlibLevel}
use polliwog.Format.ZlibAnchors
use polliwog.Format.ZstdAnchors
use polliwog.Backend.{Call}
use polliwog.Build.{Build}
use polliwog.Zlib.Squeezer as ZlibSqueezer
use polliwog.Zlib.Sweller as ZlibSweller
use polliwog.Zlib.Facade as ZlibFacade
use polliwog.Zstd.Squeezer as ZstdSqueezer
use polliwog.Zstd.Sweller as ZstdSweller
use polliwog.Zstd.Facade as ZstdFacade

-- struct squeeze_result
pub record SqueezeResult : Type 0 where
  pub bytes_written : ℕ

pub record Shot : Type 0 where
  pub out : List ℕ
  pub result : Expected SqueezeResult

-- std::unexpected(error{kind, backend, 0, ""}), with the span as it was
abbrev pub refuse : Kind → BackendId → List ℕ → Shot
refuse k b out = record {
  out = out;
  result = unexpected (record { k = k; b = b; pos = 0; note = "" });
}

abbrev pub mismatch : List ℕ → Shot
mismatch = refuse Kind.format_mismatch BackendId.none

-- What is returned from the backend's push; `done` is not read.
abbrev pub shot : {H : Type 0} → Call H → Shot
shot c = record {
  out = c.out;
  result = elim c.result [
    | value p ↦ value (record { bytes_written = p.bytes_out })
    | unexpected e ↦ unexpected e
  ];
}

-- v < 0 || v > 9
unfoldable pub level_outside : ZlibLevel → Bool
level_outside lvl = ltb_ℤ lvl.as_int (pos 0) || ltb_ℤ (pos 9) lvl.as_int

abbrev pub is_gzip : Format → Bool
is_gzip Format.gzip = Bool.true
is_gzip _ = Bool.false

-- The OS byte of a gzip header, at offset 9, becomes 0xff (unknown).
unfoldable pub patch_os : Format → ℕ → List ℕ → List ℕ
patch_os f bytes_out out = if is_gzip f && leb 10 bytes_out then set out 9 0xff else out

abbrev patched : {H : Type 0} → Format → Call H → Shot
patched f c = record {
  out = elim c.result [ value p ↦ patch_os f p.bytes_out c.out | unexpected e ↦ c.out ];
  result = (shot c).result;
}

-- The tests on the bound: the format has no backend, or the span is too small.
unfoldable pub with_room : ℕ → List ℕ → Option Shot → Option Shot
with_room cap out go =
    if cap == 0
    then some (mismatch out)
    else if ltb (length out) cap
    then some (refuse Kind.buffer_too_small BackendId.none out)
    else go

module _ (B : Build) where
  bound_zlib : ZlibLevel → ℕ → ℕ
  bound_zlib lvl in_size = if B.has_zlib then ZlibFacade.bound B.zlib_api lvl in_size else 0

  bound_zstd : ℕ → ℕ
  bound_zstd in_size =
      if B.has_zstd then ZstdFacade.bound B.zstd_api ZstdAnchors.default_level in_size else 0

  unfoldable pub bound : Format → ZlibLevel → ℕ → ℕ
  unfolding bound_zlib bound_zstd
  bound Format.zlib lvl in_size = bound_zlib lvl in_size
  bound Format.gzip lvl in_size = bound_zlib lvl in_size
  bound Format.raw_deflate lvl in_size = bound_zlib lvl in_size
  bound Format.zstd lvl in_size = bound_zstd in_size
  bound Format.lz4_frame lvl in_size = 0

  -- The case of zlib, gzip and raw_deflate.
  unfoldable pub squeeze_zlib : Format → ZlibLevel → List ℕ → List ℕ → Option Shot
  unfolding bound with_room level_outside
  squeeze_zlib f lvl input out =
      if B.has_zlib
      then if level_outside lvl
        then some (refuse Kind.level_unsupported BackendId.zlib out)
        else with_room (bound f lvl (length input)) out (
            map_some (ZlibSqueezer.construct B.zlib_api f lvl)
              (λ h. patched f (ZlibSqueezer.push B.zlib_api h input out)))
      else some (mismatch out)

  -- The case of zstd.
  unfoldable pub squeeze_zstd : ZlibLevel → List ℕ → List ℕ → Option Shot
  unfolding bound with_room
  squeeze_zstd lvl input out =
      if B.has_zstd
      then with_room (bound Format.zstd ZlibAnchors.default_level (length input)) out (
          map_some (ZstdSqueezer.construct B.zstd_api Format.zstd (record { as_int = lvl.as_int }))
            (λ h. shot (ZstdSqueezer.push B.zstd_api h input out)))
      else some (mismatch out)

  unfoldable pub squeeze : Format → ZlibLevel → List ℕ → List ℕ → Option Shot
  unfolding squeeze_zlib squeeze_zstd
  squeeze Format.zlib lvl input out = squeeze_zlib Format.zlib lvl input out
  squeeze Format.gzip lvl input out = squeeze_zlib Format.gzip lvl input out
  squeeze Format.raw_deflate lvl input out = squeeze_zlib Format.raw_deflate lvl input out
  squeeze Format.zstd lvl input out = squeeze_zstd lvl input out
  squeeze Format.lz4_frame lvl input out = some (mismatch out)

  -- The case of zlib, gzip and raw_deflate.
  unfoldable pub swell_zlib : Format → List ℕ → List ℕ → Option Shot
  swell_zlib f input out =
      if B.has_zlib
      then map_some (ZlibSweller.construct B.zlib_api f)
          (λ h. shot (ZlibSweller.push B.zlib_api h input out))
      else some (mismatch out)

  -- The case of zstd.
  unfoldable pub swell_zstd : List ℕ → List ℕ → Option Shot
  swell_zstd input out =
      if B.has_zstd
      then map_some (ZstdSweller.construct B.zstd_api Format.zstd)
          (λ h. shot (ZstdSweller.push B.zstd_api h input out))
      else some (mismatch out)

  unfoldable pub swell : Format → List ℕ → List ℕ → Option Shot
  unfolding swell_zlib swell_zstd
  swell Format.zlib input out = swell_zlib Format.zlib input out
  swell Format.gzip input out = swell_zlib Format.gzip input out
  swell Format.raw_deflate input out = swell_zlib Format.raw_deflate input out
  swell Format.zstd input out = swell_zstd input out
  swell Format.lz4_frame input out = some (mismatch out)
