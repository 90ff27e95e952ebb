-- ===== src/Stream/Served.antt =====
-- Which backend serves what the compressor's constructor makes.
use polliwog.Base.{
  Every, ◌≡◌, refl, ap, subst, Bool, true, false, Option, none, some, map_some, ◌&&◌, if◌then◌else◌,
}
use polliwog.Error.{BackendId}
use polliwog.Format.{Format, ZlibLevel}
use polliwog.Backend.Contract.{Returns}
use polliwog.Build.{Build}
use polliwog.Engine.Zlib.{ZlibLaws}
use polliwog.Engine.Zstd.{ZstdLaws}
use polliwog.Zlib.Contract.{IsCounted}
use polliwog.Zlib.Squeezer as ZlibSqueezer
use polliwog.Zlib.Squeezer.{ZlibSqueezer}
use polliwog.Zstd.Squeezer as ZstdSqueezer
use polliwog.Zstd.Squeezer.{ZstdSqueezer}
use polliwog.Zlib.Inits.{construct-IsCounted}
use polliwog.Squeeze.{level_outside}
use polliwog.Stream.{Made, SqueezerVariant, make_squeezer, squeezer_zlib, squeezer_zstd}
use polliwog.Stream.Compressor
use polliwog.Stream.Compressor.{Compressor}
use polliwog.Stream.Visits.{IsSound, backend_of}
use polliwog.Stream.Answers.{IsLive}

-- Which backend serves a format in a build: `none` where it is a stub.
unfoldable pub server : Build → Format → BackendId
server B Format.zstd = if B.has_zstd then BackendId.zstd else BackendId.none
server B f = if B.has_zlib then BackendId.zlib else BackendId.none

module _ (B : Build) (L : ZlibLaws B.zlib_api) (M : ZstdLaws B.zstd_api) where
  -- What a factory makes is served by the backend of its format, or is a stub.
  abbrev pub Served : BackendId → SqueezerVariant B → Type 0
  Served id v = (backend_of v ≡ id) × IsSound v

  zlib-Served :
      (b : Bool) (o : Option (ZlibSqueezer B.zlib_api))
      → ((h : ZlibSqueezer B.zlib_api) → o ≡ some h → IsCounted h.stream)
      → Every
          (if b then map_some o SqueezerVariant.zlib else some SqueezerVariant.zlib_stub)
          (Served (if b then BackendId.zlib else BackendId.none))
  zlib-Served true none counted = tt
  zlib-Served true (some h) counted = (refl, counted h refl)
  zlib-Served false o counted = (refl, tt)

  zstd-Served :
      (b : Bool) (o : Option (ZstdSqueezer B.zstd_api))
      → Every
          (if b then map_some o SqueezerVariant.zstd else some SqueezerVariant.zstd_stub)
          (Served (if b then BackendId.zstd else BackendId.none))
  zstd-Served true none = tt
  zstd-Served true (some h) = (refl, tt)
  zstd-Served false o = (refl, tt)

  squeezer_zlib-Served :
      (f : Format) (lvl : ZlibLevel)
      → Every
          (squeezer_zlib B f lvl)
          (Served (if B.has_zlib then BackendId.zlib else BackendId.none))
  unfolding squeezer_zlib
  squeezer_zlib-Served f lvl =
      zlib-Served B.has_zlib (ZlibSqueezer.construct B.zlib_api f lvl)
        (construct-IsCounted B.zlib_api L f lvl)

  make_squeezer-Served :
      (f : Format) (lvl : ZlibLevel) → Every (make_squeezer B f lvl) (Served (server B f))
  unfolding make_squeezer squeezer_zstd server
  make_squeezer-Served Format.zlib lvl = squeezer_zlib-Served Format.zlib lvl
  make_squeezer-Served Format.gzip lvl = squeezer_zlib-Served Format.gzip lvl
  make_squeezer-Served Format.raw_deflate lvl = squeezer_zlib-Served Format.raw_deflate lvl
  make_squeezer-Served Format.lz4_frame lvl = squeezer_zlib-Served Format.lz4_frame lvl
  make_squeezer-Served Format.zstd lvl =
      zstd-Served B.has_zstd
        (ZstdSqueezer.construct B.zstd_api Format.zstd (record { as_int = lvl.as_int }))

  -- What the object that was made holds.
  abbrev held : Option (Made (Compressor B)) → Option (SqueezerVariant B)
  held none = none
  held (some (Made.thrown why)) = none
  held (some (Made.made s)) = s.p

  made_value :
      (o : Option (SqueezerVariant B)) (id : BackendId) (s : Compressor B)
      → Every o (Served id)
      → map_some o (λ v. Made.made (Compressor.holding B v)) ≡ some (Made.made s)
      → IsLive id s
  made_value none id s k e = absurd (cc e)
  made_value (some v) id s k e = subst (λ o. Returns o (Served id)) (ap held e) k

  pub construct-IsLive :
      (f : Format) (lvl : ZlibLevel) (s : Compressor B)
      → Compressor.construct B f lvl ≡ some (Made.made s)
      → IsLive (server B f) s
  unfolding Compressor.construct
  construct-IsLive f lvl s e = go (Compressor.not_zstd f && level_outside lvl) e
    where
      go :
          (refused : Bool)
          → (if refused
              then some (Made.thrown "level_unsupported: zlib levels are 0-9")
              else map_some (make_squeezer B f lvl) (λ v. Made.made (Compressor.holding B v)))
            ≡ some (Made.made s)
          → IsLive (server B f) s
      go true e = absurd (cc e)
      go false e = made_value (make_squeezer B f lvl) (server B f) s (make_squeezer-Served f lvl) e
