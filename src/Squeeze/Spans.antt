-- ===== src/Squeeze/Spans.antt =====
-- The output span of a one-shot call: its length stays, and over zlib nothing past the reported bytes changes.
use polliwog.Base.{
  Every, ℕ, ◌≤◌, ◌≡◌, refl, ◌∙◌, subst, Bool, ltb, ◌==◌, if◌then◌else◌, true, false, List, Option,
  some, none, map_some, length, drop, arith, length-set, drop-set,
}
use polliwog.Error.{BackendId, Expected, value, unexpected}
use polliwog.Format.{Format, ZlibLevel}
use polliwog.Format.ZlibAnchors
use polliwog.Backend.{Progress, Call}
use polliwog.Backend.Contract.{Keeps, Reports, Untouched}
use polliwog.Build.{Build}
use polliwog.Engine.Zlib.{ZlibLaws}
use polliwog.Engine.Zstd.{ZstdLaws}
use polliwog.Zlib.Squeezer as ZlibSqueezer
use polliwog.Zlib.Squeezer.{ZlibSqueezer}
use polliwog.Zlib.Sweller as ZlibSweller
use polliwog.Zlib.Sweller.{ZlibSweller}
use polliwog.Zlib.Contract as ZlibContract
use polliwog.Zlib.Contract.{IsCounted}
use polliwog.Zstd.Squeezer as ZstdSqueezer
use polliwog.Zstd.Sweller as ZstdSweller
use polliwog.Zstd.Contract as ZstdContract
use polliwog.Zlib.Inits.{construct-IsCounted, construct_sweller-IsCounted}
use polliwog.Squeeze.{
  Shot, shot, patch_os, patched, level_outside, bound, with_room, squeeze_zlib, squeeze_zstd,
  squeeze, swell_zlib, swell_zstd, swell,
}

-- The backend that a format's calls go to.
abbrev pub called : Format → BackendId
called Format.zstd = BackendId.zstd
called _ = BackendId.zlib

abbrev Fits : BackendId → List ℕ → Shot → Type 0
Fits id out s = elim s.result [
  | value r ↦ (r.bytes_written ≤ length out) × Untouched id r.bytes_written s.out out
  | unexpected e ↦ Unit {0}
]

-- The span keeps its length, a success reports no more bytes than it has, and over zlib its bytes past
-- those are as they were.
abbrev pub Spanned : BackendId → List ℕ → Shot → Type 0
Spanned id out s = (length s.out ≡ length out) × Fits id out s

pub length-patch_os : (f : Format) (n : ℕ) (out : List ℕ) → length (patch_os f n out) ≡ length out
unfolding patch_os
length-patch_os f n out = ground (arith, length-set out 9 0xff)

drop-patch_os : (f : Format) (n : ℕ) (out : List ℕ) → drop n (patch_os f n out) ≡ drop n out
unfolding patch_os
drop-patch_os f n out = ground (arith, drop-set out n 9 0xff)

module _ {H : Type 0} (id : BackendId) (input out : List ℕ) (c : Call H) where
  shot-Spanned : Keeps id input out c → Spanned id out (shot c)
  shot-Spanned k = (k.0, go c.result k.1)
    where
      go :
          (r : Expected Progress)
          → Reports id input out c.out r
          → Fits id out (record {
            out = c.out;
            result = elim r [
              | value p ↦ value (record { bytes_written = p.bytes_out })
              | unexpected e ↦ unexpected e
            ];
          })
      go (value p) b = (b.1, b.2)
      go (unexpected e) b = tt

module _ {H : Type 0} (input out : List ℕ) (c : Call H) where
  patched-Spanned :
      (f : Format) → Keeps BackendId.zlib input out c → Spanned BackendId.zlib out (patched f c)
  patched-Spanned f k = go c.result k.1
    where
      go :
          (r : Expected Progress)
          → Reports BackendId.zlib input out c.out r
          → Spanned BackendId.zlib out (record {
            out = elim r [ value p ↦ patch_os f p.bytes_out c.out | unexpected e ↦ c.out ];
            result = elim r [
              | value p ↦ value (record { bytes_written = p.bytes_out })
              | unexpected e ↦ unexpected e
            ];
          })
      go (value p) b = (
        length-patch_os f p.bytes_out c.out ∙ k.0,
        (b.1, drop-patch_os f p.bytes_out c.out ∙ b.2),
      )
      go (unexpected e) b = (k.0, tt)

Every-eq : (P : Shot → Type 0) (o : Option Shot) (s : Shot) → Every o P → o ≡ some s → P s
Every-eq P o s k e = subst (λ o. Every o P) e k

Every-map_some :
    {H : Type 0} (P : Shot → Type 0) (o : Option H) (k : H → Shot)
    → ((h : H) → o ≡ some h → P (k h))
    → Every (map_some o k) P
Every-map_some P none k each = tt
Every-map_some P (some h) k each = each h refl

Every-if :
    (P : Shot → Type 0) (b : Bool) (x y : Option Shot)
    → Every x P
    → Every y P
    → Every (if b then x else y) P
Every-if P true x y p q = p
Every-if P false x y p q = q

module _ (input out : List ℕ) where
  with_room-Spanned :
      (id : BackendId) (bytes : ℕ) (go : Option Shot)
      → Every go (Spanned id out)
      → Every (with_room bytes out go) (Spanned id out)
  unfolding with_room
  with_room-Spanned id bytes go k =
      Every-if (Spanned id out) (bytes == 0) _ _ (refl, tt)
        (Every-if (Spanned id out) (ltb (length out) bytes) _ _ (refl, tt) k)

  module _ (B : Build) (L : ZlibLaws B.zlib_api) where
    squeeze_zlib-Spanned :
        (f : Format) (lvl : ZlibLevel)
        → Every (squeeze_zlib B f lvl input out) (Spanned BackendId.zlib out)
    unfolding squeeze_zlib
    squeeze_zlib-Spanned f lvl =
        Every-if (Spanned BackendId.zlib out) B.has_zlib _ _
          (Every-if (Spanned BackendId.zlib out) (level_outside lvl) _ _ (refl, tt)
            (with_room-Spanned BackendId.zlib (bound B f lvl (length input)) _ (
              Every-map_some (Spanned BackendId.zlib out) (ZlibSqueezer.construct B.zlib_api f lvl)
                _
                λ h e.
                  patched-Spanned input out (ZlibSqueezer.push B.zlib_api h input out) f
                    (ZlibContract.push-Keeps B.zlib_api L h input out
                      (construct-IsCounted B.zlib_api L f lvl h e)).0)))
          (refl, tt)

    swell_zlib-Spanned :
        (f : Format) → Every (swell_zlib B f input out) (Spanned BackendId.zlib out)
    unfolding swell_zlib
    swell_zlib-Spanned f =
        Every-if (Spanned BackendId.zlib out) B.has_zlib _ _
          (Every-map_some (Spanned BackendId.zlib out) (ZlibSweller.construct B.zlib_api f) _ λ h e.
            shot-Spanned BackendId.zlib input out (ZlibSweller.push B.zlib_api h input out)
              (ZlibContract.swell-Keeps B.zlib_api L h input out
                (construct_sweller-IsCounted B.zlib_api L f h e)).0)
          (refl, tt)

  module _ (B : Build) (L : ZstdLaws B.zstd_api) where
    squeeze_zstd-Spanned :
        (lvl : ZlibLevel) → Every (squeeze_zstd B lvl input out) (Spanned BackendId.zstd out)
    unfolding squeeze_zstd
    squeeze_zstd-Spanned lvl =
        Every-if (Spanned BackendId.zstd out) B.has_zstd _ _
          (with_room-Spanned BackendId.zstd
            (bound B Format.zstd ZlibAnchors.default_level (length input)) _
            (Every-map_some (Spanned BackendId.zstd out)
              (ZstdSqueezer.construct B.zstd_api Format.zstd (record { as_int = lvl.as_int })) _
              λ h e.
                shot-Spanned BackendId.zstd input out (ZstdSqueezer.push B.zstd_api h input out)
                  (ZstdContract.push-Keeps B.zstd_api L h input out)))
          (refl, tt)

    swell_zstd-Spanned : Every (swell_zstd B input out) (Spanned BackendId.zstd out)
    unfolding swell_zstd
    swell_zstd-Spanned =
        Every-if (Spanned BackendId.zstd out) B.has_zstd _ _
          (Every-map_some (Spanned BackendId.zstd out)
            (ZstdSweller.construct B.zstd_api Format.zstd) _
            λ h e.
              shot-Spanned BackendId.zstd input out (ZstdSweller.push B.zstd_api h input out)
                (ZstdContract.swell-Keeps B.zstd_api L h input out))
          (refl, tt)

  module _ (B : Build) (L : ZlibLaws B.zlib_api) (M : ZstdLaws B.zstd_api) where
    squeeze-Every :
        (f : Format) (lvl : ZlibLevel) → Every (squeeze B f lvl input out) (Spanned (called f) out)
    unfolding squeeze
    squeeze-Every Format.zlib lvl = squeeze_zlib-Spanned B L Format.zlib lvl
    squeeze-Every Format.gzip lvl = squeeze_zlib-Spanned B L Format.gzip lvl
    squeeze-Every Format.raw_deflate lvl = squeeze_zlib-Spanned B L Format.raw_deflate lvl
    squeeze-Every Format.zstd lvl = squeeze_zstd-Spanned B M lvl
    squeeze-Every Format.lz4_frame lvl = (refl, tt)

    swell-Every : (f : Format) → Every (swell B f input out) (Spanned (called f) out)
    unfolding swell
    swell-Every Format.zlib = swell_zlib-Spanned B L Format.zlib
    swell-Every Format.gzip = swell_zlib-Spanned B L Format.gzip
    swell-Every Format.raw_deflate = swell_zlib-Spanned B L Format.raw_deflate
    swell-Every Format.zstd = swell_zstd-Spanned B M
    swell-Every Format.lz4_frame = (refl, tt)

    -- squeeze, in every build and for every format, leaves the span's length alone; if it succeeds it
    -- reports no more bytes than the span has, and unless the format is zstd the bytes past those are as
    -- they were.
    pub squeeze-Spanned :
        (f : Format) (lvl : ZlibLevel) (s : Shot)
        → squeeze B f lvl input out ≡ some s
        → Spanned (called f) out s
    squeeze-Spanned f lvl s = Every-eq (Spanned (called f) out) _ s (squeeze-Every f lvl)

    -- swell, in every build and for every format, leaves the span's length alone; if it succeeds it
    -- reports no more bytes than the span has, and unless the format is zstd the bytes past those are as
    -- they were.
    pub swell-Spanned :
        (f : Format) (s : Shot) → swell B f input out ≡ some s → Spanned (called f) out s
    swell-Spanned f s = Every-eq (Spanned (called f) out) _ s (swell-Every f)
