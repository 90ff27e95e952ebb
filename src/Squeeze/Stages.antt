-- ===== src/Squeeze/Stages.antt =====
-- The stages of a one-shot call over the zlib backend: what passes the guards, what the constructors
-- leave, and what the patch of the OS byte does.
use polliwog.Base.{
  ℕ, ◌≤◌, ◌<◌, ◌≡◌, true, Bool-cases, inl, inr, List, [], ◌++◌, some, length, arith, set-append,
  leb,
}
use polliwog.Base.Words.{u64_mod}
use polliwog.Format.{Format, ZlibLevel}
use polliwog.Build.{Build}
use polliwog.Engine.Zlib.{ZlibApi, ZlibLaws}
use polliwog.Engine.ZlibCodec.{ZlibCodec}
use polliwog.Zlib.{window_bits_for, zeroed}
use polliwog.Zlib.Squeezer as ZlibSqueezer
use polliwog.Zlib.Squeezer.{ZlibSqueezer}
use polliwog.Zlib.Sweller as ZlibSweller
use polliwog.Zlib.Sweller.{ZlibSweller}
use polliwog.Zlib.Facade as ZlibFacade
use polliwog.Squeeze.{shot, patched, patch_os, bound, squeeze, swell}
use polliwog.Squeeze.Guards.{zlib_family, OutOfRange}
use polliwog.Zlib.Inits.{construct_inits, construct_sweller_inits}

-- A squeeze that the tests let through, with the handle that it makes: the format is one of zlib's,
-- zlib is compiled in, the level is in range, the bound is not 0 and the span is no shorter.
pub record Passes (B : Build) (f : Format) (lvl : ZlibLevel) (input out : List ℕ) : Type 0 where
  pub family : zlib_family f ≡ true
  pub built : B.has_zlib ≡ true
  pub in_range : ¬ OutOfRange lvl.as_int
  pub nonzero : 0 < bound B f lvl (length input)
  pub room : bound B f lvl (length input) ≤ length out
  pub handle : ZlibSqueezer B.zlib_api
  pub made : ZlibSqueezer.construct B.zlib_api f lvl ≡ some handle

-- A swell that reaches zlib, with the handle that it makes.
pub record Opens (B : Build) (f : Format) : Type 0 where
  pub family : zlib_family f ≡ true
  pub built : B.has_zlib ≡ true
  pub handle : ZlibSweller B.zlib_api
  pub made : ZlibSweller.construct B.zlib_api f ≡ some handle

-- The OS byte lies in the first part, or nothing is patched.
pub patch_os-append :
    (f : Format) (made rest : List ℕ)
    → patch_os f (length made) (made ++ rest) ≡ patch_os f (length made) made ++ rest
unfolding patch_os
patch_os-append f made rest = ground (arith, set-append made rest 9 0xff)

ten_of_leb : (n : ℕ) → leb 10 n ≡ true → 10 ≤ n
ten_of_leb n h = ground arith

module _ (Z : ZlibApi) (L : ZlibLaws Z) (K : ZlibCodec Z L) where
  -- A patched stream still encodes its data.
  pub patch_os-Encodes :
      (f : Format) (d made : List ℕ)
      → K.Encodes (window_bits_for f) d made
      → K.Encodes (window_bits_for f) d (patch_os f (length made) made)
  unfolding patch_os window_bits_for
  patch_os-Encodes Format.zlib d made p = p
  patch_os-Encodes Format.gzip d made p = elim (Bool-cases (leb 10 (length made))) [
    | inl long ↦ rw long (K.gzip_os_free d made 0xff p (ten_of_leb (length made) long))
    | inr short ↦ rw short p
  ]
  patch_os-Encodes Format.raw_deflate d made p = p
  patch_os-Encodes Format.zstd d made p = p
  patch_os-Encodes Format.lz4_frame d made p = p

  -- What the constructors leave.
  pub construct_starts :
      (f : Format) (lvl : ZlibLevel) (h : ZlibSqueezer Z)
      → ZlibSqueezer.construct Z f lvl ≡ some h
      → K.Deflating (window_bits_for f) h.stream.state [] []
  construct_starts f lvl h e =
      let r = construct_inits Z f lvl h e in
      rw r.1 (K.deflate_starts zeroed lvl.as_int (window_bits_for f) 8 r.0)

  pub construct_fresh :
      (f : Format) (h : ZlibSweller Z)
      → ZlibSweller.construct Z f ≡ some h
      → K.Fresh (window_bits_for f) h.stream.state
  construct_fresh f h e =
      let r = construct_sweller_inits Z f h e in
      rw r.1 (K.inflate_starts zeroed (window_bits_for f) r.0)

-- A squeeze that passes the tests is the patched push.
pub squeeze-push :
    (B : Build) (f : Format) (lvl : ZlibLevel) (input out : List ℕ) (p : Passes B f lvl input out)
    → squeeze B f lvl input out ≡ some (patched f (ZlibSqueezer.push B.zlib_api p.handle input out))
unfolding squeeze
squeeze-push B Format.zlib lvl input out p = ground arith
squeeze-push B Format.gzip lvl input out p = ground arith
squeeze-push B Format.raw_deflate lvl input out p = ground arith
squeeze-push B Format.zstd lvl input out p = cc p.family
squeeze-push B Format.lz4_frame lvl input out p = cc p.family

pub swell-push :
    (B : Build) (f : Format) (input out : List ℕ) (p : Opens B f)
    → swell B f input out ≡ some (shot (ZlibSweller.push B.zlib_api p.handle input out))
unfolding swell
swell-push B Format.zlib input out p = ground arith
swell-push B Format.gzip input out p = ground arith
swell-push B Format.raw_deflate input out p = ground arith
swell-push B Format.zstd input out p = cc p.family
swell-push B Format.lz4_frame input out p = cc p.family

-- The bound is at least what compressBound says.
pub compress_bound-le-bound :
    (B : Build) (f : Format) (lvl : ZlibLevel) (n : ℕ)
    → zlib_family f ≡ true
    → B.has_zlib ≡ true
    → B.zlib_api.compress_bound n < u64_mod
    → B.zlib_api.compress_bound n ≤ bound B f lvl n
unfolding bound ZlibFacade.bound
compress_bound-le-bound B Format.zlib lvl n family built word = ground arith
compress_bound-le-bound B Format.gzip lvl n family built word = ground arith
compress_bound-le-bound B Format.raw_deflate lvl n family built word = ground arith
compress_bound-le-bound B Format.zstd lvl n family built word = cc
compress_bound-le-bound B Format.lz4_frame lvl n family built word = cc
