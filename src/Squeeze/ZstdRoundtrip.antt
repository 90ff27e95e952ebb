-- ===== src/Squeeze/ZstdRoundtrip.antt =====
-- swell after squeeze, over the zstd backend.
use polliwog.Base.{
  ℕ, ◌^◌, ◌≤◌, ◌<◌, ◌≡◌, refl, sym, subst, true, false, List, Option, some, length, take, arith,
  take-all,
}
use polliwog.Error.{value}
use polliwog.Format.{Format, ZlibLevel}
use polliwog.Build.{Build}
use polliwog.Engine.Zstd.{ZstdLaws}
use polliwog.Engine.ZstdCodec.{ZstdCodec}
use polliwog.Zstd.Squeezer as ZstdSqueezer
use polliwog.Zstd.Squeezer.{ZstdSqueezer}
use polliwog.Zstd.Sweller as ZstdSweller
use polliwog.Zstd.Sweller.{ZstdSweller}
use polliwog.Zstd.Facade as ZstdFacade
use polliwog.Squeeze.{Shot, shot, bound, squeeze, swell}

-- A squeeze that the tests let through, with the handle that it makes: zstd is compiled in, it has a
-- bound for the input, which is not 0, and the span is no shorter.
pub record Passes (B : Build) (lvl : ZlibLevel) (input out : List ℕ) : Type 0 where
  pub built : B.has_zstd ≡ true
  pub bounded : B.zstd_api.is_error (B.zstd_api.compress_bound (length input)) ≡ false
  pub nonzero : 0 < bound B Format.zstd lvl (length input)
  pub room : bound B Format.zstd lvl (length input) ≤ length out
  pub handle : ZstdSqueezer B.zstd_api
  pub made :
      ZstdSqueezer.construct B.zstd_api Format.zstd (record { as_int = lvl.as_int }) ≡ some handle

-- A swell that reaches zstd, with the handle that it makes.
pub record Opens (B : Build) : Type 0 where
  pub built : B.has_zstd ≡ true
  pub handle : ZstdSweller B.zstd_api
  pub made : ZstdSweller.construct B.zstd_api Format.zstd ≡ some handle

-- A swell that succeeds and gives the data: it reports the data's length, keeps the length of the span, and
-- the data is at the front of the span.
abbrev pub Swollen : Option Shot → List ℕ → List ℕ → Type 0
Swollen o d dec =
    (s : Shot) × (o ≡ some s)
    × (s.result ≡ value (record { bytes_written = length d }))
    × (length s.out ≡ length dec)
    × (take (length d) s.out ≡ d)

squeeze-push :
    (B : Build) (lvl : ZlibLevel) (input out : List ℕ) (p : Passes B lvl input out)
    → squeeze B Format.zstd lvl input out
      ≡ some (shot (ZstdSqueezer.push B.zstd_api p.handle input out))
unfolding squeeze bound
squeeze-push B lvl input out p = ground arith

swell-push :
    (B : Build) (input out : List ℕ) (p : Opens B)
    → swell B Format.zstd input out ≡ some (shot (ZstdSweller.push B.zstd_api p.handle input out))
unfolding swell
swell-push B input out p = ground arith

compress_bound-le :
    (B : Build) (lvl : ZlibLevel) (input out : List ℕ)
    → Passes B lvl input out
    → B.zstd_api.compress_bound (length input) ≤ length out
unfolding bound ZstdFacade.bound
compress_bound-le B lvl input out p = ground (arith, p.built, p.bounded, p.room)

module _ (B : Build) (L : ZstdLaws B.zstd_api) (K : ZstdCodec B.zstd_api L) where
  squeeze-Encodes :
      (lvl : ZlibLevel) (input out : List ℕ)
      → Passes B lvl input out
      → (s : Shot) × (e : List ℕ) × (squeeze B Format.zstd lvl input out ≡ some s)
        × (s.result ≡ value (record { bytes_written = length e }))
        × (take (length e) s.out ≡ e)
        × K.Encodes input e
  unfolding ZstdSqueezer.push
  squeeze-Encodes lvl input out p =
      let n = length input in
      let cap = length out in
      let level = p.handle.level in
      let sound =
        K.compress_fits out cap input n level (omega arith) (omega arith)
          (compress_bound-le B lvl input out p) p.bounded in
      let a = L.compress_accounts out cap input n level (omega arith) (omega arith) in
      let enc = K.compress_whole out cap input n level (omega arith) (omega arith) sound in
      (
        _,
        a.made,
        squeeze-push B lvl input out p,
        rw (sound, a.ret_counts sound) refl,
        a.written,
        subst (λ d. K.Encodes d a.made) (take-all n input (omega arith)) enc,
      )

  -- A swell of a complete frame into a span with room for its data.
  pub swell-whole :
      (d e dec : List ℕ)
      → Opens B
      → K.Encodes d e
      → length d ≤ length dec
      → length d < 2 ^ 63
      → Swollen (swell B Format.zstd e dec) d dec
  unfolding ZstdSweller.push
  swell-whole d e dec p enc room word =
      let whole =
        K.decompress_whole dec (length dec) e (length e) d (omega arith) (omega arith)
          (subst (λ t. K.Encodes d t) (sym (take-all (length e) e (omega arith))) enc) room word in
      let a = L.decompress_accounts dec (length dec) e (length e) (omega arith) (omega arith) in
      (
        _,
        swell-push B e dec p,
        rw (whole.0, a.ret_counts whole.0, whole.1) refl,
        a.memory_length,
        subst
            (λ t. take (length t) (B.zstd_api.decompress dec (length dec) e (length e)).memory ≡ t)
            whole.1 a.written,
      )

  -- Round trip over zstd: a squeeze that passes its tests succeeds at any level, and swell of exactly
  -- the bytes that it reports, into a span with room for the input, succeeds, reports the input's length and
  -- has the input at the front of the span, whose length stays. The input is shorter than 2^63 bytes.
  pub swell-squeeze_zstd :
      (lvl : ZlibLevel) (input out dec : List ℕ)
      → Passes B lvl input out
      → Opens B
      → length input ≤ length dec
      → length input < 2 ^ 63
      → (s : Shot) × (n : ℕ) × (squeeze B Format.zstd lvl input out ≡ some s)
        × (s.result ≡ value (record { bytes_written = n }))
        × Swollen (swell B Format.zstd (take n s.out) dec) input dec
  swell-squeeze_zstd lvl input out dec p q room word =
      let c = squeeze-Encodes lvl input out p in
      (c.0, length c.1, c.2, c.3, rw c.4 (swell-whole input c.1 dec q c.5 room word))
