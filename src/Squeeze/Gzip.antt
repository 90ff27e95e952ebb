-- ===== src/Squeeze/Gzip.antt =====
-- The determinism contract of gzip output: the OS byte.
use polliwog.Base.{
  ℕ, ◌≤◌, ◌<◌, ◌≡◌, ◌≢◌, sym, ap, ◌∙◌, List, some, length, set, get_elem?, arith,
  get_elem?-set_self, get_elem?-set_ne, set-agree,
}
use polliwog.Error.{value}
use polliwog.Format.{Format, ZlibLevel}
use polliwog.Backend.{Progress, Call}
use polliwog.Build.{Build}
use polliwog.Engine.Zlib.{ZlibLaws}
use polliwog.Zlib.Squeezer as ZlibSqueezer
use polliwog.Zlib.Contract.{push-Keeps}
use polliwog.Squeeze.{Shot, patched, patch_os, squeeze}
use polliwog.Zlib.Inits.{construct-IsCounted}
use polliwog.Squeeze.Stages.{Passes, squeeze-push}

-- The gzip patch of a call that reports at least a header.
patched-gzip :
    {H : Type 0} (c : Call H) (p : Progress)
    → c.result ≡ value p
    → 10 ≤ p.bytes_out
    → patched Format.gzip c
      ≡ record { out = set c.out 9 0xff; result = value (record { bytes_written = p.bytes_out }) }
unfolding patch_os
patched-gzip c p e long = rw e (ground arith)

module _ (lvl : ZlibLevel) (input out : List ℕ) where
  -- After a gzip squeeze that writes at least a header, byte 9 of the span is 0xff, and every other
  -- byte is the one that zlib wrote or left there.
  pub squeeze-gzip_os :
      (B : Build) (L : ZlibLaws B.zlib_api) (p : Passes B Format.gzip lvl input out) (r : Progress)
      → let c = ZlibSqueezer.push B.zlib_api p.handle input out in
        c.result ≡ value r
        → 10 ≤ r.bytes_out
        → (s : Shot) × (squeeze B Format.gzip lvl input out ≡ some s)
          × (get_elem? s.out 9 ≡ some 0xff)
          × ((j : ℕ) → j ≢ 9 → get_elem? s.out j ≡ get_elem? c.out j)
  squeeze-gzip_os B L p r e long =
      let c = ZlibSqueezer.push B.zlib_api p.handle input out in
      let keeps =
        push-Keeps B.zlib_api L p.handle input out
          (construct-IsCounted B.zlib_api L Format.gzip lvl p.handle p.made) in
      let long_span : 9 < length c.out = ground (arith, keeps.0) in
      (
        _,
        squeeze-push B Format.gzip lvl input out p ∙ ap some (patched-gzip c r e long),
        get_elem?-set_self c.out 9 0xff long_span,
        λ j ne. get_elem?-set_ne c.out 9 j 0xff (λ q. ne (sym q)),
      )

  -- Two builds whose zlibs give the same report and the same bytes but for the OS byte of the gzip
  -- header give the same gzip output, byte for byte.
  pub squeeze-gzip_deterministic :
      (B C : Build) (L : ZlibLaws B.zlib_api) (M : ZlibLaws C.zlib_api)
      (p : Passes B Format.gzip lvl input out) (q : Passes C Format.gzip lvl input out)
      (r : Progress)
      → let b = ZlibSqueezer.push B.zlib_api p.handle input out in
        let c = ZlibSqueezer.push C.zlib_api q.handle input out in
        b.result ≡ value r
        → c.result ≡ value r
        → 10 ≤ r.bytes_out
        → ((j : ℕ) → j ≢ 9 → get_elem? b.out j ≡ get_elem? c.out j)
        → squeeze B Format.gzip lvl input out ≡ squeeze C Format.gzip lvl input out
  squeeze-gzip_deterministic B C L M p q r e f long agree =
      let b = ZlibSqueezer.push B.zlib_api p.handle input out in
      let c = ZlibSqueezer.push C.zlib_api q.handle input out in
      let kb =
        push-Keeps B.zlib_api L p.handle input out
          (construct-IsCounted B.zlib_api L Format.gzip lvl p.handle p.made) in
      let kc =
        push-Keeps C.zlib_api M q.handle input out
          (construct-IsCounted C.zlib_api M Format.gzip lvl q.handle q.made) in
      let same = set-agree b.out c.out 9 0xff (kb.0.0 ∙ sym kc.0.0) agree in
      squeeze-push B Format.gzip lvl input out p
      ∙ ap some (patched-gzip b r e long)
      ∙ rw same (sym (ap some (patched-gzip c r f long)))
      ∙ sym (squeeze-push C Format.gzip lvl input out q)
