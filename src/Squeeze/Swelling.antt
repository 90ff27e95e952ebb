-- ===== src/Squeeze/Swelling.antt =====
-- When a one-shot call over the zlib backend succeeds, by the code that zlib returned.
use polliwog.Base.{
  ℕ, ◌≡◌, ◌&&◌, leb, ◌∙◌, ap, ◌↔◌, Bool, true, false, List, Option, none, some, length, arith,
}
use polliwog.Base.Words.{u32-le}
use polliwog.Error.{value, unexpected}
use polliwog.Format.{Format, ZlibLevel}
use polliwog.Build.{Build}
use polliwog.Engine.Zlib.{ZlibCode, ok, stream_end, buf_error, other, Flush, ZlibLaws}
use polliwog.Zlib.{aim, consumed}
use polliwog.Zlib.Contract.{aim-IsAimed, Accounts-counts}
use polliwog.Zlib.Squeezer as ZlibSqueezer
use polliwog.Zlib.Squeezer.{ZlibSqueezer}
use polliwog.Zlib.Sweller as ZlibSweller
use polliwog.Zlib.Sweller.{ZlibSweller}
use polliwog.Squeeze.{Shot, shot, patched, squeeze, swell}
use polliwog.Zlib.Inits.{construct_sweller-IsCounted}
use polliwog.Squeeze.Stages.{Passes, Opens, squeeze-push, swell-push}

-- The call returned a success.
unfoldable pub succeeds : Option Shot → Bool
succeeds none = false
succeeds (some s) = elim s.result [ value r ↦ true | unexpected e ↦ false ]

-- Z_OK or Z_STREAM_END
unfoldable pub deflate_passes : ZlibCode → Bool
deflate_passes stream_end = true
deflate_passes ok = true
deflate_passes buf_error = false
deflate_passes (other n) = false

-- Z_OK, Z_STREAM_END or Z_BUF_ERROR
unfoldable pub inflate_passes : ZlibCode → Bool
inflate_passes (other n) = false
inflate_passes ok = true
inflate_passes stream_end = true
inflate_passes buf_error = true

module _ (B : Build) (f : Format) where
  -- Whether a push of the squeezer succeeds.
  push_passes :
      (h : ZlibSqueezer B.zlib_api) (input out : List ℕ)
      → succeeds (some (patched f (ZlibSqueezer.push B.zlib_api h input out)))
        ≡ deflate_passes (B.zlib_api.deflate (aim h.stream input out) Flush.finish).ret
  unfolding ZlibSqueezer.push succeeds deflate_passes
  push_passes h input out = ground arith

  -- A squeeze that passes its tests succeeds exactly when deflate returns Z_STREAM_END or Z_OK: an
  -- unfinished stream, which deflate answers with Z_OK, counts as a success.
  pub squeeze-succeeds_iff :
      (lvl : ZlibLevel) (input out : List ℕ) (p : Passes B f lvl input out)
      → succeeds (squeeze B f lvl input out)
        ≡ deflate_passes (B.zlib_api.deflate (aim p.handle.stream input out) Flush.finish).ret
  squeeze-succeeds_iff lvl input out p =
      ap succeeds (squeeze-push B f lvl input out p) ∙ push_passes p.handle input out

  -- Whether a push of the sweller succeeds.
  push_succeeds :
      (h : ZlibSweller B.zlib_api) (input out : List ℕ)
      → let c = B.zlib_api.inflate (aim h.stream input out) Flush.finish in
        succeeds (some (shot (ZlibSweller.push B.zlib_api h input out)))
        ≡ (inflate_passes c.ret && leb (length input) (consumed h.stream c))
  unfolding ZlibSweller.push succeeds inflate_passes
  push_succeeds h input out = ground arith

  -- A swell succeeds exactly when inflate returns Z_OK, Z_STREAM_END or Z_BUF_ERROR and has taken the
  -- whole input. It need not have seen the end of the stream.
  pub swell-succeeds_iff :
      (L : ZlibLaws B.zlib_api) (input out : List ℕ) (p : Opens B f)
      → let s = p.handle.stream in
        let a = L.inflate_accounts (aim s input out) Flush.finish (aim-IsAimed s input out) in
        (succeeds (swell B f input out) ≡ true) ↔ (
          (inflate_passes (B.zlib_api.inflate (aim s input out) Flush.finish).ret ≡ true)
          × (a.taken ≡ length input))
  swell-succeeds_iff L input out p =
      let s = p.handle.stream in
      let c = B.zlib_api.inflate (aim s input out) Flush.finish in
      let a = L.inflate_accounts (aim s input out) Flush.finish (aim-IsAimed s input out) in
      let counts =
        Accounts-counts s input out c (construct_sweller-IsCounted B.zlib_api L f p.handle p.made)
          a in
      let pushed = ap succeeds (swell-push B f input out p) ∙ push_succeeds p.handle input out in
      ground (arith, pushed, counts.0, a.taken_fits, u32-le (length input))
