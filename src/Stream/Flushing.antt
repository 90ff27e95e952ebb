-- ===== src/Stream/Flushing.antt =====
-- What a flush of a compressor makes visible to a decompressor on the other side.
use polliwog.Base.{ℕ, ◌<◌, ◌≡◌, refl, sym, subst, Bool, List, [], ◌++◌, some, length, take}
use polliwog.Error.{value}
use polliwog.Format.{Format, ZlibLevel}
use polliwog.Base.Words.{u32_mod}
use polliwog.Build.{Build}
use polliwog.Engine.Zlib.{ok, Flush, ZlibLaws}
use polliwog.Engine.ZlibCodec.{ZlibCodec}
use polliwog.Engine.ZlibFlushing.{ZlibFlushing}
use polliwog.Zlib.{window_bits_for, aim, produced, zeroed}
use polliwog.Zlib.Squeezer as ZlibSqueezer
use polliwog.Zlib.Squeezer.{ZlibSqueezer}
use polliwog.Zlib.Sweller as ZlibSweller
use polliwog.Zlib.Sweller.{ZlibSweller}
use polliwog.Zlib.Inits.{construct_sweller_inits, construct_sweller-IsCounted}
use polliwog.Zlib.Flushing.{flush-Flushed, push_more-Shows}
use polliwog.Stream.{
  StreamResult, StreamCall, SqueezerVariant, SwellerVariant, flushed as flush_adapter,
  flush_visitor,
}
use polliwog.Stream.Compressor
use polliwog.Stream.Compressor.{Compressor}
use polliwog.Stream.Decompressor
use polliwog.Stream.Decompressor.{Decompressor}
use polliwog.Stream.Chunks.{flush-goes_on, adapted_value}
use polliwog.Stream.Intake.{push_value}
use polliwog.Stream.Steps.{Session, success}
use polliwog.Stream.Session.{Session-Under}

module _ (B : Build) (L : ZlibLaws B.zlib_api) (K : ZlibCodec B.zlib_api L)
    (F : ZlibFlushing B.zlib_api L K) (f : Format) where
  -- A flush that succeeds and leaves room is complete.
  flush-Complete :
      (h₀ h : ZlibSqueezer B.zlib_api) (lvl : ZlibLevel) (d e out : List ℕ)
      (c : StreamCall (Compressor B)) (r : StreamResult)
      → ZlibSqueezer.construct B.zlib_api f lvl ≡ some h₀
      → Session B
          (Compressor.holding B (SqueezerVariant.zlib h₀))
          d
          e
          (Compressor.holding B (SqueezerVariant.zlib h))
      → (B.zlib_api.deflate (aim h.stream [] out) Flush.sync_flush).ret ≡ ok
      → Compressor.flush B (Compressor.holding B (SqueezerVariant.zlib h)) out ≡ some c
      → c.result ≡ value r
      → r.bytes_produced < length out
      → length out < u32_mod
      → F.Flushed (window_bits_for f) d (e ++ take r.bytes_produced c.out)
  unfolding Compressor.flush flush_visitor ZlibSqueezer.flush
  flush-Complete h₀ h lvl d e out c r made t ret ec er room small =
      let w = window_bits_for f in
      let u = Session-Under B L K f h₀ h lvl d e made t in
      success B (λ after m n c. n < length out → F.Flushed w d (e ++ take n after)) _ c r
        (λ r er room.
          let q = ZlibSqueezer.flush B.zlib_api h out in
          let v =
            adapted_value SqueezerVariant.zlib (Compressor.holding B) flush_adapter
              Compressor.flush_result q r er in
          let g = flush-goes_on B.zlib_api L K w h out v.0 v.1 in
          let z = B.zlib_api.deflate (aim h.stream [] out) Flush.sync_flush in
          let count : r.bytes_produced ≡ produced h.stream z = rw (v.2, g.1) refl in
          rw (v.2, g.1)
            (flush-Flushed B.zlib_api L K F w d h e out u.0 u.1 small ret
              (subst (λ n. n < length out) count room)))
        ec er room

  -- A new compressor over zlib has been through a session, and a flush of it, in which zlib returns Z_OK,
  -- succeeds and leaves room. The bytes that the session and the flush report are not none. Then a new
  -- decompressor of the format that is pushed all of them, with more room than the data needs, takes all of
  -- them and produces exactly the bytes that the session's calls reported as consumed. The flush's span, the
  -- bytes and the decompressor's span are all below 4 GiB.
  pub push-flush :
      (h₀ h : ZlibSqueezer B.zlib_api) (lvl : ZlibLevel) (d e out : List ℕ)
      (c : StreamCall (Compressor B)) (r : StreamResult) (g : ZlibSweller B.zlib_api)
      (out' : List ℕ)
      → ZlibSqueezer.construct B.zlib_api f lvl ≡ some h₀
      → Session B
          (Compressor.holding B (SqueezerVariant.zlib h₀))
          d
          e
          (Compressor.holding B (SqueezerVariant.zlib h))
      → (B.zlib_api.deflate (aim h.stream [] out) Flush.sync_flush).ret ≡ ok
      → Compressor.flush B (Compressor.holding B (SqueezerVariant.zlib h)) out ≡ some c
      → c.result ≡ value r
      → r.bytes_produced < length out
      → length out < u32_mod
      → ZlibSweller.construct B.zlib_api f ≡ some g
      → let bytes = e ++ take r.bytes_produced c.out in
        0 < length bytes
        → length bytes < u32_mod
        → length d < length out'
        → length out' < u32_mod
        → (c' : StreamCall (Decompressor B)) × (n : ℕ) × (b : Bool) × (Decompressor.push B
              (Decompressor.holding B (SwellerVariant.zlib g))
              bytes
              out'
            ≡ some c')
          × (c'.result
              ≡ value (record { bytes_consumed = length bytes; bytes_produced = n; done = b }))
          × (take n c'.out ≡ d)
  push-flush h₀ h lvl d e out c r g out' made t ret ec er room small opened some_in small_in room'
        small' =
      let w = window_bits_for f in
      let bytes = e ++ take r.bytes_produced c.out in
      let i = construct_sweller_inits B.zlib_api f g opened in
      let fresh = subst (λ s. K.Fresh w s.state) (sym i.1) (K.inflate_starts zeroed w i.0) in
      let q =
        push_more-Shows B.zlib_api L K F w d g bytes out'
          (construct_sweller-IsCounted B.zlib_api L f g opened) fresh
          (flush-Complete h₀ h lvl d e out c r made t ret ec er room small) some_in small_in room'
          small' in
      (_, q.0, q.1, push_value B g bytes out' _ q.2, refl, q.3)
