-- ===== src/Stream/Session.antt =====
-- A compressor over zlib that is pushed to and flushed, and then finished: what its bytes are.
use mathlib.Core.List.{append-nil}
use polliwog.Base.{
  ℕ, ◌≡◌, refl, ◌∙◌, ap, subst, true, List, [], ◌++◌, Option, none, some, length, take, drop, arith,
  take-append, take-all,
}
use polliwog.Error.{value}
use polliwog.Format.{Format, ZlibLevel}
use polliwog.Build.{Build}
use polliwog.Engine.Zlib.{stream_end, Flush, ZlibLaws}
use polliwog.Engine.ZlibCodec.{ZlibCodec}
use polliwog.Zlib.{window_bits_for, aim, consumed, produced}
use polliwog.Zlib.Contract.{push_more-Keeps, flush-Keeps, aim-IsAimed, Accounts-counts}
use polliwog.Zlib.Squeezer as ZlibSqueezer
use polliwog.Zlib.Squeezer.{ZlibSqueezer}
use polliwog.Zlib.Inits.{construct-IsCounted}
use polliwog.Squeeze.Stages.{construct_starts}
use polliwog.Stream.{
  StreamResult, StreamCall, SqueezerVariant, pushed as push_adapter, flushed as flush_adapter,
  push_visitor, flush_visitor, finish_visitor,
}
use polliwog.Stream.Compressor
use polliwog.Stream.Compressor.{Compressor}
use polliwog.Stream.Chunks.{Under, call-goes_on, push_more-goes_on, flush-goes_on, adapted_value}
use polliwog.Stream.Steps.{Session, success, Session-At}

module _ (B : Build) (L : ZlibLaws B.zlib_api) (K : ZlibCodec B.zlib_api L) (f : Format) where
  -- The compressor holds a zlib stream that has taken and made so much.
  abbrev IsAt : List ℕ → List ℕ → Option (SqueezerVariant B) → Type 0
  IsAt d e (some (SqueezerVariant.zlib h)) = Under B.zlib_api L K (window_bits_for f) d e h
  IsAt d e _ = ⊥

  push-IsAt :
      (p : Option (SqueezerVariant B)) (d e input out : List ℕ) (c : StreamCall (Compressor B))
      (r : StreamResult)
      → IsAt d e p
      → Compressor.push B (record { p = p }) input out ≡ some c
      → c.result ≡ value r
      → IsAt (d ++ take r.bytes_consumed input) (e ++ take r.bytes_produced c.out) c.self.p
  unfolding Compressor.push push_visitor ZlibSqueezer.push_more
  push-IsAt (some (SqueezerVariant.zlib h)) d e input out c r u ec er =
      success B (λ after m n c. IsAt (d ++ take m input) (e ++ take n after) c.self.p) _ c r
        (λ r er.
          let q = ZlibSqueezer.push_more B.zlib_api h input out in
          let v =
            adapted_value SqueezerVariant.zlib (Compressor.holding B) push_adapter
              Compressor.push_result q r er in
          let g = push_more-goes_on B.zlib_api L K (window_bits_for f) h input out v.0 v.1 in
          rw (v.2, g.1)
            (
              (push_more-Keeps B.zlib_api L h input out u.0).1,
              call-goes_on B.zlib_api L K (window_bits_for f) h Flush.no_flush d e input out u g.0,
            ))
        ec er
  push-IsAt none d e input out c r u ec er = absurd u
  push-IsAt (some (SqueezerVariant.zstd h)) d e input out c r u ec er = absurd u
  push-IsAt (some SqueezerVariant.zlib_stub) d e input out c r u ec er = absurd u
  push-IsAt (some SqueezerVariant.zstd_stub) d e input out c r u ec er = absurd u

  flush-IsAt :
      (p : Option (SqueezerVariant B)) (d e out : List ℕ) (c : StreamCall (Compressor B))
      (r : StreamResult)
      → IsAt d e p
      → Compressor.flush B (record { p = p }) out ≡ some c
      → c.result ≡ value r
      → IsAt d (e ++ take r.bytes_produced c.out) c.self.p
  unfolding Compressor.flush flush_visitor ZlibSqueezer.flush
  flush-IsAt (some (SqueezerVariant.zlib h)) d e out c r u ec er =
      success B (λ after m n c. IsAt d (e ++ take n after) c.self.p) _ c r
        (λ r er.
          let q = ZlibSqueezer.flush B.zlib_api h out in
          let v =
            adapted_value SqueezerVariant.zlib (Compressor.holding B) flush_adapter
              Compressor.flush_result q r er in
          let g = flush-goes_on B.zlib_api L K (window_bits_for f) h out v.0 v.1 in
          let z = B.zlib_api.deflate (aim h.stream [] out) Flush.sync_flush in
          let same : d ++ take (consumed h.stream z) [] ≡ d =
            ap (λ t. d ++ t) (take-all (consumed h.stream z) [] (omega arith)) ∙ append-nil d in
          rw (v.2, g.1)
            (
              (flush-Keeps B.zlib_api L h out u.0).1,
              subst
                  (λ t.
                    K.Deflating (window_bits_for f) z.stream.state t
                      (e ++ take (produced h.stream z) z.memory))
                  same
                  (call-goes_on B.zlib_api L K (window_bits_for f) h Flush.sync_flush d e [] out u
                    g.0),
            ))
        ec er
  flush-IsAt none d e out c r u ec er = absurd u
  flush-IsAt (some (SqueezerVariant.zstd h)) d e out c r u ec er = absurd u
  flush-IsAt (some SqueezerVariant.zlib_stub) d e out c r u ec er = absurd u
  flush-IsAt (some SqueezerVariant.zstd_stub) d e out c r u ec er = absurd u

  -- What the handle at the end of a session has taken and made.
  pub Session-Under :
      (h₀ h : ZlibSqueezer B.zlib_api) (lvl : ZlibLevel) (d e : List ℕ)
      → ZlibSqueezer.construct B.zlib_api f lvl ≡ some h₀
      → Session B
          (Compressor.holding B (SqueezerVariant.zlib h₀))
          d
          e
          (Compressor.holding B (SqueezerVariant.zlib h))
      → Under B.zlib_api L K (window_bits_for f) d e h
  Session-Under h₀ h lvl d e made t =
      Session-At B IsAt push-IsAt flush-IsAt _ _ d e
        (
          construct-IsCounted B.zlib_api L f lvl h₀ made,
          construct_starts B.zlib_api L K f lvl h₀ made,
        )
        t

  -- A session starts on a new compressor over zlib and leaves it with some zlib handle. If zlib then ends
  -- the stream, `finish` succeeds and reports done, and the bytes of the whole session, with those that
  -- `finish` reports after them, are one complete stream of the format for exactly the bytes that the
  -- calls reported as consumed.
  pub finish-Encodes :
      (h₀ h : ZlibSqueezer B.zlib_api) (lvl : ZlibLevel) (d e out : List ℕ)
      → ZlibSqueezer.construct B.zlib_api f lvl ≡ some h₀
      → Session B
          (Compressor.holding B (SqueezerVariant.zlib h₀))
          d
          e
          (Compressor.holding B (SqueezerVariant.zlib h))
      → (B.zlib_api.deflate (aim h.stream [] out) Flush.finish).ret ≡ stream_end
      → (c : StreamCall (Compressor B)) × (n : ℕ) × (Compressor.finish B
            (Compressor.holding B (SqueezerVariant.zlib h))
            out
          ≡ some c)
        × (c.result ≡ value (record { bytes_consumed = 0; bytes_produced = n; done = true }))
        × K.Encodes (window_bits_for f) d (e ++ take n c.out)
  unfolding Compressor.finish finish_visitor ZlibSqueezer.finish
  finish-Encodes h₀ h lvl d e out made t ends =
      let u = Session-Under h₀ h lvl d e made t in
      let s = aim h.stream [] out in
      let z = B.zlib_api.deflate s Flush.finish in
      let aimed = aim-IsAimed h.stream [] out in
      let a = L.deflate_accounts s Flush.finish aimed in
      let counts = Accounts-counts h.stream [] out z u.0 a in
      let whole = K.deflate_ends s (window_bits_for f) d e aimed u.1 ends in
      let bytes : take (produced h.stream z) z.memory ≡ a.made =
        rw (counts.1, a.memory_written) (take-append a.made (drop (length a.made) out)) in
      let same : d ++ take a.taken [] ≡ d =
        ap (λ t. d ++ t) (take-all a.taken [] (omega arith)) ∙ append-nil d in
      (
        _,
        produced h.stream z,
        refl,
        rw ends refl,
        rw bytes (subst (λ t. K.Encodes (window_bits_for f) t (e ++ a.made)) same whole.1),
      )

  -- The same of the call that finish gave and of what it reported.
  pub finished-Encodes :
      (h₀ h : ZlibSqueezer B.zlib_api) (lvl : ZlibLevel) (d e out : List ℕ)
      (c : StreamCall (Compressor B)) (r : StreamResult)
      → ZlibSqueezer.construct B.zlib_api f lvl ≡ some h₀
      → Session B
          (Compressor.holding B (SqueezerVariant.zlib h₀))
          d
          e
          (Compressor.holding B (SqueezerVariant.zlib h))
      → (B.zlib_api.deflate (aim h.stream [] out) Flush.finish).ret ≡ stream_end
      → Compressor.finish B (Compressor.holding B (SqueezerVariant.zlib h)) out ≡ some c
      → c.result ≡ value r
      → K.Encodes (window_bits_for f) d (e ++ take r.bytes_produced c.out)
  finished-Encodes h₀ h lvl d e out c r made t ends ec er =
      let x = finish-Encodes h₀ h lvl d e out made t ends in
      let same : x.0 ≡ c = cc (x.2, ec) in
      let count : x.1 ≡ r.bytes_produced = cc (x.3, same, er) in
      subst (λ n. K.Encodes (window_bits_for f) d (e ++ take n c.out)) count
        (subst (λ c. K.Encodes (window_bits_for f) d (e ++ take x.1 c.out)) same x.4)
