-- ===== src/Stream/ZstdSession.antt =====
-- A compressor over zstd that is pushed to and flushed, and then finished: what its bytes are.
use polliwog.Base.{
  ℕ, ◌<◌, ◌≡◌, subst, true, inl, inr, Every, List, [], ◌++◌, Option, none, some, length, take,
  arith, Bool-cases, Option-cases,
}
use polliwog.Error.{value}
use polliwog.Format.{Format, ZstdLevel}
use polliwog.Backend.{Progress}
use polliwog.Build.{Build}
use polliwog.Engine.Zstd.{ZstdLaws}
use polliwog.Engine.ZstdCodec.{ZstdCodec}
use polliwog.Engine.ZstdStreaming.{ZstdStreaming}
use polliwog.Zstd.Squeezer as ZstdSqueezer
use polliwog.Zstd.Squeezer.{ZstdSqueezer}
use polliwog.Zstd.Finish.{Ends, finish-Ends_result}
use polliwog.Zstd.Frames.{Delivers, push_more-Open, flush-Open, finish-Delivers}
use polliwog.Stream.{
  StreamResult, StreamCall, SqueezerVariant, pushed as push_adapter, flushed as flush_adapter,
  finished as finish_adapter, push_visitor, flush_visitor, finish_visitor,
}
use polliwog.Stream.Compressor
use polliwog.Stream.Compressor.{Compressor}
use polliwog.Stream.Chunks.{adapted_value}
use polliwog.Stream.Steps.{Session, Session-At, success}

-- A report that leaves room is that of a complete frame.
done_of_room :
    (out : List ℕ) (p : Progress) → Ends out (value p) → p.bytes_out < length out → p.done ≡ true
done_of_room out p ends room = ground arith

module _ (B : Build) (L : ZstdLaws B.zstd_api) (K : ZstdCodec B.zstd_api L)
    (S : ZstdStreaming B.zstd_api L K) where
  -- The compressor holds a context with an open frame that has taken and made so much.
  abbrev IsAt : List ℕ → List ℕ → Option (SqueezerVariant B) → Type 0
  IsAt d e (some (SqueezerVariant.zstd h)) = S.Open h.ctx d e
  IsAt d e _ = ⊥

  push-IsAt :
      (p : Option (SqueezerVariant B)) (d e input out : List ℕ) (c : StreamCall (Compressor B))
      (r : StreamResult)
      → IsAt d e p
      → Compressor.push B (record { p = p }) input out ≡ some c
      → c.result ≡ value r
      → IsAt (d ++ take r.bytes_consumed input) (e ++ take r.bytes_produced c.out) c.self.p
  unfolding Compressor.push push_visitor
  push-IsAt (some (SqueezerVariant.zstd h)) d e input out c r u ec er =
      success B (λ after m n c. IsAt (d ++ take m input) (e ++ take n after) c.self.p) _ c r
        (λ r er.
          let q = ZstdSqueezer.push_more B.zstd_api h input out in
          let v =
            adapted_value SqueezerVariant.zstd (Compressor.holding B) push_adapter
              Compressor.push_result q r er in
          rw v.2 (push_more-Open B.zstd_api L K S d e h input out v.0 u v.1))
        ec er
  push-IsAt none d e input out c r u ec er = absurd u
  push-IsAt (some (SqueezerVariant.zlib h)) d e input out c r u ec er = absurd u
  push-IsAt (some SqueezerVariant.zlib_stub) d e input out c r u ec er = absurd u
  push-IsAt (some SqueezerVariant.zstd_stub) d e input out c r u ec er = absurd u

  flush-IsAt :
      (p : Option (SqueezerVariant B)) (d e out : List ℕ) (c : StreamCall (Compressor B))
      (r : StreamResult)
      → IsAt d e p
      → Compressor.flush B (record { p = p }) out ≡ some c
      → c.result ≡ value r
      → IsAt d (e ++ take r.bytes_produced c.out) c.self.p
  unfolding Compressor.flush flush_visitor
  flush-IsAt (some (SqueezerVariant.zstd h)) d e out c r u ec er =
      success B (λ after m n c. IsAt d (e ++ take n after) c.self.p) _ c r
        (λ r er.
          let q = ZstdSqueezer.flush B.zstd_api h out in
          let v =
            adapted_value SqueezerVariant.zstd (Compressor.holding B) flush_adapter
              Compressor.flush_result q r er in
          rw v.2 (flush-Open B.zstd_api L K S d e h out v.0 u v.1))
        ec er
  flush-IsAt none d e out c r u ec er = absurd u
  flush-IsAt (some (SqueezerVariant.zlib h)) d e out c r u ec er = absurd u
  flush-IsAt (some SqueezerVariant.zlib_stub) d e out c r u ec er = absurd u
  flush-IsAt (some SqueezerVariant.zstd_stub) d e out c r u ec er = absurd u

  -- A new squeezer's frame is open and empty.
  construct-Open :
      (f : Format) (lvl : ZstdLevel) (h : ZstdSqueezer B.zstd_api)
      → ZstdSqueezer.construct B.zstd_api f lvl ≡ some h
      → S.Open h.ctx [] []
  unfolding ZstdSqueezer.construct
  construct-Open f lvl h e = elim (Option-cases B.zstd_api.create_cctx) [
    | inl null ↦ absurd (ground arith)
    | inr (fresh, there) ↦
        let set = B.zstd_api.set_compression_level fresh lvl.as_int in
        elim (Bool-cases (B.zstd_api.is_error set.0)) [
          | inl failed ↦ absurd (ground arith)
          | inr sound ↦
              let same : h.ctx ≡ set.1 = ground arith in
              rw same (S.starts fresh lvl.as_int there sound)
        ]
  ]

  -- After a session on a new compressor the frame is open, with what the calls took and made.
  pub Session-Open :
      (f : Format) (lvl : ZstdLevel) (h₀ h : ZstdSqueezer B.zstd_api) (d e : List ℕ)
      → ZstdSqueezer.construct B.zstd_api f lvl ≡ some h₀
      → Session B
          (Compressor.holding B (SqueezerVariant.zstd h₀))
          d
          e
          (Compressor.holding B (SqueezerVariant.zstd h))
      → S.Open h.ctx d e
  Session-Open f lvl h₀ h d e made t =
      Session-At B IsAt push-IsAt flush-IsAt _ _ d e (construct-Open f lvl h₀ made) t

  -- A session starts on a new compressor over zstd and leaves it with some zstd handle. If `finish` then
  -- succeeds and leaves room in its span, the bytes of the whole session, with those that `finish` reports
  -- after them, are one complete frame for exactly the bytes that the calls reported as consumed.
  pub finish-Encodes_zstd :
      (f : Format) (lvl : ZstdLevel) (h₀ h : ZstdSqueezer B.zstd_api) (d e out : List ℕ)
      (c : StreamCall (Compressor B)) (r : StreamResult)
      → ZstdSqueezer.construct B.zstd_api f lvl ≡ some h₀
      → Session B
          (Compressor.holding B (SqueezerVariant.zstd h₀))
          d
          e
          (Compressor.holding B (SqueezerVariant.zstd h))
      → Compressor.finish B (Compressor.holding B (SqueezerVariant.zstd h)) out ≡ some c
      → c.result ≡ value r
      → r.bytes_produced < length out
      → K.Encodes d (e ++ take r.bytes_produced c.out)
  unfolding Compressor.finish finish_visitor
  finish-Encodes_zstd f lvl h₀ h d e out c r made t ec er room =
      let u = Session-Open f lvl h₀ h d e made t in
      elim (Option-cases (ZstdSqueezer.finish B.zstd_api h out)) [
        | inl stuck ↦ absurd (cc (rw stuck at ec))
        | inr (q, there) ↦
            let delivers =
              subst (λ o. Every o (Delivers B.zstd_api L K S d e)) there
                (finish-Delivers B.zstd_api L K S d e h out (inl u)) in
            success B (λ after m n c. n < length out → K.Encodes d (e ++ take n after)) _ c r
              (λ r er.
                let v =
                  adapted_value SqueezerVariant.zstd (Compressor.holding B) finish_adapter
                    Compressor.finish_result q r er in
                let ends : Ends out (value v.0) =
                  subst (λ r. Ends out r) v.1 (finish-Ends_result B.zstd_api L out h q there) in
                λ small.
                  rw v.2 ((delivers v.0 v.1).0 (done_of_room out v.0 ends (rw v.2 at small))))
              (rw there at ec) er room
      ]
