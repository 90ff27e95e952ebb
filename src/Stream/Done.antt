-- ===== src/Stream/Done.antt =====
-- The done flag of a compressor's reports.
use polliwog.Base.{
  Every, inl, take, ◌++◌, arith, ℕ, ◌≡◌, refl, subst, length, true, false, List, some,
}
use polliwog.Error.{value}
use polliwog.Backend.{Progress, Call}
use polliwog.Build.{Build}
use polliwog.Engine.Zstd.{ZstdLaws}
use polliwog.Format.{Format, ZstdLevel}
use polliwog.Engine.ZstdCodec.{ZstdCodec}
use polliwog.Engine.ZstdStreaming.{ZstdStreaming}
use polliwog.Zstd.Frames.{Delivers, finish-Delivers}
use polliwog.Stream.Steps.{Session}
use polliwog.Stream.ZstdSession.{Session-Open}
use polliwog.Zstd.Squeezer as ZstdSqueezer
use polliwog.Zstd.Squeezer.{ZstdSqueezer}
use polliwog.Zstd.Finish.{Ends, finish-Ends_result}
use polliwog.Stream.{StreamCall, returned, visit, finished, SqueezerVariant, finish_visitor}
use polliwog.Stream.Compressor
use polliwog.Stream.Compressor.{Compressor}

-- A session runs on a new compressor over zstd, and the `finish` of the handle that it leaves asks to be
-- called again, because the frame does not fit into the span. The compressor's `finish` then uses up the span
-- and reports done all the same, while the handle that it keeps still has the end of the frame in its
-- context: the bytes of the session and of the whole span are those of a frame that is not complete.
pub finish-unfinished :
    (B : Build) (M : ZstdLaws B.zstd_api) (K : ZstdCodec B.zstd_api M)
    (S : ZstdStreaming B.zstd_api M K) (f : Format) (lvl : ZstdLevel)
    (h₀ h : ZstdSqueezer B.zstd_api) (d e out : List ℕ) (q : Call (ZstdSqueezer B.zstd_api))
    (p : Progress)
    → ZstdSqueezer.construct B.zstd_api f lvl ≡ some h₀
    → Session B
        (Compressor.holding B (SqueezerVariant.zstd h₀))
        d
        e
        (Compressor.holding B (SqueezerVariant.zstd h))
    → ZstdSqueezer.finish B.zstd_api h out ≡ some q
    → q.result ≡ value p
    → p.done ≡ false
    → (c : StreamCall (Compressor B)) × (h' : ZstdSqueezer B.zstd_api) × (Compressor.finish B
          (Compressor.holding B (SqueezerVariant.zstd h))
          out
        ≡ some c)
      × (c.result ≡ value (record { bytes_consumed = 0; bytes_produced = length out; done = true }))
      × (c.self ≡ Compressor.holding B (SqueezerVariant.zstd h'))
      × S.Closing h'.ctx d (e ++ take (length out) c.out)
unfolding Compressor.finish finish_visitor
finish-unfinished B M K S f lvl h₀ h d e out q p made t eq er unfinished =
    let k : Ends out (value p) =
      subst (λ r. Ends out r) er (finish-Ends_result B.zstd_api M out h q eq) in
    let full : p.bytes_out ≡ length out = ground arith in
    let at = Session-Open B M K S f lvl h₀ h d e made t in
    let delivers =
      subst (λ o. Every o (Delivers B.zstd_api M K S d e)) eq
        (finish-Delivers B.zstd_api M K S d e h out (inl at)) in
    (
      returned (Compressor.holding B) Compressor.finish_result
          (visit SqueezerVariant.zstd finished q),
      q.handle,
      rw eq refl,
      rw (er, full) refl,
      refl,
      subst (λ n. S.Closing q.handle.ctx d (e ++ take n q.out)) full ((delivers p er).1 unfinished),
    )
