-- ===== src/Engine/ZstdStreaming.antt =====
-- What zstd promises of a frame that is made by several calls, beyond `ZstdCodec`.
use polliwog.Base.{ℕ, ◌-◌, ◌<◌, ◌≡◌, ◌≢◌, ◌⊎◌, false, List, [], ◌++◌, some, take, drop}
use polliwog.Base.Int.{ℤ}
use polliwog.Engine.Zstd.{InBuffer, OutBuffer, EndDirective, e_end, ZstdApi, IsAimed, ZstdLaws}
use polliwog.Engine.ZstdCodec.{ZstdCodec}

pub record ZstdStreaming (Z : ZstdApi) (L : ZstdLaws Z) (K : ZstdCodec Z L) : Type 1 where
  -- context, data, bytes: the context has taken the data and made the bytes of a frame so far, and takes
  -- more data
  pub Open : Z.CCtx → List ℕ → List ℕ → Type 0
  -- the same, once ZSTD_e_end was asked for and the end of the frame is still in the context
  pub Closing : Z.CCtx → List ℕ → List ℕ → Type 0
  pub starts :
      (fresh : Z.CCtx) (level : ℤ)
      → Z.create_cctx ≡ some fresh
      → Z.is_error (Z.set_compression_level fresh level).0 ≡ false
      → Open (Z.set_compression_level fresh level).1 [] []
  -- ZSTD_e_continue and ZSTD_e_flush keep the frame open.
  pub goes_on :
      (ctx : Z.CCtx) (o : OutBuffer) (i : InBuffer) (e : EndDirective) (v : IsAimed o i)
      (d x : List ℕ)
      → e ≢ e_end
      → Open ctx d x
      → let c = Z.compress_stream2 ctx o i e in
        Z.is_error c.ret ≡ false
        → Open c.ctx
            (d ++ take (c.input.pos - i.pos) (drop i.pos i.src))
            (x ++ (L.compress_stream2_accounts ctx o i e v).made)
  -- ZSTD_e_end with no more input: a result above 0 says that some of the frame is left to be flushed,
  pub closes :
      (ctx : Z.CCtx) (o : OutBuffer) (i : InBuffer) (v : IsAimed o i) (d x : List ℕ)
      → i.pos ≡ i.size
      → Open ctx d x ⊎ Closing ctx d x
      → let c = Z.compress_stream2 ctx o i e_end in
        Z.is_error c.ret ≡ false
        → 0 < c.ret
        → Closing c.ctx d (x ++ (L.compress_stream2_accounts ctx o i e_end v).made)
  -- and 0 that the frame is complete.
  pub ends :
      (ctx : Z.CCtx) (o : OutBuffer) (i : InBuffer) (v : IsAimed o i) (d x : List ℕ)
      → i.pos ≡ i.size
      → Open ctx d x ⊎ Closing ctx d x
      → (Z.compress_stream2 ctx o i e_end).ret ≡ 0
      → K.Encodes d (x ++ (L.compress_stream2_accounts ctx o i e_end v).made)
