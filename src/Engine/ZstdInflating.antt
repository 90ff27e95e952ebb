-- ===== src/Engine/ZstdInflating.antt =====
-- What zstd promises of a frame that is decompressed by several calls, beyond `ZstdCodec`.
use polliwog.Base.{ℕ, ◌-◌, ◌<◌, ◌≡◌, false, List, [], ◌++◌, some, take, drop}
use polliwog.Engine.Zstd.{InBuffer, OutBuffer, ZstdApi, IsAimed, ZstdLaws}
use polliwog.Engine.ZstdCodec.{ZstdCodec}

-- A call whose input goes on with that of a complete frame, whatever follows the frame.
pub record Agrees (i : InBuffer) (e x rest extra : List ℕ) : Type 0 where
  pub goes_on : x ++ (take (i.size - i.pos) (drop i.pos i.src) ++ rest) ≡ e ++ extra

pub record ZstdInflating (Z : ZstdApi) (L : ZstdLaws Z) (K : ZstdCodec Z L) : Type 1 where
  -- context, data, frame, bytes taken, bytes made: the context is inside the complete frame, which holds
  -- the data
  pub Inside : Z.DCtx → List ℕ → List ℕ → List ℕ → List ℕ → Type 0
  pub starts :
      (fresh : Z.DCtx) (d e : List ℕ)
      → Z.create_dctx ≡ some fresh
      → K.Encodes d e
      → Inside fresh d e [] []
  -- What was made is the front of the data.
  pub of_data :
      (ctx : Z.DCtx) (d e x y : List ℕ) → Inside ctx d e x y → (left : List ℕ) × (y ++ left ≡ d)
  -- With some input and some room a call inside a frame moves forward, and does not fail.
  pub sound :
      (ctx : Z.DCtx) (o : OutBuffer) (i : InBuffer) (d e x y rest extra : List ℕ)
      → IsAimed o i
      → Inside ctx d e x y
      → Agrees i e x rest extra
      → i.pos < i.size
      → o.pos < o.size
      → Z.is_error (Z.decompress_stream ctx o i).ret ≡ false
  -- A result of 0 says that the frame was taken to its end and that all of its data is in the output,
  pub ends :
      (ctx : Z.DCtx) (o : OutBuffer) (i : InBuffer) (d e x y rest extra : List ℕ) (v : IsAimed o i)
      → Inside ctx d e x y
      → Agrees i e x rest extra
      → let c = Z.decompress_stream ctx o i in
        c.ret ≡ 0
        → (x ++ take (c.input.pos - i.pos) (drop i.pos i.src) ≡ e)
          × (y ++ (L.decompress_stream_accounts ctx o i v).made ≡ d)
  -- and any other one that is not an error, that some of the frame is left.
  pub stays :
      (ctx : Z.DCtx) (o : OutBuffer) (i : InBuffer) (d e x y rest extra : List ℕ) (v : IsAimed o i)
      → Inside ctx d e x y
      → Agrees i e x rest extra
      → let c = Z.decompress_stream ctx o i in
        Z.is_error c.ret ≡ false
        → 0 < c.ret
        → Inside c.ctx d e
            (x ++ take (c.input.pos - i.pos) (drop i.pos i.src))
            (y ++ (L.decompress_stream_accounts ctx o i v).made)
