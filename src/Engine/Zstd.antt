-- ===== src/Engine/Zstd.antt =====
-- zstd.h, as far as src/detail/zstd.cpp uses it. The library is a parameter, with its documented
-- behaviour as named hypotheses.
use polliwog.Base.{ℕ, ◌+◌, ◌≤◌, ◌<◌, ◌≡◌, Bool, false, List, Option, String, ◌++◌, length, take}
use polliwog.Base.Int.{ℤ}

-- ZSTD_inBuffer and ZSTD_outBuffer
pub record InBuffer : Type 0 where
  pub src : List ℕ
  pub size : ℕ
  pub pos : ℕ

pub record OutBuffer : Type 0 where
  pub dst : List ℕ
  pub size : ℕ
  pub pos : ℕ

-- ZSTD_e_continue, ZSTD_e_flush, ZSTD_e_end
pub data EndDirective : Type 0 where
  e_continue : EndDirective
  e_flush : EndDirective
  e_end : EndDirective

-- What a streaming call leaves.
pub record ZstdCall (C : Type 0) : Type 0 where
  pub ret : ℕ
  pub ctx : C
  pub output : OutBuffer
  pub input : InBuffer

-- What a one-shot call leaves: the `size_t` that it returns and the bytes of the destination.
pub record ZstdShot : Type 0 where
  pub ret : ℕ
  pub memory : List ℕ

pub record ZstdApi : Type 1 where
  pub CCtx : Type 0
  pub DCtx : Type 0
  -- `none` is a null pointer
  pub create_cctx : Option CCtx
  pub create_dctx : Option DCtx
  -- ZSTD_CCtx_setParameter(ctx, ZSTD_c_compressionLevel, level)
  pub set_compression_level : CCtx → ℤ → ℕ × CCtx
  pub is_error : ℕ → Bool
  pub get_error_name : ℕ → String
  -- destination, its capacity, source, its size, level
  pub compress : List ℕ → ℕ → List ℕ → ℕ → ℤ → ZstdShot
  pub decompress : List ℕ → ℕ → List ℕ → ℕ → ZstdShot
  pub compress_stream2 : CCtx → OutBuffer → InBuffer → EndDirective → ZstdCall CCtx
  pub decompress_stream : DCtx → OutBuffer → InBuffer → ZstdCall DCtx
  pub compress_bound : ℕ → ℕ

-- The positions lie inside the buffers, and the buffers inside their memory.
pub record IsAimed (o : OutBuffer) (i : InBuffer) : Type 0 where
  pub out_pos : o.pos ≤ o.size
  pub out_size : o.size ≤ length o.dst
  pub in_pos : i.pos ≤ i.size
  pub in_size : i.size ≤ length i.src

-- A call moves the two positions forward inside their buffers, and writes behind what is there before the
-- old position of the output. What it leaves past the new position is not said: zstd may use all of the room.
pub record Accounts {C : Type 0} (o : OutBuffer) (i : InBuffer) (c : ZstdCall C) : Type 0 where
  pub in_grows : i.pos ≤ c.input.pos
  pub in_fits : c.input.pos ≤ i.size
  pub in_size : c.input.size ≡ i.size
  pub in_src : c.input.src ≡ i.src
  pub made : List ℕ
  pub out_fits : o.pos + length made ≤ o.size
  pub out_pos : c.output.pos ≡ o.pos + length made
  pub out_size : c.output.size ≡ o.size
  pub dst_length : length c.output.dst ≡ length o.dst
  pub written : take (o.pos + length made) c.output.dst ≡ take o.pos o.dst ++ made

-- A one-shot call writes from the start of its destination, inside the capacity, and if it does not
-- fail it returns how many bytes it made. What it leaves past those is not said.
pub record ShotAccounts (is_error : ℕ → Bool) (dst : List ℕ) (capacity : ℕ) (c : ZstdShot)
    : Type 0 where
  pub made : List ℕ
  pub fits : length made ≤ capacity
  pub memory_length : length c.memory ≡ length dst
  pub written : take (length made) c.memory ≡ made
  pub ret_counts : is_error c.ret ≡ false → c.ret ≡ length made

pub record ZstdLaws (Z : ZstdApi) : Type 0 where
  pub compress_accounts :
      (dst : List ℕ) (capacity : ℕ) (src : List ℕ) (size : ℕ) (level : ℤ)
      → capacity ≤ length dst
      → size ≤ length src
      → ShotAccounts Z.is_error dst capacity (Z.compress dst capacity src size level)
  pub decompress_accounts :
      (dst : List ℕ) (capacity : ℕ) (src : List ℕ) (size : ℕ)
      → capacity ≤ length dst
      → size ≤ length src
      → ShotAccounts Z.is_error dst capacity (Z.decompress dst capacity src size)
  pub compress_stream2_accounts :
      (ctx : Z.CCtx) (o : OutBuffer) (i : InBuffer) (e : EndDirective)
      → IsAimed o i
      → Accounts o i (Z.compress_stream2 ctx o i e)
  pub decompress_stream_accounts :
      (ctx : Z.DCtx) (o : OutBuffer) (i : InBuffer)
      → IsAimed o i
      → Accounts o i (Z.decompress_stream ctx o i)
  -- Ending a frame moves forward while there is room: a call that neither fails nor finishes the
  -- frame has written something.
  pub compress_stream2_progress :
      (ctx : Z.CCtx) (o : OutBuffer) (i : InBuffer)
      → IsAimed o i
      → o.pos < o.size
      → let c = Z.compress_stream2 ctx o i e_end in
        Z.is_error c.ret ≡ false → 0 < c.ret → o.pos < c.output.pos
