-- ===== src/Zstd/Squeezer.antt =====
-- class zstd_squeezer of src/detail/zstd.hpp and src/detail/zstd.cpp.
use polliwog.Base.{
  ℕ, zero, suc, List, [], Option, none, some, true, false, ltb, ◌==◌, ◌&&◌, if◌then◌else◌, length,
}
use polliwog.Base.Int.{ℤ}
use polliwog.Error.{Kind, value, unexpected}
use polliwog.Format.{Format, ZstdLevel}
use polliwog.Backend.{Call}
use polliwog.Engine.Zstd.{InBuffer, OutBuffer, e_continue, e_flush, e_end, ZstdApi}
use polliwog.Zstd.{in_buffer, out_buffer, zstd_error}

-- The context, the format, and the level that the one-shot call passes on.
pub record ZstdSqueezer (Z : ZstdApi) : Type 0 where
  pub ctx : Z.CCtx
  pub fmt : Format
  pub level : ℤ

module _ (Z : ZstdApi) where
  -- assert(ctx_ != nullptr), ZSTD_CCtx_setParameter, assert(!ZSTD_isError(ret))
  with_level : Format → ℤ → Option Z.CCtx → Option (ZstdSqueezer Z)
  with_level f level none = none
  with_level f level (some fresh) =
      let (ret, ctx) = Z.set_compression_level fresh level in
      if Z.is_error ret then none else some (record { ctx = ctx; fmt = f; level = level })

  -- zstd_squeezer(f, lvl)
  unfoldable pub construct : Format → ZstdLevel → Option (ZstdSqueezer Z)
  unfolding with_level
  construct f lvl = with_level f lvl.as_int Z.create_cctx

  -- compress and finish
  unfoldable pub push : ZstdSqueezer Z → List ℕ → List ℕ → Call (ZstdSqueezer Z)
  push h input out =
      let c = Z.compress out (length out) input (length input) h.level in
      record {
        handle = h;
        out = c.memory;
        result =
            if Z.is_error c.ret
            then unexpected (zstd_error Kind.backend_failure 0 (Z.get_error_name c.ret))
            else value (record { bytes_in = length input; bytes_out = c.ret; done = true });
      }

  -- compress without finishing
  unfoldable pub push_more : ZstdSqueezer Z → List ℕ → List ℕ → Call (ZstdSqueezer Z)
  push_more h input out =
      let c = Z.compress_stream2 h.ctx (out_buffer out) (in_buffer input) e_continue in
      record {
        handle = record h { ctx = c.ctx };
        out = c.output.dst;
        result =
            if Z.is_error c.ret
            then unexpected (zstd_error Kind.backend_failure 0 (Z.get_error_name c.ret))
            else value (record { bytes_in = c.input.pos; bytes_out = c.output.pos; done = false });
      }

  unfoldable pub flush : ZstdSqueezer Z → List ℕ → Call (ZstdSqueezer Z)
  flush h out =
      let c = Z.compress_stream2 h.ctx (out_buffer out) (in_buffer []) e_flush in
      record {
        handle = record h { ctx = c.ctx };
        out = c.output.dst;
        result =
            if Z.is_error c.ret
            then unexpected (zstd_error Kind.backend_failure 0 (Z.get_error_name c.ret))
            else value (record { bytes_in = 0; bytes_out = c.output.pos; done = false });
      }

  -- The `do` loop of `finish`; `none` means that the fuel ran out.
  unfoldable pub finish_loop :
      ℕ → ZstdSqueezer Z → OutBuffer → InBuffer → Option (Call (ZstdSqueezer Z))
  finish_loop zero h output input = none
  finish_loop (suc fuel) h output input =
      let c = Z.compress_stream2 h.ctx output input e_end in
      let h' : ZstdSqueezer Z = record h { ctx = c.ctx } in
      let again = finish_loop fuel h' c.output c.input in
      if Z.is_error c.ret
      then some (record {
        handle = h';
        out = c.output.dst;
        result = unexpected (zstd_error Kind.backend_failure 0 (Z.get_error_name c.ret));
      })
      else if ltb 0 c.ret && c.output.pos == c.output.size
      then some (record {
        handle = h';
        out = c.output.dst;
        result = value (record { bytes_in = 0; bytes_out = c.output.pos; done = false });
      })
      else if ltb 0 c.ret
      then again
      else some (record {
        handle = h';
        out = c.output.dst;
        result = value (record { bytes_in = 0; bytes_out = c.output.pos; done = true });
      })

  -- Each round but the last writes a byte, so one more round than there are bytes is enough.
  unfoldable pub finish : ZstdSqueezer Z → List ℕ → Option (Call (ZstdSqueezer Z))
  unfolding finish_loop
  finish h out = finish_loop (suc (length out)) h (out_buffer out) (in_buffer [])
