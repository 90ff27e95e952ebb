-- ===== src/Zstd/Sweller.antt =====
-- class zstd_sweller of src/detail/zstd.hpp and src/detail/zstd.cpp.
use polliwog.Base.{ℕ, List, Option, none, some, true, ltb, ◌==◌, ◌&&◌, if◌then◌else◌, length}
use polliwog.Error.{Kind, value, unexpected}
use polliwog.Format.{Format}
use polliwog.Backend.{Call}
use polliwog.Engine.Zstd.{ZstdApi}
use polliwog.Zstd.{in_buffer, out_buffer, zstd_error}

pub record ZstdSweller (Z : ZstdApi) : Type 0 where
  pub ctx : Z.DCtx
  pub fmt : Format

module _ (Z : ZstdApi) where
  -- assert(ctx_ != nullptr)
  asserted : Format → Option Z.DCtx → Option (ZstdSweller Z)
  asserted f none = none
  asserted f (some ctx) = some (record { ctx = ctx; fmt = f })

  -- zstd_sweller(f)
  unfoldable pub construct : Format → Option (ZstdSweller Z)
  unfolding asserted
  construct f = asserted f Z.create_dctx

  -- decompress and finish
  unfoldable pub push : ZstdSweller Z → List ℕ → List ℕ → Call (ZstdSweller Z)
  push h input out =
      let c = Z.decompress out (length out) input (length input) in
      record {
        handle = h;
        out = c.memory;
        result =
            if Z.is_error c.ret
            then unexpected (zstd_error Kind.stream_corrupt 0 (Z.get_error_name c.ret))
            else value (record { bytes_in = length input; bytes_out = c.ret; done = true });
      }

  -- decompress without finishing
  unfoldable pub push_more : ZstdSweller Z → List ℕ → List ℕ → Call (ZstdSweller Z)
  push_more h input out =
      let c = Z.decompress_stream h.ctx (out_buffer out) (in_buffer input) in
      let done = c.ret == 0 in
      record {
        handle = record h { ctx = c.ctx };
        out = c.output.dst;
        result =
            if Z.is_error c.ret
            then unexpected (zstd_error Kind.stream_corrupt 0 (Z.get_error_name c.ret))
            else if done && ltb c.input.pos c.input.size
            then unexpected
                (zstd_error Kind.stream_corrupt c.input.pos "extra data after end of stream")
            else value (record { bytes_in = c.input.pos; bytes_out = c.output.pos; done = done });
      }
