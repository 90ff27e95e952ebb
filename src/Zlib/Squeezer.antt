-- ===== src/Zlib/Squeezer.antt =====
-- class zlib_squeezer of src/detail/zlib.hpp and src/detail/zlib.cpp.
use polliwog.Base.{ℕ, List, [], Option, none, some, true, false}
use polliwog.Error.{Kind, Expected, value, unexpected}
use polliwog.Format.{Format, ZlibLevel}
use polliwog.Backend.{Progress, Call}
use polliwog.Engine.Zlib.{
  ZlibCode, ok, stream_end, buf_error, no_flush, sync_flush, finish as z_finish, ZStream, ZlibApi,
}
use polliwog.Zlib.{window_bits_for, zeroed, aim, produced, progress, zlib_error}

-- The handle owns its stream.
pub record ZlibSqueezer (Z : ZlibApi) : Type 0 where
  pub stream : ZStream Z.Internal

module _ (Z : ZlibApi) where
  -- assert(ret == Z_OK)
  asserted : ZlibCode × ZStream Z.Internal → Option (ZlibSqueezer Z)
  asserted (ok, s) = some (record { stream = s })
  asserted (_, s) = none

  -- zlib_squeezer(f, lvl)
  unfoldable pub construct : Format → ZlibLevel → Option (ZlibSqueezer Z)
  unfolding asserted
  construct f lvl = asserted (Z.deflate_init2 zeroed lvl.as_int (window_bits_for f) 8)

  -- compress and finish
  unfoldable pub push : ZlibSqueezer Z → List ℕ → List ℕ → Call (ZlibSqueezer Z)
  push h input out =
      let s = h.stream in
      let c = Z.deflate (aim s input out) z_finish in
      record {
        handle = record { stream = c.stream };
        out = c.memory;
        result = elim c.ret [
          | stream_end ↦ progress s c true
          | ok ↦ progress s c false
          | _ ↦ unexpected (zlib_error Kind.backend_failure 0 "deflate")
        ];
      }

  -- compress without finishing
  unfoldable pub push_more : ZlibSqueezer Z → List ℕ → List ℕ → Call (ZlibSqueezer Z)
  push_more h input out =
      let s = h.stream in
      let c = Z.deflate (aim s input out) no_flush in
      record {
        handle = record { stream = c.stream };
        out = c.memory;
        result = elim c.ret [
          | ok ↦ progress s c false
          | buf_error ↦ progress s c false
          | _ ↦ unexpected (zlib_error Kind.backend_failure 0 "deflate")
        ];
      }

  unfoldable pub flush : ZlibSqueezer Z → List ℕ → Call (ZlibSqueezer Z)
  flush h out =
      let s = h.stream in
      let c = Z.deflate (aim s [] out) sync_flush in
      let moved : Expected Progress =
        value (record { bytes_in = 0; bytes_out = produced s c; done = false }) in
      record {
        handle = record { stream = c.stream };
        out = c.memory;
        result = elim c.ret [
          | ok ↦ moved
          | buf_error ↦ moved
          | _ ↦ unexpected (zlib_error Kind.backend_failure 0 "deflate flush")
        ];
      }

  unfoldable pub finish : ZlibSqueezer Z → List ℕ → Call (ZlibSqueezer Z)
  unfolding push
  finish h out = push h [] out
