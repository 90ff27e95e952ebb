-- ===== src/Zlib/Sweller.antt =====
-- class zlib_sweller of src/detail/zlib.hpp and src/detail/zlib.cpp.
use polliwog.Base.{ℕ, List, Option, none, some, true, false, ltb, if◌then◌else◌, length}
use polliwog.Error.{Kind, unexpected}
use polliwog.Format.{Format}
use polliwog.Backend.{Call}
use polliwog.Engine.Zlib.{
  ZlibCode, ok, stream_end, buf_error, other, no_flush, finish, ZStream, ZlibApi,
}
use polliwog.Zlib.{window_bits_for, zeroed, aim, consumed, progress, zlib_error}

-- The handle owns its stream.
pub record ZlibSweller (Z : ZlibApi) : Type 0 where
  pub stream : ZStream Z.Internal

module _ (Z : ZlibApi) where
  -- assert(ret == Z_OK)
  asserted : ZlibCode × ZStream Z.Internal → Option (ZlibSweller Z)
  asserted (ok, s) = some (record { stream = s })
  asserted (_, s) = none

  -- zlib_sweller(f)
  unfoldable pub construct : Format → Option (ZlibSweller Z)
  unfolding asserted
  construct f = asserted (Z.inflate_init2 zeroed (window_bits_for f))

  -- decompress and finish
  unfoldable pub push : ZlibSweller Z → List ℕ → List ℕ → Call (ZlibSweller Z)
  push h input out =
      let s = h.stream in
      let c = Z.inflate (aim s input out) finish in
      let leftover = ltb (consumed s c) (length input) in
      let ended =
        if leftover
        then unexpected
            (zlib_error Kind.stream_corrupt c.stream.total_in "extra data after end of stream")
        else progress s c true in
      let starved =
        if leftover
        then unexpected (zlib_error Kind.buffer_too_small 0 "")
        else progress s c false in
      record {
        handle = record { stream = c.stream };
        out = c.memory;
        result = elim c.ret [
          | stream_end ↦ ended
          | ok ↦ starved
          | buf_error ↦ starved
          | other _ ↦ unexpected (zlib_error Kind.stream_corrupt c.stream.total_in "inflate")
        ];
      }

  -- decompress without finishing
  unfoldable pub push_more : ZlibSweller Z → List ℕ → List ℕ → Call (ZlibSweller Z)
  push_more h input out =
      let s = h.stream in
      let c = Z.inflate (aim s input out) no_flush in
      record {
        handle = record { stream = c.stream };
        out = c.memory;
        result = elim c.ret [
          | stream_end ↦ progress s c true
          | ok ↦ progress s c false
          | buf_error ↦ progress s c false
          | other _ ↦ unexpected (zlib_error Kind.stream_corrupt c.stream.total_in "inflate")
        ];
      }
