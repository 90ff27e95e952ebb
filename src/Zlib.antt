-- ===== src/Zlib.antt =====
-- src/detail/zlib.hpp and src/detail/zlib.cpp: the zlib backend, over any zlib.
-- A handle owns its `z_stream`; a span is the list of its bytes, and an output span comes back with
-- the bytes that the call left in it. `uInt` is 32 bits wide, `uLong` 64 (see Base.Words). The
-- constructors check by `assert` that the initialiser succeeds; `none` is a failed assertion.
pub mod Squeezer
pub mod Sweller
pub mod Facade
pub mod Contract
pub mod Inits
pub mod Whole
pub mod Ownership
pub mod Intake
pub mod Filling
pub mod Flushing
pub mod Short
pub mod Advance
use polliwog.Base.{ℕ, List, [], none, String, length, Bool}
use polliwog.Base.Int.{ℤ, pos, negsuc}
use polliwog.Base.Words.{u32, sub64}
use polliwog.Error.{Error, Kind, BackendId, Expected, value}
use polliwog.Backend.{Progress}
use polliwog.Format.{Format}
use polliwog.Engine.Zlib.{ZStream, ZlibCall}

unfoldable pub window_bits_for : Format → ℤ
window_bits_for Format.zlib = pos 15
window_bits_for Format.gzip = pos 31
window_bits_for Format.raw_deflate = negsuc 14
window_bits_for _ = pos 15

-- new z_stream_s{}, with zalloc, zfree and opaque left at Z_NULL
abbrev pub zeroed : {I : Type 0} → ZStream I
zeroed = record {
  next_in = [];
  avail_in = 0;
  total_in = 0;
  next_out = [];
  avail_out = 0;
  total_out = 0;
  state = none;
}

-- The four assignments before each call. The window sizes are `uInt`.
abbrev pub aim : {I : Type 0} → ZStream I → List ℕ → List ℕ → ZStream I
aim s input out = record s {
  next_in = input;
  avail_in = u32 (length input);
  next_out = out;
  avail_out = u32 (length out);
}

-- total_in - before_in
abbrev pub consumed : {I : Type 0} → ZStream I → ZlibCall I → ℕ
consumed s c = sub64 c.stream.total_in s.total_in

-- total_out - before_out
abbrev pub produced : {I : Type 0} → ZStream I → ZlibCall I → ℕ
produced s c = sub64 c.stream.total_out s.total_out

-- progress{consumed, produced, done}
abbrev pub progress : {I : Type 0} → ZStream I → ZlibCall I → Bool → Expected Progress
progress s c done =
    value (record { bytes_in = consumed s c; bytes_out = produced s c; done = done })

-- error{kind, backend_id::zlib, pos, note}
abbrev pub zlib_error : Kind → ℕ → String → Error
zlib_error k at note = record { k = k; b = BackendId.zlib; pos = at; note = note }
