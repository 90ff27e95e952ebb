-- ===== src/Zstd.antt =====
-- src/detail/zstd.hpp and src/detail/zstd.cpp: the zstd backend, over any zstd.
-- A handle owns its context; a span is the list of its bytes, and an output span comes back with the
-- bytes that the call left in it. The constructors check by `assert` that the library gives them a
-- context; `none` is a failed assertion.
pub mod Squeezer
pub mod Sweller
pub mod Facade
pub mod Buffers
pub mod Contract
pub mod Finish
pub mod Frames
pub mod Intake
pub mod Ownership
use polliwog.Base.{ℕ, List, [], String, length}
use polliwog.Error.{Error, Kind, BackendId}
use polliwog.Engine.Zstd.{InBuffer, OutBuffer}

-- ZSTD_inBuffer{in.data(), in.size(), 0}
abbrev pub in_buffer : List ℕ → InBuffer
in_buffer input = record { src = input; size = length input; pos = 0 }

-- ZSTD_outBuffer{out.data(), out.size(), 0}
abbrev pub out_buffer : List ℕ → OutBuffer
out_buffer out = record { dst = out; size = length out; pos = 0 }

-- error{kind, backend_id::zstd, pos, note}
abbrev pub zstd_error : Kind → ℕ → String → Error
zstd_error k at note = record { k = k; b = BackendId.zstd; pos = at; note = note }
