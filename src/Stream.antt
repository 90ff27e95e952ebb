-- ===== src/Stream.antt =====
-- include/polliwog/stream.hpp and src/stream.cpp: the streaming compressor and decompressor.
-- `none` is an assertion that failed in a backend's constructor, or a `finish` that does not return.
pub mod Compressor
pub mod Decompressor
pub mod Construction
pub mod Visits
pub mod Answers
pub mod Served
pub mod History
pub mod Chunks
pub mod Pushes
pub mod Steps
pub mod Session
pub mod Flushing
pub mod ZstdSession
pub mod Intake
pub mod ZstdIntake
pub mod Calls
pub mod Ownership
pub mod Widths
pub mod Roundtrip
pub mod Swelling
pub mod Done
use polliwog.Base.{String, ℕ, List, Option, none, some, Bool, true, false, if◌then◌else◌, map_some}
use polliwog.Error.{Error, Kind, BackendId, Expected, value, unexpected}
use polliwog.Format.{Format, ZlibLevel, ZstdLevel}
use polliwog.Backend.{Progress, Call}
use polliwog.Build.{Build}
use polliwog.Squeeze.{level_outside}
use polliwog.Zlib.Squeezer as ZlibSqueezer
use polliwog.Zlib.Squeezer.{ZlibSqueezer}
use polliwog.Zlib.Sweller as ZlibSweller
use polliwog.Zlib.Sweller.{ZlibSweller}
use polliwog.Zstd.Squeezer as ZstdSqueezer
use polliwog.Zstd.Squeezer.{ZstdSqueezer}
use polliwog.Zstd.Sweller as ZstdSweller
use polliwog.Zstd.Sweller.{ZstdSweller}

-- struct stream_result
pub record StreamResult : Type 0 where
  pub bytes_consumed : ℕ
  pub bytes_produced : ℕ
  pub done : Bool

-- What a call on an object leaves: the object, the bytes of the output span, and what is returned.
pub record StreamCall (C : Type 0) : Type 0 where
  pub self : C
  pub out : List ℕ
  pub result : Expected StreamResult

-- What a constructor does: it throws std::invalid_argument, or it makes an object.
pub data Made (C : Type 0) : Type 0 where
  thrown : String → Made C
  made : C → Made C

-- What an object makes of a visit.
abbrev pub returned : {V C : Type 0} → (V → C) → (Progress → StreamResult) → Call V → StreamCall C
returned hold adapt c = record {
  self = hold c.handle;
  out = c.out;
  result = elim c.result [ value p ↦ value (adapt p) | unexpected e ↦ unexpected e ];
}

-- The variants' alternatives, the stubs of a build that lacks a backend among them. The stubs hold
-- nothing.
pub data SqueezerVariant (B : Build) : Type 0 where
  zlib : ZlibSqueezer B.zlib_api → SqueezerVariant B
  zstd : ZstdSqueezer B.zstd_api → SqueezerVariant B
  zlib_stub : SqueezerVariant B
  zstd_stub : SqueezerVariant B

pub data SwellerVariant (B : Build) : Type 0 where
  zlib : ZlibSweller B.zlib_api → SwellerVariant B
  zstd : ZstdSweller B.zstd_api → SwellerVariant B
  zlib_stub : SwellerVariant B
  zstd_stub : SwellerVariant B

-- format_mismatch_err()
abbrev pub format_mismatch_err : Error
format_mismatch_err = record { k = Kind.format_mismatch; b = BackendId.none; pos = 0; note = "" }

-- What a visit of a stub leaves.
abbrev pub stubbed : {H : Type 0} → H → List ℕ → Call H
stubbed h out = record { handle = h; out = out; result = unexpected format_mismatch_err }

-- A visit: the handle goes back into its alternative, and the visitor adapts what was reported.
abbrev pub visit : {H V : Type 0} → (H → V) → (Progress → Progress) → Call H → Call V
visit wrap adapt c = record {
  handle = wrap c.handle;
  out = c.out;
  result = elim c.result [ value p ↦ value (adapt p) | unexpected e ↦ unexpected e ];
}

-- push_out{r->bytes_in, r->bytes_out, false}
abbrev pub pushed : Progress → Progress
pushed p = record { bytes_in = p.bytes_in; bytes_out = p.bytes_out; done = false }

-- push_out{r->bytes_in, r->bytes_out, r->done}
abbrev pub swollen : Progress → Progress
swollen p = record { bytes_in = p.bytes_in; bytes_out = p.bytes_out; done = p.done }

-- push_out{0, r->bytes_out, false}
abbrev pub flushed : Progress → Progress
flushed p = record { bytes_in = 0; bytes_out = p.bytes_out; done = false }

-- push_out{0, r->bytes_out, true}
abbrev pub finished : Progress → Progress
finished p = record { bytes_in = 0; bytes_out = p.bytes_out; done = true }

module _ (B : Build) where
  unfoldable pub push_visitor : List ℕ → List ℕ → SqueezerVariant B → Call (SqueezerVariant B)
  push_visitor input out (SqueezerVariant.zlib h) =
      visit SqueezerVariant.zlib pushed (ZlibSqueezer.push_more B.zlib_api h input out)
  push_visitor input out (SqueezerVariant.zstd h) =
      visit SqueezerVariant.zstd pushed (ZstdSqueezer.push_more B.zstd_api h input out)
  push_visitor input out SqueezerVariant.zlib_stub = stubbed SqueezerVariant.zlib_stub out
  push_visitor input out SqueezerVariant.zstd_stub = stubbed SqueezerVariant.zstd_stub out

  unfoldable pub swell_visitor : List ℕ → List ℕ → SwellerVariant B → Call (SwellerVariant B)
  swell_visitor input out (SwellerVariant.zlib h) =
      visit SwellerVariant.zlib swollen (ZlibSweller.push_more B.zlib_api h input out)
  swell_visitor input out (SwellerVariant.zstd h) =
      visit SwellerVariant.zstd swollen (ZstdSweller.push_more B.zstd_api h input out)
  swell_visitor input out SwellerVariant.zlib_stub = stubbed SwellerVariant.zlib_stub out
  swell_visitor input out SwellerVariant.zstd_stub = stubbed SwellerVariant.zstd_stub out

  unfoldable pub flush_visitor : List ℕ → SqueezerVariant B → Call (SqueezerVariant B)
  flush_visitor out (SqueezerVariant.zlib h) =
      visit SqueezerVariant.zlib flushed (ZlibSqueezer.flush B.zlib_api h out)
  flush_visitor out (SqueezerVariant.zstd h) =
      visit SqueezerVariant.zstd flushed (ZstdSqueezer.flush B.zstd_api h out)
  flush_visitor out SqueezerVariant.zlib_stub = stubbed SqueezerVariant.zlib_stub out
  flush_visitor out SqueezerVariant.zstd_stub = stubbed SqueezerVariant.zstd_stub out

  unfoldable pub finish_visitor : List ℕ → SqueezerVariant B → Option (Call (SqueezerVariant B))
  finish_visitor out (SqueezerVariant.zlib h) =
      some (visit SqueezerVariant.zlib finished (ZlibSqueezer.finish B.zlib_api h out))
  finish_visitor out (SqueezerVariant.zstd h) =
      map_some (ZstdSqueezer.finish B.zstd_api h out) (visit SqueezerVariant.zstd finished)
  finish_visitor out SqueezerVariant.zlib_stub = some (stubbed SqueezerVariant.zlib_stub out)
  finish_visitor out SqueezerVariant.zstd_stub = some (stubbed SqueezerVariant.zstd_stub out)

  unfoldable pub squeezer_zlib : Format → ZlibLevel → Option (SqueezerVariant B)
  squeezer_zlib f lvl =
      if B.has_zlib
      then map_some (ZlibSqueezer.construct B.zlib_api f lvl) SqueezerVariant.zlib
      else some SqueezerVariant.zlib_stub

  unfoldable pub squeezer_zstd : Format → ZlibLevel → Option (SqueezerVariant B)
  squeezer_zstd f lvl =
      if B.has_zstd
      then map_some (ZstdSqueezer.construct B.zstd_api f (record { as_int = lvl.as_int }))
          SqueezerVariant.zstd
      else some SqueezerVariant.zstd_stub

  unfoldable pub make_squeezer : Format → ZlibLevel → Option (SqueezerVariant B)
  unfolding squeezer_zlib squeezer_zstd
  make_squeezer Format.zstd lvl = squeezer_zstd Format.zstd lvl
  make_squeezer f lvl = squeezer_zlib f lvl

  unfoldable pub sweller_zlib : Format → Option (SwellerVariant B)
  sweller_zlib f =
      if B.has_zlib
      then map_some (ZlibSweller.construct B.zlib_api f) SwellerVariant.zlib
      else some SwellerVariant.zlib_stub

  unfoldable pub sweller_zstd : Format → Option (SwellerVariant B)
  sweller_zstd f =
      if B.has_zstd
      then map_some (ZstdSweller.construct B.zstd_api f) SwellerVariant.zstd
      else some SwellerVariant.zstd_stub

  unfoldable pub make_sweller : Format → Option (SwellerVariant B)
  unfolding sweller_zlib sweller_zstd
  make_sweller Format.zstd = sweller_zstd Format.zstd
  make_sweller f = sweller_zlib f
