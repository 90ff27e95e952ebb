-- ===== src/Stream/Compressor.antt =====
-- class compressor of include/polliwog/stream.hpp and src/stream.cpp.
-- A call on an object that was moved from dereferences a null pointer, which is undefined; `none`
-- stands for that too.
use polliwog.Base.{ℕ, List, Option, none, some, Bool, true, false, ◌&&◌, if◌then◌else◌, map_some}
use polliwog.Format.{Format, ZlibLevel}
use polliwog.Backend.{Progress}
use polliwog.Build.{Build}
use polliwog.Squeeze.{level_outside}
use polliwog.Stream.{
  StreamResult, StreamCall, Made, SqueezerVariant, returned, push_visitor, flush_visitor,
  finish_visitor, make_squeezer,
}

-- The pointer to the implementation, which holds the variant.
pub record Compressor (B : Build) : Type 0 where
  pub p : Option (SqueezerVariant B)

-- stream_result{r->bytes_in, r->bytes_out, false}
abbrev pub push_result : Progress → StreamResult
push_result r = record { bytes_consumed = r.bytes_in; bytes_produced = r.bytes_out; done = false }

-- stream_result{0, r->bytes_out, false}
abbrev pub flush_result : Progress → StreamResult
flush_result r = record { bytes_consumed = 0; bytes_produced = r.bytes_out; done = false }

-- stream_result{r->bytes_in, r->bytes_out, true}
abbrev pub finish_result : Progress → StreamResult
finish_result r = record { bytes_consumed = r.bytes_in; bytes_produced = r.bytes_out; done = true }

-- f != format::zstd
abbrev pub not_zstd : Format → Bool
not_zstd Format.zstd = false
not_zstd _ = true

module _ (B : Build) where
  abbrev pub holding : SqueezerVariant B → Compressor B
  holding v = record { p = some v }

  -- compressor(f, lvl)
  unfoldable pub construct : Format → ZlibLevel → Option (Made (Compressor B))
  unfolding level_outside
  construct f lvl =
      if not_zstd f && level_outside lvl
      then some (Made.thrown "level_unsupported: zlib levels are 0-9")
      else map_some (make_squeezer B f lvl) (λ v. Made.made (holding v))

  unfoldable pub push : Compressor B → List ℕ → List ℕ → Option (StreamCall (Compressor B))
  push s input out = map_some s.p (λ v. returned holding push_result (push_visitor B input out v))

  unfoldable pub flush : Compressor B → List ℕ → Option (StreamCall (Compressor B))
  flush s out = map_some s.p (λ v. returned holding flush_result (flush_visitor B out v))

  unfoldable pub finish : Compressor B → List ℕ → Option (StreamCall (Compressor B))
  finish s out = elim s.p [
    | none ↦ none
    | some v ↦ map_some (finish_visitor B out v) (returned holding finish_result)
  ]

  -- compressor(compressor &&): the new object, and what is left of the old one
  unfoldable pub move_construct : Compressor B → Compressor B × Compressor B
  move_construct s = (record { p = s.p }, record { p = none })

  -- operator=(compressor &&), of two objects: the target and the source
  unfoldable pub move_assign : Compressor B → Compressor B → Compressor B × Compressor B
  move_assign s t = (record { p = t.p }, record { p = none })
