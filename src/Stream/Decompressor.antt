-- ===== src/Stream/Decompressor.antt =====
-- class decompressor of include/polliwog/stream.hpp and src/stream.cpp.
-- A call on an object that was moved from dereferences a null pointer, which is undefined; `none`
-- stands for that too.
use polliwog.Base.{ℕ, List, Option, none, some, map_some}
use polliwog.Format.{Format}
use polliwog.Backend.{Progress}
use polliwog.Build.{Build}
use polliwog.Stream.{
  StreamResult, StreamCall, SwellerVariant, returned, swell_visitor, make_sweller,
}

-- The pointer to the implementation, which holds the variant.
pub record Decompressor (B : Build) : Type 0 where
  pub p : Option (SwellerVariant B)

-- stream_result{r->bytes_in, r->bytes_out, r->done}
abbrev pub push_result : Progress → StreamResult
push_result r = record { bytes_consumed = r.bytes_in; bytes_produced = r.bytes_out; done = r.done }

module _ (B : Build) where
  abbrev pub holding : SwellerVariant B → Decompressor B
  holding v = record { p = some v }

  -- decompressor(f)
  unfoldable pub construct : Format → Option (Decompressor B)
  construct f = map_some (make_sweller B f) holding

  unfoldable pub push : Decompressor B → List ℕ → List ℕ → Option (StreamCall (Decompressor B))
  push s input out = map_some s.p (λ v. returned holding push_result (swell_visitor B input out v))

  -- decompressor(decompressor &&): the new object, and what is left of the old one
  unfoldable pub move_construct : Decompressor B → Decompressor B × Decompressor B
  move_construct s = (record { p = s.p }, record { p = none })

  -- operator=(decompressor &&), of two objects: the target and the source
  unfoldable pub move_assign : Decompressor B → Decompressor B → Decompressor B × Decompressor B
  move_assign s t = (record { p = t.p }, record { p = none })
