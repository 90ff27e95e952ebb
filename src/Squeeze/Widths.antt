-- ===== src/Squeeze/Widths.antt =====
-- What the width of uInt does to the one-shot calls.
use polliwog.Base.{ℕ, ◌≤◌, ◌≡◌, false, List, length, arith, Bool-cases, inl, inr}
use polliwog.Base.Words.{u32-lt, u32_mod}
use polliwog.Format.{Format}
use polliwog.Build.{Build}
use polliwog.Engine.Zlib.{Flush, ZlibLaws}
use polliwog.Zlib.{aim}
use polliwog.Zlib.Contract.{aim-IsAimed}
use polliwog.Squeeze.{swell}
use polliwog.Squeeze.Stages.{Opens}
use polliwog.Squeeze.Swelling.{succeeds, swell-succeeds_iff}

-- The size of the input is cast to uInt: over zlib, swell of an input of 4 GiB or more never succeeds,
-- whatever stream it is and whatever the span.
pub swell-too_long :
    (B : Build) (f : Format) (L : ZlibLaws B.zlib_api) (input out : List ℕ)
    → Opens B f
    → u32_mod ≤ length input
    → succeeds (swell B f input out) ≡ false
swell-too_long B f L input out p long = elim (Bool-cases (succeeds (swell B f input out))) [
  | inr fails ↦ fails
  | inl passes ↦
      let s = p.handle.stream in
      let a = L.inflate_accounts (aim s input out) Flush.finish (aim-IsAimed s input out) in
      let all = ((swell-succeeds_iff B f L input out p).0 passes).1 in
      absurd (omega (arith, all, a.taken_fits, u32-lt (length input), long))
]
