-- ===== src/Engine/ZlibProgress.antt =====
-- What zlib says of how far a call goes: deflate and inflate process as much as they can, and stop when the
-- input window is empty or the output window is full; and what is made is bounded by what was taken.
use polliwog.Base.{ℕ, ◌+◌, ◌*◌, ◌≤◌, ◌≡◌, ◌⊎◌, Option, length}
use polliwog.Base.Int.{ℤ, pos}
use polliwog.Engine.Zlib.{
  ZlibCode, ok, buf_error, Flush, ZStream, ZlibCall, IsAimed, Accounts, ZlibApi, ZlibLaws,
}

-- Z_OK, and Z_BUF_ERROR, after which a stream can go on.
abbrev pub GoesOn : ZlibCode → Type 0
GoesOn c = c ≡ ok ⊎ c ≡ buf_error

-- The same for the two calls; `limit` bounds what is made from so many bytes.
pub record Moving {I : Type 0} (call : ZStream I → ZlibCall I)
    (accounts : (s : ZStream I) → IsAimed s → Accounts s (call s)) (limit : ℕ → ℕ) : Type 1 where
  -- state, taken, made: the calls on the state took and made so many bytes
  pub Moved : Option I → ℕ → ℕ → Type 0
  pub goes_on :
      (s : ZStream I) (n m : ℕ) (v : IsAimed s)
      → Moved s.state n m
      → GoesOn (call s).ret
      → let a = accounts s v in Moved (call s).stream.state (n + a.taken) (m + length a.made)
  pub stops :
      (s : ZStream I) (n m : ℕ) (v : IsAimed s)
      → Moved s.state n m
      → GoesOn (call s).ret
      → let a = accounts s v in (a.taken ≡ s.avail_in) ⊎ (length a.made ≡ s.avail_out)
  pub limited : (state : Option I) (n m total : ℕ) → Moved state n m → n ≤ total → m ≤ limit total

pub record ZlibProgress (Z : ZlibApi) (L : ZlibLaws Z) (w : ℤ) : Type 1 where
  -- At the level 6 and the memory level 8 that the program's clients ask for, compressBound is an upper bound on what is made from so
  -- many bytes without a flush (in the zlib container it is the number of deflateBound then).
  pub deflating :
      Moving
        (λ s. Z.deflate s Flush.no_flush)
        (λ s v. L.deflate_accounts s Flush.no_flush v)
        Z.compress_bound
  pub deflate_starts :
      (s : ZStream Z.Internal)
      → (Z.deflate_init2 s (pos 6) w 8).0 ≡ ok
      → deflating.Moved (Z.deflate_init2 s (pos 6) w 8).1.state 0 0
  -- The deflate format expands by a factor of 1032 at most: 258 bytes for two bits.
  pub inflating :
      Moving
        (λ s. Z.inflate s Flush.no_flush)
        (λ s v. L.inflate_accounts s Flush.no_flush v)
        (λ n. 1032 * n)
  pub inflate_starts :
      (s : ZStream Z.Internal)
      → (Z.inflate_init2 s w).0 ≡ ok
      → inflating.Moved (Z.inflate_init2 s w).1.state 0 0
