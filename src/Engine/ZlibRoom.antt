-- ===== src/Engine/ZlibRoom.antt =====
-- The room that a stream needs which is deflated with Z_NO_FLUSH and Z_FINISH only, from the level 6 and
-- the memory level 8 that its clients ask for. zlib.h says of deflateBound that it is enough then, however the data is cut; with
-- these and for the zlib container compressBound is the same number.
use polliwog.Base.{ℕ, ◌+◌, ◌≤◌, ◌<◌, ◌≡◌, Option, length}
use polliwog.Base.Int.{ℤ, pos}
use polliwog.Engine.Zlib.{ok, stream_end, Flush, ZStream, ZlibApi, IsAimed, ZlibLaws}

pub record ZlibRoom (Z : ZlibApi) (L : ZlibLaws Z) (w : ℤ) : Type 1 where
  -- state, taken, made: the state has taken and made so many bytes, and was not flushed
  pub Plain : Option Z.Internal → ℕ → ℕ → Type 0
  pub starts :
      (s : ZStream Z.Internal)
      → (Z.deflate_init2 s (pos 6) w 8).0 ≡ ok
      → Plain (Z.deflate_init2 s (pos 6) w 8).1.state 0 0
  -- Where the bound for a total fits, input within the total is taken whole,
  pub takes :
      (s : ZStream Z.Internal) (n m total : ℕ) (v : IsAimed s)
      → Plain s.state n m
      → 0 < s.avail_in
      → n + s.avail_in ≤ total
      → Z.compress_bound total ≤ m + s.avail_out
      → let c = Z.deflate s Flush.no_flush in
        let a = L.deflate_accounts s Flush.no_flush v in
        (c.ret ≡ ok)
        × (a.taken ≡ s.avail_in)
        × Plain c.stream.state (n + a.taken) (m + length a.made)
  -- and the stream can end.
  pub ends :
      (s : ZStream Z.Internal) (n m total : ℕ)
      → IsAimed s
      → Plain s.state n m
      → n + s.avail_in ≤ total
      → Z.compress_bound total ≤ m + s.avail_out
      → (Z.deflate s Flush.finish).ret ≡ stream_end
