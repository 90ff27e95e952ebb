-- ===== src/Engine/ZlibFlushing.antt =====
-- What zlib.h says of Z_SYNC_FLUSH: all pending output is flushed, so that the decompressor can get all of
-- the data that was put in so far. The flush is complete when the call leaves room.
use polliwog.Base.{ℕ, ◌<◌, ◌≡◌, ◌⊎◌, List, ◌++◌, length, take}
use polliwog.Base.Int.{ℤ}
use polliwog.Engine.Zlib.{ok, stream_end, Flush, ZStream, ZlibApi, IsAimed, ZlibLaws}
use polliwog.Engine.ZlibCodec.{ZlibCodec}

pub record ZlibFlushing (Z : ZlibApi) (L : ZlibLaws Z) (K : ZlibCodec Z L) : Type 1 where
  -- window bits, data, bytes: the bytes are a stream up to where a flush was complete, and the data is what
  -- was put in until then
  pub Flushed : ℤ → List ℕ → List ℕ → Type 0
  pub completes :
      (s : ZStream Z.Internal) (w : ℤ) (d e : List ℕ) (v : IsAimed s)
      → K.Deflating w s.state d e
      → (Z.deflate s Flush.sync_flush).ret ≡ ok
      → let a = L.deflate_accounts s Flush.sync_flush v in
        length a.made < s.avail_out
        → (a.taken ≡ s.avail_in) × Flushed w (d ++ take a.taken s.next_in) (e ++ a.made)
  -- From the start of the stream, with room for more than the data.
  pub shows :
      (s : ZStream Z.Internal) (w : ℤ) (d e : List ℕ) (v : IsAimed s)
      → K.Fresh w s.state
      → Flushed w d e
      → take s.avail_in s.next_in ≡ e
      → 0 < s.avail_in
      → length d < s.avail_out
      → let a = L.inflate_accounts s Flush.no_flush v in
        (((Z.inflate s Flush.no_flush).ret ≡ ok) ⊎ ((Z.inflate s Flush.no_flush).ret ≡ stream_end))
        × (a.taken ≡ s.avail_in)
        × (a.made ≡ d)
