-- ===== src/Engine/ZlibShort.antt =====
-- What zlib.h says of inflate with Z_FINISH when the output window is too short for the data: it fills the
-- window, and the stream can go on.
use polliwog.Base.{ℕ, ◌≤◌, ◌<◌, ◌≡◌, List, ◌++◌, length, take}
use polliwog.Base.Int.{ℤ}
use polliwog.Engine.Zlib.{Flush, ZStream, IsAimed, ZlibApi, ZlibLaws}
use polliwog.Engine.ZlibCodec.{ZlibCodec}
use polliwog.Engine.ZlibProgress.{GoesOn}

pub record ZlibShort (Z : ZlibApi) (L : ZlibLaws Z) (K : ZlibCodec Z L) : Type 1 where
  -- Of the stream no more than its bytes are taken.
  pub fills :
      (s : ZStream Z.Internal) (w : ℤ) (d e extra : List ℕ) (v : IsAimed s)
      → K.Fresh w s.state
      → K.Encodes w d e
      → take s.avail_in s.next_in ≡ e ++ extra
      → 0 < s.avail_out
      → s.avail_out < length d
      → let a = L.inflate_accounts s Flush.finish v in
        GoesOn (Z.inflate s Flush.finish).ret × (a.taken ≤ length e) × (a.made ≡ take s.avail_out d)
