-- ===== src/Engine/ZlibInflating.antt =====
-- What zlib promises of a stream that is inflated by several calls, beyond `ZlibCodec`.
use polliwog.Base.{ℕ, ◌<◌, ◌≡◌, ◌⊎◌, List, [], ◌++◌, Option, length, take}
use polliwog.Base.Int.{ℤ}
use polliwog.Engine.Zlib.{ok, stream_end, buf_error, Flush, ZStream, ZlibApi, IsAimed, ZlibLaws}
use polliwog.Engine.ZlibCodec.{ZlibCodec}

pub record ZlibInflating (Z : ZlibApi) (L : ZlibLaws Z) (K : ZlibCodec Z L) : Type 1 where
  -- window bits, state, data, stream, bytes taken, bytes made: the state is inside the complete stream,
  -- which holds the data
  pub Inflating : ℤ → Option Z.Internal → List ℕ → List ℕ → List ℕ → List ℕ → Type 0
  pub starts :
      (w : ℤ) (state : Option Z.Internal) (d e : List ℕ)
      → K.Fresh w state
      → K.Encodes w d e
      → Inflating w state d e [] []
  -- What was made is the front of the data.
  pub of_data :
      (w : ℤ) (state : Option Z.Internal) (d e x y : List ℕ)
      → Inflating w state d e x y
      → (left : List ℕ) × (y ++ left ≡ d)
  -- An input window that agrees with the stream as far as both go, and an output pointer that is not Z_NULL:
  -- Z_STREAM_END says that the stream was
  -- taken to its end and that all of the data is made; until then the state stays inside the stream, and
  -- the code is not that of an error.
  pub stays :
      (s : ZStream Z.Internal) (w : ℤ) (d e x y rest extra : List ℕ) (v : IsAimed s)
      → Inflating w s.state d e x y
      → x ++ (take s.avail_in s.next_in ++ rest) ≡ e ++ extra
      → 0 < length s.next_out
      → let c = Z.inflate s Flush.no_flush in
        let a = L.inflate_accounts s Flush.no_flush v in
        ((c.ret ≡ stream_end) × (x ++ take a.taken s.next_in ≡ e) × (y ++ a.made ≡ d))
        ⊎ ((c.ret ≡ ok ⊎ c.ret ≡ buf_error)
            × Inflating w c.stream.state d e (x ++ take a.taken s.next_in) (y ++ a.made))
