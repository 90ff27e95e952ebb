-- ===== src/Engine/ZlibCodec.antt =====
-- What zlib promises about contents, beyond the accounting of `ZlibLaws`: a stream in the making, a
-- complete stream, and that inflating a complete stream gives the data back.
use polliwog.Base.{ℕ, ◌≤◌, ◌<◌, ◌≡◌, ◌⊎◌, List, [], ◌++◌, Option, length, take, set}
use polliwog.Base.Int.{ℤ, pos}
use polliwog.Engine.Zlib.{ok, stream_end, buf_error, Flush, ZStream, ZlibApi, IsAimed, ZlibLaws}

pub record ZlibCodec (Z : ZlibApi) (L : ZlibLaws Z) : Type 1 where
  -- window bits, data, stream: the stream is complete, in the container that the window bits select,
  -- and holds the data
  pub Encodes : ℤ → List ℕ → List ℕ → Type 0
  -- window bits, state, data, bytes: the state has taken the data and made the bytes so far
  pub Deflating : ℤ → Option Z.Internal → List ℕ → List ℕ → Type 0
  -- window bits, state: the state is ready to inflate from the first byte of a stream
  pub Fresh : ℤ → Option Z.Internal → Type 0
  pub deflate_starts :
      (s : ZStream Z.Internal) (level w : ℤ) (mem_level : ℕ)
      → (Z.deflate_init2 s level w mem_level).0 ≡ ok
      → Deflating w (Z.deflate_init2 s level w mem_level).1.state [] []
  pub inflate_starts :
      (s : ZStream Z.Internal) (w : ℤ)
      → (Z.inflate_init2 s w).0 ≡ ok
      → Fresh w (Z.inflate_init2 s w).1.state
  -- A call that goes on has taken and made what it accounts for.
  pub deflate_goes_on :
      (s : ZStream Z.Internal) (f : Flush) (w : ℤ) (d e : List ℕ) (v : IsAimed s)
      → Deflating w s.state d e
      → (Z.deflate s f).ret ≡ ok ⊎ (Z.deflate s f).ret ≡ buf_error
      → let a = L.deflate_accounts s f v in
        Deflating w (Z.deflate s f).stream.state (d ++ take a.taken s.next_in) (e ++ a.made)
  -- Z_STREAM_END means that all input was taken and that the bytes are a complete stream.
  pub deflate_ends :
      (s : ZStream Z.Internal) (w : ℤ) (d e : List ℕ) (v : IsAimed s)
      → Deflating w s.state d e
      → (Z.deflate s Flush.finish).ret ≡ stream_end
      → let a = L.deflate_accounts s Flush.finish v in
        (a.taken ≡ s.avail_in) × Encodes w (d ++ take a.taken s.next_in) (e ++ a.made)
  -- A complete stream at the front of the input window, an output pointer that is not Z_NULL and
  -- room for its data: the data, and Z_STREAM_END, with what follows the stream left alone.
  pub inflate_whole :
      (s : ZStream Z.Internal) (w : ℤ) (d e extra : List ℕ) (v : IsAimed s)
      → Fresh w s.state
      → Encodes w d e
      → take s.avail_in s.next_in ≡ e ++ extra
      → 0 < length s.next_out
      → length d ≤ s.avail_out
      → let a = L.inflate_accounts s Flush.finish v in
        ((Z.inflate s Flush.finish).ret ≡ stream_end) × (a.taken ≡ length e) × (a.made ≡ d)
  -- The OS byte of a gzip header says nothing about the data (RFC 1952, 2.3.1).
  pub gzip_os_free :
      (d e : List ℕ) (b : ℕ) → Encodes (pos 31) d e → 10 ≤ length e → Encodes (pos 31) d (set e 9 b)

-- What src/detail/zlib.cpp says of compressBound: from the start of a stream, in the container of these
-- window bits and at the memory level 8 that the program asks for, an output window of so many bytes is
-- enough for the whole stream.
pub record HonestBound (Z : ZlibApi) (w : ℤ) : Type 0 where
  pub whole_fits :
      (s₀ s : ZStream Z.Internal) (level : ℤ)
      → (Z.deflate_init2 s₀ level w 8).0 ≡ ok
      → s.state ≡ (Z.deflate_init2 s₀ level w 8).1.state
      → IsAimed s
      → Z.compress_bound s.avail_in ≤ s.avail_out
      → (Z.deflate s Flush.finish).ret ≡ stream_end
