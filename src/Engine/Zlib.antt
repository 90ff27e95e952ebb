-- ===== src/Engine/Zlib.antt =====
-- zlib.h, as far as src/detail/zlib.cpp uses it. The library is a parameter, with its documented
-- behaviour as named hypotheses.
use polliwog.Base.{ℕ, ◌+◌, ◌%◌, ◌≤◌, ◌≡◌, List, Option, ◌++◌, length, drop}
use polliwog.Base.Int.{ℤ}
use polliwog.Base.Words.{u64_mod}

-- The return codes that the program tells apart: Z_OK, Z_STREAM_END, Z_BUF_ERROR, and any other.
pub data ZlibCode : Type 0 where
  ok : ZlibCode
  stream_end : ZlibCode
  buf_error : ZlibCode
  other : ℤ → ZlibCode

-- Z_NO_FLUSH, Z_SYNC_FLUSH, Z_FINISH
pub data Flush : Type 0 where
  no_flush : Flush
  sync_flush : Flush
  finish : Flush

-- struct z_stream_s. A pointer into a span is the list of the bytes from there on, and Z_NULL is the
-- empty list. `state` is `none` while the pointer to the library's own state is zero.
pub record ZStream (I : Type 0) : Type 0 where
  pub next_in : List ℕ
  pub avail_in : ℕ
  pub total_in : ℕ
  pub next_out : List ℕ
  pub avail_out : ℕ
  pub total_out : ℕ
  pub state : Option I

-- What `deflate` and `inflate` leave: the code, the stream, and the bytes where `next_out` pointed
-- when the call was made.
pub record ZlibCall (I : Type 0) : Type 0 where
  pub ret : ZlibCode
  pub stream : ZStream I
  pub memory : List ℕ

pub record ZlibApi : Type 1 where
  pub Internal : Type 0
  -- level, window bits, memory level; the method and the strategy are always the same
  pub deflate_init2 : ZStream Internal → ℤ → ℤ → ℕ → ZlibCode × ZStream Internal
  pub deflate : ZStream Internal → Flush → ZlibCall Internal
  pub inflate_init2 : ZStream Internal → ℤ → ZlibCode × ZStream Internal
  pub inflate : ZStream Internal → Flush → ZlibCall Internal
  pub compress_bound : ℕ → ℕ

-- The windows that a stream names lie inside the memory that its pointers reach.
pub record IsAimed {I : Type 0} (s : ZStream I) : Type 0 where
  pub in_window : s.avail_in ≤ length s.next_in
  pub out_window : s.avail_out ≤ length s.next_out

-- A call takes bytes from the front of the input window, writes bytes to the front of the output
-- window, and moves the two totals by as much (they are `uLong`, and wrap).
pub record Accounts {I : Type 0} (s : ZStream I) (c : ZlibCall I) : Type 0 where
  pub taken : ℕ
  pub made : List ℕ
  pub taken_fits : taken ≤ s.avail_in
  pub made_fits : length made ≤ s.avail_out
  pub total_in_moves : c.stream.total_in ≡ (s.total_in + taken) % u64_mod
  pub total_out_moves : c.stream.total_out ≡ (s.total_out + length made) % u64_mod
  pub memory_written : c.memory ≡ made ++ drop (length made) s.next_out

pub record ZlibLaws (Z : ZlibApi) : Type 0 where
  pub deflate_accounts :
      (s : ZStream Z.Internal) (f : Flush) → IsAimed s → Accounts s (Z.deflate s f)
  pub inflate_accounts :
      (s : ZStream Z.Internal) (f : Flush) → IsAimed s → Accounts s (Z.inflate s f)
  -- the initialisers set both totals to zero
  pub deflate_init2_total :
      (s : ZStream Z.Internal) (level window_bits : ℤ) (mem_level : ℕ)
      → (Z.deflate_init2 s level window_bits mem_level).0 ≡ ok
      → let t = (Z.deflate_init2 s level window_bits mem_level).1 in
        (t.total_in ≡ 0) × (t.total_out ≡ 0)
  pub inflate_init2_total :
      (s : ZStream Z.Internal) (window_bits : ℤ)
      → (Z.inflate_init2 s window_bits).0 ≡ ok
      → let t = (Z.inflate_init2 s window_bits).1 in (t.total_in ≡ 0) × (t.total_out ≡ 0)
