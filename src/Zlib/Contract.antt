-- ===== src/Zlib/Contract.antt =====
-- The calls of the zlib backend keep the backend's contract, over any zlib that accounts for what it
-- takes and makes.
use polliwog.Base.{
  ℕ, ◌≤◌, ◌<◌, ◌≡◌, ◌∙◌, ap, List, [], ◌++◌, length, take, drop, arith, take-append, length-append,
  length-drop, drop-append,
}
use polliwog.Base.Words.{u32, u32-le, u32-lt, u64_mod, sub64, sub64-add}
use polliwog.Error.{BackendId}
use polliwog.Backend.Contract.{Keeps, IsContract}
use polliwog.Engine.Zlib.{Flush, ZStream, ZlibCall, ZlibApi, IsAimed, Accounts, ZlibLaws}
use polliwog.Zlib.{aim, consumed, produced}
use polliwog.Zlib.Squeezer
use polliwog.Zlib.Squeezer.{ZlibSqueezer}
use polliwog.Zlib.Sweller
use polliwog.Zlib.Sweller.{ZlibSweller}
use polliwog.Zlib.Facade.{zlib_backend}

-- The two totals are words.
pub record IsCounted {I : Type 0} (s : ZStream I) : Type 0 where
  pub total_in_word : s.total_in < u64_mod
  pub total_out_word : s.total_out < u64_mod

-- What one call on an aimed stream did, in the program's terms.
pub record Moved {I : Type 0} (s : ZStream I) (input out : List ℕ) (c : ZlibCall I) : Type 0 where
  pub taken : ℕ
  pub made : List ℕ
  pub consumed_taken : consumed s c ≡ taken
  pub produced_made : produced s c ≡ length made
  pub taken_fits : taken ≤ u32 (length input)
  pub made_fits : length made ≤ u32 (length out)
  pub memory_written : c.memory ≡ made ++ drop (length made) out
  pub counted : IsCounted c.stream

module _ {I : Type 0} (s : ZStream I) (input out : List ℕ) where
  pub aim-IsAimed : IsAimed (aim s input out)
  aim-IsAimed = record { in_window = u32-le (length input); out_window = u32-le (length out) }

  -- The differences of the wrapping totals are what was taken and made.
  pub Accounts-counts :
      (c : ZlibCall I)
      → IsCounted s
      → (a : Accounts (aim s input out) c)
      → (consumed s c ≡ a.taken) × (produced s c ≡ length a.made)
  Accounts-counts c v a = (
    ap (λ t. sub64 t s.total_in) a.total_in_moves
        ∙ sub64-add s.total_in a.taken v.total_in_word
            (omega (arith, a.taken_fits, u32-lt (length input))),
    ap (λ t. sub64 t s.total_out) a.total_out_moves
        ∙ sub64-add s.total_out (length a.made) v.total_out_word
            (omega (arith, a.made_fits, u32-lt (length out))),
  )

  -- The bytes at the front of the span are those that were made.
  pub Accounts-front :
      (c : ZlibCall I)
      → IsCounted s
      → (a : Accounts (aim s input out) c) → take (produced s c) c.memory ≡ a.made
  Accounts-front c v a =
      rw ((Accounts-counts c v a).1, a.memory_written)
        (take-append a.made (drop (length a.made) out))

  pub Accounts-Moved :
      (c : ZlibCall I) → IsCounted s → Accounts (aim s input out) c → Moved s input out c
  Accounts-Moved c v a = record {
    taken = a.taken;
    made = a.made;
    consumed_taken = (Accounts-counts c v a).0;
    produced_made = (Accounts-counts c v a).1;
    taken_fits = a.taken_fits;
    made_fits = a.made_fits;
    memory_written = a.memory_written;
    counted = record {
      total_in_word = omega (arith, a.total_in_moves);
      total_out_word = omega (arith, a.total_out_moves);
    };
  }

  -- The caller's view: inside both spans, and nothing written past the bytes produced.
  pub Moved-spans :
      (c : ZlibCall I)
      → Moved s input out c
      → (consumed s c ≤ length input)
        × (produced s c ≤ length out)
        × (drop (produced s c) c.memory ≡ drop (produced s c) out)
        × (length c.memory ≡ length out)
  Moved-spans c m = (
    omega (arith, m.consumed_taken, m.taken_fits, u32-le (length input)),
    omega (arith, m.produced_made, m.made_fits, u32-le (length out)),
    rw (m.produced_made, m.memory_written) (drop-append m.made (drop (length m.made) out)),
    ap length m.memory_written
        ∙ omega (
          arith,
          length-append m.made (drop (length m.made) out),
          length-drop (length m.made) out,
          m.made_fits,
          u32-le (length out),
        ),
  )

module _ (Z : ZlibApi) (L : ZlibLaws Z) where
  deflate-Moved :
      (s : ZStream Z.Internal) (input out : List ℕ) (f : Flush)
      → IsCounted s
      → Moved s input out (Z.deflate (aim s input out) f)
  deflate-Moved s input out f v =
      Accounts-Moved s input out _ v
        (L.deflate_accounts (aim s input out) f (aim-IsAimed s input out))

  inflate-Moved :
      (s : ZStream Z.Internal) (input out : List ℕ) (f : Flush)
      → IsCounted s
      → Moved s input out (Z.inflate (aim s input out) f)
  inflate-Moved s input out f v =
      Accounts-Moved s input out _ v
        (L.inflate_accounts (aim s input out) f (aim-IsAimed s input out))

  module _ (h : ZlibSqueezer Z) (input out : List ℕ) (v : IsCounted h.stream) where
    pub push-Keeps :
        Keeps BackendId.zlib input out (Squeezer.push Z h input out)
        × IsCounted (Squeezer.push Z h input out).handle.stream
    unfolding Squeezer.push
    push-Keeps =
        let m = deflate-Moved h.stream input out Flush.finish v in
        let w = Moved-spans h.stream input out _ m in ((w.3, ground arith), m.counted)

    pub push_more-Keeps :
        Keeps BackendId.zlib input out (Squeezer.push_more Z h input out)
        × IsCounted (Squeezer.push_more Z h input out).handle.stream
    unfolding Squeezer.push_more
    push_more-Keeps =
        let m = deflate-Moved h.stream input out Flush.no_flush v in
        let w = Moved-spans h.stream input out _ m in ((w.3, ground arith), m.counted)

  pub flush-Keeps :
      (h : ZlibSqueezer Z) (out : List ℕ)
      → IsCounted h.stream
      → Keeps BackendId.zlib [] out (Squeezer.flush Z h out)
        × IsCounted (Squeezer.flush Z h out).handle.stream
  unfolding Squeezer.flush
  flush-Keeps h out v =
      let m = deflate-Moved h.stream [] out Flush.sync_flush v in
      let w = Moved-spans h.stream [] out _ m in ((w.3, ground arith), m.counted)

  pub finish-Keeps :
      (h : ZlibSqueezer Z) (out : List ℕ)
      → IsCounted h.stream
      → Keeps BackendId.zlib [] out (Squeezer.finish Z h out)
        × IsCounted (Squeezer.finish Z h out).handle.stream
  unfolding Squeezer.finish
  finish-Keeps h out v = push-Keeps h [] out v

  module _ (h : ZlibSweller Z) (input out : List ℕ) (v : IsCounted h.stream) where
    pub swell-Keeps :
        Keeps BackendId.zlib input out (Sweller.push Z h input out)
        × IsCounted (Sweller.push Z h input out).handle.stream
    unfolding Sweller.push
    swell-Keeps =
        let m = inflate-Moved h.stream input out Flush.finish v in
        let w = Moved-spans h.stream input out _ m in ((w.3, ground arith), m.counted)

    pub swell_more-Keeps :
        Keeps BackendId.zlib input out (Sweller.push_more Z h input out)
        × IsCounted (Sweller.push_more Z h input out).handle.stream
    unfolding Sweller.push_more
    swell_more-Keeps =
        let m = inflate-Moved h.stream input out Flush.no_flush v in
        let w = Moved-spans h.stream input out _ m in ((w.3, ground arith), m.counted)

  -- The zlib backend keeps the contract of every backend: a call reports no more than the two spans
  -- hold, leaves the output span alone past the bytes it reports, and its errors carry the id zlib.
  pub zlib_backend-IsContract : IsContract (zlib_backend Z) (λ h. IsCounted h.stream)
  zlib_backend-IsContract = record {
    push_keeps = push-Keeps;
    flush_keeps = flush-Keeps;
    finish_keeps = finish-Keeps;
  }
