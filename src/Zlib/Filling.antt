-- ===== src/Zlib/Filling.antt =====
-- zlib_squeezer::push_more and finish, on a span with room for the whole stream.
use mathlib.Core.List.{append-nil}
use polliwog.Base.{
  ℕ, ◌+◌, ◌≤◌, ◌<◌, ◌≡◌, ◌∙◌, ap, subst, refl, inl, true, false, List, some, [], ◌++◌, length, take,
  arith, take-all, length-append,
}
use polliwog.Base.Int.{ℤ}
use polliwog.Base.Words.{u32, u32_mod, u32-le, u32-eq_of_lt}
use polliwog.Error.{value}
use polliwog.Format.ZlibAnchors
use polliwog.Format.{Format}
use polliwog.Engine.Zlib.{Flush, ZlibApi, ZlibLaws}
use polliwog.Engine.ZlibCodec.{ZlibCodec}
use polliwog.Engine.ZlibRoom.{ZlibRoom}
use polliwog.Zlib.{aim, window_bits_for, zeroed, consumed, produced}
use polliwog.Zlib.Contract.{
  IsCounted, aim-IsAimed, Accounts-counts, Accounts-front, push_more-Keeps,
}
use polliwog.Zlib.Inits.{construct_inits, construct-IsCounted}
use polliwog.Zlib.Squeezer.{ZlibSqueezer, construct, push_more, push, finish}

module _ (Z : ZlibApi) (L : ZlibLaws Z) (K : ZlibCodec Z L) (w : ℤ) (R : ZlibRoom Z L w) where
  -- The handle's stream took the data and made the bytes, and was not flushed.
  pub record Filling (d e : List ℕ) (h : ZlibSqueezer Z) : Type 0 where
    pub counted : IsCounted h.stream
    pub deflating : K.Deflating w h.stream.state d e
    pub plain : R.Plain h.stream.state (length d) (length e)

  module _ (h : ZlibSqueezer Z) (out d e : List ℕ) (total : ℕ) (v : Filling d e h)
      (small_out : length out < u32_mod)
      (room : Z.compress_bound total ≤ length e + length out) where
    wide_out : u32 (length out) ≡ length out
    wide_out = u32-eq_of_lt (length out) small_out

    -- Input within the total is taken whole.
    pub push_more-Filling :
        (input : List ℕ)
        → 0 < length input
        → length input < u32_mod
        → length d + length input ≤ total
        → let q = push_more Z h input out in
          (n : ℕ) × (q.result
            ≡ value (record { bytes_in = length input; bytes_out = n; done = false }))
          × Filling (d ++ input) (e ++ take n q.out) q.handle
    unfolding push_more
    push_more-Filling input some_in small_in inside =
        let s = aim h.stream input out in
        let aimed = aim-IsAimed h.stream input out in
        let c = Z.deflate s Flush.no_flush in
        let a = L.deflate_accounts s Flush.no_flush aimed in
        let counts = Accounts-counts h.stream input out c v.counted a in
        let front = Accounts-front h.stream input out c v.counted a in
        let wide_in = u32-eq_of_lt (length input) small_in in
        let (ret, taken, plain) =
          R.takes s (length d) (length e) total aimed v.plain (omega (arith, wide_in, some_in))
            (omega (arith, wide_in, inside)) (omega (arith, wide_out, room)) in
        let all : consumed h.stream c ≡ length input = counts.0 ∙ taken ∙ wide_in in
        let all_of : take a.taken input ≡ input =
          take-all a.taken input (omega (arith, taken, wide_in)) in
        let deflating = K.deflate_goes_on s Flush.no_flush w d e aimed v.deflating (inl ret) in
        let lengths : (length d + a.taken ≡ length (d ++ input))
            × (length e + length a.made ≡ length (e ++ a.made)) =
          (
            omega (arith, length-append d input, taken, wide_in),
            omega (arith, length-append e a.made),
          ) in
        (
          produced h.stream c,
          rw (ret, all) refl,
          record {
            counted = (push_more-Keeps Z L h input out v.counted).1;
            deflating = rw front (rw all_of at deflating);
            plain = rw front (rw (lengths.0, lengths.1) at plain);
          },
        )

    -- The stream ends in the span.
    pub finish-Filling :
        length d ≤ total
        → let q = finish Z h out in
          (n : ℕ) × (q.result ≡ value (record { bytes_in = 0; bytes_out = n; done = true }))
          × K.Encodes w d (e ++ take n q.out)
    unfolding finish push
    finish-Filling inside =
        let s = aim h.stream [] out in
        let aimed = aim-IsAimed h.stream [] out in
        let c = Z.deflate s Flush.finish in
        let a = L.deflate_accounts s Flush.finish aimed in
        let counts = Accounts-counts h.stream [] out c v.counted a in
        let front = Accounts-front h.stream [] out c v.counted a in
        let none_in : u32 0 ≤ 0 = u32-le 0 in
        let ret =
          R.ends s (length d) (length e) total aimed v.plain (omega (arith, none_in, inside))
            (omega (arith, wide_out, room)) in
        let nothing : a.taken ≡ 0 = omega (arith, none_in, a.taken_fits) in
        let same : d ++ take a.taken [] ≡ d =
          ap (λ t. d ++ t) (take-all a.taken [] (omega arith)) ∙ append-nil d in
        let zero_in : consumed h.stream c ≡ 0 = counts.0 ∙ nothing in
        (
          produced h.stream c,
          rw (ret, zero_in) refl,
          rw front (
              subst (λ t. K.Encodes w t (e ++ a.made)) same
                (K.deflate_ends s w d e aimed v.deflating ret).1),
        )

-- A new handle of the default level is at the start.
pub construct-Filling :
    (Z : ZlibApi) (L : ZlibLaws Z) (K : ZlibCodec Z L) (f : Format)
    (R : ZlibRoom Z L (window_bits_for f)) (h : ZlibSqueezer Z)
    → construct Z f ZlibAnchors.default_level ≡ some h
    → Filling Z L K (window_bits_for f) R [] [] h
construct-Filling Z L K f R h made =
    let lvl = ZlibAnchors.default_level in
    let r = construct_inits Z f lvl h made in
    record {
      counted = construct-IsCounted Z L f lvl h made;
      deflating = rw r.1 (K.deflate_starts zeroed lvl.as_int (window_bits_for f) 8 r.0);
      plain = rw r.1 (R.starts zeroed r.0);
    }
