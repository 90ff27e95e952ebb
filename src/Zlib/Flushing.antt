-- ===== src/Zlib/Flushing.antt =====
-- zlib_squeezer::flush makes what was pushed visible to zlib_sweller::push_more.
use mathlib.Core.List.{append-nil}
use polliwog.Base.{
  ℕ, ◌<◌, ◌≡◌, ◌∙◌, ap, subst, refl, inl, inr, Bool, false, true, List, [], ◌++◌, length, take,
  arith, take-all,
}
use polliwog.Base.Int.{ℤ}
use polliwog.Base.Words.{u32_mod, u32-eq_of_lt}
use polliwog.Error.{value}
use polliwog.Engine.Zlib.{ok, Flush, ZlibApi, ZlibLaws}
use polliwog.Engine.ZlibCodec.{ZlibCodec}
use polliwog.Engine.ZlibFlushing.{ZlibFlushing}
use polliwog.Zlib.{aim, consumed, produced}
use polliwog.Zlib.Contract.{IsCounted, aim-IsAimed, Accounts-counts, Accounts-front}
use polliwog.Zlib.Squeezer.{ZlibSqueezer}
use polliwog.Zlib.Sweller as ZlibSweller
use polliwog.Zlib.Sweller.{ZlibSweller}

module _ (Z : ZlibApi) (L : ZlibLaws Z) (K : ZlibCodec Z L) (F : ZlibFlushing Z L K) (w : ℤ)
    (d : List ℕ) where
  -- A flush that leaves room is complete.
  pub flush-Flushed :
      (h : ZlibSqueezer Z) (e out : List ℕ)
      → IsCounted h.stream
      → K.Deflating w h.stream.state d e
      → length out < u32_mod
      → let c = Z.deflate (aim h.stream [] out) Flush.sync_flush in
        c.ret ≡ ok
        → produced h.stream c < length out
        → F.Flushed w d (e ++ take (produced h.stream c) c.memory)
  flush-Flushed h e out v deflating small_out ret room =
      let s = aim h.stream [] out in
      let aimed = aim-IsAimed h.stream [] out in
      let c = Z.deflate s Flush.sync_flush in
      let a = L.deflate_accounts s Flush.sync_flush aimed in
      let counts = Accounts-counts h.stream [] out c v a in
      let front = Accounts-front h.stream [] out c v a in
      let t =
        F.completes s w d e aimed deflating ret
          (omega (arith, counts.1, u32-eq_of_lt (length out) small_out, room)) in
      let same : d ++ take a.taken [] ≡ d =
        ap (λ t. d ++ t) (take-all a.taken [] (omega arith)) ∙ append-nil d in
      rw front (subst (λ t. F.Flushed w t (e ++ a.made)) same t.1)

  -- A push of what was flushed, into a span with more room than the data needs, gives all of the data.
  pub push_more-Shows :
      (h : ZlibSweller Z) (input out : List ℕ)
      → IsCounted h.stream
      → K.Fresh w h.stream.state
      → F.Flushed w d input
      → 0 < length input
      → length input < u32_mod
      → length d < length out
      → length out < u32_mod
      → let q = ZlibSweller.push_more Z h input out in
        (n : ℕ) × (b : Bool) × (q.result
          ≡ value (record { bytes_in = length input; bytes_out = n; done = b }))
        × (take n q.out ≡ d)
  unfolding ZlibSweller.push_more
  push_more-Shows h input out v fresh flushed some_in small_in room small_out =
      let s = aim h.stream input out in
      let aimed = aim-IsAimed h.stream input out in
      let c = Z.inflate s Flush.no_flush in
      let a = L.inflate_accounts s Flush.no_flush aimed in
      let counts = Accounts-counts h.stream input out c v a in
      let front = Accounts-front h.stream input out c v a in
      let wide_in = u32-eq_of_lt (length input) small_in in
      let wide_out = u32-eq_of_lt (length out) small_out in
      let t =
        F.shows s w d input aimed fresh flushed (take-all s.avail_in input (omega (arith, wide_in)))
          (omega (arith, wide_in, some_in)) (omega (arith, wide_out, room)) in
      let all : consumed h.stream c ≡ length input = counts.0 ∙ t.1 ∙ wide_in in
      elim t.0 [
        | inl goes_on ↦ (produced h.stream c, false, rw (goes_on, all) refl, front ∙ t.2)
        | inr ended ↦ (produced h.stream c, true, rw (ended, all) refl, front ∙ t.2)
      ]
