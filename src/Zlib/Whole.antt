-- ===== src/Zlib/Whole.antt =====
-- The one-shot calls of the two zlib handles, over a zlib that inflates what it deflates.
use mathlib.Core.List.{append-nil}
use polliwog.Base.{
  ℕ, ◌+◌, ◌%◌, ◌≢◌, ◌∷◌, length-append, ◌≤◌, ◌<◌, ◌≡◌, refl, ap, subst, ◌∙◌, true, false, ltb, List,
  [], ◌++◌, length, take, drop, arith, take-all,
}
use polliwog.Base.Int.{ℤ}
use polliwog.Base.Words.{u32, u32_mod, u64_mod, u32-le, u32-eq_of_lt}
use polliwog.Error.{Kind, value, unexpected}
use polliwog.Backend.{Call}
use polliwog.Engine.Zlib.{stream_end, Flush, ZlibCall, ZlibApi, ZlibLaws}
use polliwog.Engine.ZlibCodec.{ZlibCodec}
use polliwog.Zlib.{aim, consumed, produced, zlib_error}
use polliwog.Zlib.Squeezer
use polliwog.Zlib.Squeezer.{ZlibSqueezer}
use polliwog.Zlib.Sweller
use polliwog.Zlib.Sweller.{ZlibSweller}
use polliwog.Zlib.Contract.{IsCounted, aim-IsAimed, Accounts-counts}

no_leftover : (n : ℕ) → ltb n n ≡ false
no_leftover n = ground arith

leftover : (e extra : List ℕ) → extra ≢ [] → ltb (length e) (length (e ++ extra)) ≡ true
leftover e [] more = absurd (more refl)
leftover e (x ∷ extra) more = ground (arith, length-append e (x ∷ extra))

-- The report and the span of a call that took and made so much and ended the stream.
abbrev pub Completed : {H : Type 0} → ℕ → List ℕ → List ℕ → Call H → Type 0
Completed taken made out c =
    (c.result ≡ value (record { bytes_in = taken; bytes_out = length made; done = true }))
    × (c.out ≡ made ++ drop (length made) out)

module _ (Z : ZlibApi) (L : ZlibLaws Z) (K : ZlibCodec Z L) where
  -- Only the low 32 bits of the input's length reach zlib.
  pub push-Completed :
      (h : ZlibSqueezer Z) (w : ℤ) (input out : List ℕ)
      → IsCounted h.stream
      → K.Deflating w h.stream.state [] []
      → (Z.deflate (aim h.stream input out) Flush.finish).ret ≡ stream_end
      → (made : List ℕ) × Completed (u32 (length input)) made out (Squeezer.push Z h input out)
        × K.Encodes w (take (u32 (length input)) input) made
        × (length made ≤ length out)
  unfolding Squeezer.push
  push-Completed h w input out v p e =
      let s = aim h.stream input out in
      let aimed = aim-IsAimed h.stream input out in
      let a = L.deflate_accounts s Flush.finish aimed in
      let counts = Accounts-counts h.stream input out (Z.deflate s Flush.finish) v a in
      let ended = K.deflate_ends s w [] [] aimed p e in
      (
        a.made,
        (rw (e, counts.0, counts.1, ended.0), a.memory_written),
        subst (λ n. K.Encodes w (take n input) a.made) ended.0 ended.1,
        omega (arith, a.made_fits, u32-le (length out)),
      )

  module _ (h : ZlibSweller Z) (w : ℤ) (d e extra out : List ℕ) (v : IsCounted h.stream)
      (fresh : K.Fresh w h.stream.state) (enc : K.Encodes w d e)
      (small_in : length (e ++ extra) < u32_mod) (small_out : length out < u32_mod)
      (some_out : 0 < length out) (room : length d ≤ length out) where
    abbrev call : ZlibCall Z.Internal
    call = Z.inflate (aim h.stream (e ++ extra) out) Flush.finish

    -- What zlib did with a complete stream that more bytes may follow.
    inflated :
        (call.ret ≡ stream_end)
        × (consumed h.stream call ≡ length e)
        × (produced h.stream call ≡ length d)
        × (call.stream.total_in ≡ (h.stream.total_in + length e) % u64_mod)
        × (call.memory ≡ d ++ drop (length d) out)
    inflated =
        let input = e ++ extra in
        let s = aim h.stream input out in
        let aimed = aim-IsAimed h.stream input out in
        let a = L.inflate_accounts s Flush.finish aimed in
        let counts = Accounts-counts h.stream input out call v a in
        let in_window : take (u32 (length input)) input ≡ input =
          rw (u32-eq_of_lt (length input) small_in) (take-all (length input) input (omega arith)) in
        let whole =
          K.inflate_whole s w d e extra aimed fresh enc in_window some_out
            (omega (arith, u32-eq_of_lt (length out) small_out)) in
        (
          whole.0,
          counts.0 ∙ whole.1,
          counts.1 ∙ ap length whole.2,
          a.total_in_moves ∙ ap (λ n. (h.stream.total_in + n) % u64_mod) whole.1,
          a.memory_written ∙ ap (λ m. m ++ drop (length m) out) whole.2,
        )

    -- Nothing follows the stream: its data.
    pub swell-Completed :
        extra ≡ [] → Completed (length e) d out (Sweller.push Z h (e ++ extra) out)
    unfolding Sweller.push
    swell-Completed none_left =
        let i = inflated in
        let n : length (e ++ extra) ≡ length e = rw none_left (ap length (append-nil e)) in
        (rw (i.0, i.1, i.2, n, no_leftover (length e)), i.4)

    -- Something follows the stream: an error that names the place.
    pub swell-trailing :
        extra ≢ []
        → ((Sweller.push Z h (e ++ extra) out).result
            ≡ unexpected (
                zlib_error Kind.stream_corrupt
                  ((h.stream.total_in + length e) % u64_mod)
                  "extra data after end of stream"))
          × ((Sweller.push Z h (e ++ extra) out).out ≡ d ++ drop (length d) out)
    unfolding Sweller.push
    swell-trailing more = let i = inflated in (rw (i.0, i.1, i.3, leftover e extra more), i.4)
