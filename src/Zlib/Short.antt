-- ===== src/Zlib/Short.antt =====
-- zlib_sweller::push of a complete stream into a span that is too short for its data.
use mathlib.Core.List.{append-nil}
use polliwog.Base.{
  ℕ, ◌≤◌, ◌<◌, ◌≡◌, ◌⊎◌, refl, inl, inr, ap, ◌∙◌, false, Bool-cases, List, [], ◌∷◌, ◌++◌, length,
  take, drop, ltb, arith, take-all, length-take, length-append, drop-all,
}
use polliwog.Base.Int.{ℤ}
use polliwog.Base.Words.{u32, u32_mod, u32-eq_of_lt}
use polliwog.Error.{Kind, value, unexpected}
use polliwog.Engine.Zlib.{Flush, ZlibApi, ZlibLaws}
use polliwog.Engine.ZlibCodec.{ZlibCodec}
use polliwog.Engine.ZlibShort.{ZlibShort}
use polliwog.Zlib.{aim, consumed, zlib_error}
use polliwog.Zlib.Contract.{IsCounted, aim-IsAimed, Accounts-counts}
use polliwog.Zlib.Sweller
use polliwog.Zlib.Sweller.{ZlibSweller}

-- Nothing follows what was taken whole.
no_extra :
    (n : ℕ) (e extra : List ℕ) → n ≤ length e → ltb n (length (e ++ extra)) ≡ false → extra ≡ []
no_extra n e [] h f = refl
no_extra n e (x ∷ extra) h f = absurd (ground (arith, length-append e (x ∷ extra)))

module _ (Z : ZlibApi) (L : ZlibLaws Z) (K : ZlibCodec Z L) (F : ZlibShort Z L K) where
  -- The span is filled with the front of the data. The call is refused as buffer_too_small, unless zlib
  -- took all of the input.
  pub push-Short :
      (h : ZlibSweller Z) (w : ℤ) (d e extra out : List ℕ)
      → IsCounted h.stream
      → K.Fresh w h.stream.state
      → K.Encodes w d e
      → length (e ++ extra) < u32_mod
      → 0 < length out
      → length out < length d
      → length out < u32_mod
      → let c = Sweller.push Z h (e ++ extra) out in
        (c.out ≡ take (length out) d)
        × ((c.result ≡ unexpected (zlib_error Kind.buffer_too_small 0 ""))
            ⊎ ((extra ≡ [])
                × (c.result
                    ≡ value
                        (record { bytes_in = length e; bytes_out = length out; done = false }))))
  unfolding Sweller.push
  push-Short h w d e extra out v fresh enc small_in some_out short small_out =
      let input = e ++ extra in
      let s = aim h.stream input out in
      let aimed = aim-IsAimed h.stream input out in
      let c = Z.inflate s Flush.finish in
      let a = L.inflate_accounts s Flush.finish aimed in
      let counts = Accounts-counts h.stream input out c v a in
      let wide = u32-eq_of_lt (length out) small_out in
      let in_window : take (u32 (length input)) input ≡ input =
        rw (u32-eq_of_lt (length input) small_in) (take-all (length input) input (omega arith)) in
      let fill =
        F.fills s w d e extra aimed fresh enc in_window (omega (arith, wide))
          (omega (arith, wide)) in
      let takes : a.made ≡ take (length out) d = fill.2 ∙ ap (λ n. take n d) wide in
      let size : length a.made ≡ length out =
        ap length takes ∙ omega (arith, length-take (length out) d, short) in
      let none_left : drop (length a.made) out ≡ [] = drop-all _ out (omega (arith, size)) in
      (
        a.memory_written ∙ rw (none_left, append-nil a.made) takes,
        elim (Bool-cases (ltb (consumed h.stream c) (length input))) [
          | inl more ↦ inl (elim fill.0 [
            | inl goes_on ↦ rw (goes_on, more) refl
            | inr stopped ↦ rw (stopped, more) refl
          ])
          | inr whole ↦
              let n : consumed h.stream c ≤ length e = omega (arith, counts.0, fill.1) in
              let full : consumed h.stream c ≡ length e =
                ground (arith, n, whole, length-append e extra) in
              inr (
                no_extra (consumed h.stream c) e extra n whole,
                elim fill.0 [
                  | inl goes_on ↦ rw (goes_on, whole, full, counts.1, size) refl
                  | inr stopped ↦ rw (stopped, whole, full, counts.1, size) refl
                ],
              )
        ],
      )
