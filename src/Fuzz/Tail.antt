-- ===== src/Fuzz/Tail.antt =====
-- What the streaming fuzz target decompresses.
use polliwog.Base.{
  ℕ, zero, suc, ◌+◌, ◌-◌, ◌≤◌, ◌<◌, ◌≡◌, refl, sym, ap, subst, ◌∙◌, inl, inr, true, false, List, [],
  ◌++◌, some, length, take, drop, replicate, ltb, ◌==◌, arith, Bool-cases, get_elem?-some,
  length-take, length-drop, length-replicate, take-add, take-all,
}
use polliwog.Format.{Format}
use polliwog.Format.ZlibAnchors
use polliwog.Build.{Build}
use polliwog.Engine.Zlib.{ZlibLaws}
use polliwog.Engine.ZlibCodec.{ZlibCodec}
use polliwog.Engine.ZlibRoom.{ZlibRoom}
use polliwog.Zlib.{window_bits_for}
use polliwog.Zlib.Contract.{push_more-Keeps}
use polliwog.Zlib.Squeezer as ZlibSqueezer
use polliwog.Zlib.Squeezer.{ZlibSqueezer}
use polliwog.Zlib.Filling.{Filling, push_more-Filling, finish-Filling, construct-Filling}
use polliwog.Error.{value}
use polliwog.Stream.{StreamCall, StreamResult, SqueezerVariant}
use polliwog.Stream.Steps.{Session}
use polliwog.Stream.Calls.{construct_squeezer_value, push_value, finish_value}
use polliwog.Stream.Compressor
use polliwog.Stream.Compressor.{Compressor}
use polliwog.Fuzz.Streaming.{
  Pushed, capacity, chunk_size, push_loop, decompress, finish_and_swell, compress, test_one_stream,
}
use polliwog.Fuzz.Rounds.{chunk-le, push_loop-round}

module _ (B : Build) (L : ZlibLaws B.zlib_api) (K : ZlibCodec B.zlib_api L)
    (R : ZlibRoom B.zlib_api L (window_bits_for Format.zlib)) (input : List ℕ)
    (h₀ : ZlibSqueezer B.zlib_api)
    (room : B.zlib_api.compress_bound (length input) ≤ capacity) where
  abbrev Filled : ℕ → List ℕ → ZlibSqueezer B.zlib_api → Type 0
  Filled pos e h = Filling B.zlib_api L K (window_bits_for Format.zlib) R (take pos input) e h

  -- The compressor after pushes that took and made so much.
  abbrev Fed : List ℕ → List ℕ → ZlibSqueezer B.zlib_api → Type 0
  Fed d e h =
      Session B (Compressor.holding B (SqueezerVariant.zlib h₀)) d e
        (Compressor.holding B (SqueezerVariant.zlib h))

  -- The loop feeds all of the input in a session of pushes, and leaves the span of the last of them.
  push_loop-Filled :
      (fuel pos : ℕ) (e : List ℕ) (h : ZlibSqueezer B.zlib_api) (out : List ℕ)
      → length out ≡ capacity
      → pos ≤ length input
      → Filled pos e h
      → Fed (take pos input) e h
      → length input - pos < fuel
      → (e' : List ℕ) × (h' : ZlibSqueezer B.zlib_api) × (out' : List ℕ) × (push_loop B fuel input
            pos
            (Compressor.holding B (SqueezerVariant.zlib h))
            out
          ≡ some (Pushed.pushed (Compressor.holding B (SqueezerVariant.zlib h')) out'))
        × (length out' ≡ capacity)
        × Filled (length input) e' h'
        × Fed (take (length input) input) e' h'
  unfolding push_loop
  push_loop-Filled zero pos e h out size inside v t enough = absurd (omega (arith, enough))
  push_loop-Filled (suc fuel) pos e h out size inside v t enough =
      let Z = B.zlib_api in
      elim (Bool-cases (ltb pos (length input))) [
        | inr past ↦
            let end : pos ≡ length input = ground arith in
            (e, h, out, rw past refl, size, rw end at v, rw end at t)
        | inl more ↦
            let less : pos < length input = ground arith in
            let (b, there) = get_elem?-some input pos less in
            let n = chunk_size b (length input - pos) in
            let chunk = take n (drop pos input) in
            let fits = chunk-le b pos input less in
            let long : length chunk ≡ n =
              omega (arith, length-take n (drop pos input), length-drop pos input) in
            let q = ZlibSqueezer.push_more Z h chunk out in
            let g =
              push_more-Filling Z L K (window_bits_for Format.zlib) R h out (take pos input) e
                (length input) v (omega (arith, size)) (omega (arith, size, room)) chunk fits.0
                (omega (arith, fits.2)) (omega (arith, fits.1, inside, length-take pos input)) in
            let grown : take pos input ++ chunk ≡ take (pos + length chunk) input =
              rw long (sym (take-add pos n input)) in
            let step : Fed (take pos input ++ take (length chunk) chunk) (e ++ take g.0 q.out)
                q.handle =
              Session.pushed _ (take pos input) e chunk out _ _ t (push_value B h chunk out _ g.1)
                refl in
            let fed : Fed (take (pos + length chunk) input) (e ++ take g.0 q.out) q.handle =
              subst (λ d. Fed d (e ++ take g.0 q.out) q.handle)
                (ap (λ t. take pos input ++ t) (take-all (length chunk) chunk (omega arith))
                  ∙ grown)
                step in
            let r =
              push_loop-Filled fuel (pos + length chunk) (e ++ take g.0 q.out) q.handle q.out
                ((push_more-Keeps Z L h chunk out v.counted).0.0 ∙ size)
                (omega (arith, fits.1, inside)) (rw grown at g.2) fed
                (omega (arith, fits.0, fits.1, enough)) in
            (
              r.0,
              r.1,
              r.2,
              push_loop-round B input fuel pos b h out _ less there g.1 ∙ r.3,
              r.4,
              r.5,
              r.6,
            )
      ]

-- Every push of the streaming fuzz target gets the same span, so what a push makes overwrites what the
-- pushes before it made. On an input that is not empty and whose bound fits into the span, in a build with
-- zlib: the pushes are a session that takes the whole input, `finish` on the compressor that they leave
-- succeeds, the bytes of the pushes and then those of `finish` are a complete stream for the input, and what
-- the target hands on to the decompressor is the bytes of `finish` alone.
pub test_one_stream-tail :
    (B : Build) (L : ZlibLaws B.zlib_api) (K : ZlibCodec B.zlib_api L)
    (R : ZlibRoom B.zlib_api L (window_bits_for Format.zlib)) (input : List ℕ)
    (h : ZlibSqueezer B.zlib_api)
    → 0 < length input
    → B.zlib_api.compress_bound (length input) ≤ capacity
    → B.has_zlib ≡ true
    → ZlibSqueezer.construct B.zlib_api Format.zlib ZlibAnchors.default_level ≡ some h
    → (made : List ℕ) × (comp : Compressor B) × (out : List ℕ) × (c : StreamCall (Compressor B))
      × (r : StreamResult) × Session B
          (Compressor.holding B (SqueezerVariant.zlib h))
          input
          made
          comp
      × (Compressor.finish B comp out ≡ some c)
      × (c.result ≡ value r)
      × K.Encodes (window_bits_for Format.zlib) input (made ++ take r.bytes_produced c.out)
      × (test_one_stream B input ≡ decompress B input (take r.bytes_produced c.out))
unfolding test_one_stream compress finish_and_swell
test_one_stream-tail B L K R input h some_in room built made =
    let Z = B.zlib_api in
    let there : (length input == 0) ≡ false = ground arith in
    let (e, h', out, looped, size, v, t) =
      push_loop-Filled B L K R input h room (suc (length input + Z.compress_bound (length input))) 0
        [] h (replicate capacity 0) (length-replicate capacity 0) (omega arith)
        (construct-Filling Z L K Format.zlib R h made) Session.start (omega arith) in
    let q = ZlibSqueezer.finish Z h' out in
    let all : take (length input) input ≡ input = take-all (length input) input (omega arith) in
    let g =
      finish-Filling Z L K (window_bits_for Format.zlib) R h' out (take (length input) input) e
        (length input) v (omega (arith, size)) (omega (arith, size, room))
        (omega (arith, ap length all)) in
    (
      e,
      Compressor.holding B (SqueezerVariant.zlib h'),
      out,
      _,
      _,
      rw all at t,
      finish_value B h' out _ g.1,
      refl,
      rw all at g.2,
      rw (there, construct_squeezer_value B h built made, looped, finish_value B h' out _ g.1) refl,
    )
