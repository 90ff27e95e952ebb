-- ===== src/Fuzz/Returns.antt =====
-- The streaming fuzz target returns: its two loops end.
use polliwog.Base.{
  ℕ, zero, suc, ◌+◌, ◌-◌, ◌*◌, ◌%◌, ◌≤◌, ◌<◌, ◌≡◌, refl, ◌∙◌, inl, inr, true, List, some, length,
  take, drop, replicate, ltb, ◌==◌, arith, Bool-cases, get_elem?-some, length-replicate,
}
use native.Mathlib.Nat.{mod-lt}
use polliwog.Error.{value, unexpected}
use polliwog.Format.{Format}
use polliwog.Format.ZlibAnchors
use polliwog.Build.{Build}
use polliwog.Engine.Zlib.{ZlibLaws}
use polliwog.Engine.ZlibProgress.{ZlibProgress}
use polliwog.Zlib.{window_bits_for, zeroed}
use polliwog.Zlib.Contract.{IsCounted, push_more-Keeps, swell_more-Keeps}
use polliwog.Zlib.Squeezer as ZlibSqueezer
use polliwog.Zlib.Squeezer.{ZlibSqueezer}
use polliwog.Zlib.Sweller as ZlibSweller
use polliwog.Zlib.Sweller.{ZlibSweller}
use polliwog.Zlib.Advance.{push_more-Advances, swell_more-Advances}
use polliwog.Zlib.Inits.{
  construct_inits, construct_sweller_inits, construct-IsCounted, construct_sweller-IsCounted,
}
use polliwog.Stream.{SqueezerVariant, SwellerVariant}
use polliwog.Stream.Calls.{construct_squeezer_value, construct_sweller_value}
use polliwog.Stream.Compressor
use polliwog.Stream.Compressor.{Compressor}
use polliwog.Stream.Decompressor
use polliwog.Stream.Decompressor.{Decompressor}
use polliwog.Fuzz.Streaming.{
  Return, Pushed, capacity, chunk_size, push_loop, swell_loop, decompress, finish_and_swell,
  compress, test_one_stream,
}
use polliwog.Fuzz.Rounds.{
  chunk-le, push_loop-round, push_error, swell_push, finish_push, Expected-cases,
}

module _ (B : Build) (L : ZlibLaws B.zlib_api)
    (P : ZlibProgress B.zlib_api L (window_bits_for Format.zlib)) (input : List ℕ) where
  abbrev Left : Pushed B → Type 0
  Left Pushed.failed = Unit {0}
  Left (Pushed.pushed comp out) =
      (h : ZlibSqueezer B.zlib_api) × (comp ≡ Compressor.holding B (SqueezerVariant.zlib h))

  push_loop-Left :
      (fuel pos m : ℕ) (h : ZlibSqueezer B.zlib_api) (out : List ℕ)
      → length out ≡ capacity
      → pos ≤ length input
      → IsCounted h.stream
      → P.deflating.Moved h.stream.state pos m
      → (length input - pos) + (B.zlib_api.compress_bound (length input) - m) < fuel
      → (f : Pushed B) × (push_loop B fuel input pos
            (Compressor.holding B (SqueezerVariant.zlib h))
            out
          ≡ some f)
        × Left f
  unfolding push_loop
  push_loop-Left zero pos m h out size inside v moved enough = absurd (omega (arith, enough))
  push_loop-Left (suc fuel) pos m h out size inside v moved enough =
      let Z = B.zlib_api in
      elim (Bool-cases (ltb pos (length input))) [
        | inr past ↦ (Pushed.pushed _ out, rw past refl, (h, refl))
        | inl more ↦
            let less : pos < length input = ground arith in
            let (b, there) = get_elem?-some input pos less in
            let chunk = take (chunk_size b (length input - pos)) (drop pos input) in
            let fits = chunk-le b pos input less in
            let q = ZlibSqueezer.push_more Z h chunk out in
            elim (push_more-Advances Z L _ P chunk out pos m fits.0 (omega (arith, fits.2))
              (omega (arith, size)) (omega (arith, size)) h v moved) [
                | inl (e, er) ↦
                    (Pushed.failed, rw (more, there, push_error B h chunk out e er) refl, tt)
                | inr (p, ep, (counted, le, some_moved, moved')) ↦
                    let within : pos + p.bytes_in ≤ length input =
                      omega (arith, le, fits.1, inside) in
                    let bounded = P.deflating.limited _ _ _ (length input) moved' within in
                    let r =
                      push_loop-Left fuel (pos + p.bytes_in) (m + p.bytes_out) q.handle q.out
                        ((push_more-Keeps Z L h chunk out v).0.0 ∙ size) within counted moved'
                        (omega (arith, some_moved, bounded, within, enough)) in
                    (r.0, push_loop-round B input fuel pos b h out p less there ep ∙ r.1, r.2)
              ]
      ]

  swell_loop-Returns :
      (compressed : List ℕ) (fuel pos m : ℕ) (h : ZlibSweller B.zlib_api) (out : List ℕ)
      → 0 < length input
      → length out ≡ capacity
      → pos ≤ length compressed
      → IsCounted h.stream
      → P.inflating.Moved h.stream.state pos m
      → (length compressed - pos) + (1032 * length compressed - m) < fuel
      → (r : Return) × (swell_loop B fuel input compressed pos
            (Decompressor.holding B (SwellerVariant.zlib h))
            out
          ≡ some r)
  unfolding swell_loop
  swell_loop-Returns compressed zero pos m h out some_in size inside v moved enough =
      absurd (omega (arith, enough))
  swell_loop-Returns compressed (suc fuel) pos m h out some_in size inside v moved enough =
      let Z = B.zlib_api in
      elim (Bool-cases (ltb pos (length compressed))) [
        | inr past ↦ (Return.drained, rw past refl)
        | inl more ↦
            let less : pos < length compressed = ground arith in
            let (b, there) = get_elem?-some input (pos % length input) (mod-lt pos some_in) in
            let chunk = take (chunk_size b (length compressed - pos)) (drop pos compressed) in
            let fits = chunk-le b pos compressed less in
            let q = ZlibSweller.push_more Z h chunk out in
            elim (swell_more-Advances Z L _ P chunk out pos m fits.0 (omega (arith, fits.2))
              (omega (arith, size)) (omega (arith, size)) h v moved) [
                | inl (e, er) ↦ (
                  Return.not_swelled,
                  rw (more, there, swell_push B h chunk out (unexpected e) er) refl,
                )
                | inr (p, ep, inl done) ↦ (
                  Return.ended,
                  rw (more, there, swell_push B h chunk out (value p) ep, done) refl,
                )
                | inr (p, ep, inr (not_done, (counted, le, some_moved, moved'))) ↦
                    let within : pos + p.bytes_in ≤ length compressed =
                      omega (arith, le, fits.1, inside) in
                    let bounded = P.inflating.limited _ _ _ (length compressed) moved' within in
                    let r =
                      swell_loop-Returns compressed fuel (pos + p.bytes_in) (m + p.bytes_out)
                        q.handle q.out some_in ((swell_more-Keeps Z L h chunk out v).0.0 ∙ size)
                        within counted moved'
                        (omega (arith, some_moved, bounded, within, enough)) in
                    (r.0, rw (more, there, swell_push B h chunk out (value p) ep, not_done) r.1)
              ]
      ]

  module _ (h' : ZlibSweller B.zlib_api) (some_in : 0 < length input) (built : B.has_zlib ≡ true)
      (made' : ZlibSweller.construct B.zlib_api Format.zlib ≡ some h') where
    decompress-Returns :
        (compressed : List ℕ) → (r : Return) × (decompress B input compressed ≡ some r)
    unfolding decompress
    decompress-Returns compressed =
        let i = construct_sweller_inits B.zlib_api Format.zlib h' made' in
        let r =
          swell_loop-Returns compressed (suc (1033 * length compressed)) 0 0 h'
            (replicate capacity 0) some_in (length-replicate capacity 0) (omega arith)
            (construct_sweller-IsCounted B.zlib_api L Format.zlib h' made')
            (rw i.1 (P.inflate_starts zeroed i.0)) (omega arith) in
        (r.0, rw (construct_sweller_value B h' built made') r.1)

    finish_and_swell-Returns :
        (f : Pushed B) → Left f → (r : Return) × (finish_and_swell B input f ≡ some r)
    unfolding finish_and_swell
    finish_and_swell-Returns Pushed.failed v = (Return.not_pushed, refl)
    finish_and_swell-Returns (Pushed.pushed comp out) (h, held) =
        let q = ZlibSqueezer.finish B.zlib_api h out in
        elim (Expected-cases q.result) [
          | inl (e, er) ↦
              (Return.not_finished, rw (held, finish_push B h out (unexpected e) er) refl)
          | inr (p, ep) ↦
              let r = decompress-Returns (take p.bytes_out q.out) in
              (r.0, rw (held, finish_push B h out (value p) ep) r.1)
        ]

-- The streaming fuzz target returns on every input, whatever its bytes and whatever its length, in a build
-- with zlib whose initialisers succeed: its two loops end, although a push may consume nothing.
pub test_one_stream-returns :
    (B : Build) (L : ZlibLaws B.zlib_api)
    (P : ZlibProgress B.zlib_api L (window_bits_for Format.zlib)) (input : List ℕ)
    (h : ZlibSqueezer B.zlib_api) (h' : ZlibSweller B.zlib_api)
    → B.has_zlib ≡ true
    → ZlibSqueezer.construct B.zlib_api Format.zlib ZlibAnchors.default_level ≡ some h
    → ZlibSweller.construct B.zlib_api Format.zlib ≡ some h'
    → (r : Return) × (test_one_stream B input ≡ some r)
unfolding test_one_stream compress
test_one_stream-returns B L P input h h' built made made' =
    let lvl = ZlibAnchors.default_level in
    elim (Bool-cases (length input == 0)) [
      | inl none_in ↦ (Return.empty, rw none_in refl)
      | inr some_in ↦
          let i = construct_inits B.zlib_api Format.zlib lvl h made in
          let f =
            push_loop-Left B L P input
              (suc (length input + B.zlib_api.compress_bound (length input))) 0 0 h
              (replicate capacity 0) (length-replicate capacity 0) (omega arith)
              (construct-IsCounted B.zlib_api L Format.zlib lvl h made)
              (rw i.1 (P.deflate_starts zeroed i.0)) (omega arith) in
          let r = finish_and_swell-Returns B L P input h' (ground arith) built made' f.0 f.2 in
          (r.0, rw (some_in, construct_squeezer_value B h built made, f.1) r.1)
    ]
