-- ===== src/Squeeze/Roundtrip.antt =====
-- swell after squeeze, over the zlib backend.
use mathlib.Core.List.{append-nil}
use polliwog.Base.{
  ℕ, ◌+◌, ◌%◌, ◌≢◌, [], length-append, ◌≤◌, ◌<◌, ◌≡◌, refl, sym, ap, subst, ◌∙◌, List, ◌++◌, some,
  length, take, drop, arith, take-all, take-append,
}
use polliwog.Base.Words.{u32, u32_mod, u64_mod, u32-eq_of_lt}
use polliwog.Error.{Kind, value, unexpected}
use polliwog.Format.{Format, ZlibLevel}
use polliwog.Build.{Build}
use polliwog.Engine.Zlib.{stream_end, Flush, ZlibLaws}
use polliwog.Engine.ZlibCodec.{ZlibCodec, HonestBound}
use polliwog.Zlib.{window_bits_for, zeroed, aim, zlib_error}
use polliwog.Zlib.Contract.{aim-IsAimed}
use polliwog.Zlib.Sweller as ZlibSweller
use polliwog.Zlib.Whole
use polliwog.Zlib.Whole.{Completed, push-Completed, swell-Completed}
use polliwog.Squeeze.{Shot, patch_os, squeeze, swell}
use polliwog.Zlib.Inits.{
  construct-IsCounted, construct_sweller-IsCounted, construct_inits, construct_sweller_inits,
}
use polliwog.Squeeze.Spans.{length-patch_os}
use polliwog.Squeeze.Stages.{
  Passes, Opens, patch_os-append, patch_os-Encodes, construct_starts, construct_fresh, squeeze-push,
  swell-push, compress_bound-le-bound,
}

module _ (B : Build) (L : ZlibLaws B.zlib_api) (K : ZlibCodec B.zlib_api L) (f : Format) where
  module _ (lvl : ZlibLevel) (input out : List ℕ) (p : Passes B f lvl input out) where
    -- If squeeze passes its tests and zlib ends the stream, the call succeeds, and the bytes that it
    -- reports, which fit into the span, are a complete stream of the format for as many bytes of the
    -- input as the low 32 bits of its length say.
    pub squeeze-Encodes :
        (B.zlib_api.deflate (aim p.handle.stream input out) Flush.finish).ret ≡ stream_end
        → (e : List ℕ) × (squeeze B f lvl input out
            ≡ some (record {
              out = e ++ drop (length e) out;
              result = value (record { bytes_written = length e });
            }))
          × K.Encodes (window_bits_for f) (take (u32 (length input)) input) e
          × (length e ≤ length out)
    squeeze-Encodes ends =
        let c =
          push-Completed B.zlib_api L K p.handle (window_bits_for f) input out
            (construct-IsCounted B.zlib_api L f lvl p.handle p.made)
            (construct_starts B.zlib_api L K f lvl p.handle p.made) ends in
        let n = length-patch_os f (length c.0) c.0 in
        (
          patch_os f (length c.0) c.0,
          squeeze-push B f lvl input out p
              ∙ rw (c.1.0, c.1.1, patch_os-append f c.0 (drop (length c.0) out), n),
          patch_os-Encodes B.zlib_api L K f _ c.0 c.2,
          subst (λ k. k ≤ length out) (sym n) c.3,
        )

    -- With a bound that is honest for the container, zlib ends the stream.
    bound-stream_end :
        B.zlib_api.compress_bound (length input) < u64_mod
        → HonestBound B.zlib_api (window_bits_for f)
        → length input < u32_mod
        → length out < u32_mod
        → (B.zlib_api.deflate (aim p.handle.stream input out) Flush.finish).ret ≡ stream_end
    bound-stream_end word honest small_in small_out =
        let inits = construct_inits B.zlib_api f lvl p.handle p.made in
        let fits : B.zlib_api.compress_bound (u32 (length input)) ≤ u32 (length out) =
          rw (u32-eq_of_lt (length input) small_in, u32-eq_of_lt (length out) small_out)
            (omega (
              arith,
              compress_bound-le-bound B f lvl (length input) p.family p.built word,
              p.room,
            )) in
        honest.whole_fits zeroed (aim p.handle.stream input out) lvl.as_int inits.0
          (ap (λ t. t.state) inits.1) (aim-IsAimed p.handle.stream input out) fits

  -- A swell of a complete stream into a span that is not empty and has room for its data.
  pub swell-whole :
      (p : Opens B f) (d e dec : List ℕ)
      → K.Encodes (window_bits_for f) d e
      → length e < u32_mod
      → length dec < u32_mod
      → 0 < length dec
      → length d ≤ length dec
      → swell B f e dec
        ≡ some (record {
          out = d ++ drop (length d) dec;
          result = value (record { bytes_written = length d });
        })
  swell-whole p d e dec enc small_e small_dec some_dec room =
      let c =
        swell-Completed B.zlib_api L K p.handle (window_bits_for f) d e [] dec
          (construct_sweller-IsCounted B.zlib_api L f p.handle p.made)
          (construct_fresh B.zlib_api L K f p.handle p.made) enc (rw (append-nil e) small_e)
          small_dec some_dec room refl in
      let run : Completed (length e) d dec (ZlibSweller.push B.zlib_api p.handle e dec) =
        subst (λ t. Completed (length e) d dec (ZlibSweller.push B.zlib_api p.handle t dec))
          (append-nil e) c in
      swell-push B f e dec p ∙ rw (run.0, run.1)

  -- One stream at a time: if bytes follow a complete stream, swell reports stream_corrupt at the
  -- position where the stream ended, with its data already in the span. The input and the span are
  -- below 4 GiB, and the span is not empty and has room for the data.
  pub swell-trailing :
      (d e extra dec : List ℕ)
      → Opens B f
      → K.Encodes (window_bits_for f) d e
      → extra ≢ []
      → length (e ++ extra) < u32_mod
      → length dec < u32_mod
      → 0 < length dec
      → length d ≤ length dec
      → swell B f (e ++ extra) dec
        ≡ some (record {
          out = d ++ drop (length d) dec;
          result =
              unexpected
                (zlib_error Kind.stream_corrupt (length e) "extra data after end of stream");
        })
  swell-trailing d e extra dec p enc more small_in small_dec some_dec room =
      let r = construct_sweller_inits B.zlib_api f p.handle p.made in
      let zero_total = L.inflate_init2_total zeroed (window_bits_for f) r.0 in
      let c =
        Whole.swell-trailing B.zlib_api L K p.handle (window_bits_for f) d e extra dec
          (construct_sweller-IsCounted B.zlib_api L f p.handle p.made)
          (construct_fresh B.zlib_api L K f p.handle p.made) enc small_in small_dec some_dec room
          more in
      let at : (p.handle.stream.total_in + length e) % u64_mod ≡ length e =
        omega (arith, ap (λ t. t.total_in) r.1, zero_total.0, length-append e extra) in
      swell-push B f (e ++ extra) dec p ∙ rw (c.0, c.1, at)

  -- Round trip: a squeeze that passes its tests succeeds, and swell of exactly the bytes that it
  -- reports, into a span that is not empty and has room for the input, gives the input back. The spans are below 4 GiB, and
  -- compressBound is a word and, at memory level 8, honest for the format's container.
  pub swell-squeeze :
      (lvl : ZlibLevel) (input out dec : List ℕ)
      → Passes B f lvl input out
      → Opens B f
      → B.zlib_api.compress_bound (length input) < u64_mod
      → HonestBound B.zlib_api (window_bits_for f)
      → length input < u32_mod
      → length out < u32_mod
      → length dec < u32_mod
      → 0 < length dec
      → length input ≤ length dec
      → (s : Shot) × (n : ℕ) × (squeeze B f lvl input out ≡ some s)
        × (s.result ≡ value (record { bytes_written = n }))
        × (swell B f (take n s.out) dec
            ≡ some (record {
              out = input ++ drop (length input) dec;
              result = value (record { bytes_written = length input });
            }))
  swell-squeeze lvl input out dec p q word honest small_in small_out small_dec some_dec room =
      let ends = bound-stream_end lvl input out p word honest small_in small_out in
      let c = squeeze-Encodes lvl input out p ends in
      let all : take (u32 (length input)) input ≡ input =
        rw (u32-eq_of_lt (length input) small_in) (take-all (length input) input (omega arith)) in
      (
        _,
        length c.0,
        c.1,
        refl,
        rw (take-append c.0 (drop (length c.0) out)) (
            swell-whole q input c.0 dec (subst (λ d. K.Encodes (window_bits_for f) d c.0) all c.2)
              (omega (arith, c.3)) small_dec some_dec room),
      )
