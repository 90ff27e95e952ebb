-- ===== src/Squeeze/Short.antt =====
-- swell of a complete stream, over the zlib backend, into a span that is too short for its data.
use polliwog.Base.{ℕ, ◌<◌, ◌≡◌, refl, ◌⊎◌, inl, inr, ◌∙◌, List, [], ◌++◌, some, length, take}
use polliwog.Base.Words.{u32_mod}
use polliwog.Error.{Kind, Expected, value, unexpected}
use polliwog.Format.{Format}
use polliwog.Build.{Build}
use polliwog.Engine.Zlib.{ZlibLaws}
use polliwog.Engine.ZlibCodec.{ZlibCodec}
use polliwog.Engine.ZlibShort.{ZlibShort}
use polliwog.Zlib.{window_bits_for, zlib_error}
use polliwog.Zlib.Inits.{construct_sweller-IsCounted}
use polliwog.Zlib.Short.{push-Short}
use polliwog.Squeeze.{SqueezeResult, swell}
use polliwog.Squeeze.Stages.{Opens, construct_fresh, swell-push}

module _ (B : Build) (L : ZlibLaws B.zlib_api) (K : ZlibCodec B.zlib_api L)
    (F : ZlibShort B.zlib_api L K) where
  -- A complete stream, and bytes that may follow it, are given to swell over zlib with a span that is not
  -- empty and too short for the data; both are below 4 GiB. The span is filled with the front of the data.
  -- The call is refused as buffer_too_small with position 0; if nothing follows the stream, it may instead
  -- report a success with the span's length.
  pub swell-short :
      (f : Format) (d e extra dec : List ℕ)
      → Opens B f
      → K.Encodes (window_bits_for f) d e
      → length (e ++ extra) < u32_mod
      → 0 < length dec
      → length dec < length d
      → length dec < u32_mod
      → (r : Expected SqueezeResult) × (swell B f (e ++ extra) dec
          ≡ some (record { out = take (length dec) d; result = r }))
        × ((r ≡ unexpected (zlib_error Kind.buffer_too_small 0 ""))
            ⊎ ((extra ≡ []) × (r ≡ value (record { bytes_written = length dec }))))
  swell-short f d e extra dec p enc small_in some_out short small_dec =
      let c =
        push-Short B.zlib_api L K F p.handle (window_bits_for f) d e extra dec
          (construct_sweller-IsCounted B.zlib_api L f p.handle p.made)
          (construct_fresh B.zlib_api L K f p.handle p.made) enc small_in some_out short
          small_dec in
      elim c.1 [
        | inl refused ↦ (_, swell-push B f (e ++ extra) dec p ∙ rw (c.0, refused) refl, inl refl)
        | inr (none_left, served) ↦
            (_, swell-push B f (e ++ extra) dec p ∙ rw (c.0, served) refl, inr (none_left, refl))
      ]
