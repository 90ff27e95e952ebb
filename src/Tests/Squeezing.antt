-- ===== src/Tests/Squeezing.antt =====
-- The one-shot calls.
use polliwog.Base.{
  ℕ, ◌≤◌, ◌≡◌, ◌↔◌, ◌⊎◌, refl, true, List, [], ◌∷◌, ◌++◌, some, length, take, drop, arith,
}
use polliwog.Base.Words.{u32}
use polliwog.Error.{BackendId, Expected, value, unexpected, Kind}
use polliwog.Format.{Format}
use polliwog.Backend.{Progress}
use polliwog.Engine.Zlib.{Flush}
use polliwog.Toy.Frame.{marks}
use polliwog.Toy.Zlib as ToyZlib
use polliwog.Toy.ZlibAccounts.{toy-ZlibLaws}
use polliwog.Toy.ZlibLawful.{toy-ZlibCodec, toy-Encodes}
use polliwog.Toy.ZlibShort.{toy-ZlibShort}
use polliwog.Toy.ZlibBound.{toy-HonestBound}
use polliwog.Toy.ZstdLawful.{toy-ZstdLaws, toy-ZstdCodec}
use polliwog.Zlib.{zlib_error, aim, window_bits_for}
use polliwog.Zlib.Contract.{aim-IsAimed}
use polliwog.Squeeze.{SqueezeResult, Shot, squeeze, swell}
use polliwog.Squeeze.Roundtrip.{swell-squeeze, squeeze-Encodes, swell-trailing}
use polliwog.Squeeze.Short.{swell-short}
use polliwog.Squeeze.ZstdRoundtrip.{Swollen, swell-squeeze_zstd}
use polliwog.Squeeze.Spans.{Spanned, squeeze-Spanned, swell-Spanned}
use polliwog.Squeeze.Swelling.{
  succeeds, deflate_passes, inflate_passes, squeeze-succeeds_iff, swell-succeeds_iff,
}
use polliwog.Tests.Data.{
  full, six, zeros, data_bytes, passes_gzip, opens_gzip, passes_zstd, opens_zstd, gzip_bytes,
  gzip_shot, plain_shot, squeeze-gzip_shot, swell-plain_shot,
}

-- What the small zlib reports of the two bytes.
abbrev gzip_progress : Progress
gzip_progress = record { bytes_in = 2; bytes_out = 15; done = true }

swell-squeeze_example :
    (s : Shot) × (n : ℕ) × (squeeze full Format.gzip six data_bytes (zeros 40) ≡ some s)
    × (s.result ≡ value (record { bytes_written = n }))
    × (swell full Format.gzip (take n s.out) (zeros 5)
        ≡ some (record {
          out = data_bytes ++ drop 2 (zeros 5);
          result = value (record { bytes_written = 2 });
        }))
unfolding zeros ToyZlib.toy
swell-squeeze_example =
    swell-squeeze full toy-ZlibLaws toy-ZlibCodec Format.gzip six data_bytes (zeros 40) (zeros 5)
      passes_gzip opens_gzip (omega arith) (toy-HonestBound _) (omega arith) (omega arith)
      (omega arith) (omega arith) (omega arith)

squeeze-Encodes_example :
    (e : List ℕ) × (squeeze full Format.gzip six data_bytes (zeros 40)
      ≡ some (record {
        out = e ++ drop (length e) (zeros 40);
        result = value (record { bytes_written = length e });
      }))
    × toy-ZlibCodec.Encodes (window_bits_for Format.gzip) (take (u32 2) data_bytes) e
    × (length e ≤ length (zeros 40))
unfolding zeros ToyZlib.toy window_bits_for u32
squeeze-Encodes_example =
    squeeze-Encodes full toy-ZlibLaws toy-ZlibCodec Format.gzip six data_bytes (zeros 40)
      passes_gzip refl

swell-trailing_example :
    swell full Format.gzip (gzip_bytes ++ 9 ∷ []) (zeros 5)
    ≡ some (record {
      out = data_bytes ++ drop 2 (zeros 5);
      result = unexpected (zlib_error Kind.stream_corrupt 15 "extra data after end of stream");
    })
unfolding zeros window_bits_for marks
swell-trailing_example =
    swell-trailing full toy-ZlibLaws toy-ZlibCodec Format.gzip data_bytes gzip_bytes (9 ∷ [])
      (zeros 5) opens_gzip (toy-Encodes _ data_bytes (take 10 gzip_bytes) refl) (λ e. cc e)
      (omega arith) (omega arith) (omega arith) (omega arith)

-- One byte after the stream.
abbrev more : List ℕ
more = 9 ∷ []

swell-short_example :
    (r : Expected SqueezeResult) × (swell full Format.gzip (gzip_bytes ++ more) (zeros 1)
      ≡ some (record { out = 7 ∷ []; result = r }))
    × ((r ≡ unexpected (zlib_error Kind.buffer_too_small 0 ""))
        ⊎ ((more ≡ []) × (r ≡ value (record { bytes_written = 1 }))))
unfolding zeros window_bits_for marks
swell-short_example =
    swell-short full toy-ZlibLaws toy-ZlibCodec toy-ZlibShort Format.gzip data_bytes gzip_bytes more
      (zeros 1) opens_gzip (toy-Encodes _ data_bytes (take 10 gzip_bytes) refl) (omega arith)
      (omega arith) (omega arith) (omega arith)

swell-squeeze_zstd_example :
    (s : Shot) × (n : ℕ) × (squeeze full Format.zstd six data_bytes (zeros 8) ≡ some s)
    × (s.result ≡ value (record { bytes_written = n }))
    × Swollen (swell full Format.zstd (take n s.out) (zeros 5)) data_bytes (zeros 5)
unfolding zeros
swell-squeeze_zstd_example =
    swell-squeeze_zstd full toy-ZstdLaws toy-ZstdCodec six data_bytes (zeros 8) (zeros 5)
      passes_zstd opens_zstd (omega arith) (omega arith)

squeeze-Spanned_example : Spanned BackendId.zlib (zeros 40) gzip_shot
squeeze-Spanned_example =
    squeeze-Spanned data_bytes (zeros 40) full toy-ZlibLaws toy-ZstdLaws Format.gzip six gzip_shot
      squeeze-gzip_shot

swell-Spanned_example : Spanned BackendId.zlib (zeros 5) plain_shot
swell-Spanned_example =
    swell-Spanned gzip_bytes (zeros 5) full toy-ZlibLaws toy-ZstdLaws Format.gzip plain_shot
      swell-plain_shot

squeeze-succeeds_iff_example :
    succeeds (squeeze full Format.gzip six data_bytes (zeros 40))
    ≡ deflate_passes
        (ToyZlib.toy.deflate (aim passes_gzip.handle.stream data_bytes (zeros 40)) Flush.finish).ret
squeeze-succeeds_iff_example =
    squeeze-succeeds_iff full Format.gzip six data_bytes (zeros 40) passes_gzip

-- Three bytes of the header are taken, and that is a success.
swell-succeeds_iff_example :
    let input = take 3 gzip_bytes in
    let s = opens_gzip.handle.stream in
    let a =
      toy-ZlibLaws.inflate_accounts
        (aim s input (zeros 5))
        Flush.finish
        (aim-IsAimed s input (zeros 5)) in
    (succeeds (swell full Format.gzip input (zeros 5)) ≡ true) ↔ (
      (inflate_passes (ToyZlib.toy.inflate (aim s input (zeros 5)) Flush.finish).ret ≡ true)
      × (a.taken ≡ 3))
swell-succeeds_iff_example =
    swell-succeeds_iff full Format.gzip toy-ZlibLaws (take 3 gzip_bytes) (zeros 5) opens_gzip
