-- ===== src/Engine/ZstdCodec.antt =====
-- What zstd promises about contents, beyond the accounting of `ZstdLaws`.
use polliwog.Base.{ℕ, ◌^◌, ◌≤◌, ◌<◌, ◌≡◌, false, List, length, take}
use polliwog.Base.Int.{ℤ}
use polliwog.Engine.Zstd.{ZstdApi, ZstdLaws}

pub record ZstdCodec (Z : ZstdApi) (L : ZstdLaws Z) : Type 1 where
  -- data, frame: the frame is complete and holds the data
  pub Encodes : List ℕ → List ℕ → Type 0
  pub compress_whole :
      (dst : List ℕ) (capacity : ℕ) (src : List ℕ) (size : ℕ) (level : ℤ)
      (p : capacity ≤ length dst) (q : size ≤ length src)
      → Z.is_error (Z.compress dst capacity src size level).ret ≡ false
      → Encodes (take size src) (L.compress_accounts dst capacity src size level p q).made
  -- A destination of ZSTD_compressBound bytes is enough.
  pub compress_fits :
      (dst : List ℕ) (capacity : ℕ) (src : List ℕ) (size : ℕ) (level : ℤ)
      → capacity ≤ length dst
      → size ≤ length src
      → Z.compress_bound size ≤ capacity
      → Z.is_error (Z.compress_bound size) ≡ false
      → Z.is_error (Z.compress dst capacity src size level).ret ≡ false
  -- A complete frame and room for its data: the data. The codes of errors lie above all sizes of data.
  pub decompress_whole :
      (dst : List ℕ) (capacity : ℕ) (src : List ℕ) (size : ℕ) (d : List ℕ)
      (p : capacity ≤ length dst) (q : size ≤ length src)
      → Encodes d (take size src)
      → length d ≤ capacity
      → length d < 2 ^ 63
      → (Z.is_error (Z.decompress dst capacity src size).ret ≡ false)
        × ((L.decompress_accounts dst capacity src size p q).made ≡ d)
