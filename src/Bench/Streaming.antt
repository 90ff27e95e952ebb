-- ===== src/Bench/Streaming.antt =====
-- The iteration of BM_streaming_zlib: a stream is compressed and decompressed in chunks.
use polliwog.Base.{
  ℕ, zero, suc, ◌+◌, ◌-◌, List, Bool, true, false, Option, none, some, length, take, drop, min, ltb,
  filled, ◌>>=◌, if◌then◌else◌,
}
use polliwog.Format.{Format}
use polliwog.Format.ZlibAnchors
use polliwog.Build.{Build}
use polliwog.Bench.{arrow}
use polliwog.Stream.{StreamCall, Made}
use polliwog.Stream.Compressor
use polliwog.Stream.Compressor.{Compressor}
use polliwog.Stream.Decompressor
use polliwog.Stream.Decompressor.{Decompressor}

abbrev pub chunk : ℕ
chunk = 4096

-- The variables of the two loops.
pub record Squeezing (B : Build) : Type 0 where
  pub c : Compressor B
  pub compressed : List ℕ
  pub c_off : ℕ

pub record Swelling (B : Build) : Type 0 where
  pub d : Decompressor B
  pub decompressed : List ℕ
  pub d_off : ℕ
  pub co : ℕ

module _ (B : Build) where
  -- What a call of the compressor leaves of the variables: the span begins at `c_off`.
  abbrev pub squeezed : Squeezing B → StreamCall (Compressor B) → Option (Squeezing B)
  squeezed s call = do
    r ← arrow call.result
    some (record {
      c = call.self;
      compressed = filled s.c_off call.out s.compressed;
      c_off = s.c_off + r.bytes_produced;
    })

  -- for (off = 0; off < data.size(); off += chunk)
  unfoldable pub squeeze_loop : ℕ → List ℕ → ℕ → Squeezing B → Option (Squeezing B)
  squeeze_loop zero input off s = none
  squeeze_loop (suc fuel) input off s =
      if ltb off (length input)
      then (do
        call ←
            Compressor.push B s.c (take (min chunk (length input - off)) (drop off input))
              (drop s.c_off s.compressed)
        s' ← squeezed s call
        squeeze_loop fuel input (off + chunk) s')
      else some s

  -- What a push of the decompressor leaves of them, and whether it is done.
  abbrev pub swelled : Swelling B → StreamCall (Decompressor B) → Option (Swelling B × Bool)
  swelled s call = do
    r ← arrow call.result
    some (
      record {
        d = call.self;
        decompressed = filled s.d_off call.out s.decompressed;
        d_off = s.d_off + r.bytes_produced;
        co = s.co + r.bytes_consumed;
      },
      r.done,
    )

  -- while (co < c_off)
  unfoldable pub swell_loop : ℕ → List ℕ → ℕ → Swelling B → Option (Swelling B)
  swell_loop zero compressed c_off s = none
  swell_loop (suc fuel) compressed c_off s =
      if ltb s.co c_off
      then (do
        call ←
            Decompressor.push B s.d (take (min chunk (c_off - s.co)) (drop s.co compressed))
              (drop s.d_off s.decompressed)
        (s', done) ← swelled s call
        elim done [ true ↦ some s' | false ↦ swell_loop fuel compressed c_off s' ])
      else some s

  -- compressor c(format::zlib, zlib_level::default_level)
  abbrev pub made_only : Made (Compressor B) → Option (Compressor B)
  made_only (Made.made c) = some c
  made_only (Made.thrown what) = none

  abbrev pub compress : List ℕ → List ℕ → Option (Squeezing B)
  compress input compressed = do
    m ← Compressor.construct B Format.zlib ZlibAnchors.default_level
    c ← made_only m
    s ←
        squeeze_loop (suc (length input)) input 0
          (record { c = c; compressed = compressed; c_off = 0 })
    fin ← Compressor.finish B s.c (drop s.c_off s.compressed)
    squeezed s fin

  abbrev pub decompress : List ℕ → ℕ → List ℕ → Option (Swelling B)
  decompress compressed c_off decompressed = do
    d ← Decompressor.construct B Format.zlib
    swell_loop (suc c_off) compressed c_off
        (record { d = d; decompressed = decompressed; d_off = 0; co = 0 })

  -- The data and the two buffers, which an iteration finds as the one before it left them.
  unfoldable pub streaming_zlib : List ℕ → List ℕ → List ℕ → Option (Squeezing B × Swelling B)
  unfolding squeeze_loop swell_loop
  streaming_zlib input compressed decompressed = do
    s ← compress input compressed
    t ← decompress s.compressed s.c_off decompressed
    some (s, t)
