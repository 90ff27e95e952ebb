-- ===== src/Bench/Programs.antt =====
-- The benchmarks of bench/squeeze_bench.cpp as whole functions of the number of iterations that
-- `state` gives them and of their data: state.range(0), or the corpus of the surroundings. What
-- they come back with is the number that SetBytesProcessed gets.
use polliwog.Base.{
  ℕ, zero, suc, ◌*◌, ◌%◌, List, Option, some, length, take, replicate, if◌then◌else◌, ◌>>=◌,
}
use polliwog.Base.Words.{u64_mod}
use polliwog.Format.{Format, ZlibLevel}
use polliwog.Format.ZlibAnchors
use polliwog.Build.{Build}
use polliwog.Squeeze.{Shot, squeeze, swell}
use polliwog.Bench.{synthetic, random_data, arrow, bound_buffer, squeeze_iteration}
use polliwog.Bench.Corpus.{Surroundings, corpus_available, dickens}
use polliwog.Bench.Streaming.{streaming_zlib}

-- for (auto _ : state), over the variables that the body changes
unfoldable pub iterate {ℓ} : {A : Type ℓ} → ℕ → (A → Option A) → A → Option A
iterate zero body a = some a
iterate (suc k) body a = body a >>= iterate k body

-- state.iterations() * data.size(), a product of 64 bits, which SetBytesProcessed gets
abbrev pub bytes_processed : ℕ → List ℕ → ℕ
bytes_processed k input = k * length input % u64_mod

-- A benchmark of the corpus: SkipWithError, or the bytes processed.
pub data Run : Type 0 where
  skipped : Run
  processed : ℕ → Run

module _ (B : Build) where
  -- An iteration of the benchmarks of squeeze, with the buffer as it leaves it.
  unfoldable pub squeeze_buffer : Format → ZlibLevel → List ℕ → List ℕ → Option (List ℕ)
  unfolding squeeze_iteration
  squeeze_buffer f lvl input out = do call ← squeeze_iteration B f lvl input out; some call.out

  -- The body that the benchmarks of squeeze share.
  unfoldable pub squeeze_benchmark : Format → ZlibLevel → ℕ → List ℕ → Option ℕ
  unfolding iterate bound_buffer squeeze_buffer
  squeeze_benchmark f lvl k input = do
    out ← iterate k (squeeze_buffer f lvl input) (bound_buffer B f lvl input)
    some (bytes_processed k input)

  unfoldable pub bm_squeeze_zlib_default : ℕ → ℕ → Option ℕ
  unfolding squeeze_benchmark synthetic
  bm_squeeze_zlib_default k n =
      squeeze_benchmark Format.zlib ZlibAnchors.default_level k (synthetic n)

  unfoldable pub bm_squeeze_gzip_default : ℕ → ℕ → Option ℕ
  unfolding squeeze_benchmark synthetic
  bm_squeeze_gzip_default k n =
      squeeze_benchmark Format.gzip ZlibAnchors.default_level k (synthetic n)

  unfoldable pub bm_squeeze_zlib_best : ℕ → ℕ → Option ℕ
  unfolding squeeze_benchmark synthetic
  bm_squeeze_zlib_best k n = squeeze_benchmark Format.zlib ZlibAnchors.best k (synthetic n)

  unfoldable pub bm_squeeze_zlib_fastest : ℕ → ℕ → Option ℕ
  unfolding squeeze_benchmark synthetic
  bm_squeeze_zlib_fastest k n = squeeze_benchmark Format.zlib ZlibAnchors.fastest k (synthetic n)

  unfoldable pub bm_squeeze_zlib_random : ℕ → ℕ → Option ℕ
  unfolding squeeze_benchmark random_data
  bm_squeeze_zlib_random k n =
      squeeze_benchmark Format.zlib ZlibAnchors.default_level k (random_data n)

  -- An iteration of the benchmark of swell, with the buffer as it leaves it.
  unfoldable pub swell_buffer : Shot → List ℕ → Option (List ℕ)
  swell_buffer sr decompressed = do
    r ← arrow sr.result
    call ← swell B Format.zlib (take r.bytes_written sr.out) decompressed
    some call.out

  -- The stream is compressed once, before the iterations.
  unfoldable pub bm_swell_zlib_default : ℕ → ℕ → Option ℕ
  unfolding iterate bound_buffer synthetic swell_buffer
  bm_swell_zlib_default k n = do
    let input = synthetic n
    sr ←
        squeeze B Format.zlib ZlibAnchors.default_level input
          (bound_buffer B Format.zlib ZlibAnchors.default_level input)
    out ← iterate k (swell_buffer sr) (replicate (length input) 0)
    some (bytes_processed k input)

  -- The two buffers of the streaming benchmark, which the iterations share.
  unfoldable pub streaming_buffers : List ℕ → List ℕ × List ℕ → Option (List ℕ × List ℕ)
  unfolding streaming_zlib
  streaming_buffers input buffers = do
    (s, t) ← streaming_zlib B input buffers.0 buffers.1
    some (s.compressed, t.decompressed)

  unfoldable pub bm_streaming_zlib : ℕ → ℕ → Option ℕ
  unfolding iterate bound_buffer synthetic streaming_buffers
  bm_streaming_zlib k n = do
    let input = synthetic n
    buffers ←
        iterate k (streaming_buffers input)
          (bound_buffer B Format.zlib ZlibAnchors.default_level input, replicate (length input) 0)
    some (bytes_processed k input)

  -- The body that the corpus benchmarks of squeeze share.
  unfoldable corpus_squeeze : Surroundings → Format → ℕ → Option Run
  unfolding squeeze_benchmark corpus_available
  corpus_squeeze S f k =
      if corpus_available S
      then (do
        input ← dickens S
        bytes ← squeeze_benchmark f ZlibAnchors.default_level k input
        some (Run.processed bytes))
      else some Run.skipped

  unfoldable pub bm_corpus_squeeze_zlib : Surroundings → ℕ → Option Run
  unfolding corpus_squeeze
  bm_corpus_squeeze_zlib S k = corpus_squeeze S Format.zlib k

  unfoldable pub bm_corpus_squeeze_gzip : Surroundings → ℕ → Option Run
  unfolding corpus_squeeze
  bm_corpus_squeeze_gzip S k = corpus_squeeze S Format.gzip k

  -- The two buffers of the round trip, which the iterations share.
  unfoldable pub roundtrip_buffers : List ℕ → List ℕ × List ℕ → Option (List ℕ × List ℕ)
  roundtrip_buffers input buffers = do
    sr ← squeeze B Format.zlib ZlibAnchors.default_level input buffers.0
    r ← arrow sr.result
    dr ← swell B Format.zlib (take r.bytes_written sr.out) buffers.1
    some (sr.out, dr.out)

  unfoldable pub bm_corpus_roundtrip_zlib : Surroundings → ℕ → Option Run
  unfolding iterate bound_buffer roundtrip_buffers corpus_available
  bm_corpus_roundtrip_zlib S k =
      if corpus_available S
      then (do
        input ← dickens S
        buffers ←
            iterate k (roundtrip_buffers input) (
              bound_buffer B Format.zlib ZlibAnchors.default_level input,
              replicate (length input) 0,
            )
        some (Run.processed (bytes_processed k input)))
      else some Run.skipped
