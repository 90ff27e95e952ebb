-- ===== src/Bench.antt =====
-- bench/squeeze_bench.cpp: what one iteration of each benchmark does with its data. The data of the
-- corpus benchmarks is a file, and a parameter here. `none` is what the program does not come back from
-- with a value: a failed assertion, an exception, and `r->` of a result that holds an error, which is
-- undefined.
pub mod Streaming
pub mod Squeezing
pub mod Periods
pub mod Corpus
pub mod Iterations
pub mod Programs
pub mod Runs
use polliwog.Base.{
  ℕ, zero, suc, ◌*◌, ◌%◌, ◌+◌, List, [], ◌∷◌, Option, none, some, length, take, replicate, ◌>>=◌,
}
use polliwog.Base.Words.{u64_mod}
use polliwog.Error.{Expected, value, unexpected}
use polliwog.Format.{Format, ZlibLevel}
use polliwog.Build.{Build}
use polliwog.Squeeze.{Shot, bound, squeeze, swell}

-- long runs of zeros
unfoldable pub synthetic : ℕ → List ℕ
synthetic n = replicate n 0

-- the loop of random_data, over the indices from i on
unfoldable random_from : ℕ → ℕ → List ℕ
random_from i zero = []
random_from i (suc n) = (i * 2654435761 % u64_mod) % 256 ∷ random_from (i + 1) n

unfoldable pub random_data : ℕ → List ℕ
unfolding random_from
random_data n = random_from 0 n

-- r->
abbrev pub arrow : {A : Type 0} → Expected A → Option A
arrow (value a) = some a
arrow (unexpected e) = none

module _ (B : Build) where
  -- The buffer that the compressed bytes go to, as the benchmarks make it.
  unfoldable pub bound_buffer : Format → ZlibLevel → List ℕ → List ℕ
  bound_buffer f lvl input = replicate (bound B f lvl (length input)) 0

  -- The iterations of the BM_squeeze benchmarks.
  unfoldable pub squeeze_iteration : Format → ZlibLevel → List ℕ → List ℕ → Option Shot
  squeeze_iteration f lvl input out = squeeze B f lvl input out

  -- BM_swell_zlib_default, and the iteration of BM_corpus_roundtrip_zlib
  unfoldable pub roundtrip_iteration : Format → ZlibLevel → List ℕ → List ℕ → List ℕ → Option Shot
  unfolding squeeze_iteration
  roundtrip_iteration f lvl input compressed decompressed = do
    sr ← squeeze_iteration f lvl input compressed
    r ← arrow sr.result
    swell B f (take r.bytes_written sr.out) decompressed
