-- ===== src/Bench/Corpus.antt =====
-- The corpus of bench/squeeze_bench.cpp: its directory and its file, over any file system.
use polliwog.Base.{ℕ, List, Bool, Option, none, some, String, ◌&&◌}

-- What the program sees of its surroundings: std::getenv, the directory of the compile definition, and
-- std::filesystem. `contents` are the bytes of a file that can be read.
pub record Surroundings : Type 1 where
  pub Location : Type 0
  pub getenv : String → Option String
  pub bench_pond_corpus_dir : String
  pub path : String → Location
  pub join : Location → String → Location
  pub is_directory : Location → Bool
  pub exists : Location → Bool
  pub contents : Location → Option (List ℕ)

module _ (S : Surroundings) where
  unfoldable pub corpus_dir : S.Location
  corpus_dir = elim (S.getenv "POLLIWOG_CORPUS_DIR") [
    | some env ↦ S.path env
    | none ↦ S.path S.bench_pond_corpus_dir
  ]

  -- A file that cannot be opened has the position -1, whose size no vector has: the exception is `none`.
  unfoldable pub load_file : S.Location → Option (List ℕ)
  load_file p = S.contents p

  unfoldable pub corpus_available : Bool
  unfolding corpus_dir
  corpus_available = S.is_directory corpus_dir && S.exists (S.join corpus_dir "dickens")

  -- load_file(corpus_dir() / "dickens")
  abbrev pub dickens : Option (List ℕ)
  unfolding corpus_dir load_file
  dickens = load_file (S.join corpus_dir "dickens")
