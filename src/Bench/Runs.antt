-- ===== src/Bench/Runs.antt =====
-- The benchmark functions come back from any number of iterations.
use polliwog.Base.{
  ℕ, zero, suc, ◌*◌, ◌%◌, ◌<◌, ◌≡◌, refl, true, List, Option, some, length, replicate,
  length-replicate, ◌∙◌, ap, arith,
}
use polliwog.Base.Words.{u32_mod, u64_mod}
use polliwog.Format.{Format, ZlibLevel}
use polliwog.Format.ZlibAnchors
use polliwog.Build.{Build}
use polliwog.Engine.Zlib.{ZlibLaws}
use polliwog.Engine.ZlibCodec.{ZlibCodec, HonestBound}
use polliwog.Engine.Zstd.{ZstdLaws}
use polliwog.Zlib.{window_bits_for}
use polliwog.Squeeze.{Shot, bound, squeeze}
use polliwog.Squeeze.Stages.{Passes, Opens, squeeze-push}
use polliwog.Squeeze.Spans.{squeeze-Spanned}
use polliwog.Squeeze.Fitting.{swell-squeeze_fit}
use polliwog.Bench.{synthetic, bound_buffer, squeeze_iteration}
use polliwog.Bench.Corpus.{Surroundings, corpus_available, dickens}
use polliwog.Bench.Programs.{
  Run, iterate, roundtrip_buffers, squeeze_buffer, squeeze_benchmark, swell_buffer,
  bm_swell_zlib_default, bm_corpus_roundtrip_zlib,
}

-- A body that keeps P comes back from every number of iterations.
iterate-Keeps {ℓ ℓ'} :
    {A : Type ℓ} (P : A → Type ℓ') (body : A → Option A)
    → ((a : A) → P a → (b : A) × (body a ≡ some b) × P b)
    → (k : ℕ) (a : A) → P a
    → (b : A) × (iterate k body a ≡ some b) × P b
unfolding iterate
iterate-Keeps P body keeps zero a p = (a, refl, p)
iterate-Keeps P body keeps (suc k) a p =
    let one = keeps a p in
    let rest = iterate-Keeps P body keeps k one.0 one.2 in (rest.0, rw (one.1) rest.1, rest.2)

-- A squeeze that passes the tests with one buffer passes them with every buffer that has the bound's size.
resized :
    (B : Build) (f : Format) (lvl : ZlibLevel) (input out out' : List ℕ)
    → Passes B f lvl input out
    → length out' ≡ bound B f lvl (length input)
    → Passes B f lvl input out'
resized B f lvl input out out' p size = record {
  family = p.family;
  built = p.built;
  in_range = p.in_range;
  nonzero = p.nonzero;
  room = omega (arith, size);
  handle = p.handle;
  made = p.made;
}

module _ (B : Build) (L : ZlibLaws B.zlib_api) (M : ZstdLaws B.zstd_api) (f : Format)
    (lvl : ZlibLevel) (input : List ℕ) where
  -- The benchmarks of squeeze in the zlib formats come back from any number of iterations with the bytes
  -- processed, when the first squeeze passes the tests.
  pub squeeze_benchmark-ends :
      (k : ℕ)
      → Passes B f lvl input (bound_buffer B f lvl input)
      → squeeze_benchmark B f lvl k input ≡ some (k * length input % u64_mod)
  unfolding squeeze_benchmark squeeze_buffer squeeze_iteration bound_buffer
  squeeze_benchmark-ends k p =
      let r =
        iterate-Keeps (λ out. length out ≡ bound B f lvl (length input))
          (squeeze_buffer B f lvl input)
          (λ out size.
            let e = squeeze-push B f lvl input out (resized B f lvl input _ out p size) in
            (_, rw e refl, (squeeze-Spanned input out B L M f lvl _ e).0 ∙ size))
          k (replicate (bound B f lvl (length input)) 0) (length-replicate _ 0) in
      rw r.1 refl

module _ (B : Build) (L : ZlibLaws B.zlib_api) (M : ZstdLaws B.zstd_api)
    (K : ZlibCodec B.zlib_api L) (input : List ℕ) where
  -- The round trip over the file of the corpus comes back from any number of iterations, dereferencing no
  -- error, with the bytes processed, for an honest bound, when the corpus is available and its file can be
  -- read, the first squeeze passes the tests, the decompressor opens, the file is not empty and it and the bound
  -- are below 4 GiB.
  pub bm_corpus_roundtrip_zlib-ends :
      (S : Surroundings) (k : ℕ)
      → corpus_available S ≡ true
      → dickens S ≡ some input
      → Passes B Format.zlib ZlibAnchors.default_level input
          (bound_buffer B Format.zlib ZlibAnchors.default_level input)
      → Opens B Format.zlib
      → B.zlib_api.compress_bound (length input) < u64_mod
      → HonestBound B.zlib_api (window_bits_for Format.zlib)
      → 0 < length input
      → length input < u32_mod
      → bound B Format.zlib ZlibAnchors.default_level (length input) < u32_mod
      → bm_corpus_roundtrip_zlib B S k ≡ some (Run.processed (k * length input % u64_mod))
  unfolding bm_corpus_roundtrip_zlib roundtrip_buffers bound_buffer
  bm_corpus_roundtrip_zlib-ends S k there file p q word honest some_in small small_bound =
      let cap = bound B Format.zlib ZlibAnchors.default_level (length input) in
      let r =
        iterate-Keeps
          (λ (buffers : List ℕ × List ℕ).
            (length buffers.0 ≡ cap) × (length buffers.1 ≡ length input))
          (roundtrip_buffers B input)
          (λ buffers sized.
            let t =
              swell-squeeze_fit B L K Format.zlib ZlibAnchors.default_level input buffers.0
                buffers.1
                (resized B Format.zlib ZlibAnchors.default_level input _ buffers.0 p sized.0) q word
                honest some_in small (omega (arith, sized.0, small_bound)) sized.1 in
            let whole =
              squeeze-Spanned input buffers.0 B L M Format.zlib ZlibAnchors.default_level t.0 t.2 in
            ((t.0.out, input), rw (t.2, t.3, t.4) refl, (whole.0 ∙ sized.0, refl)))
          k (replicate cap 0, replicate (length input) 0)
          (length-replicate _ 0, length-replicate _ 0) in
      rw (there, file, r.1) refl

-- What squeeze made is swelled back over every buffer of the data's size.
swell_buffer-Back :
    (B : Build) (L : ZlibLaws B.zlib_api) (K : ZlibCodec B.zlib_api L) (lvl : ZlibLevel)
    (input out : List ℕ) (s : Shot)
    → Passes B Format.zlib lvl input out
    → Opens B Format.zlib
    → B.zlib_api.compress_bound (length input) < u64_mod
    → HonestBound B.zlib_api (window_bits_for Format.zlib)
    → 0 < length input
    → length input < u32_mod
    → length out < u32_mod
    → squeeze B Format.zlib lvl input out ≡ some s
    → (dec : List ℕ) → length dec ≡ length input
    → swell_buffer B s dec ≡ some input
unfolding swell_buffer
swell_buffer-Back B L K lvl input out s p q word honest some_in small small_out made dec size =
    let r =
      swell-squeeze_fit B L K Format.zlib lvl input out dec p q word honest some_in small small_out
        size in
    let same : s ≡ r.0 = cc (made, r.2) in rw (same, r.3, r.4) refl

module _ (B : Build) (L : ZlibLaws B.zlib_api) (K : ZlibCodec B.zlib_api L) (n : ℕ) where
  -- The benchmark of swell comes back from any number of iterations, dereferencing no error, with the bytes
  -- processed, under the conditions of the round trip on its n bytes, which are not none.
  pub bm_swell_zlib_default-ends :
      (k : ℕ)
      → Passes B Format.zlib ZlibAnchors.default_level
          (synthetic n)
          (bound_buffer B Format.zlib ZlibAnchors.default_level (synthetic n))
      → Opens B Format.zlib
      → B.zlib_api.compress_bound n < u64_mod
      → HonestBound B.zlib_api (window_bits_for Format.zlib)
      → 0 < n
      → n < u32_mod
      → bound B Format.zlib ZlibAnchors.default_level n < u32_mod
      → bm_swell_zlib_default B k n ≡ some (k * n % u64_mod)
  unfolding bm_swell_zlib_default bound_buffer synthetic
  bm_swell_zlib_default-ends k p q word honest some_in small small_bound =
      let input : List ℕ = replicate n 0 in
      let size : length input ≡ n = length-replicate n 0 in
      let cap = bound B Format.zlib ZlibAnchors.default_level (length input) in
      let out : List ℕ = replicate cap 0 in
      let size_out : length out ≡ cap = length-replicate cap 0 in
      let small_out : length out < u32_mod = rw (size_out, size) small_bound in
      let made = squeeze-push B Format.zlib ZlibAnchors.default_level input out p in
      let r =
        iterate-Keeps (λ (dec : List ℕ). length dec ≡ length input) (swell_buffer B _)
          (λ dec room. (
            input,
            swell_buffer-Back B L K ZlibAnchors.default_level input out _ p q (rw size word) honest
                (rw size some_in) (rw size small) small_out made dec room,
            refl,
          ))
          k (replicate (length input) 0) (length-replicate _ 0) in
      rw (made, r.1) (ap (λ m. some (k * m % u64_mod)) size)
