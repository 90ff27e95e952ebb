-- ===== src/Fuzz/Rounds.antt =====
-- The rounds of the loops of the streaming fuzz target: the next chunk, and what a call with it gives.
use polliwog.Base.{
  ℕ, suc, ◌+◌, ◌-◌, ◌≤◌, ◌<◌, ◌≡◌, refl, ◌⊎◌, inl, inr, true, List, some, length, take, drop, ltb,
  arith, get_elem?, length-take, length-drop,
}
use polliwog.Error.{Error, Expected, value, unexpected}
use polliwog.Backend.{Progress}
use polliwog.Build.{Build}
use polliwog.Zlib.Squeezer as ZlibSqueezer
use polliwog.Zlib.Squeezer.{ZlibSqueezer}
use polliwog.Zlib.Sweller as ZlibSweller
use polliwog.Zlib.Sweller.{ZlibSweller}
use polliwog.Stream.{
  SqueezerVariant, SwellerVariant, returned, visit, swollen, finished, finish_visitor, push_visitor,
  swell_visitor,
}
use polliwog.Stream.Calls.{push_value}
use polliwog.Stream.Compressor
use polliwog.Stream.Compressor.{Compressor}
use polliwog.Stream.Decompressor
use polliwog.Stream.Decompressor.{Decompressor}
use polliwog.Fuzz.Streaming.{chunk_size, push_loop}

-- The next chunk, while there is one.
pub chunk-le :
    (b pos : ℕ) (xs : List ℕ)
    → pos < length xs
    → let chunk = take (chunk_size b (length xs - pos)) (drop pos xs) in
      (0 < length chunk) × (length chunk ≤ length xs - pos) × (length chunk ≤ 64)
chunk-le b pos xs more =
    let n = length-take (chunk_size b (length xs - pos)) (drop pos xs) in
    let d = length-drop pos xs in
    (omega (arith, n, d, more), omega (arith, n, d), omega (arith, n, d))

module _ (B : Build) (input : List ℕ) where
  -- A round of the first loop whose push succeeds.
  pub push_loop-round :
      (fuel pos b : ℕ) (h : ZlibSqueezer B.zlib_api) (out : List ℕ) (p : Progress)
      → pos < length input
      → get_elem? input pos ≡ some b
      → let chunk = take (chunk_size b (length input - pos)) (drop pos input) in
        let q = ZlibSqueezer.push_more B.zlib_api h chunk out in
        q.result ≡ value p
        → push_loop B (suc fuel) input pos (Compressor.holding B (SqueezerVariant.zlib h)) out
          ≡ push_loop B fuel input
              (pos + p.bytes_in)
              (Compressor.holding B (SqueezerVariant.zlib q.handle))
              q.out
  unfolding push_loop
  push_loop-round fuel pos b h out p less there ep =
      let chunk = take (chunk_size b (length input - pos)) (drop pos input) in
      let more : ltb pos (length input) ≡ true = ground arith in
      rw (more, there, push_value B h chunk out p ep) refl

module _ (B : Build) where
  -- A push that fails.
  pub push_error :
      (h : ZlibSqueezer B.zlib_api) (chunk out : List ℕ) (e : Error)
      → let q = ZlibSqueezer.push_more B.zlib_api h chunk out in
        q.result ≡ unexpected e
        → Compressor.push B (Compressor.holding B (SqueezerVariant.zlib h)) chunk out
          ≡ some (record {
            self = Compressor.holding B (SqueezerVariant.zlib q.handle);
            out = q.out;
            result = unexpected e;
          })
  unfolding Compressor.push push_visitor
  push_error h chunk out e er = rw er refl

  -- A push of the decompressor that fails, and one that succeeds.
  pub swell_push :
      (h : ZlibSweller B.zlib_api) (chunk out : List ℕ) (r : Expected Progress)
      → let q = ZlibSweller.push_more B.zlib_api h chunk out in
        q.result ≡ r
        → Decompressor.push B (Decompressor.holding B (SwellerVariant.zlib h)) chunk out
          ≡ some (
              returned
                (Decompressor.holding B)
                Decompressor.push_result
                (visit SwellerVariant.zlib swollen (record q { result = r })))
  unfolding Decompressor.push swell_visitor
  swell_push h chunk out r er = rw er refl

  -- What `finish` reports, of the backend.
  pub finish_push :
      (h : ZlibSqueezer B.zlib_api) (out : List ℕ) (r : Expected Progress)
      → let q = ZlibSqueezer.finish B.zlib_api h out in
        q.result ≡ r
        → Compressor.finish B (Compressor.holding B (SqueezerVariant.zlib h)) out
          ≡ some (
              returned
                (Compressor.holding B)
                Compressor.finish_result
                (visit SqueezerVariant.zlib finished (record q { result = r })))
  unfolding Compressor.finish finish_visitor
  finish_push h out r er = rw er refl

pub Expected-cases :
    {A : Type 0} (r : Expected A) → ((e : Error) × (r ≡ unexpected e)) ⊎ ((a : A) × (r ≡ value a))
Expected-cases (unexpected e) = inl (e, refl)
Expected-cases (value a) = inr (a, refl)
