-- ===== src/Base/Buffers.antt =====
-- Buffers that are filled from the front, through the span that starts where the last call stopped.
use Prim.Native.Nat.add
use Prim.Native.Nat.{ℕ, zero, suc, ◌+◌, ◌≤◌, min}
use mathlib.Core.Path.{◌≡◌, refl, ap}
use mathlib.Core.List.{List, [], ◌∷◌, ◌++◌}
use native.Mathlib.Omega.{arith}
use polliwog.Base.Lists.{length, take, drop, length-append, length-take, length-drop, take-take}

module _ {ℓ} {A : Type ℓ} where
  unfoldable pub replicate : ℕ → A → List A
  replicate zero v = []
  replicate (suc n) v = v ∷ replicate n v

  pub length-replicate : (n : ℕ) (v : A) → length (replicate n v) ≡ n
  unfolding replicate
  length-replicate zero v = refl
  length-replicate (suc n) v = ap suc (length-replicate n v)

  pub take-add : (m n : ℕ) (xs : List A) → take (m + n) xs ≡ take m xs ++ take n (drop m xs)
  take-add zero n xs = rw add.zero refl
  take-add (suc m) zero [] = rw add.suc refl
  take-add (suc m) (suc n) [] = rw add.suc refl
  take-add (suc m) n (x ∷ xs) = rw add.suc (ap (◌∷◌ x) (take-add m n xs))

  pub take-min : (n : ℕ) (xs : List A) → take (min n (length xs)) xs ≡ take n xs
  take-min zero xs = let e : min 0 (length xs) ≡ 0 = omega arith in rw e refl
  take-min (suc n) [] = let e : min (suc n) 0 ≡ 0 = omega arith in rw e refl
  take-min (suc n) (x ∷ xs) =
      let e : min (suc n) (suc (length xs)) ≡ suc (min n (length xs)) = omega arith in
      rw e (ap (◌∷◌ x) (take-min n xs))

  -- A piece of a front.
  pub take-drop-take :
      (m n k : ℕ) (xs : List A) → m + n ≤ k → take n (drop m (take k xs)) ≡ take n (drop m xs)
  take-drop-take zero n k xs h = take-take n k xs (omega (arith, h))
  take-drop-take (suc m) n zero xs h = absurd (omega arith)
  take-drop-take (suc m) zero (suc k) [] h = refl
  take-drop-take (suc m) (suc n) (suc k) [] h = refl
  take-drop-take (suc m) n (suc k) (x ∷ xs) h = take-drop-take m n k xs (omega (arith, h))

  -- The buffer once its bytes from `at` on are those that a call left in the span.
  abbrev pub filled : ℕ → List A → List A → List A
  filled at span buffer = take at buffer ++ span

  pub length-filled :
      (at : ℕ) (span buffer : List A)
      → at ≤ length buffer
      → length span ≡ length (drop at buffer)
      → length (filled at span buffer) ≡ length buffer
  length-filled at span buffer h e =
      omega (
        arith,
        e,
        length-append (take at buffer) span,
        length-take at buffer,
        length-drop at buffer,
      )

  pub take-filled :
      (at n : ℕ) (span buffer : List A)
      → at ≤ length buffer
      → take (at + n) (filled at span buffer) ≡ take at buffer ++ take n span
  take-filled zero n span buffer h = rw add.zero refl
  take-filled (suc at) n span [] h = absurd (omega arith)
  take-filled (suc at) n span (b ∷ buffer) h =
      rw add.suc (ap (◌∷◌ b) (take-filled at n span buffer (omega arith)))
