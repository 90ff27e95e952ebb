-- ===== src/Toy/Frame.antt =====
-- The frame of the small libraries: each byte behind a 1, and a 0 at the end.
use polliwog.Base.{
  ℕ, zero, suc, ◌≤◌, ◌≡◌, refl, ap, Bool, true, false, List, [], ◌∷◌, ◌++◌, length, arith,
}

unfoldable pub marks : List ℕ → List ℕ
marks [] = []
marks (b ∷ d) = 1 ∷ b ∷ marks d

pub marks-append : (c d : List ℕ) → marks (c ++ d) ≡ marks c ++ marks d
unfolding marks
marks-append [] d = refl
marks-append (b ∷ c) d = ap (λ r. 1 ∷ b ∷ r) (marks-append c d)

-- What a decoder with room for so many bytes does with its input.
pub record Decoded : Type 0 where
  pub taken : ℕ
  pub made : List ℕ
  pub ended : Bool

abbrev stopped : Decoded
stopped = record { taken = 0; made = []; ended = false }

unfoldable pub decode : ℕ → List ℕ → Decoded
decode room [] = stopped
decode room (zero ∷ xs) = record { taken = 1; made = []; ended = true }
decode zero (suc m ∷ xs) = stopped
decode (suc room) (suc m ∷ []) = stopped
decode (suc room) (suc m ∷ b ∷ xs) =
    let r = decode room xs in
    record { taken = suc (suc r.taken); made = b ∷ r.made; ended = r.ended }

pub decode-le :
    (room : ℕ) (xs : List ℕ)
    → ((decode room xs).taken ≤ length xs) × (length (decode room xs).made ≤ room)
unfolding decode
decode-le room [] = (omega arith, omega arith)
decode-le room (zero ∷ xs) = (omega arith, omega arith)
decode-le zero (suc m ∷ xs) = (omega arith, omega arith)
decode-le (suc room) (suc m ∷ []) = (omega arith, omega arith)
decode-le (suc room) (suc m ∷ b ∷ xs) =
    let r = decode-le room xs in (omega (arith, r.0), omega (arith, r.1))

-- A whole frame with room for its data.
pub decode-marks :
    (room : ℕ) (d extra : List ℕ)
    → length d ≤ room
    → decode room (marks d ++ 0 ∷ extra)
      ≡ record { taken = length (marks d ++ 0 ∷ []); made = d; ended = true }
unfolding decode marks
decode-marks zero [] extra h = refl
decode-marks (suc room) [] extra h = refl
decode-marks zero (b ∷ d) extra h = absurd (omega arith)
decode-marks (suc room) (b ∷ d) extra h = rw (decode-marks room d extra (omega arith))
