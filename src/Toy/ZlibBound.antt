-- ===== src/Toy/ZlibBound.antt =====
-- The bound of the small zlib is honest for every container.
use polliwog.Base.{
  ℕ, ◌+◌, ◌≤◌, ◌≡◌, refl, List, [], ◌∷◌, ◌++◌, length, take, drop, drop-all, arith, length-append,
  length-take-le, ◌==◌, Bool-cases, inl, inr,
}
use polliwog.Base.Int.{ℤ, pos, negsuc}
use polliwog.Engine.Zlib.{stream_end, finish}
use polliwog.Engine.ZlibCodec.{HonestBound}
use polliwog.Toy.Frame.{marks}
use polliwog.Toy.Zlib.{header, code, toy}

pub length-marks : (d : List ℕ) → length (marks d) ≡ length d + length d
unfolding marks
length-marks [] = refl
length-marks (b ∷ d) = omega (arith, length-marks d)

pub length-header : (w : ℤ) → length (header w) ≤ 10
length-header (pos n) = elim (Bool-cases (n == 31)) [
  | inl e ↦ rw e (omega arith)
  | inr e ↦ rw e (omega arith)
]
length-header (negsuc n) = omega arith

pub code_whole : (n : ℕ) (all : List ℕ) → length all ≤ n → code finish (drop n all) ≡ stream_end
code_whole n all h = rw (drop-all n all h) refl

pub toy-HonestBound : (w : ℤ) → HonestBound toy w
unfolding toy
toy-HonestBound w = record {
  whole_fits = λ s₀ s level e st v fits.
      let d = take s.avail_in s.next_in in
      rw st (
        code_whole s.avail_out (header w ++ (marks d ++ 0 ∷ [])) (
          omega (
            arith,
            fits,
            length-append (header w) (marks d ++ 0 ∷ []),
            length-append (marks d) (0 ∷ []),
            length-header w,
            length-marks d,
            length-take-le s.avail_in s.next_in,
          )));
}
