-- ===== src/Bench/Periods.antt =====
-- The fill of random_data, which squeeze_bench.cpp calls incompressible.
use polliwog.Base.{
  ℕ, zero, suc, ◌+◌, ◌*◌, ◌%◌, ◌<◌, ◌≡◌, refl, sym, ap, ◌∙◌, some, get_elem?, arith,
}
use polliwog.Base.Words.{u64_mod}
use polliwog.Bench.{random_from, random_data}

-- The byte at an index.
abbrev byte_at : ℕ → ℕ
byte_at i = (i * 2654435761 % u64_mod) % 256

get_elem?-random_from : (i n j : ℕ) → j < n → get_elem? (random_from i n) j ≡ some (byte_at (i + j))
unfolding random_from
get_elem?-random_from i zero j h = absurd (omega arith)
get_elem?-random_from i (suc n) zero h = let e : i + 0 ≡ i = omega arith in rw e refl
get_elem?-random_from i (suc n) (suc j) h =
    let e : i + 1 + j ≡ i + suc j = omega arith in
    get_elem?-random_from (i + 1) n j (omega arith) ∙ ap (λ k. some (byte_at k)) e

byte_at-add : (i : ℕ) → byte_at (i + 256) ≡ byte_at i
byte_at-add i = omega arith

-- The data repeats itself every 256 bytes.
pub random_data-repeats :
    (n i : ℕ) → i + 256 < n → get_elem? (random_data n) (i + 256) ≡ get_elem? (random_data n) i
unfolding random_data
random_data-repeats n i h =
    let later : get_elem? (random_from 0 n) (i + 256) ≡ some (byte_at (0 + (i + 256))) =
      get_elem?-random_from 0 n (i + 256) h in
    let now : get_elem? (random_from 0 n) i ≡ some (byte_at (0 + i)) =
      get_elem?-random_from 0 n i (omega (arith, h)) in
    let e : 0 + (i + 256) ≡ (0 + i) + 256 = omega arith in
    later ∙ rw e (ap some (byte_at-add (0 + i))) ∙ sym now
