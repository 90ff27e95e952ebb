-- ===== src/Toy/Partly.antt =====
-- The small frame, read in pieces with any room.
use polliwog.Base.{
  ℕ, zero, suc, ◌+◌, ◌≡◌, refl, ap, subst, ◌⊎◌, inl, inr, Bool, true, false, List, [], ◌∷◌, ◌++◌,
  length, take, drop, min, arith,
}
use polliwog.Toy.Frame.{marks}
use polliwog.Toy.Reader.{Reading, reading, with_byte, to_come, Sound}

-- The rest of a list behind a common front.
pub cancel : (x a b : List ℕ) → x ++ a ≡ x ++ b → a ≡ b
cancel [] a b e = e
cancel (c ∷ x) a b e = cancel x a b (cc e)

-- So many bytes read are the whole, or the rest of the whole is still to come behind that of the header.
abbrev pub Read : List ℕ → List ℕ → List ℕ → ℕ → List ℕ → Reading → Type 0
Read d xs whole n head r =
    ((r.ended ≡ true) × (take n xs ≡ whole) × (r.made ≡ d))
    ⊎ ((r.ended ≡ false)
        × ((d' : List ℕ) × (r.made ++ d' ≡ d)
            × (take n xs ++ (head ++ to_come r.half d') ≡ whole)
            × Sound r.half d'))

-- A byte in front, of which nothing is made.
Read-front :
    (d xs whole head : List ℕ) (n y b : ℕ) (r : Reading)
    → y ≡ b
    → Read d xs whole n head r
    → Read d (y ∷ xs) (b ∷ whole) (suc n) head r
Read-front d xs whole head n y b r same (inl (ended, taken, made)) =
    inl (ended, rw same (ap (◌∷◌ b) taken), made)
Read-front d xs whole head n y b r same (inr (not_ended, (d', made, come, sound))) =
    inr (not_ended, (d', made, rw same (ap (◌∷◌ b) come), sound))

-- A byte in front that is made.
Read-byte :
    (d xs whole : List ℕ) (y b : ℕ) (r : Reading)
    → y ≡ b
    → Read d xs whole r.taken [] r
    → Read (b ∷ d) (y ∷ xs) (b ∷ whole) (suc r.taken) [] (with_byte y r)
Read-byte d xs whole y b r same (inl (ended, taken, made)) =
    inl (ended, rw same (ap (◌∷◌ b) taken), rw same (ap (◌∷◌ b) made))
Read-byte d xs whole y b r same (inr (not_ended, (d', made, come, sound))) =
    inr (not_ended, (d', rw same (ap (◌∷◌ b) made), rw same (ap (◌∷◌ b) come), sound))

reading-any :
    (half : Bool) (room : ℕ) (d xs rest extra : List ℕ)
    → Sound half d
    → xs ++ rest ≡ to_come half d ++ extra
    → let r = reading half room xs in Read d xs (to_come half d) r.taken [] r
unfolding reading marks to_come
reading-any true room d [] rest extra s e = inr (refl, (d, refl, refl, s))
reading-any true room [] (y ∷ xs) rest extra s e = absurd (omega (arith, s))
reading-any true zero (b ∷ d) (y ∷ xs) rest extra s e = inr (refl, (b ∷ d, refl, refl, s))
reading-any true (suc room) (b ∷ d) (y ∷ xs) rest extra s e =
    Read-byte d xs (to_come false d) y b (reading false room xs) (cc e)
      (reading-any false room d xs rest extra tt (cc e))
reading-any false room d [] rest extra s e = inr (refl, (d, refl, refl, s))
reading-any false room [] (zero ∷ xs) rest extra s e = inl (refl, refl, refl)
reading-any false room [] (suc m ∷ xs) rest extra s e = absurd (cc e)
reading-any false room (b ∷ d) (zero ∷ xs) rest extra s e = absurd (cc e)
reading-any false room (b ∷ d) (suc m ∷ []) rest extra s e =
    inr (refl, (b ∷ d, refl, ap (λ x. x ∷ b ∷ (marks d ++ 0 ∷ [])) (cc e), omega arith))
reading-any false zero (b ∷ d) (suc m ∷ y ∷ xs) rest extra s e =
    inr (refl, (b ∷ d, refl, ap (λ x. x ∷ b ∷ (marks d ++ 0 ∷ [])) (cc e), omega arith))
reading-any false (suc room) (b ∷ d) (suc m ∷ y ∷ xs) rest extra s e =
    let r = reading false room xs in
    Read-front (b ∷ d) (y ∷ xs) (b ∷ to_come false d) [] (suc r.taken) (suc m) 1 (with_byte y r)
      (cc e)
      (Read-byte d xs (to_come false d) y b r (cc e)
        (reading-any false room d xs rest extra tt (cc e)))

-- The same behind what is left of a header.
pub headed-any :
    (k : ℕ) (head window : List ℕ) (half : Bool) (room : ℕ) (d rest extra : List ℕ)
    → k ≡ min (length head) (length window)
    → Sound half d
    → window ++ rest ≡ (head ++ to_come half d) ++ extra
    → let r = reading half room (drop k window) in
      Read d window (head ++ to_come half d) (k + r.taken) (drop k head) r
unfolding reading
headed-any zero [] window half room d rest extra n s e =
    subst (λ n. Read d window (to_come half d) n [] (reading half room window)) (omega arith)
      (reading-any half room d window rest extra s e)
headed-any (suc k) [] window half room d rest extra n s e = absurd (omega (arith, n))
headed-any zero (b ∷ head) [] half room d rest extra n s e = inr (refl, (d, refl, refl, s))
headed-any (suc k) (b ∷ head) [] half room d rest extra n s e = absurd (omega (arith, n))
headed-any zero (b ∷ head) (x ∷ window) half room d rest extra n s e = absurd (omega (arith, n))
headed-any (suc k) (b ∷ head) (x ∷ window) half room d rest extra n s e =
    let r = reading half room (drop k window) in
    let same : suc (k + r.taken) ≡ suc k + r.taken = omega arith in
    subst (λ n. Read d (x ∷ window) (b ∷ (head ++ to_come half d)) n (drop k head) r) same
      (Read-front d window (head ++ to_come half d) (drop k head) (k + r.taken) x b r (cc e)
        (headed-any k head window half room d rest extra (omega (arith, n)) s (cc e)))
