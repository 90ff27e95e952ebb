-- ===== src/Toy/Reader.antt =====
-- The frame of the small libraries, read in pieces: a byte and the 1 before it may come in two pieces.
use polliwog.Base.{
  ℕ, zero, suc, ◌≤◌, ◌<◌, ◌≡◌, refl, ap, Bool, true, false, List, [], ◌∷◌, ◌++◌, length, arith,
  length-append,
}
use polliwog.Toy.Frame.{marks}

-- What a reader with room for so many bytes does with its input; `half` says that a 1 was read and its
-- byte is still to come.
pub record Reading : Type 0 where
  pub taken : ℕ
  pub made : List ℕ
  pub half : Bool
  pub ended : Bool

abbrev waits : Bool → Reading
waits h = record { taken = 0; made = []; half = h; ended = false }

abbrev pub one_more : Reading → Reading
one_more r = record r { taken = suc r.taken }

abbrev pub with_byte : ℕ → Reading → Reading
with_byte b r = record r { taken = suc r.taken; made = b ∷ r.made }

unfoldable pub reading : Bool → ℕ → List ℕ → Reading
reading half room [] = waits half
reading true zero (b ∷ xs) = waits true
reading true (suc room) (b ∷ xs) = with_byte b (reading false room xs)
reading false room (zero ∷ xs) = record { taken = 1; made = []; half = false; ended = true }
reading false room (suc m ∷ xs) = one_more (reading true room xs)

pub reading-le :
    (half : Bool) (room : ℕ) (xs : List ℕ)
    → ((reading half room xs).taken ≤ length xs) × (length (reading half room xs).made ≤ room)
unfolding reading
reading-le true room [] = (omega arith, omega arith)
reading-le false room [] = (omega arith, omega arith)
reading-le true zero (b ∷ xs) = (omega arith, omega arith)
reading-le true (suc room) (b ∷ xs) =
    let r = reading-le false room xs in (omega (arith, r.0), omega (arith, r.1))
reading-le false room (zero ∷ xs) = (omega arith, omega arith)
reading-le false room (suc m ∷ xs) = let r = reading-le true room xs in (omega (arith, r.0), r.1)

-- The input that is still to come, for the data that is still to come.
unfoldable pub to_come : Bool → List ℕ → List ℕ
to_come true [] = []
to_come true (b ∷ d) = b ∷ (marks d ++ 0 ∷ [])
to_come false d = marks d ++ 0 ∷ []

-- After a 1 there is a byte.
abbrev pub Sound : Bool → List ℕ → Type 0
Sound true d = 0 < length d
Sound false d = Unit {0}

-- The whole of what is to come, and more: the data.
pub reading-whole :
    (half : Bool) (room : ℕ) (d extra : List ℕ)
    → Sound half d
    → length d ≤ room
    → reading half room (to_come half d ++ extra)
      ≡ record { taken = length (to_come half d); made = d; half = false; ended = true }
unfolding reading marks to_come
reading-whole true room [] extra s h = absurd (omega (arith, s))
reading-whole true zero (b ∷ d) extra s h = absurd (omega arith)
reading-whole true (suc room) (b ∷ d) extra s h =
    ap (with_byte b) (reading-whole false room d extra tt (omega arith))
reading-whole false room [] extra s h = refl
reading-whole false zero (b ∷ d) extra s h = absurd (omega arith)
reading-whole false (suc room) (b ∷ d) extra s h =
    ap (λ r. one_more (with_byte b r)) (reading-whole false room d extra tt (omega arith))

-- What a part says: it was taken whole, and the rest is still to come.
abbrev pub Part : List ℕ → List ℕ → List ℕ → Reading → Type 0
Part d xs rest r =
    (r.taken ≡ length xs)
    × (r.ended ≡ false)
    × ((d' : List ℕ) × (r.made ++ d' ≡ d) × (rest ≡ to_come r.half d') × Sound r.half d')

byte_read :
    (y b : ℕ) (xs d rest : List ℕ) (r : Reading)
    → y ≡ b
    → Part d xs rest r
    → Part (b ∷ d) (y ∷ xs) rest (with_byte y r)
byte_read y b xs d rest r same (taken, ended, (d', made, left, sound)) =
    (ap suc taken, ended, (d', rw same (ap (◌∷◌ b) made), left, sound))

-- Part of what is to come: it is read whole, and the rest is still to come.
pub reading-Part :
    (half : Bool) (room : ℕ) (d xs rest : List ℕ)
    → Sound half d
    → length d ≤ room
    → xs ++ rest ≡ to_come half d
    → 0 < length rest
    → Part d xs rest (reading half room xs)
unfolding reading marks to_come
reading-Part true room d [] rest s h e more = (refl, refl, (d, refl, e, s))
reading-Part true room [] (y ∷ xs) rest s h e more = absurd (omega (arith, s))
reading-Part true zero (b ∷ d) (y ∷ xs) rest s h e more = absurd (omega arith)
reading-Part true (suc room) (b ∷ d) (y ∷ xs) rest s h e more =
    let r = reading-Part false room d xs rest tt (omega arith) (cc e) more in
    byte_read y b xs d rest (reading false room xs) (cc e) r
reading-Part false room d [] rest s h e more = (refl, refl, (d, refl, e, tt))
reading-Part false room [] (x ∷ xs) rest s h e more =
    absurd (omega (arith, ap length e, length-append xs rest))
reading-Part false room (b ∷ d) (zero ∷ xs) rest s h e more = absurd (cc e)
reading-Part false room (b ∷ d) (suc m ∷ []) rest s h e more =
    (refl, refl, (b ∷ d, refl, cc e, omega arith))
reading-Part false zero (b ∷ d) (suc m ∷ y ∷ xs) rest s h e more = absurd (omega arith)
reading-Part false (suc room) (b ∷ d) (suc m ∷ y ∷ xs) rest s h e more =
    let r = reading-Part false room d xs rest tt (omega arith) (cc e) more in
    let q = byte_read y b xs d rest (reading false room xs) (cc e) r in (ap suc q.0, q.1, q.2)
