-- ===== src/Base/Lists.antt =====
-- Lists measured and indexed by native numbers, under the library's names.
use Prim.Native.Nat.add
use Prim.Native.Nat.{ℕ, zero, suc, ◌+◌, ◌-◌, ◌≤◌, ◌<◌, min}
use mathlib.Core.Path.{◌≡◌, refl, sym, ap, ap₂}
use mathlib.Core.Logic.{◌≢◌}
use mathlib.Core.List.{List, [], ◌∷◌, ◌++◌}
use mathlib.Core.Option.{Option, none, some, some-injective}
use native.Mathlib.Omega.{arith}

module _ {ℓ} {A : Type ℓ} where
  abbrev pub length : List A → ℕ
  length [] = 0
  length (x ∷ xs) = suc (length xs)

  abbrev pub get_elem? : List A → ℕ → Option A
  get_elem? [] i = none
  get_elem? (x ∷ xs) zero = some x
  get_elem? (x ∷ xs) (suc i) = get_elem? xs i

  -- A write out of bounds changes nothing.
  abbrev pub set : List A → ℕ → A → List A
  set [] i v = []
  set (x ∷ xs) zero v = v ∷ xs
  set (x ∷ xs) (suc i) v = x ∷ set xs i v

  abbrev pub take : ℕ → List A → List A
  take zero xs = []
  take (suc n) [] = []
  take (suc n) (x ∷ xs) = x ∷ take n xs

  abbrev pub drop : ℕ → List A → List A
  drop zero xs = xs
  drop (suc n) [] = []
  drop (suc n) (x ∷ xs) = drop n xs

  pub length-append : (xs ys : List A) → length (xs ++ ys) ≡ length xs + length ys
  length-append [] ys = omega arith
  length-append (x ∷ xs) ys = omega (arith, length-append xs ys)

  pub length-take : (n : ℕ) (xs : List A) → length (take n xs) ≡ min n (length xs)
  length-take zero xs = omega arith
  length-take (suc n) [] = omega arith
  length-take (suc n) (x ∷ xs) = omega (arith, length-take n xs)

  pub length-take-le : (n : ℕ) (xs : List A) → length (take n xs) ≤ n
  length-take-le n xs = omega (arith, length-take n xs)

  pub length-drop : (n : ℕ) (xs : List A) → length (drop n xs) ≡ length xs - n
  length-drop zero xs = omega arith
  length-drop (suc n) [] = omega arith
  length-drop (suc n) (x ∷ xs) = omega (arith, length-drop n xs)

  pub take-all : (n : ℕ) (xs : List A) → length xs ≤ n → take n xs ≡ xs
  take-all zero [] h = refl
  take-all zero (x ∷ xs) h = absurd (omega arith)
  take-all (suc n) [] h = refl
  take-all (suc n) (x ∷ xs) h = ap (◌∷◌ x) (take-all n xs (omega arith))

  pub drop-all : (n : ℕ) (xs : List A) → length xs ≤ n → drop n xs ≡ []
  drop-all zero [] h = refl
  drop-all (suc n) [] h = refl
  drop-all zero (x ∷ xs) h = absurd (omega arith)
  drop-all (suc n) (x ∷ xs) h = drop-all n xs (omega arith)

  pub take-take : (m n : ℕ) (xs : List A) → m ≤ n → take m (take n xs) ≡ take m xs
  take-take zero n xs h = refl
  take-take (suc m) zero xs h = absurd (omega arith)
  take-take (suc m) (suc n) [] h = refl
  take-take (suc m) (suc n) (x ∷ xs) h = ap (◌∷◌ x) (take-take m n xs (omega arith))

  pub take-append-drop : (n : ℕ) (xs : List A) → take n xs ++ drop n xs ≡ xs
  take-append-drop zero xs = refl
  take-append-drop (suc n) [] = refl
  take-append-drop (suc n) (x ∷ xs) = ap (◌∷◌ x) (take-append-drop n xs)

  pub take-append : (xs ys : List A) → take (length xs) (xs ++ ys) ≡ xs
  take-append [] ys = refl
  take-append (x ∷ xs) ys = ap (◌∷◌ x) (take-append xs ys)

  pub drop-append : (xs ys : List A) → drop (length xs) (xs ++ ys) ≡ ys
  drop-append [] ys = refl
  drop-append (x ∷ xs) ys = drop-append xs ys

  pub length-set : (xs : List A) (i : ℕ) (v : A) → length (set xs i v) ≡ length xs
  length-set [] i v = refl
  length-set (x ∷ xs) zero v = refl
  length-set (x ∷ xs) (suc i) v = ap suc (length-set xs i v)

  -- Inside the list there is an element.
  pub get_elem?-some : (xs : List A) (i : ℕ) → i < length xs → (x : A) × (get_elem? xs i ≡ some x)
  get_elem?-some [] i h = absurd (omega arith)
  get_elem?-some (x ∷ xs) zero h = (x, refl)
  get_elem?-some (x ∷ xs) (suc i) h = get_elem?-some xs i (omega arith)

  pub get_elem?-set_self :
      (xs : List A) (i : ℕ) (v : A) → i < length xs → get_elem? (set xs i v) i ≡ some v
  get_elem?-set_self [] i v h = elim h [ ]
  get_elem?-set_self (x ∷ xs) zero v h = refl
  get_elem?-set_self (x ∷ xs) (suc i) v h = get_elem?-set_self xs i v (omega arith)

  pub get_elem?-set_ne :
      (xs : List A) (i j : ℕ) (v : A) → i ≢ j → get_elem? (set xs i v) j ≡ get_elem? xs j
  get_elem?-set_ne [] i j v h = refl
  get_elem?-set_ne (x ∷ xs) zero zero v h = absurd (h refl)
  get_elem?-set_ne (x ∷ xs) zero (suc j) v h = refl
  get_elem?-set_ne (x ∷ xs) (suc i) zero v h = refl
  get_elem?-set_ne (x ∷ xs) (suc i) (suc j) v h = get_elem?-set_ne xs i j v (λ e. h (ap suc e))

  -- A write within the first part of a list stays there.
  pub set-append :
      (xs ys : List A) (i : ℕ) (v : A) → i < length xs → set (xs ++ ys) i v ≡ set xs i v ++ ys
  set-append [] ys i v h = elim h [ ]
  set-append (x ∷ xs) ys zero v h = refl
  set-append (x ∷ xs) ys (suc i) v h = ap (◌∷◌ x) (set-append xs ys i v (omega arith))

  drop-nil : (n : ℕ) → drop n [] ≡ []
  drop-nil zero = refl
  drop-nil (suc n) = refl

  pub drop-drop : (a b : ℕ) (xs : List A) → drop (a + b) xs ≡ drop b (drop a xs)
  drop-drop zero b xs = rw add.zero
  drop-drop (suc a) b [] = rw add.suc (sym (drop-nil b))
  drop-drop (suc a) b (x ∷ xs) = rw add.suc (drop-drop a b xs)

  -- What stands after `made` is written at `p`.
  pub drop-splice :
      (p : ℕ) (xs made rest : List A)
      → p ≤ length xs
      → drop (p + length made) (take p xs ++ (made ++ rest)) ≡ rest
  drop-splice zero xs made rest h = rw add.zero (drop-append made rest)
  drop-splice (suc p) [] made rest h = absurd (omega arith)
  drop-splice (suc p) (x ∷ xs) made rest h = rw add.suc (drop-splice p xs made rest (omega arith))

  -- What stands up to the end of `made` after it is written at `p`.
  pub take-splice :
      (p : ℕ) (xs made rest : List A)
      → p ≤ length xs
      → take (p + length made) (take p xs ++ (made ++ rest)) ≡ take p xs ++ made
  take-splice zero xs made rest h = rw add.zero (take-append made rest)
  take-splice (suc p) [] made rest h = absurd (omega arith)
  take-splice (suc p) (x ∷ xs) made rest h =
      rw add.suc (ap (◌∷◌ x) (take-splice p xs made rest (omega arith)))

  pub length-splice :
      (p : ℕ) (xs made : List A)
      → p + length made ≤ length xs
      → length (take p xs ++ (made ++ drop (p + length made) xs)) ≡ length xs
  length-splice p xs made h = omega (
    arith,
    length-append (take p xs) (made ++ drop (p + length made) xs),
    length-append made (drop (p + length made) xs),
    length-take p xs,
    length-drop (p + length made) xs,
  )

  pub drop-set : (xs : List A) (n i : ℕ) (v : A) → i < n → drop n (set xs i v) ≡ drop n xs
  drop-set xs zero i v h = elim h [ ]
  drop-set [] (suc n) i v h = refl
  drop-set (x ∷ xs) (suc n) zero v h = refl
  drop-set (x ∷ xs) (suc n) (suc i) v h = drop-set xs n i v (omega arith)

  list_ext :
      (xs ys : List A)
      → length xs ≡ length ys
      → ((j : ℕ) → get_elem? xs j ≡ get_elem? ys j)
      → xs ≡ ys
  list_ext [] [] n h = refl
  list_ext [] (y ∷ ys) n h = absurd (omega arith)
  list_ext (x ∷ xs) [] n h = absurd (omega arith)
  list_ext (x ∷ xs) (y ∷ ys) n h =
      ap₂ ◌∷◌ (some-injective x y (h zero)) (list_ext xs ys (omega arith) (λ j. h (suc j)))

  -- Lists that agree everywhere but at one place are equal once that place is written.
  pub set-agree :
      (xs ys : List A) (i : ℕ) (v : A)
      → length xs ≡ length ys
      → ((j : ℕ) → j ≢ i → get_elem? xs j ≡ get_elem? ys j)
      → set xs i v ≡ set ys i v
  set-agree [] [] i v n h = refl
  set-agree [] (y ∷ ys) i v n h = absurd (omega arith)
  set-agree (x ∷ xs) [] i v n h = absurd (omega arith)
  set-agree (x ∷ xs) (y ∷ ys) zero v n h =
      ap (◌∷◌ v) (list_ext xs ys (omega arith) (λ j. h (suc j) (λ e. absurd (omega arith))))
  set-agree (x ∷ xs) (y ∷ ys) (suc i) v n h =
      ap₂ ◌∷◌ (some-injective x y (h zero (λ e. absurd (omega arith))))
        (set-agree xs ys i v (omega arith) (λ j ne. h (suc j) (λ e. ne (omega arith))))
