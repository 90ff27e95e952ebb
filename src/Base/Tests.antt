-- ===== src/Base/Tests.antt =====
-- Boolean tests on the native numbers and the conditional, with the splits that keep an equation.
use Prim.Native.Nat.{ℕ, compare, Ordering}
use mathlib.Core.Path.{◌≡◌, refl}
use mathlib.Core.Logic.{◌⊎◌, inl, inr}
use mathlib.Core.Bool.{Bool, true, false}
use mathlib.Core.Option.{Option, none, some}

abbrev pub ltb : ℕ → ℕ → Bool
ltb a b = elim (compare a b) [ Ordering.lt ↦ true | _ ↦ false ]

abbrev pub leb : ℕ → ℕ → Bool
leb a b = elim (compare a b) [ Ordering.gt ↦ false | _ ↦ true ]

infix 50 ◌==◌
abbrev pub ◌==◌ : ℕ → ℕ → Bool
a == b = elim (compare a b) [ Ordering.eq ↦ true | _ ↦ false ]

infix 1 if◌then◌else◌
abbrev pub if◌then◌else◌ {ℓ} : {A : Type ℓ} → Bool → A → A → A
if true then x else y = x
if false then x else y = y

-- To split on a computed value and keep the equation.
pub Bool-cases : (b : Bool) → (b ≡ true) ⊎ (b ≡ false)
Bool-cases true = inl refl
Bool-cases false = inr refl

pub Option-cases {ℓ} : {A : Type ℓ} (o : Option A) → (o ≡ none) ⊎ ((a : A) × (o ≡ some a))
Option-cases none = inl refl
Option-cases (some a) = inr (a, refl)

-- What follows once a value is there.
abbrev pub map_some {ℓ κ} : {A : Type ℓ} {B : Type κ} → Option A → (A → B) → Option B
map_some none f = none
map_some (some a) f = some (f a)

infixl 5 ◌>>=◌
abbrev pub ◌>>=◌ {ℓ κ} : {A : Type ℓ} {B : Type κ} → Option A → (A → Option B) → Option B
none >>= f = none
some a >>= f = f a

-- Two steps that gave a value, and what goes on from it.
pub bind-bind {ℓ} :
    {A B C : Type ℓ} (o : Option A) (f : A → Option B) (k : B → Option C) (b : B)
    → (o >>= f) ≡ some b
    → (o >>= λ a. f a >>= k) ≡ k b
bind-bind none f k b e = absurd (cc e)
bind-bind (some a) f k b e = rw e refl

-- Of what is returned, if anything is.
abbrev pub Every {ℓ κ} : {A : Type ℓ} → Option A → (A → Type κ) → Type κ
Every none P = Unit
Every (some a) P = P a
