-- ===== src/Toy/ZlibProgress.antt =====
-- The small zlib goes as far as it can, and makes no more than its bounds.
use polliwog.Base.{
  ℕ, zero, suc, ◌+◌, ◌*◌, ◌≤◌, ◌≡◌, refl, ap, ◌⊎◌, inl, inr, Bool, true, false, List, [], ◌∷◌,
  Option, none, some, length, take, drop, arith, if◌then◌else◌, length-take, length-drop,
}
use polliwog.Base.Int.{ℤ}
use polliwog.Engine.Zlib.{ok, stream_end, ZStream, IsAimed}
use polliwog.Engine.ZlibProgress.{GoesOn, ZlibProgress}
use polliwog.Toy.Reader.{reading}
use polliwog.Toy.Zlib.{ToyState, lead, inflate_with, toy}
use polliwog.Toy.ZlibAccounts.{inflate_with-Accounts, toy-ZlibLaws}
use polliwog.Toy.ZlibBound.{length-header}
use polliwog.Toy.ZlibRoom.{ToyPlain, toy-takes}

-- A reader stops at the end of the frame, of its input or of its room, and makes less than it takes.
reading-stops :
    (half : Bool) (room : ℕ) (xs : List ℕ)
    → let r = reading half room xs in
      (length r.made ≤ r.taken) × (r.ended ≡ false → (r.taken ≡ length xs) ⊎ (length r.made ≡ room))
unfolding reading
reading-stops true room [] = (omega arith, λ e. inl refl)
reading-stops false room [] = (omega arith, λ e. inl refl)
reading-stops true zero (b ∷ xs) = (omega arith, λ e. inr refl)
reading-stops true (suc room) (b ∷ xs) =
    let r = reading-stops false room xs in
    (omega (arith, r.0), λ e. elim (r.1 e) [ inl t ↦ inl (ap suc t) | inr t ↦ inr (ap suc t) ])
reading-stops false room (zero ∷ xs) = (omega arith, λ e. absurd (cc e))
reading-stops false room (suc m ∷ xs) =
    let r = reading-stops true room xs in
    (omega (arith, r.0), λ e. elim (r.1 e) [ inl t ↦ inl (ap suc t) | inr t ↦ inr t ])

-- What was made is no more than what was taken.
abbrev ToyMoved : Option ToyState → ℕ → ℕ → Type 0
ToyMoved none n m = ⊥
ToyMoved (some i) n m = m ≤ n

not_ended : (ended : Bool) → GoesOn (if ended then stream_end else ok) → ended ≡ false
not_ended true g = absurd (ground arith)
not_ended false g = refl

toy-moves :
    (st : Option ToyState) (s : ZStream ToyState) (n m : ℕ)
    → ToyMoved st n m
    → let a = inflate_with-Accounts st s in
      ToyMoved (inflate_with st s).stream.state (n + a.taken) (m + length a.made)
unfolding inflate_with-Accounts
toy-moves none s n m p = p
toy-moves (some i) s n m p =
    let r = reading-stops i.half s.avail_out (drop (lead i s) (take s.avail_in s.next_in)) in
    omega (arith, r.0, p)

toy-stops :
    (st : Option ToyState) (s : ZStream ToyState) (n m : ℕ)
    → IsAimed s
    → ToyMoved st n m
    → GoesOn (inflate_with st s).ret
    → let a = inflate_with-Accounts st s in (a.taken ≡ s.avail_in) ⊎ (length a.made ≡ s.avail_out)
unfolding inflate_with-Accounts
toy-stops none s n m v p g = absurd p
toy-stops (some i) s n m v p g =
    let window = take s.avail_in s.next_in in
    let r = reading-stops i.half s.avail_out (drop (lead i s) window) in
    elim (r.1 (not_ended _ g)) [
      | inl all ↦ inl (
          omega (
            arith,
            all,
            length-drop (lead i s) window,
            length-take s.avail_in s.next_in,
            v.in_window,
          ))
      | inr full ↦ inr full
    ]

toy-limited :
    (st : Option ToyState) (n m total : ℕ) → ToyMoved st n m → n ≤ total → m ≤ 1032 * total
toy-limited none n m total p h = absurd p
toy-limited (some i) n m total p h = omega (arith, p, h)

toy-bounded :
    (w : ℤ) (st : Option ToyState) (n m total : ℕ)
    → ToyPlain w st n m
    → n ≤ total
    → m ≤ total + total + 12
toy-bounded w none n m total p h = absurd p
toy-bounded w (some i) n m total p h = omega (arith, p.1, h, length-header w)

pub toy-ZlibProgress : (w : ℤ) → ZlibProgress toy toy-ZlibLaws w
unfolding toy toy-ZlibLaws
toy-ZlibProgress w = record {
  deflating = record {
    Moved = ToyPlain w;
    goes_on = λ s n m v p g. (toy-takes s.state s w n m v p).2;
    stops = λ s n m v p g. inl (toy-takes s.state s w n m v p).1;
    limited = λ st n m total p h. toy-bounded w st n m total p h;
  };
  deflate_starts = λ s e. (refl, omega arith);
  inflating = record {
    Moved = ToyMoved;
    goes_on = λ s n m v p g. toy-moves s.state s n m p;
    stops = λ s n m v p g. toy-stops s.state s n m v p g;
    limited = toy-limited;
  };
  inflate_starts = λ s e. omega arith;
}
