-- ===== src/Toy/ZlibFlushing.antt =====
-- What the small zlib makes on a flush that leaves room is read to its end.
use mathlib.Core.List.{append-nil}
use polliwog.Base.{
  ◌+◌, ℕ, zero, suc, ◌≤◌, ◌<◌, ◌≡◌, refl, sym, ap, ◌∙◌, ◌⊎◌, inl, inr, Bool, true, false, List, [],
  ◌∷◌, ◌++◌, Option, none, some, length, take, drop, ltb, if◌then◌else◌, arith, length-append,
  length-take, drop-append,
}
use polliwog.Base.Int.{ℤ}
use polliwog.Engine.Zlib.{ok, stream_end, sync_flush, ZStream, IsAimed}
use polliwog.Engine.ZlibFlushing.{ZlibFlushing}
use polliwog.Toy.Frame.{marks}
use polliwog.Toy.Reader.{reading, one_more, with_byte}
use polliwog.Toy.Zlib.{
  ToyState, header, fed, lead, deflate_closed, deflate_some, deflate_with, inflate_with, toy,
}
use polliwog.Toy.ZlibAccounts.{
  deflate_closed-Accounts, deflate_some-Accounts, deflate_with-Accounts, inflate_with-Accounts,
  toy-ZlibLaws,
}
use polliwog.Toy.ZlibLawful.{ToyDeflating, ToyFresh, goes_on, whole, toy-ZlibCodec}

-- A header, the marks, and the end if the stream was closed.
abbrev ToyFlushed : ℤ → List ℕ → List ℕ → Type 0
ToyFlushed w d e =
    (head : List ℕ) × (b : Bool) × (length head ≡ length (header w))
    × (e ≡ head ++ (marks d ++ (if b then 0 ∷ [] else [])))

drop-eq-nil : (n : ℕ) (xs : List ℕ) → length (take n xs) < n → drop n xs ≡ []
drop-eq-nil zero xs h = absurd (omega arith)
drop-eq-nil (suc n) [] h = refl
drop-eq-nil (suc n) (x ∷ xs) h = drop-eq-nil n xs (omega arith)

abbrev Emptied : Option ToyState → Type 0
Emptied none = ⊥
Emptied (some i) = i.pending ≡ []

closed-Emptied :
    (b : Bool) (i : ToyState) (s : ZStream ToyState)
    → ltb 0 s.avail_in ≡ b
    → let c = deflate_closed b i s sync_flush in
      let a = deflate_closed-Accounts b i s sync_flush in
      c.ret ≡ ok → length a.made < s.avail_out → (a.taken ≡ s.avail_in) × Emptied c.stream.state
unfolding deflate_closed-Accounts
closed-Emptied true i s more ret room = absurd (cc ret)
closed-Emptied false i s none_left ret room =
    (ground (arith, none_left), drop-eq-nil s.avail_out i.pending room)

some-Emptied :
    (b : Bool) (i : ToyState) (s : ZStream ToyState)
    → let c = deflate_some b i s sync_flush in
      let a = deflate_some-Accounts b i s sync_flush in
      c.ret ≡ ok → length a.made < s.avail_out → (a.taken ≡ s.avail_in) × Emptied c.stream.state
unfolding deflate_some-Accounts
some-Emptied true i s ret room = closed-Emptied (ltb 0 s.avail_in) i s refl ret room
some-Emptied false i s ret room = (refl, drop-eq-nil s.avail_out (fed i s sync_flush) room)

with-Emptied :
    (st : Option ToyState) (s : ZStream ToyState)
    → let c = deflate_with st s sync_flush in
      let a = deflate_with-Accounts st s sync_flush in
      c.ret ≡ ok → length a.made < s.avail_out → (a.taken ≡ s.avail_in) × Emptied c.stream.state
unfolding deflate_with-Accounts
with-Emptied none s ret room = absurd (cc ret)
with-Emptied (some i) s ret room = some-Emptied i.closed i s ret room

Emptied-Flushed :
    (w : ℤ) (st : Option ToyState) (d e : List ℕ)
    → Emptied st
    → ToyDeflating w st d e
    → ToyFlushed w d e
Emptied-Flushed w none d e p q = absurd p
Emptied-Flushed w (some i) d e p q =
    (header w, i.closed, refl, sym (append-nil e) ∙ ap (λ t. e ++ t) (sym p) ∙ q)

toy-completes :
    (s : ZStream ToyState) (w : ℤ) (d e : List ℕ)
    → ToyDeflating w s.state d e
    → (deflate_with s.state s sync_flush).ret ≡ ok
    → let a = deflate_with-Accounts s.state s sync_flush in
      length a.made < s.avail_out
      → (a.taken ≡ s.avail_in) × ToyFlushed w (d ++ take a.taken s.next_in) (e ++ a.made)
toy-completes s w d e p ret room =
    let q = with-Emptied s.state s ret room in
    (q.0, Emptied-Flushed w _ _ _ q.1 (goes_on s.state s sync_flush w d e p (inl ret)))

-- The marks without an end.
reading-marks :
    (room : ℕ) (d : List ℕ)
    → length d ≤ room
    → reading false room (marks d)
      ≡ record { taken = length (marks d); made = d; half = false; ended = false }
unfolding reading marks
reading-marks room [] h = refl
reading-marks zero (b ∷ d) h = absurd (omega arith)
reading-marks (suc room) (b ∷ d) h =
    ap (λ r. one_more (with_byte b r)) (reading-marks room d (omega arith))

toy-shows :
    (st : Option ToyState) (s : ZStream ToyState) (w : ℤ) (d e : List ℕ)
    → IsAimed s
    → ToyFresh w st
    → ToyFlushed w d e
    → take s.avail_in s.next_in ≡ e
    → length d < s.avail_out
    → let a = inflate_with-Accounts st s in
      (((inflate_with st s).ret ≡ ok) ⊎ ((inflate_with st s).ret ≡ stream_end))
      × (a.taken ≡ s.avail_in)
      × (a.made ≡ d)
unfolding inflate_with-Accounts
toy-shows none s w d e v p q t room = absurd p
toy-shows (some i) s w d e v p (head, true, n, q) t room =
    let r =
      whole (some i) s w d e [] p (head, n, q) (t ∙ sym (append-nil e)) (omega (arith, room)) in
    let size = length-take s.avail_in s.next_in in
    (inr r.0, omega (arith, r.1, ap length t, size, v.in_window), r.2)
toy-shows (some i) s w d e v (p, fresh) (head, false, n, q) t room =
    let window = take s.avail_in s.next_in in
    let split : window ≡ head ++ marks d = t ∙ q ∙ ap (λ t. head ++ t) (append-nil (marks d)) in
    let all : length window ≡ length head + length (marks d) =
      ap length split ∙ length-append head (marks d) in
    let skips : lead i s ≡ length head = omega (arith, all, p, n) in
    let rest : drop (lead i s) window ≡ marks d = rw (skips, split) (drop-append head (marks d)) in
    let run : reading i.half s.avail_out (drop (lead i s) window)
        ≡ record { taken = length (marks d); made = d; half = false; ended = false } =
      rw (fresh, rest) (reading-marks s.avail_out d (omega (arith, room))) in
    (
      inl (rw run refl),
      ap (λ t. lead i s + t.taken) run
          ∙ omega (arith, skips, all, length-take s.avail_in s.next_in, v.in_window),
      ap (λ t. t.made) run,
    )

pub toy-ZlibFlushing : ZlibFlushing toy toy-ZlibLaws toy-ZlibCodec
unfolding toy toy-ZlibLaws toy-ZlibCodec
toy-ZlibFlushing = record {
  Flushed = ToyFlushed;
  completes = λ s w d e v p ret room. toy-completes s w d e p ret room;
  shows = λ s w d e v p q t some_in room. toy-shows s.state s w d e v p q t room;
}
