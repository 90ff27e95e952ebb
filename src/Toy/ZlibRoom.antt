-- ===== src/Toy/ZlibRoom.antt =====
-- The small zlib fits into its bound, however the data is cut.
use polliwog.Base.{
  ℕ, ◌+◌, ◌≤◌, ◌≡◌, refl, ap, Bool, true, false, List, [], ◌∷◌, ◌++◌, Option, none, some, length,
  take, arith, length-append, length-take, length-drop,
}
use polliwog.Base.Int.{ℤ}
use polliwog.Engine.Zlib.{ok, stream_end, Flush, ZStream, IsAimed}
use polliwog.Engine.ZlibRoom.{ZlibRoom}
use polliwog.Toy.Frame.{marks}
use polliwog.Toy.Zlib.{ToyState, header, fed, deflate_some, deflate_with, toy}
use polliwog.Toy.ZlibAccounts.{deflate_some-Accounts, deflate_with-Accounts, toy-ZlibLaws}
use polliwog.Toy.ZlibBound.{length-marks, length-header, code_whole}

-- The header and two bytes for each byte were made or are pending.
abbrev pub ToyPlain : ℤ → Option ToyState → ℕ → ℕ → Type 0
ToyPlain w none n m = ⊥
ToyPlain w (some i) n m = (i.closed ≡ false) × (m + length i.pending ≡ length (header w) + (n + n))

length-fed :
    (i : ToyState) (s : ZStream ToyState) (f : Flush) (t : List ℕ)
    → IsAimed s
    → fed i s f ≡ i.pending ++ (marks (take s.avail_in s.next_in) ++ t)
    → length (fed i s f) ≡ length i.pending + (s.avail_in + s.avail_in) + length t
length-fed i s f t v e =
    let d = take s.avail_in s.next_in in
    omega (
      arith,
      ap length e,
      length-append i.pending (marks d ++ t),
      length-append (marks d) t,
      length-marks d,
      length-take s.avail_in s.next_in,
      v.in_window,
    )

some-takes :
    (b : Bool) (i : ToyState) (s : ZStream ToyState) (w : ℤ) (n m : ℕ)
    → IsAimed s
    → b ≡ false
    → m + length i.pending ≡ length (header w) + (n + n)
    → let c = deflate_some b i s Flush.no_flush in
      let a = deflate_some-Accounts b i s Flush.no_flush in
      (c.ret ≡ ok)
      × (a.taken ≡ s.avail_in)
      × ToyPlain w c.stream.state (n + a.taken) (m + length a.made)
unfolding deflate_some-Accounts
some-takes true i s w n m v shut p = absurd (cc shut)
some-takes false i s w n m v shut p =
    let all = fed i s Flush.no_flush in
    (
      refl,
      refl,
      (
        refl,
        omega (
          arith,
          p,
          length-take s.avail_out all,
          length-drop s.avail_out all,
          length-fed i s Flush.no_flush [] v refl,
        ),
      ),
    )

pub toy-takes :
    (st : Option ToyState) (s : ZStream ToyState) (w : ℤ) (n m : ℕ)
    → IsAimed s
    → ToyPlain w st n m
    → let c = deflate_with st s Flush.no_flush in
      let a = deflate_with-Accounts st s Flush.no_flush in
      (c.ret ≡ ok)
      × (a.taken ≡ s.avail_in)
      × ToyPlain w c.stream.state (n + a.taken) (m + length a.made)
unfolding deflate_with-Accounts
toy-takes none s w n m v p = absurd p
toy-takes (some i) s w n m v p = some-takes i.closed i s w n m v p.0 p.1

toy-ends :
    (st : Option ToyState) (s : ZStream ToyState) (w : ℤ) (n m total : ℕ)
    → IsAimed s
    → ToyPlain w st n m
    → n + s.avail_in ≤ total
    → total + total + 12 ≤ m + s.avail_out
    → (deflate_with st s Flush.finish).ret ≡ stream_end
toy-ends none s w n m total v p inside room = absurd p
toy-ends (some i) s w n m total v p inside room =
    let all = fed i s Flush.finish in
    rw p.0 (
      code_whole s.avail_out all (
        omega
          (arith, p.1, inside, room, length-header w, length-fed i s Flush.finish (0 ∷ []) v refl)))

pub toy-ZlibRoom : (w : ℤ) → ZlibRoom toy toy-ZlibLaws w
unfolding toy toy-ZlibLaws
toy-ZlibRoom w = record {
  Plain = ToyPlain w;
  starts = λ s e. (refl, omega arith);
  takes = λ s n m total v p some_in inside room. toy-takes s.state s w n m v p;
  ends = λ s n m total v p inside room. toy-ends s.state s w n m total v p inside room;
}
