-- ===== src/Toy/ZlibShort.antt =====
-- The small zlib fills a window that is too short for the data.
use mathlib.Core.List.{append_assoc}
use polliwog.Base.{
  ℕ, zero, suc, ◌+◌, ◌≤◌, ◌<◌, ◌≡◌, refl, ap, ◌∙◌, inl, Bool, true, false, List, [], ◌∷◌, ◌++◌,
  Option, none, some, length, take, drop, arith, length-append, drop-append,
}
use polliwog.Base.Int.{ℤ}
use polliwog.Engine.Zlib.{ZStream}
use polliwog.Engine.ZlibProgress.{GoesOn}
use polliwog.Engine.ZlibShort.{ZlibShort}
use polliwog.Toy.Frame.{marks}
use polliwog.Toy.Reader.{reading, to_come, Sound}
use polliwog.Toy.Zlib.{ToyState, lead, inflate_with, toy}
use polliwog.Toy.ZlibAccounts.{inflate_with-Accounts, toy-ZlibLaws}
use polliwog.Toy.ZlibLawful.{ToyEncodes, ToyFresh, toy-ZlibCodec}

reading-short :
    (half : Bool) (room : ℕ) (d extra : List ℕ)
    → Sound half d
    → room < length d
    → let r = reading half room (to_come half d ++ extra) in
      (r.ended ≡ false) × (r.taken ≤ length (to_come half d)) × (r.made ≡ take room d)
unfolding reading marks to_come
reading-short true room [] extra s h = absurd (omega (arith, s))
reading-short true zero (b ∷ d) extra s h = (refl, omega arith, refl)
reading-short true (suc room) (b ∷ d) extra s h =
    let r = reading-short false room d extra tt (omega (arith, h)) in
    (r.0, omega (arith, r.1), ap (λ t. b ∷ t) r.2)
reading-short false room [] extra s h = absurd (omega (arith, h))
reading-short false zero (b ∷ d) extra s h = (refl, omega arith, refl)
reading-short false (suc room) (b ∷ d) extra s h =
    let r = reading-short false room d extra tt (omega (arith, h)) in
    (r.0, omega (arith, r.1), ap (λ t. b ∷ t) r.2)

toy-fills :
    (st : Option ToyState) (s : ZStream ToyState) (w : ℤ) (d e extra : List ℕ)
    → ToyFresh w st
    → ToyEncodes w d e
    → take s.avail_in s.next_in ≡ e ++ extra
    → s.avail_out < length d
    → let a = inflate_with-Accounts st s in
      GoesOn (inflate_with st s).ret × (a.taken ≤ length e) × (a.made ≡ take s.avail_out d)
unfolding inflate_with-Accounts to_come
toy-fills none s w d e extra p q t short = absurd p
toy-fills (some i) s w d e extra (p, fresh) (head, n, q) t short =
    let window = take s.avail_in s.next_in in
    let split : window ≡ head ++ (to_come false d ++ extra) = t ∙ rw q (simp append_assoc) in
    let all : length window ≡ length head + length (to_come false d ++ extra) =
      ap length split ∙ length-append head (to_come false d ++ extra) in
    let skips : lead i s ≡ length head = omega (arith, all, p, n) in
    let rest : drop (lead i s) window ≡ to_come false d ++ extra =
      rw (skips, split) (drop-append head (to_come false d ++ extra)) in
    let r = reading-short false s.avail_out d extra tt short in
    rw (fresh, rest)
      (
        inl (rw r.0 refl),
        omega (arith, skips, r.1, ap length q, length-append head (to_come false d)),
        r.2,
      )

pub toy-ZlibShort : ZlibShort toy toy-ZlibLaws toy-ZlibCodec
unfolding toy toy-ZlibLaws toy-ZlibCodec
toy-ZlibShort = record {
  fills = λ s w d e extra v p q t some_out short. toy-fills s.state s w d e extra p q t short;
}
