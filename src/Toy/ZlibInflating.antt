-- ===== src/Toy/ZlibInflating.antt =====
-- The small zlib inflates a stream in pieces.
use mathlib.Core.List.{append_assoc}
use polliwog.Base.{
  ℕ, ◌+◌, ◌-◌, ◌≡◌, refl, sym, ap, ◌∙◌, ◌⊎◌, inl, inr, List, [], ◌++◌, Option, none, some, length,
  take, drop, arith, take-take, length-drop,
}
use polliwog.Base.Int.{ℤ}
use polliwog.Engine.Zlib.{ok, stream_end, buf_error, ZStream, IsAimed}
use polliwog.Engine.ZlibInflating.{ZlibInflating}
use polliwog.Toy.Reader.{reading, to_come, Sound}
use polliwog.Toy.Partly.{headed-any, cancel}
use polliwog.Toy.Zlib.{ToyState, lead, inflate_with, toy}
use polliwog.Toy.ZlibAccounts.{inflate_with-Accounts, toy-ZlibLaws}
use polliwog.Toy.ZlibLawful.{ToyEncodes, ToyFresh, toy-ZlibCodec}

-- What is left of the stream: the rest of the header, and what is to come for the rest of the data.
abbrev ToyInflating : ℤ → Option ToyState → List ℕ → List ℕ → List ℕ → List ℕ → Type 0
ToyInflating w none d e x y = ⊥
ToyInflating w (some i) d e x y =
    (head : List ℕ) × (left : List ℕ) × (length head ≡ i.skip)
    × (y ++ left ≡ d)
    × (x ++ (head ++ to_come i.half left) ≡ e)
    × Sound i.half left

toy-starts :
    (w : ℤ) (st : Option ToyState) (d e : List ℕ)
    → ToyFresh w st
    → ToyEncodes w d e
    → ToyInflating w st d e [] []
unfolding to_come
toy-starts w none d e p q = p
toy-starts w (some i) d e (p, fresh) (head, n, q) = rw fresh (head, d, n ∙ sym p, refl, sym q, tt)

toy-of_data :
    (w : ℤ) (st : Option ToyState) (d e x y : List ℕ)
    → ToyInflating w st d e x y
    → (left : List ℕ) × (y ++ left ≡ d)
toy-of_data w none d e x y p = absurd p
toy-of_data w (some i) d e x y (head, left, n, made, come, sound) = (left, made)

toy-stays :
    (st : Option ToyState) (s : ZStream ToyState) (w : ℤ) (d e x y rest extra : List ℕ)
    → IsAimed s
    → ToyInflating w st d e x y
    → x ++ (take s.avail_in s.next_in ++ rest) ≡ e ++ extra
    → let c = inflate_with st s in
      let a = inflate_with-Accounts st s in
      ((c.ret ≡ stream_end) × (x ++ take a.taken s.next_in ≡ e) × (y ++ a.made ≡ d))
      ⊎ ((c.ret ≡ ok ⊎ c.ret ≡ buf_error)
          × ToyInflating w c.stream.state d e (x ++ take a.taken s.next_in) (y ++ a.made))
unfolding inflate_with-Accounts
toy-stays none s w d e x y rest extra v p q = absurd p
toy-stays (some i) s w d e x y rest extra v (head, left, n, made, come, sound) q =
    let window = take s.avail_in s.next_in in
    let k = lead i s in
    let r = reading i.half s.avail_out (drop k window) in
    let front : take (k + r.taken) window ≡ take (k + r.taken) s.next_in =
      take-take (k + r.taken) s.avail_in s.next_in (inflate_with-Accounts (some i) s).taken_fits in
    let split : window ++ rest ≡ (head ++ to_come i.half left) ++ extra =
      cancel x _ _ (q ∙ ap (λ t. t ++ extra) (sym come) ∙ append_assoc x _ extra) in
    elim (headed-any k head window i.half s.avail_out left rest extra (omega (arith, n)) sound
      split) [
        | inl (ended, taken, all) ↦ inl (
          rw ended refl,
          ap (λ t. x ++ t) (sym front ∙ taken) ∙ come,
          ap (λ t. y ++ t) all ∙ made,
        )
        | inr (not_ended, (d', part, still, sound')) ↦ inr (
          inl (rw not_ended refl),
          (
            drop k head,
            d',
            length-drop k head ∙ ap (λ m. m - k) n,
            append_assoc y _ d' ∙ ap (λ t. y ++ t) part ∙ made,
            append_assoc x _ _
                ∙ ap (λ t. x ++ t)
                    (ap (λ t. t ++ (drop k head ++ to_come r.half d')) (sym front) ∙ still)
                ∙ come,
            sound',
          ),
        )
      ]

pub toy-ZlibInflating : ZlibInflating toy toy-ZlibLaws toy-ZlibCodec
unfolding toy toy-ZlibLaws toy-ZlibCodec
toy-ZlibInflating = record {
  Inflating = ToyInflating;
  starts = toy-starts;
  of_data = toy-of_data;
  stays = λ s w d e x y rest extra v p q some_out. toy-stays s.state s w d e x y rest extra v p q;
}
