-- ===== src/Toy/ZstdInflating.antt =====
-- The small zstd decompresses a frame in pieces.
use mathlib.Core.List.{append_assoc}
use polliwog.Base.{
  ℕ, zero, suc, ◌+◌, ◌-◌, ◌<◌, ◌≡◌, refl, sym, ap, ◌∙◌, ◌⊎◌, inl, inr, Bool, true, false, List, [],
  ◌∷◌, ◌++◌, take, drop, take-take, arith, if◌then◌else◌,
}
use polliwog.Engine.Zstd.{InBuffer, OutBuffer, IsAimed}
use polliwog.Engine.ZstdInflating.{Agrees, ZstdInflating}
use polliwog.Toy.Frame.{marks, Decoded, decode, decode-le}
use polliwog.Toy.Partly.{cancel}
use polliwog.Toy.Zstd.{frame, window, fails, toy}
use polliwog.Toy.ZstdLawful.{window_length, toy-ZstdLaws, toy-ZstdCodec}

-- What a decoder with any room makes of some of a frame: all of it, or a front that leaves a frame.
abbrev Front : List ℕ → List ℕ → Decoded → Type 0
Front d xs r =
    ((r.ended ≡ true) × (take r.taken xs ≡ frame d) × (r.made ≡ d))
    ⊎ ((r.ended ≡ false)
        × ((left : List ℕ) × (r.made ++ left ≡ d) × (take r.taken xs ++ frame left ≡ frame d)))

-- A byte and the 1 before it in front.
Front-byte :
    (d xs : List ℕ) (y z b : ℕ) (r : Decoded)
    → z ≡ 1
    → y ≡ b
    → Front d xs r
    → Front
        (b ∷ d)
        (z ∷ y ∷ xs)
        (record { taken = suc (suc r.taken); made = y ∷ r.made; ended = r.ended })
unfolding marks
Front-byte d xs y z b r one same (inl (ended, taken, made)) =
    inl (ended, rw (one, same) (ap (λ t. 1 ∷ b ∷ t) taken), rw same (ap (◌∷◌ b) made))
Front-byte d xs y z b r one same (inr (not_ended, (left, made, come))) =
    inr (not_ended, (left, rw same (ap (◌∷◌ b) made), rw (one, same) (ap (λ t. 1 ∷ b ∷ t) come)))

decode-Front :
    (room : ℕ) (d xs rest extra : List ℕ)
    → xs ++ rest ≡ frame d ++ extra
    → Front d xs (decode room xs)
unfolding decode marks
decode-Front room d [] rest extra e = inr (refl, (d, refl, refl))
decode-Front room [] (zero ∷ xs) rest extra e = inl (refl, refl, refl)
decode-Front room (b ∷ d) (zero ∷ xs) rest extra e = absurd (cc e)
decode-Front zero d (suc m ∷ xs) rest extra e = inr (refl, (d, refl, refl))
decode-Front (suc room) d (suc m ∷ []) rest extra e = inr (refl, (d, refl, refl))
decode-Front (suc room) [] (suc m ∷ y ∷ xs) rest extra e = absurd (cc e)
decode-Front (suc room) (b ∷ d) (suc m ∷ y ∷ xs) rest extra e =
    Front-byte d xs y (suc m) b (decode room xs) (cc e) (cc e)
      (decode-Front room d xs rest extra (cc e))

-- What is left of the frame is the frame of the rest of the data.
abbrev ToyInside : List ℕ → List ℕ → List ℕ → List ℕ → Type 0
ToyInside d e x y = (left : List ℕ) × (y ++ left ≡ d) × (x ++ frame left ≡ e)

-- A call takes some of what the window holds.
toy-front :
    (o : OutBuffer) (i : InBuffer)
    → IsAimed o i
    → let r = decode (o.size - o.pos) (window i) in
      take r.taken (window i) ≡ take (i.pos + r.taken - i.pos) (drop i.pos i.src)
toy-front o i v =
    let r = decode (o.size - o.pos) (window i) in
    let same : i.pos + r.taken - i.pos ≡ r.taken = omega arith in
    rw same (
      take-take r.taken (i.size - i.pos) (drop i.pos i.src)
        (omega (arith, (decode-le (o.size - o.pos) (window i)).0, window_length o i v)))

toy-moves :
    (o : OutBuffer) (i : InBuffer) (d e x y rest extra : List ℕ)
    → IsAimed o i
    → ToyInside d e x y
    → Agrees i e x rest extra
    → let r = decode (o.size - o.pos) (window i) in
      let taken = take (i.pos + r.taken - i.pos) (drop i.pos i.src) in
      ((r.ended ≡ true) × (x ++ taken ≡ e) × (y ++ r.made ≡ d))
      ⊎ ((r.ended ≡ false) × ToyInside d e (x ++ taken) (y ++ r.made))
toy-moves o i d e x y rest extra v (left, made, come) a =
    let r = decode (o.size - o.pos) (window i) in
    let front = toy-front o i v in
    let split : window i ++ rest ≡ frame left ++ extra =
      cancel x _ _ (a.goes_on ∙ ap (λ t. t ++ extra) (sym come) ∙ append_assoc x _ extra) in
    elim (decode-Front (o.size - o.pos) left (window i) rest extra split) [
      | inl (ended, taken, all) ↦
          inl (ended, ap (λ t. x ++ t) (sym front ∙ taken) ∙ come, ap (λ t. y ++ t) all ∙ made)
      | inr (not_ended, (left', part, still)) ↦ inr (
        not_ended,
        (
          left',
          append_assoc y _ left' ∙ ap (λ t. y ++ t) part ∙ made,
          append_assoc x _ _
              ∙ ap (λ t. x ++ t) (ap (λ t. t ++ frame left') (sym front) ∙ still)
              ∙ come,
        ),
      )
    ]

-- The results of the small zstd are 0 and 1.
toy_sound : (ended : Bool) → fails (if ended then 0 else 1) ≡ false
toy_sound true = refl
toy_sound false = refl

abbrev result_of : Bool → ℕ
result_of ended = if ended then 0 else 1

toy-ended : (ended : Bool) → result_of ended ≡ 0 → ended ≡ true
toy-ended true h = refl
toy-ended false h = absurd (omega (arith, h))

toy-left : (ended : Bool) → 0 < result_of ended → ended ≡ false
toy-left true h = absurd (omega (arith, h))
toy-left false h = refl

pub toy-ZstdInflating : ZstdInflating toy toy-ZstdLaws toy-ZstdCodec
unfolding toy toy-ZstdLaws toy-ZstdCodec
toy-ZstdInflating = record {
  Inside = λ ctx d e x y. ToyInside d e x y;
  starts = λ fresh d e there whole. (d, refl, sym whole);
  of_data = λ ctx d e x y p. (p.0, p.1);
  sound = λ ctx o i d e x y rest extra v p a some_in room. toy_sound _;
  ends = λ ctx o i d e x y rest extra v p a ended. elim (toy-moves o i d e x y rest extra v p a) [
    | inl (_, taken, all) ↦ (taken, all)
    | inr (not_ended, _) ↦ absurd (cc (toy-ended _ ended, not_ended))
  ];
  stays = λ ctx o i d e x y rest extra v p a sound more.
      elim (toy-moves o i d e x y rest extra v p a) [
        | inl (ended, _, _) ↦ absurd (cc (toy-left _ more, ended))
        | inr (_, at) ↦ at
      ];
}
