-- ===== src/Toy/ZstdFrames.antt =====
-- The small zstd keeps a frame open, and closes it once all of it is out.
use mathlib.Core.List.{append_assoc, append-nil}
use polliwog.Base.{
  Every, ℕ, ◌+◌, ◌-◌, ◌<◌, ◌≡◌, ◌≢◌, refl, sym, ap, subst, ◌∙◌, inl, inr, Bool, true, false, List,
  [], ◌∷◌, ◌++◌, length, take, drop, if◌then◌else◌, arith, take-append-drop, take-all, length-drop,
}
use polliwog.Engine.Zstd.{InBuffer, OutBuffer, EndDirective, e_end, e_continue, e_flush}
use polliwog.Engine.ZstdStreaming.{ZstdStreaming}
use polliwog.Toy.Frame.{marks, marks-append}
use polliwog.Toy.Zstd.{ToyContext, frame, window, fed, next_context, is_end, toy}
use polliwog.Toy.ZstdLawful.{toy-ZstdLaws, toy-ZstdCodec}

-- What was made and what is kept are the marks of the data, and the end once it is asked for.
abbrev Kept : Bool → ToyContext → List ℕ → List ℕ → Type 0
Kept closed c d x =
    (c.closed ≡ closed) × (x ++ c.pending ≡ marks d ++ (if closed then 0 ∷ [] else []))

next_context-closed :
    (rest : List ℕ) (e : EndDirective) → is_end e ≡ false → (next_context rest e).closed ≡ false
next_context-closed [] e h = refl
next_context-closed (x ∷ xs) e h = h

next_context-pending : (rest : List ℕ) (e : EndDirective) → (next_context rest e).pending ≡ rest
next_context-pending [] e = refl
next_context-pending (x ∷ xs) e = refl

next_context-end : (rest : List ℕ) → 0 < length rest → (next_context rest e_end).closed ≡ true
next_context-end [] h = absurd (omega arith)
next_context-end (x ∷ xs) h = refl

-- Writing the first bytes of what is to be written keeps the sum.
emit : (n : ℕ) (x all : List ℕ) → (x ++ take n all) ++ drop n all ≡ x ++ all
emit n x all = append_assoc x (take n all) (drop n all) ∙ ap (λ t. x ++ t) (take-append-drop n all)

not_end : (e : EndDirective) → e ≢ e_end → is_end e ≡ false
not_end e_continue h = refl
not_end e_flush h = refl
not_end e_end h = absurd (h refl)

-- All that an open context is to write.
fed_open :
    (c : ToyContext) (i : InBuffer) (e : EndDirective) (d x : List ℕ)
    → Kept false c d x
    → x ++ fed c i e ≡ marks (d ++ window i) ++ (if is_end e then 0 ∷ [] else [])
fed_open c i e d x k =
    let tail : List ℕ = if is_end e then 0 ∷ [] else [] in
    rw
      (
        k.0,
        sym (append_assoc x c.pending (marks (window i) ++ tail)),
        k.1,
        append-nil (marks d),
        marks-append d (window i),
        append_assoc (marks d) (marks (window i)) tail,
      )
      refl

-- All that a context without new input is to write at the end.
fed_end :
    (closed : Bool) (c : ToyContext) (i : InBuffer) (d x : List ℕ)
    → window i ≡ []
    → Kept closed c d x
    → x ++ fed c i e_end ≡ frame d
unfolding marks
fed_end true c i d x empty k = rw (k.0, empty, append-nil c.pending) k.1
fed_end false c i d x empty k =
    rw (k.0, empty, sym (append_assoc x c.pending (0 ∷ [])), k.1, append-nil (marks d)) refl

take-0 : (xs : List ℕ) → take 0 xs ≡ []
take-0 xs = refl

window-empty : (i : InBuffer) → i.pos ≡ i.size → window i ≡ []
window-empty i e =
    let none : i.size - i.pos ≡ 0 = omega arith in rw none (take-0 (drop i.pos i.src))

fed_on :
    (c : ToyContext) (i : InBuffer) (e : EndDirective) (d x : List ℕ)
    → is_end e ≡ false
    → Kept false c d x
    → x ++ fed c i e ≡ marks (d ++ window i) ++ []
fed_on c i e_continue d x ne k = fed_open c i e_continue d x k
fed_on c i e_flush d x ne k = fed_open c i e_flush d x k
fed_on c i e_end d x ne k = absurd (cc ne)

toy-goes_on :
    (c : ToyContext) (o : OutBuffer) (i : InBuffer) (e : EndDirective) (d x : List ℕ)
    → is_end e ≡ false
    → Kept false c d x
    → Kept false
        (next_context (drop (o.size - o.pos) (fed c i e)) e)
        (d ++ window i)
        (x ++ take (o.size - o.pos) (fed c i e))
toy-goes_on c o i e d x ne k =
    let n = o.size - o.pos in
    let all = fed c i e in
    (
      next_context-closed (drop n all) e ne,
      rw (next_context-pending (drop n all) e) (emit n x all ∙ fed_on c i e d x ne k),
    )

toy-closes :
    (closed : Bool) (c : ToyContext) (o : OutBuffer) (i : InBuffer) (d x : List ℕ)
    → i.pos ≡ i.size
    → Kept closed c d x
    → 0 < length (drop (o.size - o.pos) (fed c i e_end))
    → Kept true
        (next_context (drop (o.size - o.pos) (fed c i e_end)) e_end)
        d
        (x ++ take (o.size - o.pos) (fed c i e_end))
toy-closes closed c o i d x e k more =
    let n = o.size - o.pos in
    let all = fed c i e_end in
    (
      next_context-end (drop n all) more,
      rw (next_context-pending (drop n all) e_end)
          (emit n x all ∙ fed_end closed c i d x (window-empty i e) k),
    )

toy-ends :
    (closed : Bool) (c : ToyContext) (o : OutBuffer) (i : InBuffer) (d x : List ℕ)
    → i.pos ≡ i.size
    → Kept closed c d x
    → length (drop (o.size - o.pos) (fed c i e_end)) ≡ 0
    → x ++ take (o.size - o.pos) (fed c i e_end) ≡ frame d
toy-ends closed c o i d x e k none_left =
    let n = o.size - o.pos in
    let all = fed c i e_end in
    ap (λ t. x ++ t) (take-all n all (omega (arith, length-drop n all)))
    ∙ fed_end closed c i d x (window-empty i e) k

pub toy-ZstdStreaming : ZstdStreaming toy toy-ZstdLaws toy-ZstdCodec
unfolding marks toy toy-ZstdLaws toy-ZstdCodec
toy-ZstdStreaming = record {
  Open = Kept false;
  Closing = Kept true;
  starts =
      λ fresh level there sound. subst (λ o. Every o (λ c. Kept false c [] [])) there (refl, refl);
  goes_on = λ c o i e v d x ne k sound.
      let same : i.pos + (i.size - i.pos) - i.pos ≡ i.size - i.pos = omega arith in
      rw same (toy-goes_on c o i e d x (not_end e ne) k);
  closes = λ c o i v d x e k sound more. elim k [
    | inl kept ↦ toy-closes false c o i d x e kept more
    | inr kept ↦ toy-closes true c o i d x e kept more
  ];
  ends = λ c o i v d x e k none_left. elim k [
    | inl kept ↦ toy-ends false c o i d x e kept none_left
    | inr kept ↦ toy-ends true c o i d x e kept none_left
  ];
}
