-- ===== src/Toy/ZlibLawful.antt =====
-- The small zlib inflates what it deflates.
use mathlib.Core.List.{append_assoc, append-nil}
use polliwog.Base.{
  ℕ, ◌+◌, ◌≤◌, ◌≡◌, refl, sym, ap, ◌∙◌, Bool, true, false, List, [], ◌∷◌, ◌++◌, Option, none, some,
  length, take, drop, ltb, if◌then◌else◌, arith, length-append, take-append-drop, drop-append, set,
  set-append, length-set, ◌⊎◌,
}
use polliwog.Base.Int.{ℤ, pos}
use polliwog.Engine.Zlib.{
  ZlibCode, ok, stream_end, buf_error, Flush, finish, ZStream, ZlibCall, Accounts,
}
use polliwog.Engine.ZlibCodec.{ZlibCodec}
use polliwog.Toy.Frame.{marks, marks-append}
use polliwog.Toy.Reader.{reading, to_come, reading-whole}
use polliwog.Toy.Zlib.{
  ToyState, header, tail, code, fed, lead, deflate_closed, deflate_some, deflate_with, inflate_with,
  toy,
}
use polliwog.Toy.ZlibAccounts.{
  deflate_closed-Accounts, deflate_some-Accounts, deflate_with-Accounts, inflate_with-Accounts,
  toy-ZlibLaws,
}

-- A complete stream: a header of the container's length, the data's marks, and the end.
abbrev pub ToyEncodes : ℤ → List ℕ → List ℕ → Type 0
ToyEncodes w d e =
    (head : List ℕ) × (length head ≡ length (header w)) × (e ≡ head ++ (marks d ++ 0 ∷ []))

-- What was made and what is pending are the header, the marks, and the end once it is closed.
abbrev pub ToyDeflating : ℤ → Option ToyState → List ℕ → List ℕ → Type 0
ToyDeflating w none d e = ⊥
ToyDeflating w (some i) d e =
    e ++ i.pending ≡ header w ++ (marks d ++ (if i.closed then 0 ∷ [] else []))

abbrev pub ToyFresh : ℤ → Option ToyState → Type 0
ToyFresh w none = ⊥
ToyFresh w (some i) = (i.skip ≡ length (header w)) × (i.half ≡ false)

-- Emitting the first bytes of what is pending.
emit : (n : ℕ) (e all : List ℕ) → (e ++ take n all) ++ drop n all ≡ e ++ all
emit n e all = append_assoc e (take n all) (drop n all) ∙ ap (◌++◌ e) (take-append-drop n all)

feed :
    (h d x : List ℕ) (e pending t : List ℕ)
    → e ++ pending ≡ h ++ (marks d ++ [])
    → e ++ (pending ++ (marks x ++ t)) ≡ h ++ (marks (d ++ x) ++ t)
feed h d x e pending t p =
    sym (append_assoc e pending (marks x ++ t))
    ∙ ap (λ q. q ++ (marks x ++ t)) p
    ∙ simp (append_assoc, append-nil, marks-append)

abbrev pub GoesOn : ZlibCode → Type 0
GoesOn c = (c ≡ ok) ⊎ (c ≡ buf_error)

closed-GoesOn :
    (b : Bool) (i : ToyState) (s : ZStream ToyState) (f : Flush) (w : ℤ) (d e : List ℕ)
    → i.closed ≡ true
    → e ++ i.pending ≡ header w ++ (marks d ++ 0 ∷ [])
    → GoesOn (deflate_closed b i s f).ret
    → let a = deflate_closed-Accounts b i s f in
      ToyDeflating w
        (deflate_closed b i s f).stream.state
        (d ++ take a.taken s.next_in)
        (e ++ a.made)
unfolding deflate_closed-Accounts
closed-GoesOn true i s f w d e shut p r = absurd (ground arith)
closed-GoesOn false i s f w d e shut p r =
    rw (shut, append-nil d) (emit s.avail_out e i.pending ∙ p)

open_goes_on :
    (i : ToyState) (s : ZStream ToyState) (f : Flush) (w : ℤ) (d e : List ℕ)
    → e ++ i.pending ≡ header w ++ (marks d ++ [])
    → (e ++ take s.avail_out (fed i s f)) ++ drop s.avail_out (fed i s f)
      ≡ header w ++ (marks (d ++ take s.avail_in s.next_in) ++ tail f)
open_goes_on i s f w d e p =
    emit s.avail_out e (fed i s f)
    ∙ feed (header w) d (take s.avail_in s.next_in) e i.pending (tail f) p

some-GoesOn :
    (b : Bool) (i : ToyState) (s : ZStream ToyState) (f : Flush) (w : ℤ) (d e : List ℕ)
    → i.closed ≡ b
    → e ++ i.pending ≡ header w ++ (marks d ++ (if b then 0 ∷ [] else []))
    → GoesOn (deflate_some b i s f).ret
    → let a = deflate_some-Accounts b i s f in
      ToyDeflating w (deflate_some b i s f).stream.state (d ++ take a.taken s.next_in) (e ++ a.made)
unfolding deflate_some-Accounts
some-GoesOn true i s f w d e shut p r = closed-GoesOn (ltb 0 s.avail_in) i s f w d e shut p r
some-GoesOn false i s f w d e shut p r = open_goes_on i s f w d e p

pub goes_on :
    (st : Option ToyState) (s : ZStream ToyState) (f : Flush) (w : ℤ) (d e : List ℕ)
    → ToyDeflating w st d e
    → GoesOn (deflate_with st s f).ret
    → let a = deflate_with-Accounts st s f in
      ToyDeflating w (deflate_with st s f).stream.state (d ++ take a.taken s.next_in) (e ++ a.made)
unfolding deflate_with-Accounts
goes_on none s f w d e p r = p
goes_on (some i) s f w d e p r = some-GoesOn i.closed i s f w d e refl p r

-- Nothing is left when the code is Z_STREAM_END.
code-eq-stream_end : (xs : List ℕ) → code finish xs ≡ stream_end → xs ≡ []
code-eq-stream_end [] h = refl
code-eq-stream_end (x ∷ xs) h = cc

emit_all :
    (n : ℕ) (e all : List ℕ) → code finish (drop n all) ≡ stream_end → e ++ take n all ≡ e ++ all
emit_all n e all h =
    sym (append-nil (e ++ take n all))
    ∙ ap (◌++◌ (e ++ take n all)) (sym (code-eq-stream_end (drop n all) h))
    ∙ emit n e all

abbrev pub Ended :
    {c : ZlibCall ToyState} (s : ZStream ToyState) → ℤ → List ℕ → List ℕ → Accounts s c → Type 0
Ended s w d e a = (a.taken ≡ s.avail_in) × ToyEncodes w (d ++ take a.taken s.next_in) (e ++ a.made)

closed_ends :
    (b : Bool) (i : ToyState) (s : ZStream ToyState) (w : ℤ) (d e : List ℕ)
    → ltb 0 s.avail_in ≡ b
    → e ++ i.pending ≡ header w ++ (marks d ++ 0 ∷ [])
    → (deflate_closed b i s finish).ret ≡ stream_end
    → Ended s w d e (deflate_closed-Accounts b i s finish)
unfolding deflate_closed-Accounts
closed_ends true i s w d e more p r = cc
closed_ends false i s w d e none_left p r =
    (ground arith, (header w, refl, rw (append-nil d) (emit_all s.avail_out e i.pending r ∙ p)))

some_ends :
    (b : Bool) (i : ToyState) (s : ZStream ToyState) (w : ℤ) (d e : List ℕ)
    → e ++ i.pending ≡ header w ++ (marks d ++ (if b then 0 ∷ [] else []))
    → (deflate_some b i s finish).ret ≡ stream_end
    → Ended s w d e (deflate_some-Accounts b i s finish)
unfolding deflate_some-Accounts
some_ends true i s w d e p r = closed_ends (ltb 0 s.avail_in) i s w d e refl p r
some_ends false i s w d e p r = (
  refl,
  (
    header w,
    refl,
    emit_all s.avail_out e (fed i s finish) r
        ∙ feed (header w) d (take s.avail_in s.next_in) e i.pending (0 ∷ []) p,
  ),
)

pub ends :
    (st : Option ToyState) (s : ZStream ToyState) (w : ℤ) (d e : List ℕ)
    → ToyDeflating w st d e
    → (deflate_with st s finish).ret ≡ stream_end
    → Ended s w d e (deflate_with-Accounts st s finish)
unfolding deflate_with-Accounts
ends none s w d e p r = absurd p
ends (some i) s w d e p r = some_ends i.closed i s w d e p r

-- A whole stream at the front of the window: the header is skipped, the frame decoded.
pub whole :
    (st : Option ToyState) (s : ZStream ToyState) (w : ℤ) (d e extra : List ℕ)
    → ToyFresh w st
    → ToyEncodes w d e
    → take s.avail_in s.next_in ≡ e ++ extra
    → length d ≤ s.avail_out
    → let a = inflate_with-Accounts st s in
      ((inflate_with st s).ret ≡ stream_end) × (a.taken ≡ length e) × (a.made ≡ d)
unfolding inflate_with-Accounts to_come
whole none s w d e extra p q t r = absurd p
whole (some i) s w d e extra (p, fresh) (head, head_length, q) t r =
    let window = take s.avail_in s.next_in in
    let split : window ≡ head ++ (marks d ++ 0 ∷ extra) = t ∙ rw q (simp append_assoc) in
    let all : length window ≡ length head + length (marks d ++ 0 ∷ extra) =
      ap length split ∙ length-append head (marks d ++ 0 ∷ extra) in
    let skips : lead i s ≡ length head = omega (arith, all, p, head_length) in
    let rest : drop (lead i s) window ≡ marks d ++ 0 ∷ extra =
      rw (skips, split) (drop-append head (marks d ++ 0 ∷ extra)) in
    let split_rest : marks d ++ 0 ∷ extra ≡ to_come false d ++ extra = simp append_assoc in
    let run : reading i.half s.avail_out (drop (lead i s) window)
        ≡ record { taken = length (marks d ++ 0 ∷ []); made = d; half = false; ended = true } =
      rw (fresh, rest, split_rest) (reading-whole false s.avail_out d extra tt r) in
    (
      rw run,
      ap (λ t. lead i s + t.taken) run
          ∙ omega (arith, skips, ap length q, length-append head (marks d ++ 0 ∷ [])),
      ap (λ t. t.made) run,
    )

pub os_free : (d e : List ℕ) (b : ℕ) → ToyEncodes (pos 31) d e → ToyEncodes (pos 31) d (set e 9 b)
os_free d e b (head, n, p) = (
  set head 9 b,
  length-set head 9 b ∙ n,
  rw p (set-append head (marks d ++ 0 ∷ []) 9 b (omega (arith, n))),
)

unfoldable pub toy-ZlibCodec : ZlibCodec toy toy-ZlibLaws
unfolding toy-ZlibLaws
toy-ZlibCodec = record {
  Encodes = ToyEncodes;
  Deflating = ToyDeflating;
  Fresh = ToyFresh;
  deflate_starts = λ s level w m e. simp append-nil;
  inflate_starts = λ s w e. (refl, refl);
  deflate_goes_on = λ s f w d e v p r. goes_on s.state s f w d e p r;
  deflate_ends = λ s w d e v p r. ends s.state s w d e p r;
  inflate_whole = λ s w d e extra v p q t some_out r. whole s.state s w d e extra p q t r;
  gzip_os_free = λ d e b p q. os_free d e b p;
}

-- A header of the right length before a frame.
pub toy-Encodes :
    (w : ℤ) (d head : List ℕ)
    → length head ≡ length (header w)
    → toy-ZlibCodec.Encodes w d (head ++ (marks d ++ 0 ∷ []))
unfolding toy-ZlibCodec
toy-Encodes w d head n = (head, n, refl)
