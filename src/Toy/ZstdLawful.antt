-- ===== src/Toy/ZstdLawful.antt =====
-- The small zstd accounts for its bytes, and decompresses what it compresses.
use polliwog.Base.{
  ℕ, ◌<◌, ◌^◌, ◌+◌, ◌-◌, ◌≤◌, ◌≡◌, refl, ap, ◌∙◌, Bool, true, false, List, [], ◌∷◌, length, take,
  drop, leb, if◌then◌else◌, arith, length-take, length-take-le, length-drop, length-append,
  take-append, length-splice, take-splice,
}
use polliwog.Engine.Zstd.{InBuffer, OutBuffer, e_end, IsAimed, Accounts, ShotAccounts, ZstdLaws}
use polliwog.Engine.ZstdCodec.{ZstdCodec}
use polliwog.Toy.Frame.{marks, decode, decode-le, decode-marks}
use polliwog.Toy.Zstd.{
  compress, fails, failure, frame, put, failed, whole, window, deliver, fed, toy,
}

abbrev put-ShotAccounts :
    (made dst : List ℕ) (capacity : ℕ)
    → length made ≤ capacity
    → capacity ≤ length dst
    → ShotAccounts fails dst capacity (put made dst)
put-ShotAccounts made dst capacity p q = record {
  made = made;
  fits = p;
  memory_length =
      omega
        (arith, p, q, length-append made (drop (length made) dst), length-drop (length made) dst);
  written = take-append made (drop (length made) dst);
  ret_counts = λ e. refl;
}

pub not-sound_failure : fails failure ≡ false → failure ≡ 0
not-sound_failure e = cc

failed-ShotAccounts : (dst : List ℕ) (capacity : ℕ) → ShotAccounts fails dst capacity (failed dst)
failed-ShotAccounts dst capacity = record {
  made = [];
  fits = omega arith;
  memory_length = refl;
  written = refl;
  ret_counts = not-sound_failure;
}

unfoldable pub choice-ShotAccounts :
    (b : Bool) (made dst : List ℕ) (capacity : ℕ)
    → (b ≡ true → length made ≤ capacity)
    → capacity ≤ length dst
    → ShotAccounts fails dst capacity (if b then put made dst else failed dst)
unfolding failed-ShotAccounts
choice-ShotAccounts true made dst capacity p q = put-ShotAccounts made dst capacity (p refl) q
choice-ShotAccounts false made dst capacity p q = failed-ShotAccounts dst capacity

abbrev deliver-Accounts :
    {C : Type 0} (o : OutBuffer) (i : InBuffer) (taken : ℕ) (made : List ℕ) (ctx : C) (ret : ℕ)
    → i.pos + taken ≤ i.size
    → o.pos + length made ≤ o.size
    → IsAimed o i
    → Accounts o i (deliver o i taken made ctx ret)
deliver-Accounts o i taken made ctx ret p q v = record {
  in_grows = omega arith;
  in_fits = p;
  in_size = refl;
  in_src = refl;
  made = made;
  out_fits = q;
  out_pos = refl;
  out_size = refl;
  dst_length = length-splice o.pos o.dst made (omega (arith, q, v.out_size));
  written = take-splice o.pos o.dst made _ (omega (arith, v.out_pos, v.out_size));
}

pub window_length :
    (o : OutBuffer) (i : InBuffer) → IsAimed o i → length (window i) ≤ i.size - i.pos
window_length o i v = length-take-le (i.size - i.pos) (drop i.pos i.src)

pub of_leb : (n capacity : ℕ) → leb n capacity ≡ true → n ≤ capacity
of_leb n capacity h = ground arith

unfoldable pub toy-ZstdLaws : ZstdLaws toy
unfolding toy choice-ShotAccounts
toy-ZstdLaws = record {
  compress_accounts = λ dst capacity src size level p q.
      choice-ShotAccounts (leb (length (frame (take size src))) capacity) (frame (take size src))
        dst capacity (of_leb _ capacity) p;
  decompress_accounts = λ dst capacity src size p q.
      let r = decode capacity (take size src) in
      choice-ShotAccounts (whole r size) r.made dst capacity
        (λ e. (decode-le capacity (take size src)).1) p;
  compress_stream2_accounts = λ ctx o i e v.
      deliver-Accounts o i (i.size - i.pos) (take (o.size - o.pos) (fed ctx i e)) _ _
        (omega (arith, v.in_pos))
        (omega (arith, v.out_pos, length-take-le (o.size - o.pos) (fed ctx i e))) v;
  decompress_stream_accounts = λ ctx o i v.
      let r = decode-le (o.size - o.pos) (window i) in
      deliver-Accounts o i _ (decode (o.size - o.pos) (window i)).made _ _
        (omega (arith, r.0, window_length o i v, v.in_pos)) (omega (arith, r.1, v.out_pos)) v;
  compress_stream2_progress = λ ctx o i v room sound more.
      let all = fed ctx i e_end in
      omega (arith, length-take (o.size - o.pos) all, length-drop (o.size - o.pos) all);
}

-- A frame fails only for want of room, or if it is as long as the error code.
pub sound_room :
    (b : Bool) (made dst : List ℕ)
    → fails (if b then put made dst else failed dst).ret ≡ false
    → b ≡ true
sound_room true made dst h = refl
sound_room false made dst h = cc

pub choice_made :
    (b : Bool) (made dst : List ℕ) (capacity : ℕ) (p : b ≡ true → length made ≤ capacity)
    (q : capacity ≤ length dst)
    → b ≡ true
    → (choice-ShotAccounts b made dst capacity p q).made ≡ made
unfolding choice-ShotAccounts
choice_made true made dst capacity p q e = refl
choice_made false made dst capacity p q e = cc

pub sound_choice :
    (b : Bool) (made dst : List ℕ)
    → b ≡ true
    → fails (length made) ≡ false
    → fails (if b then put made dst else failed dst).ret ≡ false
sound_choice true made dst e h = h
sound_choice false made dst e h = cc

length-marks : (d : List ℕ) → length (marks d) ≡ length d + length d
unfolding marks
length-marks [] = omega arith
length-marks (b ∷ d) = omega (arith, length-marks d)

pub length-frame : (d : List ℕ) → length (frame d) ≡ length d + length d + 1
length-frame d = omega (arith, length-append (marks d) (0 ∷ []), length-marks d)

pub whole-frame :
    (d src : List ℕ) (size : ℕ)
    → size ≤ length src
    → take size src ≡ frame d
    → whole (record { taken = length (frame d); made = d; ended = true }) size ≡ true
whole-frame d src size q e = ground (arith, ap length e, length-take size src)

pub short_of_failure : (n : ℕ) → n < 2 ^ 63 → fails n ≡ false
short_of_failure n h = ground arith

pub frame_fits :
    (dst : List ℕ) (capacity : ℕ) (src : List ℕ) (size : ℕ)
    → size ≤ length src
    → size + size + 1 ≤ capacity
    → fails (size + size + 1) ≡ false
    → fails (compress dst capacity src size).ret ≡ false
frame_fits dst capacity src size q room bounded =
    ground (arith, length-frame (take size src), length-take size src)

unfoldable pub toy-ZstdCodec : ZstdCodec toy toy-ZstdLaws
unfolding toy-ZstdLaws
toy-ZstdCodec = record {
  Encodes = λ d e. e ≡ frame d;
  compress_whole = λ dst capacity src size level p q sound.
      choice_made _ (frame (take size src)) dst capacity _ p
        (sound_room _ (frame (take size src)) dst sound);
  compress_fits = λ dst capacity src size level p q room bounded.
      frame_fits dst capacity src size q room bounded;
  decompress_whole = λ dst capacity src size d p q e room small.
      let run = ap (decode capacity) e ∙ decode-marks capacity d [] room in
      let w = ap (λ r. whole r size) run ∙ whole-frame d src size q e in
      (
        sound_choice _ _ dst w (rw run (short_of_failure _ small)),
        choice_made _ _ dst capacity _ p w ∙ ap (λ r. r.made) run,
      );
}
