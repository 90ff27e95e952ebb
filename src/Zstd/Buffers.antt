-- ===== src/Zstd/Buffers.antt =====
-- ZSTD_inBuffer and ZSTD_outBuffer over the caller's spans, and what a call that accounts for its
-- bytes does to them.
use polliwog.Base.{ℕ, ◌≤◌, ◌≡◌, refl, ◌∙◌, ap, Bool, false, List, length, take, arith, ◌++◌}
use polliwog.Engine.Zstd.{InBuffer, OutBuffer, ZstdCall, ZstdShot, IsAimed, Accounts, ShotAccounts}
use polliwog.Zstd.{in_buffer, out_buffer}

-- The output buffer stands over the caller's span.
pub record IsOver (out : List ℕ) (o : OutBuffer) : Type 0 where
  pub size : o.size ≡ length out
  pub fits : o.pos ≤ o.size
  pub dst : length o.dst ≡ length out

pub out_buffer-IsOver : (out : List ℕ) → IsOver out (out_buffer out)
out_buffer-IsOver out = record { size = refl; fits = omega arith; dst = refl }

-- The input buffer lies in its memory.
pub record IsInside (i : InBuffer) : Type 0 where
  pub pos_fits : i.pos ≤ i.size
  pub size_fits : i.size ≤ length i.src

pub in_buffer-IsInside : (input : List ℕ) → IsInside (in_buffer input)
in_buffer-IsInside input = record { pos_fits = omega arith; size_fits = omega arith }

pub IsOver-IsAimed :
    {out : List ℕ} {o : OutBuffer} {i : InBuffer} → IsOver out o → IsInside i → IsAimed o i
IsOver-IsAimed v w = record {
  out_pos = v.fits;
  out_size = omega (arith, v.size, v.dst);
  in_pos = w.pos_fits;
  in_size = w.size_fits;
}

-- A call leaves the output buffer over the same span.
pub Accounts-IsOver :
    {C : Type 0} {out : List ℕ} {o : OutBuffer} {i : InBuffer} {c : ZstdCall C}
    → IsOver out o
    → Accounts o i c
    → IsOver out c.output
Accounts-IsOver {out} {o} {c} v a = record {
  size = a.out_size ∙ v.size;
  fits = omega (arith, a.out_pos, a.out_fits, a.out_size);
  dst = a.dst_length ∙ v.dst;
}

pub Accounts-IsInside :
    {C : Type 0} {o : OutBuffer} {i : InBuffer} {c : ZstdCall C}
    → IsInside i
    → Accounts o i c
    → IsInside c.input
Accounts-IsInside {i} {c} w a = record {
  pos_fits = omega (arith, a.in_fits, a.in_size);
  size_fits = rw (a.in_size, a.in_src) w.size_fits;
}

-- The bytes of the output buffer up to the new position are those up to the old one and the new ones.
pub taken-grows :
    {C : Type 0} (o : OutBuffer) {i : InBuffer} {c : ZstdCall C}
    → (a : Accounts o i c) → take c.output.pos c.output.dst ≡ take o.pos o.dst ++ a.made
taken-grows o {c} a = ap (λ n. take n c.output.dst) a.out_pos ∙ a.written

-- A one-shot call over the whole span.
pub ShotAccounts-span :
    (is_error : ℕ → Bool) (out : List ℕ) (c : ZstdShot)
    → ShotAccounts is_error out (length out) c
    → length c.memory ≡ length out
ShotAccounts-span is_error out c a = a.memory_length

pub ShotAccounts-counts :
    (is_error : ℕ → Bool) (out : List ℕ) (c : ZstdShot)
    → ShotAccounts is_error out (length out) c
    → is_error c.ret ≡ false
    → c.ret ≤ length out
ShotAccounts-counts is_error out c a e = omega (arith, a.ret_counts e, a.fits)
