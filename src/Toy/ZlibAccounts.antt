-- ===== src/Toy/ZlibAccounts.antt =====
-- The small zlib accounts for its bytes.
use polliwog.Base.{
  ◌+◌, refl, Bool, true, false, [], Option, none, some, take, drop, ltb, arith, length-take,
  length-take-le, length-drop,
}
use polliwog.Engine.Zlib.{Flush, ZStream, Accounts, ZlibLaws}
use polliwog.Toy.Reader.{reading, reading-le}
use polliwog.Toy.Zlib.{
  ToyState, deliver-Accounts, fed, lead, deflate_closed, deflate_some, deflate_with, inflate_with,
  toy,
}

unfoldable pub deflate_closed-Accounts :
    (b : Bool) (i : ToyState) (s : ZStream ToyState) (f : Flush)
    → Accounts s (deflate_closed b i s f)
deflate_closed-Accounts true i s f = deliver-Accounts s 0 [] _ _ (omega arith) (omega arith)
deflate_closed-Accounts false i s f =
    deliver-Accounts s 0 (take s.avail_out i.pending) _ _ (omega arith) (length-take-le _ _)

unfoldable pub deflate_some-Accounts :
    (b : Bool) (i : ToyState) (s : ZStream ToyState) (f : Flush) → Accounts s (deflate_some b i s f)
unfolding deflate_closed-Accounts
deflate_some-Accounts true i s f = deflate_closed-Accounts (ltb 0 s.avail_in) i s f
deflate_some-Accounts false i s f =
    deliver-Accounts s s.avail_in (take s.avail_out (fed i s f)) _ _ (omega arith)
      (length-take-le _ _)

unfoldable pub deflate_with-Accounts :
    (st : Option ToyState) (s : ZStream ToyState) (f : Flush) → Accounts s (deflate_with st s f)
unfolding deflate_some-Accounts
deflate_with-Accounts none s f = deliver-Accounts s 0 [] _ _ (omega arith) (omega arith)
deflate_with-Accounts (some i) s f = deflate_some-Accounts i.closed i s f

unfoldable pub inflate_with-Accounts :
    (st : Option ToyState) (s : ZStream ToyState) → Accounts s (inflate_with st s)
inflate_with-Accounts none s = deliver-Accounts s 0 [] _ _ (omega arith) (omega arith)
inflate_with-Accounts (some i) s =
    let window = take s.avail_in s.next_in in
    let d = reading-le i.half s.avail_out (drop (lead i s) window) in
    deliver-Accounts s (lead i s + _) (reading i.half s.avail_out (drop (lead i s) window)).made _ _
      (omega (arith, d.0, length-drop (lead i s) window, length-take s.avail_in s.next_in)) d.1

unfoldable pub toy-ZlibLaws : ZlibLaws toy
unfolding toy deflate_with-Accounts inflate_with-Accounts
toy-ZlibLaws = record {
  deflate_accounts = λ s f v. deflate_with-Accounts s.state s f;
  inflate_accounts = λ s f v. inflate_with-Accounts s.state s;
  deflate_init2_total = λ s level w m e. (refl, refl);
  inflate_init2_total = λ s w e. (refl, refl);
}
