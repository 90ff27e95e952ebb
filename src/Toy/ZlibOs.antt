-- ===== src/Toy/ZlibOs.antt =====
-- The small zlib on another system: its calls write another byte where a gzip header names the system.
use polliwog.Base.{refl, ◌++◌, length, drop, set, length-set}
use polliwog.Engine.Zlib.{Flush, ZStream, ZlibCall, Accounts, ZlibApi, ZlibLaws}
use polliwog.Toy.Zlib.{ToyState, deflate_with, toy}
use polliwog.Toy.ZlibAccounts.{deflate_with-Accounts, toy-ZlibLaws}

-- Byte 9 of what a call made is 3.
abbrev branded : ZStream ToyState → Flush → ZlibCall ToyState
branded s f =
    let made = (deflate_with-Accounts s.state s f).made in
    record (deflate_with s.state s f) { memory = set made 9 3 ++ drop (length made) s.next_out }

abbrev branded-Accounts : (s : ZStream ToyState) (f : Flush) → Accounts s (branded s f)
branded-Accounts s f =
    let a = deflate_with-Accounts s.state s f in
    let same = length-set a.made 9 3 in
    record {
      taken = a.taken;
      made = set a.made 9 3;
      taken_fits = a.taken_fits;
      made_fits = rw same a.made_fits;
      total_in_moves = a.total_in_moves;
      total_out_moves = rw same a.total_out_moves;
      memory_written = rw same refl;
    }

unfoldable pub other_toy : ZlibApi
unfolding toy
other_toy = record toy { deflate = branded }

unfoldable pub other_toy-ZlibLaws : ZlibLaws other_toy
unfolding other_toy toy toy-ZlibLaws
other_toy-ZlibLaws = record {
  deflate_accounts = λ s f v. branded-Accounts s f;
  inflate_accounts = toy-ZlibLaws.inflate_accounts;
  deflate_init2_total = toy-ZlibLaws.deflate_init2_total;
  inflate_init2_total = toy-ZlibLaws.inflate_init2_total;
}
