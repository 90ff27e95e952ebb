-- ===== src/Toy/Zlib.antt =====
-- A small zlib: it keeps what does not fit into the output window, ends a stream on Z_FINISH, and puts
-- ten bytes before a gzip stream.
use polliwog.Base.{
  ℕ, ◌+◌, ◌-◌, ◌%◌, ◌≤◌, refl, Bool, true, false, List, [], ◌∷◌, ◌++◌, Option, none, some, length,
  take, drop, ltb, ◌==◌, if◌then◌else◌, min,
}
use polliwog.Base.Int.{ℤ, pos, negsuc}
use polliwog.Base.Words.{u64_mod}
use polliwog.Engine.Zlib.{
  ZlibCode, ok, stream_end, other, Flush, no_flush, sync_flush, finish, ZStream, ZlibCall, ZlibApi,
  Accounts,
}
use polliwog.Toy.Frame.{marks}
use polliwog.Toy.Reader.{reading}

pub record ToyState : Type 0 where
  pub window : ℤ
  pub pending : List ℕ
  pub closed : Bool
  pub skip : ℕ
  pub half : Bool

abbrev pub header : ℤ → List ℕ
header (pos n) = if n == 31 then 0 ∷ 0 ∷ 0 ∷ 0 ∷ 0 ∷ 0 ∷ 0 ∷ 0 ∷ 0 ∷ 0 ∷ [] else []
header (negsuc n) = []

abbrev pub deliver : ZStream ToyState → ℕ → List ℕ → Option ToyState → ZlibCode → ZlibCall ToyState
deliver s taken made state ret = record {
  ret = ret;
  stream = record {
    next_in = drop taken s.next_in;
    avail_in = s.avail_in - taken;
    total_in = (s.total_in + taken) % u64_mod;
    next_out = drop (length made) s.next_out;
    avail_out = s.avail_out - length made;
    total_out = (s.total_out + length made) % u64_mod;
    state = state;
  };
  memory = made ++ drop (length made) s.next_out;
}

abbrev pub deliver-Accounts :
    (s : ZStream ToyState) (taken : ℕ) (made : List ℕ) (state : Option ToyState) (ret : ZlibCode)
    → taken ≤ s.avail_in
    → length made ≤ s.avail_out
    → Accounts s (deliver s taken made state ret)
deliver-Accounts s taken made state ret p q = record {
  taken = taken;
  made = made;
  taken_fits = p;
  made_fits = q;
  total_in_moves = refl;
  total_out_moves = refl;
  memory_written = refl;
}

abbrev pub closes : Flush → Bool
closes finish = true
closes no_flush = false
closes sync_flush = false

abbrev pub tail : Flush → List ℕ
tail f = if closes f then 0 ∷ [] else []

abbrev pub code : Flush → List ℕ → ZlibCode
code finish [] = stream_end
code finish (x ∷ xs) = ok
code no_flush xs = ok
code sync_flush xs = ok

abbrev pub stale : ZStream ToyState → Option ToyState → ZlibCall ToyState
stale s st = deliver s 0 [] st (other (negsuc 1))

abbrev pub fed : ToyState → ZStream ToyState → Flush → List ℕ
fed i s f = i.pending ++ (marks (take s.avail_in s.next_in) ++ tail f)

abbrev pub deflate_open : ToyState → ZStream ToyState → Flush → ZlibCall ToyState
deflate_open i s f =
    let all = fed i s f in
    deliver s s.avail_in (take s.avail_out all)
      (some (record i { pending = drop s.avail_out all; closed = closes f }))
      (code f (drop s.avail_out all))

-- Input after the end of the stream is an error.
abbrev pub deflate_closed : Bool → ToyState → ZStream ToyState → Flush → ZlibCall ToyState
deflate_closed true i s f = stale s (some i)
deflate_closed false i s f =
    deliver s 0 (take s.avail_out i.pending)
      (some (record i { pending = drop s.avail_out i.pending }))
      (code f (drop s.avail_out i.pending))

abbrev pub deflate_some : Bool → ToyState → ZStream ToyState → Flush → ZlibCall ToyState
deflate_some true i s f = deflate_closed (ltb 0 s.avail_in) i s f
deflate_some false i s f = deflate_open i s f

abbrev pub deflate_with : Option ToyState → ZStream ToyState → Flush → ZlibCall ToyState
deflate_with none s f = stale s none
deflate_with (some i) s f = deflate_some i.closed i s f

abbrev pub lead : ToyState → ZStream ToyState → ℕ
lead i s = min i.skip (length (take s.avail_in s.next_in))

abbrev pub inflate_with : Option ToyState → ZStream ToyState → ZlibCall ToyState
inflate_with none s = stale s none
inflate_with (some i) s =
    let k = lead i s in
    let r = reading i.half s.avail_out (drop k (take s.avail_in s.next_in)) in
    deliver s (k + r.taken) r.made (some (record i { skip = i.skip - k; half = r.half }))
      (if r.ended then stream_end else ok)

abbrev opened : ZStream ToyState → ToyState → ZlibCode × ZStream ToyState
opened s i = (ok, record s { total_in = 0; total_out = 0; state = some i })

unfoldable pub toy : ZlibApi
unfolding marks reading
toy = record {
  Internal = ToyState;
  deflate_init2 = λ s level w mem_level.
      opened s (record { window = w; pending = header w; closed = false; skip = 0; half = false });
  deflate = λ s f. deflate_with s.state s f;
  inflate_init2 = λ s w.
      opened s (record {
        window = w;
        pending = [];
        closed = false;
        skip = length (header w);
        half = false;
      });
  inflate = λ s f. inflate_with s.state s;
  compress_bound = λ n. n + n + 12;
}
