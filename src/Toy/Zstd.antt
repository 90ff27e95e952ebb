-- ===== src/Toy/Zstd.antt =====
-- A small zstd: the frame of `Toy.Frame`, in one shot or kept until it fits into the output.
use polliwog.Base.{
  ℕ, ◌+◌, ◌-◌, ◌^◌, Bool, true, false, List, [], ◌∷◌, ◌++◌, some, length, take, drop, leb, ◌==◌,
  ◌&&◌, if◌then◌else◌,
}
use polliwog.Engine.Zstd.{
  InBuffer, OutBuffer, EndDirective, e_continue, e_flush, e_end, ZstdCall, ZstdShot, ZstdApi,
}
use polliwog.Toy.Frame.{marks, Decoded, decode}

pub record ToyContext : Type 0 where
  pub pending : List ℕ
  pub closed : Bool

-- The one error code.
abbrev pub failure : ℕ
failure = 2 ^ 63

abbrev pub fails : ℕ → Bool
fails n = leb failure n

abbrev pub frame : List ℕ → List ℕ
frame d = marks d ++ 0 ∷ []

abbrev pub put : List ℕ → List ℕ → ZstdShot
put made dst = record { ret = length made; memory = made ++ drop (length made) dst }

abbrev pub failed : List ℕ → ZstdShot
failed dst = record { ret = failure; memory = dst }

abbrev pub compress : List ℕ → ℕ → List ℕ → ℕ → ZstdShot
compress dst capacity src size =
    let e = frame (take size src) in if leb (length e) capacity then put e dst else failed dst

-- A frame that holds exactly the source.
abbrev pub whole : Decoded → ℕ → Bool
whole r size = r.ended && r.taken == size

abbrev pub decompress : List ℕ → ℕ → List ℕ → ℕ → ZstdShot
decompress dst capacity src size =
    let r = decode capacity (take size src) in if whole r size then put r.made dst else failed dst

abbrev pub window : InBuffer → List ℕ
window i = take (i.size - i.pos) (drop i.pos i.src)

abbrev pub deliver : {C : Type 0} → OutBuffer → InBuffer → ℕ → List ℕ → C → ℕ → ZstdCall C
deliver o i taken made ctx ret = record {
  ret = ret;
  ctx = ctx;
  output = record {
    dst = take o.pos o.dst ++ (made ++ drop (o.pos + length made) o.dst);
    size = o.size;
    pos = o.pos + length made;
  };
  input = record i { pos = i.pos + taken };
}

abbrev pub is_end : EndDirective → Bool
is_end e_end = true
is_end e_continue = false
is_end e_flush = false

-- What is to be written: what was kept, the new input, and the end of the frame once.
abbrev pub fed : ToyContext → InBuffer → EndDirective → List ℕ
fed c i e =
    c.pending ++ (marks (window i) ++ (if is_end e then (if c.closed then [] else 0 ∷ []) else []))

-- A frame that is complete makes way for the next one.
abbrev pub next_context : List ℕ → EndDirective → ToyContext
next_context [] e = record { pending = []; closed = false }
next_context (x ∷ xs) e = record { pending = x ∷ xs; closed = is_end e }

abbrev pub compress_stream2 : ToyContext → OutBuffer → InBuffer → EndDirective → ZstdCall ToyContext
compress_stream2 c o i e =
    let all = fed c i e in
    let rest = drop (o.size - o.pos) all in
    deliver o i (i.size - i.pos) (take (o.size - o.pos) all) (next_context rest e) (length rest)

abbrev pub decompress_stream : Bool → OutBuffer → InBuffer → ZstdCall Bool
decompress_stream c o i =
    let r = decode (o.size - o.pos) (window i) in
    deliver o i r.taken r.made r.ended (if r.ended then 0 else 1)

unfoldable pub toy : ZstdApi
unfolding marks decode
toy = record {
  CCtx = ToyContext;
  DCtx = Bool;
  create_cctx = some (record { pending = []; closed = false });
  create_dctx = some false;
  set_compression_level = λ c level. (0, c);
  is_error = fails;
  get_error_name = λ n. "toy error";
  compress = λ dst capacity src size level. compress dst capacity src size;
  decompress = decompress;
  compress_stream2 = compress_stream2;
  decompress_stream = decompress_stream;
  compress_bound = λ n. n + n + 1;
}
