-- ===== src/Tests/Flushed.antt =====
-- A flush over the small zlib, after a push that did not fit.
use polliwog.Base.{ℕ, ◌≡◌, refl, Bool, false, List, [], ◌∷◌, ◌++◌, some, take, arith}
use polliwog.Base.Words.{u32, sub64}
use polliwog.Error.{value}
use polliwog.Format.{Format}
use polliwog.Engine.Zlib.{Flush, ok}
use polliwog.Zlib.{window_bits_for, aim}
use polliwog.Zlib.Squeezer as ZlibSqueezer
use polliwog.Zlib.Squeezer.{ZlibSqueezer}
use polliwog.Stream.{
  StreamResult, StreamCall, SqueezerVariant, SwellerVariant, push_visitor, flush_visitor,
}
use polliwog.Stream.Compressor
use polliwog.Stream.Compressor.{Compressor}
use polliwog.Stream.Decompressor
use polliwog.Stream.Decompressor.{Decompressor}
use polliwog.Stream.Steps.{Session}
use polliwog.Stream.Flushing.{push-flush}
use polliwog.Toy.Zlib as ToyZlib
use polliwog.Toy.ZlibAccounts.{toy-ZlibLaws}
use polliwog.Toy.ZlibLawful.{toy-ZlibCodec}
use polliwog.Toy.ZlibFlushing.{toy-ZlibFlushing}
use polliwog.Tests.Data.{
  full, six, zeros, data_bytes, squeezer, squeezer-made, sweller, sweller-made,
}
use polliwog.Tests.Streaming.{start}

-- Twelve of the fourteen bytes fit.
abbrev cut : ZlibSqueezer ToyZlib.toy
cut = (ZlibSqueezer.push_more ToyZlib.toy (squeezer Format.gzip) data_bytes (zeros 12)).handle

abbrev then_cut : Compressor full
then_cut = Compressor.holding full (SqueezerVariant.zlib cut)

abbrev front : List ℕ
front = 0 ∷ 0 ∷ 0 ∷ 0 ∷ 0 ∷ 0 ∷ 0 ∷ 0 ∷ 0 ∷ 0 ∷ 1 ∷ 7 ∷ []

abbrev cut_call : StreamCall (Compressor full)
cut_call = record {
  self = then_cut;
  out = front;
  result = value (record { bytes_consumed = 2; bytes_produced = 12; done = false });
}

start-push_cut : Compressor.push full start data_bytes (zeros 12) ≡ some cut_call
unfolding Compressor.push push_visitor ZlibSqueezer.push_more zeros ToyZlib.toy window_bits_for u32
    sub64
start-push_cut = refl

cut_push : Session full start data_bytes front then_cut
cut_push =
    Session.pushed start [] [] data_bytes (zeros 12) cut_call
      (record { bytes_consumed = 2; bytes_produced = 12; done = false }) Session.start
      start-push_cut refl

abbrev rest_made : StreamResult
rest_made = record { bytes_consumed = 0; bytes_produced = 2; done = false }

abbrev flush_call : StreamCall (Compressor full)
flush_call = record {
  self =
      Compressor.holding full
        (SqueezerVariant.zlib (ZlibSqueezer.flush ToyZlib.toy cut (zeros 3)).handle);
  out = 1 ∷ 8 ∷ 0 ∷ [];
  result = value rest_made;
}

cut-flush : Compressor.flush full then_cut (zeros 3) ≡ some flush_call
unfolding Compressor.flush flush_visitor ZlibSqueezer.flush ZlibSqueezer.push_more zeros ToyZlib.toy
    window_bits_for u32 sub64
cut-flush = refl

cut-ok : (ToyZlib.toy.deflate (aim cut.stream [] (zeros 3)) Flush.sync_flush).ret ≡ ok
unfolding ZlibSqueezer.push_more zeros ToyZlib.toy window_bits_for u32
cut-ok = refl

push-flush_example :
    (c : StreamCall (Decompressor full)) × (n : ℕ) × (b : Bool) × (Decompressor.push full
        (Decompressor.holding full (SwellerVariant.zlib (sweller Format.gzip)))
        (front ++ 1 ∷ 8 ∷ [])
        (zeros 5)
      ≡ some c)
    × (c.result ≡ value (record { bytes_consumed = 14; bytes_produced = n; done = b }))
    × (take n c.out ≡ data_bytes)
unfolding zeros
push-flush_example =
    push-flush full toy-ZlibLaws toy-ZlibCodec toy-ZlibFlushing Format.gzip (squeezer Format.gzip)
      cut six data_bytes front (zeros 3) flush_call rest_made (sweller Format.gzip) (zeros 5)
      (squeezer-made Format.gzip) cut_push cut-ok cut-flush refl (omega arith) (omega arith)
      (sweller-made Format.gzip) (omega arith) (omega arith) (omega arith) (omega arith)
