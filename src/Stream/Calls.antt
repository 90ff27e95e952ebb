-- ===== src/Stream/Calls.antt =====
-- What the constructors of both classes make over zlib, and what a call of a compressor gives back when the
-- backend's call succeeds.
use polliwog.Base.{ℕ, ◌≡◌, refl, true, List, some}
use polliwog.Error.{value}
use polliwog.Backend.{Progress, Call}
use polliwog.Format.{Format}
use polliwog.Format.ZlibAnchors
use polliwog.Build.{Build}
use polliwog.Zlib.Squeezer as ZlibSqueezer
use polliwog.Zlib.Squeezer.{ZlibSqueezer}
use polliwog.Zlib.Sweller as ZlibSweller
use polliwog.Zlib.Sweller.{ZlibSweller}
use polliwog.Squeeze.{level_outside}
use polliwog.Stream.Decompressor
use polliwog.Stream.Decompressor.{Decompressor}
use polliwog.Stream.{
  Made, SwellerVariant, make_squeezer, squeezer_zlib, make_sweller, sweller_zlib, StreamCall,
  StreamResult, SqueezerVariant, pushed, finished, push_visitor, finish_visitor,
}
use polliwog.Stream.Compressor
use polliwog.Stream.Compressor.{Compressor}

module _ (B : Build) where
  -- compressor c(format::zlib, zlib_level::default_level)
  pub construct_squeezer_value :
      (h : ZlibSqueezer B.zlib_api)
      → B.has_zlib ≡ true
      → ZlibSqueezer.construct B.zlib_api Format.zlib ZlibAnchors.default_level ≡ some h
      → Compressor.construct B Format.zlib ZlibAnchors.default_level
        ≡ some (Made.made (Compressor.holding B (SqueezerVariant.zlib h)))
  unfolding Compressor.construct level_outside make_squeezer squeezer_zlib
  construct_squeezer_value h built made = rw (built, made) refl

  -- decompressor d(format::zlib)
  pub construct_sweller_value :
      (h : ZlibSweller B.zlib_api)
      → B.has_zlib ≡ true
      → ZlibSweller.construct B.zlib_api Format.zlib ≡ some h
      → Decompressor.construct B Format.zlib ≡ some (Decompressor.holding B (SwellerVariant.zlib h))
  unfolding Decompressor.construct make_sweller sweller_zlib
  construct_sweller_value h built made = rw (built, made) refl

  abbrev pub squeezed : Call (ZlibSqueezer B.zlib_api) → StreamResult → StreamCall (Compressor B)
  squeezed q r = record {
    self = Compressor.holding B (SqueezerVariant.zlib q.handle);
    out = q.out;
    result = value r;
  }

  pub push_value :
      (h : ZlibSqueezer B.zlib_api) (input out : List ℕ) (p : Progress)
      → let q = ZlibSqueezer.push_more B.zlib_api h input out in
        q.result ≡ value p
        → Compressor.push B (Compressor.holding B (SqueezerVariant.zlib h)) input out
          ≡ some (squeezed q (Compressor.push_result (pushed p)))
  unfolding Compressor.push push_visitor
  push_value h input out p e = rw e refl

  pub finish_value :
      (h : ZlibSqueezer B.zlib_api) (out : List ℕ) (p : Progress)
      → let q = ZlibSqueezer.finish B.zlib_api h out in
        q.result ≡ value p
        → Compressor.finish B (Compressor.holding B (SqueezerVariant.zlib h)) out
          ≡ some (squeezed q (Compressor.finish_result (finished p)))
  unfolding Compressor.finish finish_visitor
  finish_value h out p e = rw e refl
