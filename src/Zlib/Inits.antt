-- ===== src/Zlib/Inits.antt =====
-- What the constructors of the zlib handles leave.
use polliwog.Base.{◌≡◌, some, arith}
use polliwog.Format.{Format, ZlibLevel}
use polliwog.Engine.Zlib.{ok, ZlibApi, ZlibLaws}
use polliwog.Zlib.{zeroed, window_bits_for}
use polliwog.Zlib.Contract.{IsCounted}
use polliwog.Zlib.Squeezer as ZlibSqueezer
use polliwog.Zlib.Squeezer.{ZlibSqueezer}
use polliwog.Zlib.Sweller as ZlibSweller
use polliwog.Zlib.Sweller.{ZlibSweller}

-- A constructor that returns has initialised its stream.
module _ (Z : ZlibApi) where
  pub construct_inits :
      (f : Format) (lvl : ZlibLevel) (h : ZlibSqueezer Z)
      → ZlibSqueezer.construct Z f lvl ≡ some h
      → let r = Z.deflate_init2 zeroed lvl.as_int (window_bits_for f) 8 in
        (r.0 ≡ ok) × (h.stream ≡ r.1)
  unfolding ZlibSqueezer.construct
  construct_inits f lvl h e = ground arith

  pub construct_sweller_inits :
      (f : Format) (h : ZlibSweller Z)
      → ZlibSweller.construct Z f ≡ some h
      → let r = Z.inflate_init2 zeroed (window_bits_for f) in (r.0 ≡ ok) × (h.stream ≡ r.1)
  unfolding ZlibSweller.construct
  construct_sweller_inits f h e = ground arith

module _ (Z : ZlibApi) (L : ZlibLaws Z) where
  pub construct-IsCounted :
      (f : Format) (lvl : ZlibLevel) (h : ZlibSqueezer Z)
      → ZlibSqueezer.construct Z f lvl ≡ some h
      → IsCounted h.stream
  construct-IsCounted f lvl h e =
      let r = construct_inits Z f lvl h e in
      ground (arith, L.deflate_init2_total zeroed lvl.as_int (window_bits_for f) 8 r.0)

  pub construct_sweller-IsCounted :
      (f : Format) (h : ZlibSweller Z) → ZlibSweller.construct Z f ≡ some h → IsCounted h.stream
  construct_sweller-IsCounted f h e =
      let r = construct_sweller_inits Z f h e in
      ground (arith, L.inflate_init2_total zeroed (window_bits_for f) r.0)
