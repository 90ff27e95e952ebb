-- ===== src/Bench/Squeezing.antt =====
-- The compressing half of the streaming benchmark: the loop ends, every chunk is taken whole, and
-- `finish` completes the stream.
use polliwog.Base.{
  ℕ, zero, suc, ◌+◌, ◌-◌, ◌≤◌, ◌<◌, ◌≡◌, refl, sym, ap, ◌∙◌, inl, inr, true, false, List, [], ◌++◌,
  some, length, take, drop, min, ltb, filled, ◌>>=◌, take-all, arith, Bool-cases, bind-bind,
  take-add, take-min, take-filled, length-filled, length-take, length-drop,
}
use polliwog.Base.Words.{u32_mod}
use polliwog.Error.{BackendId}
use polliwog.Backend.Contract.{Keeps-fits}
use polliwog.Format.{Format}
use polliwog.Format.ZlibAnchors
use polliwog.Zlib.Facade as ZlibFacade
use polliwog.Build.{Build}
use polliwog.Engine.Zlib.{ZlibLaws}
use polliwog.Engine.ZlibCodec.{ZlibCodec}
use polliwog.Engine.ZlibRoom.{ZlibRoom}
use polliwog.Zlib.{window_bits_for}
use polliwog.Zlib.Contract as ZlibContract
use polliwog.Zlib.Squeezer as ZlibSqueezer
use polliwog.Zlib.Squeezer.{ZlibSqueezer}
use polliwog.Zlib.Filling.{Filling, construct-Filling, push_more-Filling, finish-Filling}
use polliwog.Squeeze.{bound}
use polliwog.Stream.{SqueezerVariant}
use polliwog.Stream.Compressor
use polliwog.Stream.Compressor.{Compressor}
use polliwog.Stream.Calls.{construct_squeezer_value, push_value, finish_value}
use polliwog.Bench.Streaming.{chunk, Squeezing, squeezed, squeeze_loop, compress}

module _ (B : Build) (L : ZlibLaws B.zlib_api) (K : ZlibCodec B.zlib_api L)
    (R : ZlibRoom B.zlib_api L (window_bits_for Format.zlib)) (input : List ℕ) where
  -- The compressor took the input up to `off`, the buffer holds what it made, and the bound fits.
  pub record Filled (off : ℕ) (s : Squeezing B) : Type 0 where
    pub handle : ZlibSqueezer B.zlib_api
    pub held : s.c ≡ Compressor.holding B (SqueezerVariant.zlib handle)
    pub filling :
        Filling B.zlib_api L K
          (window_bits_for Format.zlib)
          R
          (take off input)
          (take s.c_off s.compressed)
          handle
    pub inside : s.c_off ≤ length s.compressed
    pub bounded : B.zlib_api.compress_bound (length input) ≤ length s.compressed
    pub small : length s.compressed < u32_mod
    pub sized : length s.compressed ≡ bound B Format.zlib ZlibAnchors.default_level (length input)

  -- The chunk from `off` on.
  abbrev piece : ℕ → List ℕ
  piece off = take (min chunk (length input - off)) (drop off input)

  take-piece : (off : ℕ) → take off input ++ piece off ≡ take (off + chunk) input
  take-piece off =
      let rest = drop off input in
      let n : min chunk (length input - off) ≡ min chunk (length rest) =
        omega (arith, length-drop off input) in
      ap (λ t. take off input ++ t) (ap (λ n. take n rest) n ∙ take-min chunk rest)
      ∙ sym (take-add off chunk input)

  length-piece : (off : ℕ) → length (piece off) ≡ min chunk (length input - off)
  length-piece off =
      omega (
        arith,
        length-take (min chunk (length input - off)) (drop off input),
        length-drop off input,
      )

  -- One turn of the loop.
  abbrev Turn : ℕ → Squeezing B → Squeezing B → Type 0
  Turn off s s' =
      (Compressor.push B s.c (piece off) (drop s.c_off s.compressed) >>= squeezed B s ≡ some s')
      × Filled (off + chunk) s'

  push-Filled :
      (off : ℕ) (s : Squeezing B)
      → Filled off s
      → off < length input
      → (s' : Squeezing B) × Turn off s s'
  push-Filled off s v more =
      let Z = B.zlib_api in
      let out = drop s.c_off s.compressed in
      let room : length out ≡ length s.compressed - s.c_off = length-drop s.c_off s.compressed in
      let q = ZlibSqueezer.push_more Z v.handle (piece off) out in
      let g =
        push_more-Filling Z L K (window_bits_for Format.zlib) R v.handle out (take off input)
          (take s.c_off s.compressed) (length input) v.filling (omega (arith, room, v.small))
          (omega (arith, room, v.bounded, v.inside, length-take s.c_off s.compressed)) (piece off)
          (omega (arith, length-piece off, more)) (omega (arith, length-piece off))
          (omega (arith, length-piece off, more, length-take off input)) in
      let fits =
        Keeps-fits BackendId.zlib (piece off) out q _
          (ZlibContract.push_more-Keeps Z L v.handle (piece off) out v.filling.counted).0 g.1 in
      let whole = length-filled s.c_off q.out s.compressed v.inside fits.1 in
      (
        record {
          c = Compressor.holding B (SqueezerVariant.zlib q.handle);
          compressed = filled s.c_off q.out s.compressed;
          c_off = s.c_off + g.0;
        },
        (
          rw v.held (ap (λ o. o >>= squeezed B s) (push_value B v.handle (piece off) out _ g.1)),
          record {
            handle = q.handle;
            held = refl;
            filling =
                rw (sym (take-piece off), take-filled s.c_off g.0 q.out s.compressed v.inside) g.2;
            inside = omega (arith, fits.0, room, whole, v.inside);
            bounded = omega (arith, whole, v.bounded);
            small = omega (arith, whole, v.small);
            sized = whole ∙ v.sized;
          },
        ),
      )

  -- The loop ends once it is past the input, whose whole the compressor then took.
  loop-Filled :
      (fuel off : ℕ) (s : Squeezing B)
      → length input ≤ off + fuel
      → Filled off s
      → (s' : Squeezing B) × (squeeze_loop B (suc fuel) input off s ≡ some s')
        × ((end : ℕ) × (length input ≤ end) × Filled end s')
  unfolding squeeze_loop
  loop-Filled zero off s enough v =
      let past : ltb off (length input) ≡ false = ground arith in
      (s, rw past refl, (off, omega (arith, enough), v))
  loop-Filled (suc fuel) off s enough v = elim (Bool-cases (ltb off (length input))) [
    | inr past ↦ (s, rw past refl, (off, ground arith, v))
    | inl more ↦
        let t = push-Filled off s v (ground arith) in
        let r = loop-Filled fuel (off + chunk) t.0 (omega (arith, enough)) t.1.1 in
        (
          r.0,
          rw more (
              bind-bind (Compressor.push B s.c (piece off) (drop s.c_off s.compressed))
                (squeezed B s) (squeeze_loop B (suc fuel) input (off + chunk)) t.0 t.1.0
              ∙ r.1),
          r.2,
        )
  ]

  -- `finish` after the loop.
  finish-Encodes :
      (end : ℕ) (s : Squeezing B)
      → length input ≤ end
      → Filled end s
      → (s' : Squeezing B) × ((Compressor.finish B s.c (drop s.c_off s.compressed) >>= squeezed B s)
          ≡ some s')
        × K.Encodes (window_bits_for Format.zlib) input (take s'.c_off s'.compressed)
        × (s'.c_off ≤ length s'.compressed)
        × (length s'.compressed ≡ bound B Format.zlib ZlibAnchors.default_level (length input))
  finish-Encodes end s past v =
      let Z = B.zlib_api in
      let out = drop s.c_off s.compressed in
      let room : length out ≡ length s.compressed - s.c_off = length-drop s.c_off s.compressed in
      let all : take end input ≡ input = take-all end input past in
      let q = ZlibSqueezer.finish Z v.handle out in
      let g =
        finish-Filling Z L K (window_bits_for Format.zlib) R v.handle out (take end input)
          (take s.c_off s.compressed) (length input) v.filling (omega (arith, room, v.small))
          (omega (arith, room, v.bounded, v.inside, length-take s.c_off s.compressed))
          (omega (arith, length-take end input)) in
      let fits =
        Keeps-fits BackendId.zlib [] out q _
          (ZlibContract.finish-Keeps Z L v.handle out v.filling.counted).0 g.1 in
      let whole = length-filled s.c_off q.out s.compressed v.inside fits.1 in
      (
        record {
          c = Compressor.holding B (SqueezerVariant.zlib q.handle);
          compressed = filled s.c_off q.out s.compressed;
          c_off = s.c_off + g.0;
        },
        rw v.held (ap (λ o. o >>= squeezed B s) (finish_value B v.handle out _ g.1)),
        rw (take-filled s.c_off g.0 q.out s.compressed v.inside) (rw all at g.2),
        omega (arith, fits.0, room, whole, v.inside),
        whole ∙ v.sized,
      )

  -- The bound of the zlib format is that of the library, or the largest word in its place.
  bound-le :
      B.has_zlib ≡ true
      → B.zlib_api.compress_bound (length input)
        ≤ bound B Format.zlib ZlibAnchors.default_level (length input)
  unfolding bound ZlibFacade.bound
  bound-le built = ground arith

  -- The compressing half of the streaming benchmark, in a build with zlib, over any data and a buffer of the
  -- size of the bound, which is below 4 GiB: the loop of pushes ends, no result that is dereferenced holds an
  -- error, and the buffer, whose size stays, holds a complete stream for all of the data.
  pub compress-Encodes :
      (h : ZlibSqueezer B.zlib_api) (buffer : List ℕ)
      → B.has_zlib ≡ true
      → ZlibSqueezer.construct B.zlib_api Format.zlib ZlibAnchors.default_level ≡ some h
      → length buffer ≡ bound B Format.zlib ZlibAnchors.default_level (length input)
      → length buffer < u32_mod
      → (s : Squeezing B) × (compress B input buffer ≡ some s)
        × K.Encodes (window_bits_for Format.zlib) input (take s.c_off s.compressed)
        × (s.c_off ≤ length s.compressed)
        × (length s.compressed ≡ length buffer)
  compress-Encodes h buffer built made size small =
      let start : Squeezing B = record {
        c = Compressor.holding B (SqueezerVariant.zlib h);
        compressed = buffer;
        c_off = 0;
      } in
      let r = loop-Filled (length input) 0 start (omega arith) (record {
        handle = h;
        held = refl;
        filling = construct-Filling B.zlib_api L K Format.zlib R h made;
        inside = omega arith;
        bounded = omega (arith, size, bound-le built);
        small = omega (arith, size, small);
        sized = size;
      }) in
      let f = finish-Encodes r.2.0 r.0 r.2.1 r.2.2 in
      (f.0, rw (construct_squeezer_value B h built made, r.1) f.1, f.2, f.3, f.4 ∙ sym size)
