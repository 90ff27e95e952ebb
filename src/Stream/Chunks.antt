-- ===== src/Stream/Chunks.antt =====
-- One push or flush of a zlib stream that has taken and made so much.
use polliwog.Base.{ℕ, ◌≡◌, ◌⊎◌, refl, sym, false, List, [], ◌++◌, take, arith}
use polliwog.Base.Int.{ℤ}
use polliwog.Error.{Expected, value, unexpected}
use polliwog.Backend.{Progress, Call}
use polliwog.Engine.Zlib.{ok, buf_error, Flush, ZlibApi, ZlibLaws}
use polliwog.Engine.ZlibCodec.{ZlibCodec}
use polliwog.Zlib.{aim, consumed, produced}
use polliwog.Zlib.Contract.{IsCounted, aim-IsAimed, Accounts-counts, Accounts-front}
use polliwog.Zlib.Squeezer as ZlibSqueezer
use polliwog.Zlib.Squeezer.{ZlibSqueezer}
use polliwog.Stream.{StreamResult, returned, visit}

module _ (Z : ZlibApi) (L : ZlibLaws Z) (K : ZlibCodec Z L) (w : ℤ) where
  -- The stream has taken and made so much.
  abbrev pub Under : List ℕ → List ℕ → ZlibSqueezer Z → Type 0
  Under d e h = IsCounted h.stream × K.Deflating w h.stream.state d e

  -- A call that goes on.
  pub call-goes_on :
      (h : ZlibSqueezer Z) (f : Flush) (d e input out : List ℕ)
      → Under d e h
      → let s = h.stream in
        let c = Z.deflate (aim s input out) f in
        c.ret ≡ ok ⊎ c.ret ≡ buf_error
        → K.Deflating w c.stream.state
            (d ++ take (consumed s c) input)
            (e ++ take (produced s c) c.memory)
  call-goes_on h f d e input out u goes =
      let s = aim h.stream input out in
      let c = Z.deflate s f in
      let a = L.deflate_accounts s f (aim-IsAimed h.stream input out) in
      let counts = Accounts-counts h.stream input out c u.0 a in
      let made = Accounts-front h.stream input out c u.0 a in
      rw (counts.0, made) (K.deflate_goes_on s f w d e (aim-IsAimed h.stream input out) u.1 goes)

  -- What a success of push_more says.
  pub push_more-goes_on :
      (h : ZlibSqueezer Z) (input out : List ℕ) (r : Progress)
      → let s = h.stream in
        let c = Z.deflate (aim s input out) Flush.no_flush in
        (ZlibSqueezer.push_more Z h input out).result ≡ value r
        → (c.ret ≡ ok ⊎ c.ret ≡ buf_error)
          × (r ≡ record { bytes_in = consumed s c; bytes_out = produced s c; done = false })
  unfolding ZlibSqueezer.push_more
  push_more-goes_on h input out r e = ground arith

  pub flush-goes_on :
      (h : ZlibSqueezer Z) (out : List ℕ) (r : Progress)
      → let s = h.stream in
        let c = Z.deflate (aim s [] out) Flush.sync_flush in
        (ZlibSqueezer.flush Z h out).result ≡ value r
        → (c.ret ≡ ok ⊎ c.ret ≡ buf_error)
          × (r ≡ record { bytes_in = 0; bytes_out = produced s c; done = false })
  unfolding ZlibSqueezer.flush
  flush-goes_on h out r e = ground arith

-- What a success that went through a visitor and a method says of the backend's report.
pub adapted_value :
    {H V C : Type 0} (wrap : H → V) (hold : V → C) (f : Progress → Progress)
    (g : Progress → StreamResult) (c : Call H) (r : StreamResult)
    → (returned hold g (visit wrap f c)).result ≡ value r
    → (p : Progress) × (c.result ≡ value p) × (r ≡ g (f p))
adapted_value wrap hold f g c r e = go c.result e
  where
    go :
        (q : Expected Progress)
        → let a : Expected Progress = elim q [
          | value p ↦ value (f p)
          | unexpected e ↦ unexpected e
        ] in
          let b : Expected StreamResult = elim a [
            | value p ↦ value (g p)
            | unexpected e ↦ unexpected e
          ] in
          b ≡ value r → (p : Progress) × (q ≡ value p) × (r ≡ g (f p))
    go (value p) e = (p, refl, sym (cc e))
    go (unexpected x) e = absurd (cc e)
