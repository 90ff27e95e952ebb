-- ===== src/Zlib/Intake.antt =====
-- zlib_sweller::push_more, given the parts of a complete stream one after the other.
use mathlib.Core.List.{append_assoc}
use polliwog.Base.{
  ℕ, ◌<◌, ◌≡◌, ◌∙◌, ap, sym, refl, ◌⊎◌, inl, inr, true, false, List, ◌++◌, length, take, drop,
  take-append-drop,
}
use polliwog.Base.Int.{ℤ}
use polliwog.Error.{value}
use polliwog.Backend.{Progress}
use polliwog.Engine.Zlib.{ok, stream_end, buf_error, Flush, ZlibApi, ZlibLaws}
use polliwog.Engine.ZlibCodec.{ZlibCodec}
use polliwog.Engine.ZlibInflating.{ZlibInflating}
use polliwog.Zlib.{aim, progress}
use polliwog.Zlib.Contract.{
  IsCounted, aim-IsAimed, Accounts-counts, Accounts-front, swell_more-Keeps,
}
use polliwog.Zlib.Sweller.{ZlibSweller, push_more}

module _ (Z : ZlibApi) (L : ZlibLaws Z) (K : ZlibCodec Z L) (I : ZlibInflating Z L K) (w : ℤ)
    (d e : List ℕ) where
  -- The handle's stream is inside the complete stream, of which it took and made so much.
  abbrev pub Within : List ℕ → List ℕ → ZlibSweller Z → Type 0
  Within x y h = IsCounted h.stream × I.Inflating w h.stream.state d e x y

  module _ (h : ZlibSweller Z) (input out x y : List ℕ) (v : Within x y h) where
    -- A push that goes on, or that has come to the end.
    abbrev pub Goes : Progress → Type 0
    Goes p =
        ((p.done ≡ true)
          × (x ++ take p.bytes_in input ≡ e)
          × (y ++ take p.bytes_out (push_more Z h input out).out ≡ d))
        ⊎ ((p.done ≡ false)
            × Within (x ++ take p.bytes_in input)
                (y ++ take p.bytes_out (push_more Z h input out).out)
                (push_more Z h input out).handle)

    -- The two reports of a push.
    goes_on_value :
        let c = Z.inflate (aim h.stream input out) Flush.no_flush in
        c.ret ≡ ok ⊎ c.ret ≡ buf_error
        → (push_more Z h input out).result ≡ progress h.stream c false
    unfolding push_more
    goes_on_value (inl e) = rw e refl
    goes_on_value (inr e) = rw e refl

    ends_value :
        let c = Z.inflate (aim h.stream input out) Flush.no_flush in
        c.ret ≡ stream_end → (push_more Z h input out).result ≡ progress h.stream c true
    unfolding push_more
    ends_value e = rw e refl

    -- Whatever the spans, if the output span is not empty, a push of bytes that go on with the stream succeeds. It reports done exactly if
    -- it took the stream to its end, and then it has made all of the data.
    pub push_more-Goes :
        (rest extra : List ℕ)
        → x ++ (input ++ rest) ≡ e ++ extra
        → 0 < length out
        → (p : Progress) × ((push_more Z h input out).result ≡ value p) × Goes p
    unfolding push_more
    push_more-Goes rest extra q some_out =
        let s = aim h.stream input out in
        let aimed = aim-IsAimed h.stream input out in
        let c = Z.inflate s Flush.no_flush in
        let a = L.inflate_accounts s Flush.no_flush aimed in
        let counts = Accounts-counts h.stream input out c v.0 a in
        let front = Accounts-front h.stream input out c v.0 a in
        let window : take s.avail_in input ++ (drop s.avail_in input ++ rest) ≡ input ++ rest =
          sym (append_assoc _ _ rest) ∙ ap (λ t. t ++ rest) (take-append-drop s.avail_in input) in
        elim (I.stays s w d e x y (drop s.avail_in input ++ rest) extra aimed v.1
          (ap (λ t. x ++ t) window ∙ q) some_out) [
            | inl (ended, all_in, all_out) ↦
                (_, ends_value ended, inl (refl, rw counts.0 all_in, rw front all_out))
            | inr (goes, still) ↦ (
              _,
              goes_on_value goes,
              inr (refl, ((swell_more-Keeps Z L h input out v.0).1, rw (counts.0, front) still)),
            )
          ]
