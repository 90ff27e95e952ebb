-- ===== src/Stream/ZstdIntake.antt =====
-- A decompressor over zstd that is given the parts of a complete frame one after the other.
use polliwog.Base.{
  ℕ, ◌<◌, ◌≡◌, refl, subst, ◌⊎◌, inl, inr, true, false, Every, List, [], ◌++◌, Option, none, some,
  length, take, arith, Option-cases,
}
use polliwog.Error.{Kind, value, unexpected}
use polliwog.Format.{Format}
use polliwog.Build.{Build}
use polliwog.Engine.Zstd.{ZstdLaws}
use polliwog.Engine.ZstdCodec.{ZstdCodec}
use polliwog.Engine.ZstdInflating.{ZstdInflating}
use polliwog.Zstd.{zstd_error}
use polliwog.Zstd.Sweller as ZstdSweller
use polliwog.Zstd.Sweller.{ZstdSweller}
use polliwog.Zstd.Intake.{push_more-Goes, push_more-any}
use polliwog.Stream.{StreamCall, StreamResult, SwellerVariant, swollen, swell_visitor}
use polliwog.Stream.Decompressor
use polliwog.Stream.Decompressor.{Decompressor}
use polliwog.Stream.Chunks.{adapted_value}
use polliwog.Stream.Intake.{Intake, Intake-At}

-- A push of what goes on with a frame e of the data d: done at the end of both, or the report of
-- what follows the end, with all of the data in the span, or the front of the data.
abbrev pub Report :
    List ℕ → List ℕ → List ℕ → List ℕ → List ℕ → {C : Type 0} → StreamCall C → Type 0
Report d e x y input c =
    ((r : StreamResult) × (c.result ≡ value r)
      × (r.done ≡ true)
      × (x ++ take r.bytes_consumed input ≡ e)
      × (y ++ take r.bytes_produced c.out ≡ d))
    ⊎ ((n : ℕ) × (m : ℕ) × (c.result
          ≡ unexpected (zstd_error Kind.stream_corrupt n "extra data after end of stream"))
        × (n < length input)
        × (x ++ take n input ≡ e)
        × (y ++ take m c.out ≡ d))
    ⊎ ((r : StreamResult) × (c.result ≡ value r)
        × (r.done ≡ false)
        × ((left : List ℕ) × ((y ++ take r.bytes_produced c.out) ++ left ≡ d)))

module _ (B : Build) (L : ZstdLaws B.zstd_api) (K : ZstdCodec B.zstd_api L)
    (I : ZstdInflating B.zstd_api L K) (d e : List ℕ) where
  -- The decompressor holds a context inside the frame.
  abbrev IsAt : List ℕ → List ℕ → Option (SwellerVariant B) → Type 0
  IsAt x y (some (SwellerVariant.zstd h)) = I.Inside h.ctx d e x y
  IsAt x y _ = ⊥

  push-IsAt :
      (extra : List ℕ) (p : Option (SwellerVariant B)) (x y input out rest : List ℕ)
      (c : StreamCall (Decompressor B)) (r : StreamResult)
      → IsAt x y p
      → x ++ (input ++ rest) ≡ e ++ extra
      → 0 < length out
      → Decompressor.push B (record { p = p }) input out ≡ some c
      → c.result ≡ value r
      → r.done ≡ false
      → IsAt (x ++ take r.bytes_consumed input) (y ++ take r.bytes_produced c.out) c.self.p
  unfolding Decompressor.push swell_visitor
  push-IsAt extra (some (SwellerVariant.zstd h)) x y input out rest c r v goes_on some_out ec er
        not_done =
      let P = λ (c : StreamCall (Decompressor B)).
        (r : StreamResult)
        → c.result ≡ value r
        → r.done ≡ false
        → IsAt (x ++ take r.bytes_consumed input) (y ++ take r.bytes_produced c.out) c.self.p in
      subst (λ o. Every o P) ec
        (λ r er not_done.
          let q = ZstdSweller.push_more B.zstd_api h input out in
          let u =
            adapted_value SwellerVariant.zstd (Decompressor.holding B) swollen
              Decompressor.push_result q r er in
          rw u.2 (
            push_more-Goes B.zstd_api L K I d e h input out x y rest extra v goes_on u.0 u.1
              (rw u.2 at not_done)))
        r er not_done
  push-IsAt extra none x y input out rest c r v goes_on some_out ec er not_done = absurd v
  push-IsAt extra (some (SwellerVariant.zlib h)) x y input out rest c r v goes_on some_out ec er
        not_done =
      absurd v
  push-IsAt extra (some SwellerVariant.zlib_stub) x y input out rest c r v goes_on some_out ec er
        not_done =
      absurd v
  push-IsAt extra (some SwellerVariant.zstd_stub) x y input out rest c r v goes_on some_out ec er
        not_done =
      absurd v

  -- A new sweller is at the start of any frame.
  construct-Inside :
      (f : Format) (h : ZstdSweller B.zstd_api)
      → ZstdSweller.construct B.zstd_api f ≡ some h
      → K.Encodes d e
      → I.Inside h.ctx d e [] []
  unfolding ZstdSweller.construct
  construct-Inside f h made whole = elim (Option-cases B.zstd_api.create_dctx) [
    | inl null ↦ absurd (ground arith)
    | inr (fresh, there) ↦
        let same : h.ctx ≡ fresh = ground arith in rw same (I.starts fresh d e there whole)
  ]

  -- A new decompressor over zstd is given the bytes of a complete frame, and whatever follows them, in any
  -- pieces and with output spans that are not empty, and every call has succeeded and not reported done. The next
  -- push of bytes that go on, neither span empty, has one of three outcomes. It reports done, and the calls
  -- have consumed the frame exactly to its end and produced all of its data. Or the frame ends before the
  -- input does: it reports stream_corrupt at the position of that end, and all of the data is in the spans.
  -- Or it succeeds and is not done, and what was produced is the front of the data.
  pub push-Inflates_zstd :
      (f : Format) (h₀ h : ZstdSweller B.zstd_api) (x y input out rest extra : List ℕ)
      → ZstdSweller.construct B.zstd_api f ≡ some h₀
      → K.Encodes d e
      → Intake B
          (e ++ extra)
          (Decompressor.holding B (SwellerVariant.zstd h₀))
          x
          y
          (Decompressor.holding B (SwellerVariant.zstd h))
      → x ++ (input ++ rest) ≡ e ++ extra
      → 0 < length input
      → 0 < length out
      → (c : StreamCall (Decompressor B)) × (Decompressor.push B
            (Decompressor.holding B (SwellerVariant.zstd h))
            input
            out
          ≡ some c)
        × Report d e x y input c
  unfolding Decompressor.push swell_visitor
  push-Inflates_zstd f h₀ h x y input out rest extra made whole t goes_on some_in room =
      let v =
        Intake-At B (e ++ extra) IsAt (push-IsAt extra) _ _ x y (construct-Inside f h₀ made whole)
          t in
      let q = ZstdSweller.push_more B.zstd_api h input out in
      elim (push_more-any B.zstd_api L K I d e h input out x y rest extra v goes_on some_in room) [
        | inl (p, ep, done, taken, all) ↦
            (_, refl, inl (Decompressor.push_result p, rw ep refl, done, taken, all))
        | inr (inl (n, m, failed, more, taken, all)) ↦
            (_, refl, inr (inl (n, m, rw failed refl, more, taken, all)))
        | inr (inr (p, ep, not_done, at)) ↦ (
          _,
          refl,
          inr (
              inr (
                Decompressor.push_result p,
                rw ep refl,
                not_done,
                I.of_data q.handle.ctx d e _ _ at,
              )),
        )
      ]
