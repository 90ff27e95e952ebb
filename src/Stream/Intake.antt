-- ===== src/Stream/Intake.antt =====
-- A decompressor over zlib that is given the parts of a complete stream one after the other.
use polliwog.Base.{
  ℕ, ◌<◌, ◌≡◌, refl, sym, subst, ◌⊎◌, true, false, List, [], ◌++◌, Option, some, length, take,
  length,
}
use polliwog.Error.{value}
use polliwog.Format.{Format}
use polliwog.Backend.{Progress, Call}
use polliwog.Build.{Build}
use polliwog.Engine.Zlib.{ZlibLaws}
use polliwog.Engine.ZlibCodec.{ZlibCodec}
use polliwog.Engine.ZlibInflating.{ZlibInflating}
use polliwog.Zlib.{window_bits_for, zeroed}
use polliwog.Zlib.Sweller as ZlibSweller
use polliwog.Zlib.Sweller.{ZlibSweller}
use polliwog.Zlib.Intake.{Within}
use polliwog.Zlib.Inits.{construct_sweller_inits, construct_sweller-IsCounted}
use polliwog.Stream.{StreamResult, StreamCall, SwellerVariant, swell_visitor}
use polliwog.Stream.Decompressor
use polliwog.Stream.Decompressor.{Decompressor}

-- An intake: pushes into spans that are not empty, that succeed and do not report done, each of bytes that
-- go on with those that the caller has, with the bytes taken and the bytes made by all of them.
pub data Intake (B : Build) (have : List ℕ) (s₀ : Decompressor B)
    : List ℕ → List ℕ → Decompressor B → Type 0 where
  start : Intake B have s₀ [] [] s₀
  pushed :
      (s : Decompressor B) (x y input out rest : List ℕ) (c : StreamCall (Decompressor B))
      (r : StreamResult)
      → Intake B have s₀ x y s
      → x ++ (input ++ rest) ≡ have
      → 0 < length out
      → Decompressor.push B s input out ≡ some c
      → c.result ≡ value r
      → r.done ≡ false
      → Intake B have s₀
          (x ++ take r.bytes_consumed input)
          (y ++ take r.bytes_produced c.out)
          c.self

-- What every push that does not report done keeps holds after an intake.
pub Intake-At :
    (B : Build) (have : List ℕ) (IsAt : List ℕ → List ℕ → Option (SwellerVariant B) → Type 0)
    → ((p : Option (SwellerVariant B)) (x y input out rest : List ℕ)
          (c : StreamCall (Decompressor B)) (r : StreamResult)
        → IsAt x y p
        → x ++ (input ++ rest) ≡ have
        → 0 < length out
        → Decompressor.push B (record { p = p }) input out ≡ some c
        → c.result ≡ value r
        → r.done ≡ false
        → IsAt (x ++ take r.bytes_consumed input) (y ++ take r.bytes_produced c.out) c.self.p)
    → (s₀ s : Decompressor B) (x y : List ℕ) → IsAt [] [] s₀.p
    → Intake B have s₀ x y s
    → IsAt x y s.p
Intake-At B have IsAt push-At s₀ _ _ _ v Intake.start = v
Intake-At B have IsAt push-At s₀ _ _ _ v
      (Intake.pushed s x y input out rest c r t q some_out ec er not_done) =
    push-At s.p x y input out rest c r (Intake-At B have IsAt push-At s₀ s x y v t) q some_out ec er
      not_done

module _ (B : Build) where
  -- What comes back from a push of the backend that succeeds.
  abbrev pub served : Progress → Call (ZlibSweller B.zlib_api) → StreamCall (Decompressor B)
  served p q = record {
    self = Decompressor.holding B (SwellerVariant.zlib q.handle);
    out = q.out;
    result = value (Decompressor.push_result p);
  }

  pub push_value :
      (h : ZlibSweller B.zlib_api) (input out : List ℕ) (p : Progress)
      → let q = ZlibSweller.push_more B.zlib_api h input out in
        q.result ≡ value p
        → Decompressor.push B (Decompressor.holding B (SwellerVariant.zlib h)) input out
          ≡ some (served p q)
  unfolding Decompressor.push swell_visitor
  push_value h input out p e = rw e refl

module _ (B : Build) (L : ZlibLaws B.zlib_api) (K : ZlibCodec B.zlib_api L)
    (I : ZlibInflating B.zlib_api L K) (f : Format) (d e : List ℕ) where
  abbrev IsAt : List ℕ → List ℕ → Option (SwellerVariant B) → Type 0
  IsAt x y (some (SwellerVariant.zlib h)) = Within B.zlib_api L K I (window_bits_for f) d e x y h
  IsAt x y _ = ⊥

  -- A new sweller is at the start of any stream.
  pub construct-Within :
      (h : ZlibSweller B.zlib_api)
      → ZlibSweller.construct B.zlib_api f ≡ some h
      → K.Encodes (window_bits_for f) d e
      → Within B.zlib_api L K I (window_bits_for f) d e [] [] h
  construct-Within h made whole =
      let w = window_bits_for f in
      let r = construct_sweller_inits B.zlib_api f h made in
      (
        construct_sweller-IsCounted B.zlib_api L f h made,
        subst (λ s. I.Inflating w s.state d e [] []) (sym r.1)
            (I.starts w _ d e (K.inflate_starts zeroed w r.0) whole),
      )

  -- What a push answers: done at the end of the stream and of the data, or a decompressor that is
  -- still inside.
  abbrev Answer : List ℕ → List ℕ → List ℕ → StreamCall (Decompressor B) → Type 0
  Answer x y input c =
      (r : StreamResult) × (c.result ≡ value r)
      × (((r.done ≡ true)
            × (x ++ take r.bytes_consumed input ≡ e)
            × (y ++ take r.bytes_produced c.out ≡ d))
          ⊎ ((r.done ≡ false)
              × IsAt (x ++ take r.bytes_consumed input) (y ++ take r.bytes_produced c.out)
                  c.self.p))
