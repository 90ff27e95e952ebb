-- ===== src/Stream/Pushes.antt =====
-- Any sequence of pushes to a decompressor, and what holds of every push after any of them.
use polliwog.Base.{
  Every, ℕ, ◌≡◌, refl, subst, Bool, true, false, List, Option, none, some, length, arith, map_some,
  if◌then◌else◌,
}
use polliwog.Error.{BackendId}
use polliwog.Format.{Format}
use polliwog.Backend.Contract.{Keeps, Reports, Returns}
use polliwog.Build.{Build}
use polliwog.Engine.Zlib.{ZlibLaws}
use polliwog.Engine.Zstd.{ZstdLaws}
use polliwog.Zlib.Contract as ZlibContract
use polliwog.Zlib.Contract.{IsCounted}
use polliwog.Zlib.Sweller as ZlibSweller
use polliwog.Zlib.Sweller.{ZlibSweller}
use polliwog.Zstd.Contract as ZstdContract
use polliwog.Zstd.Sweller as ZstdSweller
use polliwog.Zstd.Sweller.{ZstdSweller}
use polliwog.Zlib.Inits.{construct_sweller-IsCounted}
use polliwog.Stream.{
  StreamCall, SwellerVariant, swollen, swell_visitor, make_sweller, sweller_zlib, sweller_zstd,
}
use polliwog.Stream.Decompressor
use polliwog.Stream.Decompressor.{Decompressor}
use polliwog.Stream.Visits.{adapted-Reports, Returns-map_some}
use polliwog.Stream.Answers.{Stays, reported-Stays, returned_value}
use polliwog.Stream.Served.{server}

-- A history of a decompressor: any pushes, of any spans.
pub data Pushes (B : Build) (s₀ : Decompressor B) : Decompressor B → Type 0 where
  start : Pushes B s₀ s₀
  pushed :
      (s : Decompressor B) (input out : List ℕ) (c : StreamCall (Decompressor B))
      → Pushes B s₀ s
      → Decompressor.push B s input out ≡ some c
      → Pushes B s₀ c.self

-- Which backend a variant holds, and that a zlib stream in it is counted right.
abbrev pub Serves : {B : Build} → BackendId → SwellerVariant B → Type 0
Serves id (SwellerVariant.zlib h) = (BackendId.zlib ≡ id) × IsCounted h.stream
Serves id (SwellerVariant.zstd h) = BackendId.zstd ≡ id
Serves id SwellerVariant.zlib_stub = BackendId.none ≡ id
Serves id SwellerVariant.zstd_stub = BackendId.none ≡ id

module _ (B : Build) (L : ZlibLaws B.zlib_api) (M : ZstdLaws B.zstd_api) (id : BackendId) where
  swell_visitor-Keeps :
      (input out : List ℕ) (v : SwellerVariant B)
      → Serves id v
      → Keeps id input out (swell_visitor B input out v)
        × Serves id (swell_visitor B input out v).handle
  unfolding swell_visitor
  swell_visitor-Keeps input out (SwellerVariant.zlib h) w =
      let c = swell_visitor B input out (SwellerVariant.zlib h) in
      let k = ZlibContract.swell_more-Keeps B.zlib_api L h input out w.1 in
      let r =
        adapted-Reports BackendId.zlib input out (ZlibSweller.push_more B.zlib_api h input out).out
          swollen _ (λ p. omega arith) (λ p. refl) k.0.1 in
      ((k.0.0, subst (λ i. Reports i input out c.out c.result) w.0 r), (w.0, k.1))
  swell_visitor-Keeps input out (SwellerVariant.zstd h) w =
      let c = swell_visitor B input out (SwellerVariant.zstd h) in
      let k = ZstdContract.swell_more-Keeps B.zstd_api M h input out in
      let r =
        adapted-Reports BackendId.zstd input out (ZstdSweller.push_more B.zstd_api h input out).out
          swollen _ (λ p. omega arith) (λ p. refl) k.1 in
      ((k.0, subst (λ i. Reports i input out c.out c.result) w r), w)
  swell_visitor-Keeps input out SwellerVariant.zlib_stub w = ((refl, w), w)
  swell_visitor-Keeps input out SwellerVariant.zstd_stub w = ((refl, w), w)

  -- What a push answers.
  abbrev pub Answered : List ℕ → List ℕ → StreamCall (Decompressor B) → Type 0
  Answered input out c =
      (length c.out ≡ length out) × Stays id input out c.out c.result × Returns c.self.p (Serves id)

  push-Answered :
      (s : Decompressor B) (input out : List ℕ)
      → Returns s.p (Serves id)
      → Returns (Decompressor.push B s input out) (Answered input out)
  unfolding Decompressor.push
  push-Answered s input out w = Returns-map_some _ (Answered input out) s.p _ w λ v k.
      let c = swell_visitor B input out v in
      let r = swell_visitor-Keeps input out v k in
      (
        r.0.0,
        reported-Stays B L M id input out c.out Decompressor.push_result c.result (λ p. omega arith)
            (λ p. refl) r.0.1,
        r.1,
      )

  pub Pushes-Serves :
      (s₀ s : Decompressor B) → Returns s₀.p (Serves id) → Pushes B s₀ s → Returns s.p (Serves id)
  Pushes-Serves s₀ _ w Pushes.start = w
  Pushes-Serves s₀ _ w (Pushes.pushed s input out c r e) =
      (returned_value B L M id (Answered input out) _ c
        (push-Answered s input out (Pushes-Serves s₀ s w r)) e).2

module _ (B : Build) (L : ZlibLaws B.zlib_api) (M : ZstdLaws B.zstd_api) where
  zlib-Serves :
      (b : Bool) (o : Option (ZlibSweller B.zlib_api))
      → ((h : ZlibSweller B.zlib_api) → o ≡ some h → IsCounted h.stream)
      → Every
          (if b then map_some o SwellerVariant.zlib else some SwellerVariant.zlib_stub)
          (Serves {B = B} (if b then BackendId.zlib else BackendId.none))
  zlib-Serves true none counted = tt
  zlib-Serves true (some h) counted = (refl, counted h refl)
  zlib-Serves false o counted = refl

  zstd-Serves :
      (b : Bool) (o : Option (ZstdSweller B.zstd_api))
      → Every
          (if b then map_some o SwellerVariant.zstd else some SwellerVariant.zstd_stub)
          (Serves {B = B} (if b then BackendId.zstd else BackendId.none))
  zstd-Serves true none = tt
  zstd-Serves true (some h) = refl
  zstd-Serves false o = refl

  sweller_zlib-Serves :
      (f : Format)
      → Every (sweller_zlib B f) (Serves (if B.has_zlib then BackendId.zlib else BackendId.none))
  unfolding sweller_zlib
  sweller_zlib-Serves f =
      zlib-Serves B.has_zlib (ZlibSweller.construct B.zlib_api f)
        (construct_sweller-IsCounted B.zlib_api L f)

  make_sweller-Serves : (f : Format) → Every (make_sweller B f) (Serves (server B f))
  unfolding make_sweller sweller_zstd server
  make_sweller-Serves Format.zlib = sweller_zlib-Serves Format.zlib
  make_sweller-Serves Format.gzip = sweller_zlib-Serves Format.gzip
  make_sweller-Serves Format.raw_deflate = sweller_zlib-Serves Format.raw_deflate
  make_sweller-Serves Format.lz4_frame = sweller_zlib-Serves Format.lz4_frame
  make_sweller-Serves Format.zstd =
      zstd-Serves B.has_zstd (ZstdSweller.construct B.zstd_api Format.zstd)

  made_value :
      (o : Option (SwellerVariant B)) (id : BackendId) (s : Decompressor B)
      → Every o (Serves id)
      → map_some o (Decompressor.holding B) ≡ some s
      → Returns s.p (Serves id)
  made_value none id s k e = absurd (cc e)
  made_value (some v) id s k e = subst (λ o. Returns o (λ t. Returns t.p (Serves id))) e k

  pub construct-Serves :
      (f : Format) (s₀ : Decompressor B)
      → Decompressor.construct B f ≡ some s₀
      → Returns s₀.p (Serves (server B f))
  unfolding Decompressor.construct
  construct-Serves f s₀ e = made_value (make_sweller B f) (server B f) s₀ (make_sweller-Serves f) e

  -- A decompressor that the constructor made, after any history of pushes: push returns. It reports no
  -- more bytes than its spans hold and keeps the span's length, and where zlib serves the format a push that
  -- succeeds leaves the output span alone past the bytes it reports; an error names the backend that serves
  -- the format in this build, or none if that backend is not compiled in.
  pub pushes-Answered :
      (f : Format) (s₀ s : Decompressor B) (input out : List ℕ)
      → Decompressor.construct B f ≡ some s₀
      → Pushes B s₀ s
      → Returns (Decompressor.push B s input out) (Answered B L M (server B f) input out)
  pushes-Answered f s₀ s input out e r =
      let id = server B f in
      push-Answered B L M id s input out (Pushes-Serves B L M id s₀ s (construct-Serves f s₀ e) r)
