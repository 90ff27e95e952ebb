-- ===== src/Stream/Visits.antt =====
-- What the visitors of src/stream.cpp keep of the backends' contract.
use polliwog.Base.{subst, ℕ, ◌≤◌, ◌≡◌, refl, sym, List, [], Option, none, some, arith, map_some}
use polliwog.Error.{BackendId, Expected, value, unexpected}
use polliwog.Backend.{Progress, Call}
use polliwog.Backend.Contract.{Keeps, Reports, Untouched, Returns}
use polliwog.Build.{Build}
use polliwog.Engine.Zlib.{ZlibLaws}
use polliwog.Engine.Zstd.{ZstdLaws}
use polliwog.Zlib.Squeezer as ZlibSqueezer
use polliwog.Zlib.Contract as ZlibContract
use polliwog.Zlib.Contract.{IsCounted}
use polliwog.Zstd.Contract as ZstdContract
use polliwog.Zstd.Finish.{finish-Ends}
use polliwog.Zstd.Squeezer as ZstdSqueezer
use polliwog.Stream.{
  SqueezerVariant, pushed, flushed, finished, push_visitor, flush_visitor, finish_visitor,
}

-- The backend is counted right, or is a stub.
abbrev pub IsSound : {B : Build} → SqueezerVariant B → Type 0
IsSound (SqueezerVariant.zlib h) = IsCounted h.stream
IsSound _ = Unit {0}

-- Where the report comes from.
abbrev pub backend_of : {B : Build} → SqueezerVariant B → BackendId
backend_of (SqueezerVariant.zlib h) = BackendId.zlib
backend_of (SqueezerVariant.zstd h) = BackendId.zstd
backend_of _ = BackendId.none

-- An adapter that passes on the bytes produced, and no more of the bytes consumed, keeps a report.
pub adapted-Reports :
    (id : BackendId) (input out after : List ℕ) (adapt : Progress → Progress)
    (r : Expected Progress)
    → ((p : Progress) → (adapt p).bytes_in ≤ p.bytes_in)
    → ((p : Progress) → (adapt p).bytes_out ≡ p.bytes_out)
    → Reports id input out after r
    → Reports id input out after
        (elim r [ value p ↦ value (adapt p) | unexpected e ↦ unexpected e ])
adapted-Reports id input out after adapt (value p) less same k = (
  omega (arith, less p, k.0),
  omega (arith, same p, k.1),
  subst (λ n. Untouched id n after out) (sym (same p)) k.2,
)
adapted-Reports id input out after adapt (unexpected e) less same k = k

pub Returns-map_some :
    {H K : Type 0} (P : H → Type 0) (Q : K → Type 0) (o : Option H) (g : H → K)
    → Returns o P
    → ((h : H) → P h → Q (g h))
    → Returns (map_some o g) Q
Returns-map_some P Q none g r f = r
Returns-map_some P Q (some h) g r f = f h r

module _ (B : Build) (L : ZlibLaws B.zlib_api) (M : ZstdLaws B.zstd_api) where
  -- What a visit keeps: the span, the alternative, and the accounts.
  abbrev pub Visits : List ℕ → List ℕ → SqueezerVariant B → Call (SqueezerVariant B) → Type 0
  Visits input out v c =
      Keeps (backend_of v) input out c × (backend_of c.handle ≡ backend_of v) × IsSound c.handle

  pub push_visitor-Visits :
      (input out : List ℕ) (v : SqueezerVariant B)
      → IsSound v
      → Visits input out v (push_visitor B input out v)
  unfolding push_visitor
  push_visitor-Visits input out (SqueezerVariant.zlib h) w =
      let k = ZlibContract.push_more-Keeps B.zlib_api L h input out w in
      (
        (
          k.0.0,
          adapted-Reports BackendId.zlib input out
              (ZlibSqueezer.push_more B.zlib_api h input out).out pushed _ (λ p. omega arith)
              (λ p. refl) k.0.1,
        ),
        refl,
        k.1,
      )
  push_visitor-Visits input out (SqueezerVariant.zstd h) w =
      let k = ZstdContract.push_more-Keeps B.zstd_api M h input out in
      (
        (
          k.0,
          adapted-Reports BackendId.zstd input out
              (ZstdSqueezer.push_more B.zstd_api h input out).out pushed _ (λ p. omega arith)
              (λ p. refl) k.1,
        ),
        refl,
        tt,
      )
  push_visitor-Visits input out SqueezerVariant.zlib_stub w = ((refl, refl), refl, tt)
  push_visitor-Visits input out SqueezerVariant.zstd_stub w = ((refl, refl), refl, tt)

  pub flush_visitor-Visits :
      (out : List ℕ) (v : SqueezerVariant B) → IsSound v → Visits [] out v (flush_visitor B out v)
  unfolding flush_visitor
  flush_visitor-Visits out (SqueezerVariant.zlib h) w =
      let k = ZlibContract.flush-Keeps B.zlib_api L h out w in
      (
        (
          k.0.0,
          adapted-Reports BackendId.zlib [] out (ZlibSqueezer.flush B.zlib_api h out).out flushed _
              (λ p. omega arith) (λ p. refl) k.0.1,
        ),
        refl,
        k.1,
      )
  flush_visitor-Visits out (SqueezerVariant.zstd h) w =
      let k = ZstdContract.flush-Keeps B.zstd_api M h out in
      (
        (
          k.0,
          adapted-Reports BackendId.zstd [] out (ZstdSqueezer.flush B.zstd_api h out).out flushed _
              (λ p. omega arith) (λ p. refl) k.1,
        ),
        refl,
        tt,
      )
  flush_visitor-Visits out SqueezerVariant.zlib_stub w = ((refl, refl), refl, tt)
  flush_visitor-Visits out SqueezerVariant.zstd_stub w = ((refl, refl), refl, tt)

  pub finish_visitor-Visits :
      (out : List ℕ) (v : SqueezerVariant B)
      → IsSound v
      → Returns (finish_visitor B out v) (Visits [] out v)
  unfolding finish_visitor
  finish_visitor-Visits out (SqueezerVariant.zlib h) w =
      let k = ZlibContract.finish-Keeps B.zlib_api L h out w in
      (
        (
          k.0.0,
          adapted-Reports BackendId.zlib [] out (ZlibSqueezer.finish B.zlib_api h out).out finished
              _ (λ p. omega arith) (λ p. refl) k.0.1,
        ),
        refl,
        k.1,
      )
  finish_visitor-Visits out (SqueezerVariant.zstd h) w =
      Returns-map_some _ (Visits [] out (SqueezerVariant.zstd h))
        (ZstdSqueezer.finish B.zstd_api h out) _ (finish-Ends B.zstd_api M out h)
        λ c k. (
          (
            k.0.0,
            adapted-Reports BackendId.zstd [] out c.out finished _ (λ p. omega arith) (λ p. refl)
                k.0.1,
          ),
          refl,
          tt,
        )
  finish_visitor-Visits out SqueezerVariant.zlib_stub w = ((refl, refl), refl, tt)
  finish_visitor-Visits out SqueezerVariant.zstd_stub w = ((refl, refl), refl, tt)
