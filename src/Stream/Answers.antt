-- ===== src/Stream/Answers.antt =====
-- What a call on a compressor that holds a sound variant answers.
use polliwog.Base.{
  ℕ, ◌≤◌, ◌≡◌, refl, sym, ◌∙◌, subst, List, [], Option, none, some, length, arith, map_some,
}
use polliwog.Error.{BackendId, Expected, value, unexpected}
use polliwog.Backend.{Progress, Call}
use polliwog.Backend.Contract.{Reports, Untouched, Returns}
use polliwog.Build.{Build}
use polliwog.Engine.Zlib.{ZlibLaws}
use polliwog.Engine.Zstd.{ZstdLaws}
use polliwog.Stream.{StreamResult, StreamCall, SqueezerVariant, returned, finish_visitor}
use polliwog.Stream.Compressor
use polliwog.Stream.Compressor.{Compressor}
use polliwog.Stream.Visits.{
  IsSound, backend_of, Visits, push_visitor-Visits, flush_visitor-Visits, finish_visitor-Visits,
  Returns-map_some,
}

-- A report stays inside the two spans, and over zlib the output span is untouched past the bytes that it
-- reports.
abbrev pub Stays : BackendId → List ℕ → List ℕ → List ℕ → Expected StreamResult → Type 0
Stays id input out after (value r) =
    (r.bytes_consumed ≤ length input)
    × (r.bytes_produced ≤ length out)
    × Untouched id r.bytes_produced after out
Stays id input out after (unexpected e) = e.b ≡ id

-- The compressor holds a sound variant of the backend.
abbrev pub IsLive : {B : Build} → BackendId → Compressor B → Type 0
IsLive id s = Returns s.p (λ v. (backend_of v ≡ id) × IsSound v)

module _ (B : Build) (L : ZlibLaws B.zlib_api) (M : ZstdLaws B.zstd_api) (id : BackendId) where
  pub reported-Stays :
      (input out after : List ℕ) (adapt : Progress → StreamResult) (r : Expected Progress)
      → ((p : Progress) → (adapt p).bytes_consumed ≤ p.bytes_in)
      → ((p : Progress) → (adapt p).bytes_produced ≡ p.bytes_out)
      → Reports id input out after r
      → Stays id input out after
          (elim r [ value p ↦ value (adapt p) | unexpected e ↦ unexpected e ])
  reported-Stays input out after adapt (value p) less same k = (
    omega (arith, less p, k.0),
    omega (arith, same p, k.1),
    subst (λ n. Untouched id n after out) (sym (same p)) k.2,
  )
  reported-Stays input out after adapt (unexpected e) less same k = k

  -- What the object makes of a visit that keeps the contract.
  abbrev pub Answered : List ℕ → List ℕ → StreamCall (Compressor B) → Type 0
  Answered input out c =
      (length c.out ≡ length out) × Stays id input out c.out c.result × IsLive id c.self

  returned-Answered :
      (input out : List ℕ) (adapt : Progress → StreamResult) (v : SqueezerVariant B)
      (c : Call (SqueezerVariant B))
      → ((p : Progress) → (adapt p).bytes_consumed ≤ p.bytes_in)
      → ((p : Progress) → (adapt p).bytes_produced ≡ p.bytes_out)
      → backend_of v ≡ id
      → Visits B L M input out v c
      → Answered input out (returned (Compressor.holding B) adapt c)
  returned-Answered input out adapt v c less same e k = (
    k.0.0,
    reported-Stays input out c.out adapt c.result less same
        (subst (λ i. Reports i input out c.out c.result) e k.0.1),
    (k.1 ∙ e, k.2),
  )

  pub push-Answers :
      (s : Compressor B) (input out : List ℕ)
      → IsLive id s
      → Returns (Compressor.push B s input out) (Answered input out)
  unfolding Compressor.push
  push-Answers s input out w = Returns-map_some _ (Answered input out) s.p _ w λ v k.
      returned-Answered input out Compressor.push_result v _ (λ p. omega arith) (λ p. refl) k.0
        (push_visitor-Visits B L M input out v k.1)

  pub flush-Answers :
      (s : Compressor B) (out : List ℕ)
      → IsLive id s
      → Returns (Compressor.flush B s out) (Answered [] out)
  unfolding Compressor.flush
  flush-Answers s out w = Returns-map_some _ (Answered [] out) s.p _ w λ v k.
      returned-Answered [] out Compressor.flush_result v _ (λ p. omega arith) (λ p. refl) k.0
        (flush_visitor-Visits B L M out v k.1)

  pub finish-Answers :
      (s : Compressor B) (out : List ℕ)
      → IsLive id s
      → Returns (Compressor.finish B s out) (Answered [] out)
  unfolding Compressor.finish
  finish-Answers s out w = go s.p w
    where
      go :
          (o : Option (SqueezerVariant B))
          → Returns o (λ v. (backend_of v ≡ id) × IsSound v)
          → Returns
              (elim o [
                | none ↦ none
                | some v ↦
                    map_some
                      (finish_visitor B out v)
                      (returned (Compressor.holding B) Compressor.finish_result)
              ])
              (Answered [] out)
      go (some v) k =
          Returns-map_some _ (Answered [] out) (finish_visitor B out v) _
            (finish_visitor-Visits B L M out v k.1)
            λ c r.
              returned-Answered [] out Compressor.finish_result v c (λ p. omega arith) (λ p. refl)
                k.0 r
      go none k = k

  -- A call that returned was one that answers.
  pub returned_value :
      {C : Type 0} (P : C → Type 0) (o : Option C) (c : C) → Returns o P → o ≡ some c → P c
  returned_value P o c r e = subst (λ o. Returns o P) e r
