-- ===== src/Backend/Contract.antt =====
-- The promises of a backend in include/detail/backend.hpp and include/polliwog/error.hpp, as a
-- predicate on one call and as a record over the whole interface.
use polliwog.Base.{ℕ, ◌≤◌, ◌≡◌, subst, List, [], Option, none, some, length, drop}
use polliwog.Error.{BackendId, Expected, value, unexpected}
use polliwog.Backend.{Progress, Call, Backend}

-- zlib writes the bytes that it reports and no others. zstd may use the rest of the span's room for itself.
abbrev pub Untouched : BackendId → ℕ → List ℕ → List ℕ → Type 0
Untouched BackendId.zlib n after out = drop n after ≡ drop n out
Untouched _ n after out = Unit {0}

-- A progress report stays inside the two spans, and over zlib the output span is untouched past the bytes
-- that it reports. An error carries the backend's id.
abbrev pub Reports : BackendId → List ℕ → List ℕ → List ℕ → Expected Progress → Type 0
Reports id input out after (value p) =
    (p.bytes_in ≤ length input) × (p.bytes_out ≤ length out) × Untouched id p.bytes_out after out
Reports id input out after (unexpected e) = e.b ≡ id

abbrev pub Keeps : {H : Type 0} → BackendId → List ℕ → List ℕ → Call H → Type 0
Keeps id input out c = (length c.out ≡ length out) × Reports id input out c.out c.result

-- What a success reports is inside the output span, which keeps its length.
pub Keeps-fits :
    {H : Type 0} (id : BackendId) (input out : List ℕ) (c : Call H) (p : Progress)
    → Keeps id input out c
    → c.result ≡ value p
    → (p.bytes_out ≤ length out) × (length c.out ≡ length out)
Keeps-fits id input out c p k e = ((subst (Reports id input out c.out) e k.1).1, k.0)

-- A call that may not return: it does.
abbrev pub Returns : {H : Type 0} → Option H → (H → Type 0) → Type 0
Returns none P = ⊥
Returns (some h) P = P h

pub Returns-map :
    {H : Type 0} {P Q : H → Type 0} (o : Option H)
    → Returns o P
    → ((h : H) → P h → Q h)
    → Returns o Q
Returns-map none r f = r
Returns-map (some h) r f = f h r

pub record IsContract (B : Backend) (IsValid : B.Handle → Type 0) : Type 0 where
  pub push_keeps :
      (h : B.Handle) (input out : List ℕ)
      → IsValid h
      → Keeps B.id input out (B.push h input out) × IsValid (B.push h input out).handle
  pub flush_keeps :
      (h : B.Handle) (out : List ℕ)
      → IsValid h
      → Keeps B.id [] out (B.flush h out) × IsValid (B.flush h out).handle
  pub finish_keeps :
      (h : B.Handle) (out : List ℕ)
      → IsValid h
      → Returns (B.finish h out) (λ c. Keeps B.id [] out c × IsValid c.handle)
