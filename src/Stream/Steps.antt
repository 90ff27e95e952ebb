-- ===== src/Stream/Steps.antt =====
-- A sequence of pushes and flushes of a compressor, whatever its backend.
use polliwog.Base.{ℕ, ◌≡◌, subst, List, [], ◌++◌, Option, some, take}
use polliwog.Error.{value}
use polliwog.Backend.Contract.{Returns}
use polliwog.Build.{Build}
use polliwog.Stream.{StreamResult, StreamCall, SqueezerVariant}
use polliwog.Stream.Compressor
use polliwog.Stream.Compressor.{Compressor}

-- A session: calls of push and flush that succeed, with the bytes taken and the bytes made by all of
-- them.
pub data Session (B : Build) (s₀ : Compressor B) : List ℕ → List ℕ → Compressor B → Type 0 where
  start : Session B s₀ [] [] s₀
  pushed :
      (s : Compressor B) (d e input out : List ℕ) (c : StreamCall (Compressor B)) (r : StreamResult)
      → Session B s₀ d e s
      → Compressor.push B s input out ≡ some c
      → c.result ≡ value r
      → Session B s₀ (d ++ take r.bytes_consumed input) (e ++ take r.bytes_produced c.out) c.self
  flushed :
      (s : Compressor B) (d e out : List ℕ) (c : StreamCall (Compressor B)) (r : StreamResult)
      → Session B s₀ d e s
      → Compressor.flush B s out ≡ some c
      → c.result ≡ value r
      → Session B s₀ d (e ++ take r.bytes_produced c.out) c.self

module _ (B : Build) where
  -- A success of a call, of whatever comes back.
  abbrev pub Success :
      (List ℕ → ℕ → ℕ → StreamCall (Compressor B) → Type 0) → StreamCall (Compressor B) → Type 0
  Success P c =
      (r : StreamResult) → c.result ≡ value r → P c.out r.bytes_consumed r.bytes_produced c

  pub success :
      (P : List ℕ → ℕ → ℕ → StreamCall (Compressor B) → Type 0) (x c : StreamCall (Compressor B))
      (r : StreamResult)
      → Success P x
      → some x ≡ some c
      → c.result ≡ value r
      → P c.out r.bytes_consumed r.bytes_produced c
  success P x c r s e er = subst (λ o. Returns o (Success P)) e s r er

  -- What holds at the start and is kept by every push and flush that succeeds holds after a session.
  pub Session-At :
      (At : List ℕ → List ℕ → Option (SqueezerVariant B) → Type 0)
      → ((p : Option (SqueezerVariant B)) (d e input out : List ℕ) (c : StreamCall (Compressor B))
            (r : StreamResult)
          → At d e p
          → Compressor.push B (record { p = p }) input out ≡ some c
          → c.result ≡ value r
          → At (d ++ take r.bytes_consumed input) (e ++ take r.bytes_produced c.out) c.self.p)
      → ((p : Option (SqueezerVariant B)) (d e out : List ℕ) (c : StreamCall (Compressor B))
            (r : StreamResult)
          → At d e p
          → Compressor.flush B (record { p = p }) out ≡ some c
          → c.result ≡ value r
          → At d (e ++ take r.bytes_produced c.out) c.self.p)
      → (s₀ s : Compressor B) (d e : List ℕ) → At [] [] s₀.p
      → Session B s₀ d e s
      → At d e s.p
  Session-At At push_step flush_step s₀ _ _ _ u Session.start = u
  Session-At At push_step flush_step s₀ _ _ _ u (Session.pushed s d e input out c r t ec er) =
      push_step s.p d e input out c r (Session-At At push_step flush_step s₀ s d e u t) ec er
  Session-At At push_step flush_step s₀ _ _ _ u (Session.flushed s d e out c r t ec er) =
      flush_step s.p d e out c r (Session-At At push_step flush_step s₀ s d e u t) ec er
