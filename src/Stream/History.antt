-- ===== src/Stream/History.antt =====
-- Any sequence of calls on a compressor: the histories as a relation, and what holds of every call after
-- any history.
use polliwog.Base.{ℕ, ◌≡◌, refl, subst, List, [], Option, none, some}
use polliwog.Error.{BackendId, unexpected}
use polliwog.Format.{Format, ZlibLevel}
use polliwog.Backend.Contract.{Returns}
use polliwog.Build.{Build}
use polliwog.Engine.Zlib.{ZlibLaws}
use polliwog.Engine.Zstd.{ZstdLaws}
use polliwog.Stream.{
  format_mismatch_err, StreamCall, Made, SqueezerVariant, push_visitor, flush_visitor,
  finish_visitor,
}
use polliwog.Stream.Compressor
use polliwog.Stream.Compressor.{Compressor}
use polliwog.Stream.Answers.{
  IsLive, Answered, push-Answers, flush-Answers, finish-Answers, returned_value,
}
use polliwog.Stream.Served.{Served, server, construct-IsLive}

-- A history of a compressor: any calls, on any spans.
pub data History (B : Build) (s₀ : Compressor B) : Compressor B → Type 0 where
  start : History B s₀ s₀
  pushed :
      (s : Compressor B) (input out : List ℕ) (c : StreamCall (Compressor B))
      → History B s₀ s
      → Compressor.push B s input out ≡ some c
      → History B s₀ c.self
  flushed :
      (s : Compressor B) (out : List ℕ) (c : StreamCall (Compressor B))
      → History B s₀ s
      → Compressor.flush B s out ≡ some c
      → History B s₀ c.self
  finished :
      (s : Compressor B) (out : List ℕ) (c : StreamCall (Compressor B))
      → History B s₀ s
      → Compressor.finish B s out ≡ some c
      → History B s₀ c.self

module _ (B : Build) (L : ZlibLaws B.zlib_api) (M : ZstdLaws B.zstd_api) (id : BackendId) where
  -- No history ends the object's life or changes its backend.
  pub History-IsLive : (s₀ s : Compressor B) → IsLive id s₀ → History B s₀ s → IsLive id s
  History-IsLive s₀ _ w History.start = w
  History-IsLive s₀ _ w (History.pushed s input out c r e) =
      (returned_value B L M id (Answered B L M id input out) _ c
        (push-Answers B L M id s input out (History-IsLive s₀ s w r)) e).2
  History-IsLive s₀ _ w (History.flushed s out c r e) =
      (returned_value B L M id (Answered B L M id [] out) _ c
        (flush-Answers B L M id s out (History-IsLive s₀ s w r)) e).2
  History-IsLive s₀ _ w (History.finished s out c r e) =
      (returned_value B L M id (Answered B L M id [] out) _ c
        (finish-Answers B L M id s out (History-IsLive s₀ s w r)) e).2

module _ (B : Build) (L : ZlibLaws B.zlib_api) (M : ZstdLaws B.zstd_api) where
  -- A compressor that the constructor made, after any history of calls: push, flush and finish return.
  -- Each reports no more bytes than its spans hold and keeps the span's length, and where zlib serves the
  -- format a call that succeeds leaves the output span alone past the bytes it reports; an error names the
  -- backend that serves the format in this build, or none if that backend is not compiled in.
  pub calls-Answered :
      (f : Format) (lvl : ZlibLevel) (s₀ s : Compressor B) (input out : List ℕ)
      → Compressor.construct B f lvl ≡ some (Made.made s₀)
      → History B s₀ s
      → Returns (Compressor.push B s input out) (Answered B L M (server B f) input out)
        × Returns (Compressor.flush B s out) (Answered B L M (server B f) [] out)
        × Returns (Compressor.finish B s out) (Answered B L M (server B f) [] out)
  calls-Answered f lvl s₀ s input out e r =
      let id = server B f in
      let live = History-IsLive B L M id s₀ s (construct-IsLive B L M f lvl s₀ e) r in
      (
        push-Answers B L M id s input out live,
        flush-Answers B L M id s out live,
        finish-Answers B L M id s out live,
      )

  -- In a build without the backend of the format, every call of such a compressor, after any history, is
  -- refused as format_mismatch, with the span and the object as they were.
  pub calls-mismatch :
      (f : Format) (lvl : ZlibLevel) (s₀ s : Compressor B) (input out : List ℕ)
      → server B f ≡ BackendId.none
      → Compressor.construct B f lvl ≡ some (Made.made s₀)
      → History B s₀ s
      → let refused : Option (StreamCall (Compressor B)) =
          some (record { self = s; out = out; result = unexpected format_mismatch_err }) in
        (Compressor.push B s input out ≡ refused)
        × (Compressor.flush B s out ≡ refused)
        × (Compressor.finish B s out ≡ refused)
  unfolding Compressor.push Compressor.flush Compressor.finish push_visitor flush_visitor
      finish_visitor
  calls-mismatch f lvl s₀ s input out unserved e r = go s.p (
      subst (λ id. IsLive id s) unserved
        (History-IsLive B L M (server B f) s₀ s (construct-IsLive B L M f lvl s₀ e) r))
    where
      go :
          (p : Option (SqueezerVariant B))
          → Returns p (Served B L M BackendId.none)
          → let refused : Option (StreamCall (Compressor B)) = some (record {
            self = record { p = p };
            out = out;
            result = unexpected format_mismatch_err;
          }) in
            (Compressor.push B (record { p = p }) input out ≡ refused)
            × (Compressor.flush B (record { p = p }) out ≡ refused)
            × (Compressor.finish B (record { p = p }) out ≡ refused)
      go none k = absurd k
      go (some (SqueezerVariant.zlib h)) k = absurd (cc k.0)
      go (some (SqueezerVariant.zstd h)) k = absurd (cc k.0)
      go (some SqueezerVariant.zlib_stub) k = (refl, refl, refl)
      go (some SqueezerVariant.zstd_stub) k = (refl, refl, refl)
