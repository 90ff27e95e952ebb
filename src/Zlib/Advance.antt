-- ===== src/Zlib/Advance.antt =====
-- zlib_squeezer::push_more and zlib_sweller::push_more, on any bytes: a push fails, or it moves.
use polliwog.Base.{ℕ, ◌+◌, ◌≤◌, ◌<◌, ◌≡◌, refl, ◌⊎◌, inl, inr, true, false, List, length, arith}
use polliwog.Base.Int.{ℤ}
use polliwog.Base.Words.{u32_mod, u32-eq_of_lt}
use polliwog.Error.{Error, Kind, value, unexpected}
use polliwog.Backend.{Progress}
use polliwog.Engine.Zlib.{
  ZlibCode, ok, stream_end, buf_error, other, Flush, ZStream, ZlibCall, IsAimed, Accounts, ZlibApi,
  ZlibLaws,
}
use polliwog.Engine.ZlibProgress.{GoesOn, Moving, ZlibProgress}
use polliwog.Zlib.{aim, consumed, produced, zlib_error}
use polliwog.Zlib.Contract.{IsCounted, aim-IsAimed, Accounts-counts, Accounts-Moved}
use polliwog.Zlib.Squeezer as ZlibSqueezer
use polliwog.Zlib.Squeezer.{ZlibSqueezer}
use polliwog.Zlib.Sweller as ZlibSweller
use polliwog.Zlib.Sweller.{ZlibSweller}

-- The report of a call that goes on.
abbrev report : {I : Type 0} → ZStream I → ZlibCall I → Progress
report s c = record { bytes_in = consumed s c; bytes_out = produced s c; done = false }

-- Every code goes on, or ends the stream, or is that of a failure.
code-cases : (c : ZlibCode) → GoesOn c ⊎ (c ≡ stream_end) ⊎ ((k : ℤ) × (c ≡ other k))
code-cases ok = inl (inl refl)
code-cases buf_error = inl (inr refl)
code-cases stream_end = inr (inl refl)
code-cases (other k) = inr (inr (k, refl))

module _ {I : Type 0} (call : ZStream I → ZlibCall I)
    (accounts : (s : ZStream I) → IsAimed s → Accounts s (call s)) (limit : ℕ → ℕ)
    (M : Moving call accounts limit) (s : ZStream I) (input out : List ℕ) (n m : ℕ) where
  -- A report of a call that took or made something, with the stream that it leaves.
  abbrev pub Further : Progress → ZStream I → Type 0
  Further p after =
      IsCounted after
      × (p.bytes_in ≤ length input)
      × (0 < p.bytes_in + p.bytes_out)
      × M.Moved after.state (n + p.bytes_in) (m + p.bytes_out)

  call-Further :
      IsCounted s
      → M.Moved s.state n m
      → 0 < length input
      → length input < u32_mod
      → 0 < length out
      → length out < u32_mod
      → let c = call (aim s input out) in GoesOn c.ret → Further (report s c) c.stream
  call-Further v moved some_in small_in room small_out goes =
      let aimed = aim-IsAimed s input out in
      let c = call (aim s input out) in
      let a = accounts (aim s input out) aimed in
      let counts = Accounts-counts s input out c v a in
      let wide_in = u32-eq_of_lt (length input) small_in in
      let wide_out = u32-eq_of_lt (length out) small_out in
      rw (counts.0, counts.1)
        (
          (Accounts-Moved s input out c v a).counted,
          omega (arith, a.taken_fits, wide_in),
          elim (M.stops (aim s input out) n m aimed moved goes) [
            | inl all ↦ omega (arith, all, wide_in, some_in)
            | inr full ↦ omega (arith, full, wide_out, room)
          ],
          M.goes_on (aim s input out) n m aimed moved goes,
        )

module _ (Z : ZlibApi) (L : ZlibLaws Z) (w : ℤ) (P : ZlibProgress Z L w) (input out : List ℕ)
    (n m : ℕ) (some_in : 0 < length input) (small_in : length input < u32_mod)
    (room : 0 < length out) (small_out : length out < u32_mod) where
  -- A push of the squeezer fails, or it takes or makes something.
  pub push_more-Advances :
      (h : ZlibSqueezer Z)
      → IsCounted h.stream
      → P.deflating.Moved h.stream.state n m
      → let q = ZlibSqueezer.push_more Z h input out in
        ((e : Error) × (q.result ≡ unexpected e))
        ⊎ ((p : Progress) × (q.result ≡ value p)
            × Further _ _ _ P.deflating h.stream input out n m p q.handle.stream)
  unfolding ZlibSqueezer.push_more
  push_more-Advances h v moved =
      let c = Z.deflate (aim h.stream input out) Flush.no_flush in
      let further =
        call-Further _ _ _ P.deflating h.stream input out n m v moved some_in small_in room
          small_out in
      elim (code-cases c.ret) [
        | inl (inl e) ↦ inr (report h.stream c, rw e refl, further (inl e))
        | inl (inr e) ↦ inr (report h.stream c, rw e refl, further (inr e))
        | inr (inl e) ↦ inl (zlib_error Kind.backend_failure 0 "deflate", rw e refl)
        | inr (inr (k, e)) ↦ inl (zlib_error Kind.backend_failure 0 "deflate", rw e refl)
      ]

  -- A push of the sweller fails, or reports done, or takes or makes something.
  pub swell_more-Advances :
      (h : ZlibSweller Z)
      → IsCounted h.stream
      → P.inflating.Moved h.stream.state n m
      → let q = ZlibSweller.push_more Z h input out in
        ((e : Error) × (q.result ≡ unexpected e))
        ⊎ ((p : Progress) × (q.result ≡ value p)
            × ((p.done ≡ true)
                ⊎ ((p.done ≡ false)
                    × Further _ _ _ P.inflating h.stream input out n m p q.handle.stream)))
  unfolding ZlibSweller.push_more
  swell_more-Advances h v moved =
      let c = Z.inflate (aim h.stream input out) Flush.no_flush in
      let further =
        call-Further _ _ _ P.inflating h.stream input out n m v moved some_in small_in room
          small_out in
      elim (code-cases c.ret) [
        | inl (inl e) ↦ inr (report h.stream c, rw e refl, inr (refl, further (inl e)))
        | inl (inr e) ↦ inr (report h.stream c, rw e refl, inr (refl, further (inr e)))
        | inr (inl e) ↦ inr (
          record { bytes_in = consumed h.stream c; bytes_out = produced h.stream c; done = true },
          rw e refl,
          inl refl,
        )
        | inr (inr (k, e)) ↦
            inl (zlib_error Kind.stream_corrupt c.stream.total_in "inflate", rw e refl)
      ]
