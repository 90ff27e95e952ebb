-- ===== src/Zstd/Finish.antt =====
-- The loop of zstd_squeezer::finish: it ends, and what its report means.
use polliwog.Base.{
  subst, some, ℕ, zero, suc, ◌-◌, ◌<◌, ◌≤◌, ◌≡◌, refl, ◌∙◌, true, false, ◌⊎◌, inl, inr, List, [],
  length, arith, ltb, ◌==◌, Bool-cases,
}
use polliwog.Error.{Kind, BackendId, Expected, value, unexpected}
use polliwog.Backend.{Progress, Call}
use polliwog.Backend.Contract.{Keeps, Untouched, Returns}
use polliwog.Engine.Zstd.{InBuffer, OutBuffer, e_end, ZstdApi, ZstdLaws}
use polliwog.Zstd.{in_buffer, out_buffer}
use polliwog.Zstd.Buffers.{
  IsOver, IsInside, out_buffer-IsOver, in_buffer-IsInside, IsOver-IsAimed, Accounts-IsOver,
  Accounts-IsInside,
}
use polliwog.Zstd.Squeezer.{ZstdSqueezer, finish_loop, finish}

-- The frame is closed, or the whole span is used and the caller is told to come again, or the
-- library failed.
abbrev pub Ends : List ℕ → Expected Progress → Type 0
Ends out (value p) = (p.done ≡ true) ⊎ ((p.done ≡ false) × (p.bytes_out ≡ length out))
Ends out (unexpected e) = e.k ≡ Kind.backend_failure

module _ (Z : ZstdApi) (L : ZstdLaws Z) (out : List ℕ) where
  -- A round that goes on has written something.
  round_progress :
      (h : ZstdSqueezer Z) (o : OutBuffer) (i : InBuffer)
      → IsOver out o
      → IsInside i
      → let c = Z.compress_stream2 h.ctx o i e_end in
        Z.is_error c.ret ≡ false
        → ltb 0 c.ret ≡ true
        → (c.output.pos == c.output.size) ≡ false
        → c.output.size - c.output.pos < o.size - o.pos
  round_progress h o i v w sound more room =
      let a = L.compress_stream2_accounts h.ctx o i e_end (IsOver-IsAimed v w) in
      ground (
        arith,
        L.compress_stream2_progress h.ctx o i (IsOver-IsAimed v w),
        a.out_fits,
        a.out_pos,
        a.out_size,
        v.fits,
      )

  same_pos : {a b : ℕ} → (a == b) ≡ true → a ≡ b
  same_pos e = ground arith

  finish_loop-Ends :
      (fuel : ℕ) (h : ZstdSqueezer Z) (o : OutBuffer) (i : InBuffer)
      → IsOver out o
      → IsInside i
      → o.size - o.pos < fuel
      → Returns (finish_loop Z fuel h o i) (λ c. Keeps BackendId.zstd [] out c × Ends out c.result)
  unfolding finish_loop
  finish_loop-Ends zero h o i v w m = absurd (omega arith)
  finish_loop-Ends (suc fuel) h o i v w m =
      let c = Z.compress_stream2 h.ctx o i e_end in
      let a = L.compress_stream2_accounts h.ctx o i e_end (IsOver-IsAimed v w) in
      let v' = Accounts-IsOver v a in
      let w' = Accounts-IsInside w a in
      let span : (0 ≤ 0)
          × (c.output.pos ≤ length out)
          × Untouched BackendId.zstd c.output.pos c.output.dst out =
        (omega arith, omega (arith, v'.fits, v'.size), tt) in
      elim (Bool-cases (Z.is_error c.ret)) [
        | inl failed ↦ rw failed ((v'.dst, refl), refl)
        | inr sound ↦ elim (Bool-cases (ltb 0 c.ret)) [
          | inl more ↦ elim (Bool-cases (c.output.pos == c.output.size)) [
            | inl full ↦
                rw (sound, more, full) ((v'.dst, span), inr (refl, same_pos full ∙ v'.size))
            | inr room ↦
                rw (sound, more, room)
                  (finish_loop-Ends fuel _ c.output c.input v' w'
                    (omega (arith, round_progress h o i v w sound more room)))
          ]
          | inr closed ↦ rw (sound, closed) ((v'.dst, span), inl refl)
        ]
      ]

  pub finish-Ends :
      (h : ZstdSqueezer Z)
      → Returns (finish Z h out) (λ c. Keeps BackendId.zstd [] out c × Ends out c.result)
  unfolding finish
  finish-Ends h =
      finish_loop-Ends (suc (length out)) h (out_buffer out) (in_buffer []) (out_buffer-IsOver out)
        (in_buffer-IsInside []) (omega arith)

  -- The same, of what came back.
  pub finish-Ends_result :
      (h : ZstdSqueezer Z) (q : Call (ZstdSqueezer Z)) → finish Z h out ≡ some q → Ends out q.result
  finish-Ends_result h q e =
      (subst (λ o. Returns o (λ c. Keeps BackendId.zstd [] out c × Ends out c.result)) e
        (finish-Ends h)).1
