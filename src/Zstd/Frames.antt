-- ===== src/Zstd/Frames.antt =====
-- What the streaming calls of zstd_squeezer make: a frame in pieces, and its end.
use mathlib.Core.List.{append_assoc, append-nil}
use polliwog.Base.{
  ℕ, zero, suc, ◌-◌, ◌≡◌, ◌≢◌, refl, sym, ap, subst, ◌∙◌, ◌⊎◌, inl, inr, true, false, Every, List,
  [], ◌++◌, length, take, arith, ltb, ◌==◌, Bool-cases, take-all,
}
use polliwog.Error.{value}
use polliwog.Backend.{Progress, Call}
use polliwog.Engine.Zstd.{
  InBuffer, OutBuffer, EndDirective, e_end, e_continue, e_flush, ZstdApi, ZstdLaws,
}
use polliwog.Engine.ZstdCodec.{ZstdCodec}
use polliwog.Engine.ZstdStreaming.{ZstdStreaming}
use polliwog.Zstd.{in_buffer, out_buffer}
use polliwog.Zstd.Buffers.{
  IsOver, IsInside, out_buffer-IsOver, in_buffer-IsInside, IsOver-IsAimed, Accounts-IsOver,
  Accounts-IsInside, taken-grows,
}
use polliwog.Zstd.Squeezer.{ZstdSqueezer, push_more, flush, finish_loop, finish}

-- A report that was returned is the one that is looked at.
of_value : (P : Progress → Type 0) (r p : Progress) → P r → value r ≡ value p → P p
of_value P r p t e = subst P (cc e) t

module _ (Z : ZstdApi) (L : ZstdLaws Z) (K : ZstdCodec Z L) (S : ZstdStreaming Z L K)
    (d x : List ℕ) where
  -- After a call that reports done the frame is complete; after one that does not, its end is still in the
  -- context.
  abbrev pub Delivers : Call (ZstdSqueezer Z) → Type 0
  Delivers q =
      (p : Progress)
      → q.result ≡ value p
      → (p.done ≡ true → K.Encodes d (x ++ take p.bytes_out q.out))
        × (p.done ≡ false → S.Closing q.handle.ctx d (x ++ take p.bytes_out q.out))

  finish_loop-Delivers :
      (fuel : ℕ) (h : ZstdSqueezer Z) (out : List ℕ) (o : OutBuffer) (i : InBuffer)
      → IsOver out o
      → IsInside i
      → i.pos ≡ i.size
      → S.Open h.ctx d (x ++ take o.pos o.dst) ⊎ S.Closing h.ctx d (x ++ take o.pos o.dst)
      → Every (finish_loop Z fuel h o i) Delivers
  unfolding finish_loop
  finish_loop-Delivers zero h out o i v w none_left at = tt
  finish_loop-Delivers (suc fuel) h out o i v w none_left at =
      let c = Z.compress_stream2 h.ctx o i e_end in
      let aimed = IsOver-IsAimed v w in
      let a = L.compress_stream2_accounts h.ctx o i e_end aimed in
      let v' = Accounts-IsOver v a in
      let w' = Accounts-IsInside w a in
      let still : c.input.pos ≡ c.input.size = omega (arith, a.in_grows, a.in_fits, a.in_size) in
      let bytes : (x ++ take o.pos o.dst) ++ a.made ≡ x ++ take c.output.pos c.output.dst =
        append_assoc x (take o.pos o.dst) a.made ∙ ap (λ t. x ++ t) (sym (taken-grows o a)) in
      let P = λ (p : Progress).
        (p.done ≡ true → K.Encodes d (x ++ take p.bytes_out c.output.dst))
        × (p.done ≡ false → S.Closing c.ctx d (x ++ take p.bytes_out c.output.dst)) in
      elim (Bool-cases (Z.is_error c.ret)) [
        | inl failed ↦ rw failed (λ p e. absurd (cc e))
        | inr sound ↦ elim (Bool-cases (ltb 0 c.ret)) [
          | inl more ↦
              let closing : S.Closing c.ctx d (x ++ take c.output.pos c.output.dst) =
                subst (λ t. S.Closing c.ctx d t) bytes
                  (S.closes h.ctx o i aimed d _ none_left at sound (ground arith)) in
              elim (Bool-cases (c.output.pos == c.output.size)) [
                | inl full ↦
                    rw (sound, more, full)
                      (λ p e. of_value P _ p ((λ q. absurd (cc q)), (λ q. closing)) e)
                | inr room ↦
                    rw (sound, more, room)
                      (finish_loop-Delivers fuel _ out c.output c.input v' w' still (inr closing))
              ]
          | inr closed ↦
              rw (sound, closed)
                (λ p e.
                  of_value P _ p
                    (
                      (λ q.
                          subst (λ t. K.Encodes d t) bytes
                            (S.ends h.ctx o i aimed d _ none_left at (ground arith))),
                      (λ q. absurd (cc q)),
                    )
                    e)
        ]
      ]

  -- `finish` on a frame that took the data and made bytes before.
  pub finish-Delivers :
      (h : ZstdSqueezer Z) (out : List ℕ)
      → S.Open h.ctx d x ⊎ S.Closing h.ctx d x
      → Every (finish Z h out) Delivers
  unfolding finish
  finish-Delivers h out at =
      finish_loop-Delivers (suc (length out)) h out (out_buffer out) (in_buffer [])
        (out_buffer-IsOver out) (in_buffer-IsInside []) refl (rw (append-nil x) at)

  -- A call that goes on, over whole spans.
  call-Open :
      (ctx : Z.CCtx) (input out : List ℕ) (m : EndDirective)
      → m ≢ e_end
      → S.Open ctx d x
      → let c = Z.compress_stream2 ctx (out_buffer out) (in_buffer input) m in
        Z.is_error c.ret ≡ false
        → S.Open c.ctx (d ++ take c.input.pos input) (x ++ take c.output.pos c.output.dst)
  call-Open ctx input out m ne at sound =
      let o = out_buffer out in
      let i = in_buffer input in
      let c = Z.compress_stream2 ctx o i m in
      let v = out_buffer-IsOver out in
      let aimed = IsOver-IsAimed v (in_buffer-IsInside input) in
      let a = L.compress_stream2_accounts ctx o i m aimed in
      let whole : c.input.pos - 0 ≡ c.input.pos = omega arith in
      subst (λ t. S.Open c.ctx (d ++ take c.input.pos input) (x ++ t)) (sym (taken-grows o a))
        (subst (λ n. S.Open c.ctx (d ++ take n input) (x ++ a.made)) whole
          (S.goes_on ctx o i m aimed d x ne at sound))

  -- A push that succeeds leaves the frame open, with what it took and made.
  pub push_more-Open :
      (h : ZstdSqueezer Z) (input out : List ℕ) (p : Progress)
      → S.Open h.ctx d x
      → let q = push_more Z h input out in
        q.result ≡ value p
        → S.Open q.handle.ctx (d ++ take p.bytes_in input) (x ++ take p.bytes_out q.out)
  unfolding push_more
  push_more-Open h input out p at e =
      let c = Z.compress_stream2 h.ctx (out_buffer out) (in_buffer input) e_continue in
      elim (Bool-cases (Z.is_error c.ret)) [
        | inl failed ↦ absurd (ground arith)
        | inr sound ↦
            let same : p
                ≡ record { bytes_in = c.input.pos; bytes_out = c.output.pos; done = false } =
              ground arith in
            rw same (call-Open h.ctx input out e_continue (λ q. cc q) at sound)
      ]

  -- So does a flush.
  pub flush-Open :
      (h : ZstdSqueezer Z) (out : List ℕ) (p : Progress)
      → S.Open h.ctx d x
      → let q = flush Z h out in
        q.result ≡ value p → S.Open q.handle.ctx d (x ++ take p.bytes_out q.out)
  unfolding flush
  flush-Open h out p at e =
      let c = Z.compress_stream2 h.ctx (out_buffer out) (in_buffer []) e_flush in
      let same_data : d ++ take c.input.pos [] ≡ d =
        ap (λ t. d ++ t) (take-all c.input.pos [] (omega arith)) ∙ append-nil d in
      elim (Bool-cases (Z.is_error c.ret)) [
        | inl failed ↦ absurd (ground arith)
        | inr sound ↦
            let same : p ≡ record { bytes_in = 0; bytes_out = c.output.pos; done = false } =
              ground arith in
            rw same (
              subst (λ t. S.Open c.ctx t (x ++ take c.output.pos c.output.dst)) same_data
                (call-Open h.ctx [] out e_flush (λ q. cc q) at sound))
      ]
