-- ===== src/Zstd/Intake.antt =====
-- zstd_sweller::push_more, given the parts of a complete frame one after the other.
use polliwog.Base.{
  ℕ, ◌-◌, ◌<◌, ◌≡◌, refl, sym, subst, ◌⊎◌, inl, inr, true, false, List, ◌++◌, length, take, arith,
  ltb, ◌==◌, Bool-cases, take-all,
}
use polliwog.Error.{Kind, value, unexpected}
use polliwog.Backend.{Progress}
use polliwog.Engine.Zstd.{ZstdCall, ZstdApi, ZstdLaws}
use polliwog.Engine.ZstdCodec.{ZstdCodec}
use polliwog.Engine.ZstdInflating.{Agrees, ZstdInflating}
use polliwog.Zstd.{in_buffer, out_buffer, zstd_error}
use polliwog.Zstd.Buffers.{out_buffer-IsOver, in_buffer-IsInside, IsOver-IsAimed, taken-grows}
use polliwog.Zstd.Sweller.{ZstdSweller, push_more}

module _ (Z : ZstdApi) (L : ZstdLaws Z) (K : ZstdCodec Z L) (I : ZstdInflating Z L K) (d e : List ℕ)
    (h : ZstdSweller Z) (input out x y rest extra : List ℕ) where
  -- A push that has come to the end, with all of its input taken,
  abbrev pub Ended : Type 0
  Ended =
      let q = push_more Z h input out in
      (p : Progress) × (q.result ≡ value p)
      × (p.done ≡ true)
      × (x ++ take p.bytes_in input ≡ e)
      × (y ++ take p.bytes_out q.out ≡ d)

  -- one that has come to the end before its input has,
  abbrev pub Overrun : Type 0
  Overrun =
      let q = push_more Z h input out in
      (n : ℕ) × (m : ℕ) × (q.result
        ≡ unexpected (zstd_error Kind.stream_corrupt n "extra data after end of stream"))
      × (n < length input)
      × (x ++ take n input ≡ e)
      × (y ++ take m q.out ≡ d)

  -- and one that goes on.
  abbrev pub Goes : Type 0
  Goes =
      let q = push_more Z h input out in
      (p : Progress) × (q.result ≡ value p)
      × (p.done ≡ false)
      × I.Inside q.handle.ctx d e (x ++ take p.bytes_in input) (y ++ take p.bytes_out q.out)

  module _ (v : I.Inside h.ctx d e x y) (goes_on : x ++ (input ++ rest) ≡ e ++ extra) where
    agrees : Agrees (in_buffer input) e x rest extra
    agrees = record {
      goes_on =
          subst (λ t. x ++ (t ++ rest) ≡ e ++ extra)
            (sym (take-all (length input - 0) input (omega arith))) goes_on;
    }

    less :
        {C : Type 0} (c : ZstdCall C)
        → ltb c.input.pos c.input.size ≡ true
        → c.input.size ≡ length input
        → c.input.pos < length input
    less c more size = ground arith

    -- A call that does not fail.
    pub push_more-cases :
        Z.is_error (Z.decompress_stream h.ctx (out_buffer out) (in_buffer input)).ret ≡ false
        → Ended ⊎ Overrun ⊎ Goes
    unfolding push_more
    push_more-cases sound =
        let o = out_buffer out in
        let i = in_buffer input in
        let c = Z.decompress_stream h.ctx o i in
        let over = out_buffer-IsOver out in
        let aimed = IsOver-IsAimed over (in_buffer-IsInside input) in
        let a = L.decompress_stream_accounts h.ctx o i aimed in
        let whole : c.input.pos - 0 ≡ c.input.pos = omega arith in
        let grown : take c.output.pos c.output.dst ≡ a.made = taken-grows o a in
        elim (Bool-cases (c.ret == 0)) [
          | inl ended ↦
              let t = I.ends h.ctx o i d e x y rest extra aimed v agrees (ground arith) in
              elim (Bool-cases (ltb c.input.pos c.input.size)) [
                | inl more ↦ inr (
                    inl (
                      c.input.pos,
                      c.output.pos,
                      rw (sound, ended, more) refl,
                      less c more a.in_size,
                      rw whole at t.0,
                      rw grown t.1,
                    ))
                | inr all ↦ inl (
                  record { bytes_in = c.input.pos; bytes_out = c.output.pos; done = true },
                  rw (sound, ended, all) refl,
                  refl,
                  rw whole at t.0,
                  rw grown t.1,
                )
              ]
          | inr left ↦
              let t = I.stays h.ctx o i d e x y rest extra aimed v agrees sound (ground arith) in
              inr (
                inr (
                  record { bytes_in = c.input.pos; bytes_out = c.output.pos; done = false },
                  rw (sound, left) refl,
                  refl,
                  rw grown (rw whole at t),
                ))
        ]

    -- Some input and some room, and a push does not fail before the end.
    pub push_more-any : 0 < length input → 0 < length out → Ended ⊎ Overrun ⊎ Goes
    push_more-any some_in room = push_more-cases (
        I.sound h.ctx (out_buffer out) (in_buffer input) d e x y rest extra
          (IsOver-IsAimed (out_buffer-IsOver out) (in_buffer-IsInside input)) v agrees some_in room)

    -- A push that succeeds and does not report done goes on, whatever its spans.
    pub push_more-Goes :
        (p : Progress)
        → let q = push_more Z h input out in
          q.result ≡ value p
          → p.done ≡ false
          → I.Inside q.handle.ctx d e (x ++ take p.bytes_in input) (y ++ take p.bytes_out q.out)
    unfolding push_more
    push_more-Goes p ep not_done =
        let c = Z.decompress_stream h.ctx (out_buffer out) (in_buffer input) in
        elim (Bool-cases (Z.is_error c.ret)) [
          | inl failed ↦ absurd (ground arith)
          | inr sound ↦ elim (push_more-cases sound) [
            | inl (p', ep', done, _, _) ↦ absurd (cc (ep, ep', done, not_done))
            | inr (inl (n, m, failed, _, _, _)) ↦ absurd (cc (ep, failed))
            | inr (inr (p', ep', _, t)) ↦
                let same : p' ≡ p = cc (ep, ep') in
                let q = push_more Z h input out in
                subst
                  (λ p.
                    I.Inside q.handle.ctx d e (x ++ take p.bytes_in input)
                      (y ++ take p.bytes_out q.out))
                  same t
          ]
        ]
