-- ===== src/Zstd/Contract.antt =====
-- The calls of the zstd backend keep the backend's contract, over any zstd that accounts for what it
-- takes and makes.
use polliwog.Base.{ℕ, List, [], length, arith}
use polliwog.Error.{BackendId}
use polliwog.Backend.Contract.{Keeps, IsContract, Returns-map}
use polliwog.Engine.Zstd.{e_continue, e_flush, ZstdApi, ZstdLaws}
use polliwog.Zstd.{in_buffer, out_buffer}
use polliwog.Zstd.Buffers.{
  out_buffer-IsOver, in_buffer-IsInside, IsOver-IsAimed, Accounts-IsOver, ShotAccounts-span,
  ShotAccounts-counts,
}
use polliwog.Zstd.Squeezer
use polliwog.Zstd.Squeezer.{ZstdSqueezer}
use polliwog.Zstd.Sweller
use polliwog.Zstd.Sweller.{ZstdSweller}
use polliwog.Zstd.Facade.{zstd_backend}
use polliwog.Zstd.Finish.{Ends, finish-Ends}

module _ (Z : ZstdApi) (L : ZstdLaws Z) where
  module _ (h : ZstdSqueezer Z) (input out : List ℕ) where
    pub push-Keeps : Keeps BackendId.zstd input out (Squeezer.push Z h input out)
    unfolding Squeezer.push
    push-Keeps =
        let c = Z.compress out (length out) input (length input) h.level in
        let a =
          L.compress_accounts out (length out) input (length input) h.level (omega arith)
            (omega arith) in
        (
          ShotAccounts-span Z.is_error out c a,
          ground (arith, ShotAccounts-counts Z.is_error out c a),
        )

    pub push_more-Keeps : Keeps BackendId.zstd input out (Squeezer.push_more Z h input out)
    unfolding Squeezer.push_more
    push_more-Keeps =
        let a =
          L.compress_stream2_accounts h.ctx (out_buffer out) (in_buffer input) e_continue
            (IsOver-IsAimed (out_buffer-IsOver out) (in_buffer-IsInside input)) in
        let v = Accounts-IsOver (out_buffer-IsOver out) a in
        (v.dst, ground (arith, a.in_fits, v.fits, v.size))

  pub flush-Keeps :
      (h : ZstdSqueezer Z) (out : List ℕ) → Keeps BackendId.zstd [] out (Squeezer.flush Z h out)
  unfolding Squeezer.flush
  flush-Keeps h out =
      let a =
        L.compress_stream2_accounts h.ctx (out_buffer out) (in_buffer []) e_flush
          (IsOver-IsAimed (out_buffer-IsOver out) (in_buffer-IsInside [])) in
      let v = Accounts-IsOver (out_buffer-IsOver out) a in (v.dst, ground (arith, v.fits, v.size))

  module _ (h : ZstdSweller Z) (input out : List ℕ) where
    pub swell-Keeps : Keeps BackendId.zstd input out (Sweller.push Z h input out)
    unfolding Sweller.push
    swell-Keeps =
        let c = Z.decompress out (length out) input (length input) in
        let a =
          L.decompress_accounts out (length out) input (length input) (omega arith) (omega arith) in
        (
          ShotAccounts-span Z.is_error out c a,
          ground (arith, ShotAccounts-counts Z.is_error out c a),
        )

    pub swell_more-Keeps : Keeps BackendId.zstd input out (Sweller.push_more Z h input out)
    unfolding Sweller.push_more
    swell_more-Keeps =
        let a =
          L.decompress_stream_accounts h.ctx (out_buffer out) (in_buffer input)
            (IsOver-IsAimed (out_buffer-IsOver out) (in_buffer-IsInside input)) in
        let v = Accounts-IsOver (out_buffer-IsOver out) a in
        (v.dst, ground (arith, a.in_fits, v.fits, v.size))

  -- The zstd backend keeps the contract of every backend: a call keeps the length of the output span and
  -- reports no more than the two spans hold, and its errors carry the id zstd.
  -- Its `finish`, which loops, returns.
  pub zstd_backend-IsContract : IsContract (zstd_backend Z) (λ h. Unit {0})
  zstd_backend-IsContract = record {
    push_keeps = λ h input out _. (push-Keeps h input out, tt);
    flush_keeps = λ h out _. (flush-Keeps h out, tt);
    finish_keeps = λ h out _.
        Returns-map {P = λ c. Keeps BackendId.zstd [] out c × Ends out c.result}
          {Q = λ c. Keeps BackendId.zstd [] out c × Unit {0}} (Squeezer.finish Z h out)
          (finish-Ends Z L out h) (λ c e. (e.0, tt));
  }
