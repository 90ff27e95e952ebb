-- ===== src/Backend.antt =====
-- include/detail/backend.hpp: what a compression engine offers to the layers above it.
pub mod Contract
use polliwog.Base.{ℕ, Bool, List, Option}
use polliwog.Error.{BackendId, Expected}
use polliwog.Format.{Format}

-- struct progress
pub record Progress : Type 0 where
  pub bytes_in : ℕ
  pub bytes_out : ℕ
  pub done : Bool

-- What a call leaves behind: the handle, the bytes of the caller's output span, and the
-- `detail::result` that it returns.
pub record Call (H : Type 0) : Type 0 where
  pub handle : H
  pub out : List ℕ
  pub result : Expected Progress

-- concept backend. A factory gives `none` where an assertion in it fails, and `finish`, which may
-- loop, gives `none` where it does not return.
pub record Backend : Type 1 where
  pub Handle : Type 0
  pub Sweller : Type 0
  pub Level : Type 0
  pub id : BackendId
  pub formats : List Format
  pub make_squeezer : Format → Level → Option Handle
  pub make_sweller : Format → Option Sweller
  pub bound : Level → ℕ → ℕ
  pub push : Handle → List ℕ → List ℕ → Call Handle
  pub flush : Handle → List ℕ → Call Handle
  pub finish : Handle → List ℕ → Option (Call Handle)
