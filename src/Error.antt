-- ===== src/Error.antt =====
-- include/polliwog/error.hpp: the error taxonomy, the error value, and std::expected.
pub mod Names
use polliwog.Base.{ℕ, String}

-- enum class kind
pub data Kind : Type 0 where
  stream_corrupt : Kind
  buffer_too_small : Kind
  level_unsupported : Kind
  format_mismatch : Kind
  backend_failure : Kind
  out_of_memory : Kind
  internal_contract_violation : Kind

unfoldable pub kind_name : Kind → String
kind_name stream_corrupt = "stream_corrupt"
kind_name buffer_too_small = "buffer_too_small"
kind_name level_unsupported = "level_unsupported"
kind_name format_mismatch = "format_mismatch"
kind_name backend_failure = "backend_failure"
kind_name out_of_memory = "out_of_memory"
kind_name internal_contract_violation = "internal_contract_violation"

-- enum class backend_id; its enumerators share their names with those of `format`.
pub data BackendId : Type 0 where
  none : BackendId
  zlib : BackendId
  zlib_ng : BackendId
  zstd : BackendId
  lz4 : BackendId

unfoldable pub backend_id_name : BackendId → String
backend_id_name BackendId.none = "none"
backend_id_name BackendId.zlib = "zlib"
backend_id_name BackendId.zlib_ng = "zlib_ng"
backend_id_name BackendId.zstd = "zstd"
backend_id_name BackendId.lz4 = "lz4"

-- struct error
pub record Error : Type 0 where
  pub k : Kind
  pub b : BackendId
  pub pos : ℕ
  pub note : String

-- std::expected<A, error>
pub data Expected {ℓ} (A : Type ℓ) : Type ℓ where
  value : A → Expected A
  unexpected : Error → Expected A
