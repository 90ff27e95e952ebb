-- ===== src/Error/Names.antt =====
-- kind_name, backend_id_name: a caller that reads a name back gets the enumerator.
use polliwog.Base.{◌≡◌, refl, ap, ◌∙◌, sym, String, Option, some, if◌then◌else◌}
use text.Mathlib.Text.{◌==◌ as str_eq}
use mathlib.Core.Option.{some-injective}
use polliwog.Error.{Error, Kind, kind_name, BackendId, backend_id_name}

kind_of_name : String → Option Kind
kind_of_name s =
    if str_eq s "stream_corrupt"
    then some Kind.stream_corrupt
    else if str_eq s "buffer_too_small"
    then some Kind.buffer_too_small
    else if str_eq s "level_unsupported"
    then some Kind.level_unsupported
    else if str_eq s "format_mismatch"
    then some Kind.format_mismatch
    else if str_eq s "backend_failure"
    then some Kind.backend_failure
    else if str_eq s "out_of_memory"
    then some Kind.out_of_memory
    else some Kind.internal_contract_violation

kind_of_name-kind_name : (k : Kind) → kind_of_name (kind_name k) ≡ some k
unfolding kind_of_name kind_name
kind_of_name-kind_name Kind.stream_corrupt = refl
kind_of_name-kind_name Kind.buffer_too_small = refl
kind_of_name-kind_name Kind.level_unsupported = refl
kind_of_name-kind_name Kind.format_mismatch = refl
kind_of_name-kind_name Kind.backend_failure = refl
kind_of_name-kind_name Kind.out_of_memory = refl
kind_of_name-kind_name Kind.internal_contract_violation = refl

backend_id_of_name : String → Option BackendId
backend_id_of_name s =
    if str_eq s "zlib"
    then some BackendId.zlib
    else if str_eq s "zlib_ng"
    then some BackendId.zlib_ng
    else if str_eq s "zstd"
    then some BackendId.zstd
    else if str_eq s "lz4"
    then some BackendId.lz4
    else some BackendId.none

backend_id_of_name-backend_id_name :
    (b : BackendId) → backend_id_of_name (backend_id_name b) ≡ some b
unfolding backend_id_of_name backend_id_name
backend_id_of_name-backend_id_name BackendId.none = refl
backend_id_of_name-backend_id_name BackendId.zlib = refl
backend_id_of_name-backend_id_name BackendId.zlib_ng = refl
backend_id_of_name-backend_id_name BackendId.zstd = refl
backend_id_of_name-backend_id_name BackendId.lz4 = refl

-- No two kinds have the same name.
kind_name-injective : (j k : Kind) → kind_name j ≡ kind_name k → j ≡ k
kind_name-injective j k e =
    some-injective j k
      (sym (kind_of_name-kind_name j) ∙ ap kind_of_name e ∙ kind_of_name-kind_name k)

-- No two backend ids have the same name.
backend_id_name-injective : (a b : BackendId) → backend_id_name a ≡ backend_id_name b → a ≡ b
backend_id_name-injective a b e = some-injective a b (
    sym (backend_id_of_name-backend_id_name a)
    ∙ ap backend_id_of_name e
    ∙ backend_id_of_name-backend_id_name b)

-- Two errors whose kinds have the same name and whose backends have the same name are of the same kind and
-- from the same backend.
names-tell :
    (e e' : Error)
    → kind_name e.k ≡ kind_name e'.k
    → backend_id_name e.b ≡ backend_id_name e'.b
    → (e.k ≡ e'.k) × (e.b ≡ e'.b)
names-tell e e' p q = (kind_name-injective e.k e'.k p, backend_id_name-injective e.b e'.b q)
