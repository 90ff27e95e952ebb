-- ===== src/Format/Names.antt =====
-- format_name: a caller that reads a name back gets the format.
use polliwog.Base.{◌≡◌, refl, ap, ◌∙◌, sym, String, Option, some, if◌then◌else◌}
use text.Mathlib.Text.{◌==◌ as str_eq}
use mathlib.Core.Option.{some-injective}
use polliwog.Format.{Format, format_name}

format_of_name : String → Option Format
format_of_name s =
    if str_eq s "zlib"
    then some Format.zlib
    else if str_eq s "gzip"
    then some Format.gzip
    else if str_eq s "raw_deflate"
    then some Format.raw_deflate
    else if str_eq s "zstd"
    then some Format.zstd
    else some Format.lz4_frame

format_of_name-format_name : (f : Format) → format_of_name (format_name f) ≡ some f
unfolding format_of_name format_name
format_of_name-format_name Format.zlib = refl
format_of_name-format_name Format.gzip = refl
format_of_name-format_name Format.raw_deflate = refl
format_of_name-format_name Format.zstd = refl
format_of_name-format_name Format.lz4_frame = refl

-- No two formats have the same name.
pub format_name-injective : (f g : Format) → format_name f ≡ format_name g → f ≡ g
format_name-injective f g e =
    some-injective f g
      (sym (format_of_name-format_name f) ∙ ap format_of_name e ∙ format_of_name-format_name g)
