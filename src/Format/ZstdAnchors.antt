-- ===== src/Format/ZstdAnchors.antt =====
-- The named levels of `zstd_level` in include/polliwog/format.hpp.
use polliwog.Base.Int.{pos}
use polliwog.Format.{ZstdLevel}

abbrev pub fastest : ZstdLevel
fastest = record { as_int = pos 1 }

abbrev pub default_level : ZstdLevel
default_level = record { as_int = pos 3 }

abbrev pub best : ZstdLevel
best = record { as_int = pos 19 }
