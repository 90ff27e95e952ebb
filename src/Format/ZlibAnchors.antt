-- ===== src/Format/ZlibAnchors.antt =====
-- The named levels of `zlib_level` in include/polliwog/format.hpp.
use polliwog.Base.Int.{pos}
use polliwog.Format.{ZlibLevel}

abbrev pub fastest : ZlibLevel
fastest = record { as_int = pos 1 }

abbrev pub default_level : ZlibLevel
default_level = record { as_int = pos 6 }

abbrev pub best : ZlibLevel
best = record { as_int = pos 9 }
