-- ===== src/Tests/Windows.antt =====
-- The windows that the small zlib is told of.
use polliwog.Base.{◌≤◌, false, length, refl}
use polliwog.Base.Words.{u32}
use polliwog.Format.{Format}
use polliwog.Stream.History.{History}
use polliwog.Stream.Served.{server}
use polliwog.Stream.Widths.{push-window}
use polliwog.Toy.ZlibAccounts.{toy-ZlibLaws}
use polliwog.Toy.ZstdLawful.{toy-ZstdLaws}
use polliwog.Tests.Data.{full, six, zeros, data_bytes}
use polliwog.Tests.Streaming.{start, start-made, start-push, push_call}

push-window_example : (2 ≤ u32 2) × (14 ≤ u32 (length (zeros 20)))
unfolding server
push-window_example =
    push-window full toy-ZlibLaws toy-ZstdLaws data_bytes (zeros 20) Format.gzip six start start
      push_call (record { bytes_consumed = 2; bytes_produced = 14; done = false }) refl start-made
      History.start start-push refl
