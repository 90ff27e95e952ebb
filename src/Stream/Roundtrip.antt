-- ===== src/Stream/Roundtrip.antt =====
-- What a compressor streamed, streamed through a decompressor.
use polliwog.Base.{ℕ, ◌<◌, ◌≡◌, List, ◌++◌, some, length, take}
use polliwog.Error.{value}
use polliwog.Format.{Format, ZstdLevel}
use polliwog.Build.{Build}
use polliwog.Engine.ZlibCodec.{ZlibCodec}
use polliwog.Engine.ZlibInflating.{ZlibInflating}
use polliwog.Engine.Zstd.{ZstdLaws}
use polliwog.Engine.ZstdCodec.{ZstdCodec}
use polliwog.Engine.ZstdStreaming.{ZstdStreaming}
use polliwog.Engine.ZstdInflating.{ZstdInflating}
use polliwog.Zstd.Squeezer as ZstdSqueezer
use polliwog.Zstd.Squeezer.{ZstdSqueezer}
use polliwog.Zstd.Sweller as ZstdSweller
use polliwog.Zstd.Sweller.{ZstdSweller}
use polliwog.Stream.ZstdSession.{finish-Encodes_zstd}
use polliwog.Stream.ZstdIntake.{Report, push-Inflates_zstd}
use polliwog.Zlib.Squeezer as ZlibSqueezer
use polliwog.Zlib.Squeezer.{ZlibSqueezer}
use polliwog.Zlib.Sweller as ZlibSweller
use polliwog.Zlib.Sweller.{ZlibSweller}
use polliwog.Stream.{StreamCall, StreamResult, SqueezerVariant, SwellerVariant}
use polliwog.Stream.Compressor
use polliwog.Stream.Compressor.{Compressor}
use polliwog.Stream.Decompressor
use polliwog.Stream.Decompressor.{Decompressor}
use polliwog.Stream.Steps.{Session}
use polliwog.Stream.Intake.{Intake}

module _ (B : Build) (L : ZstdLaws B.zstd_api) (K : ZstdCodec B.zstd_api L)
    (S : ZstdStreaming B.zstd_api L K) (I : ZstdInflating B.zstd_api L K) where
  -- The same round trip over zstd, where nothing is asked of zstd's answers: whatever a session fed to a new
  -- compressor, if `finish` succeeds and leaves room in its span, then the bytes that the calls made, with
  -- any bytes after them, go to a new decompressor in any pieces, with output spans that are not empty, and
  -- every push succeeds and is not done.
  -- The next push of bytes that go on, neither span empty, reports done at the end of the compressor's
  -- bytes, with exactly the bytes that the compressor consumed; or stream_corrupt at that end, if the
  -- input goes on behind it, with the same bytes; or it succeeds with the front of them.
  pub push-finish_zstd :
      (f f' : Format) (h₀ h : ZstdSqueezer B.zstd_api) (lvl : ZstdLevel) (d e out : List ℕ)
      (c : StreamCall (Compressor B)) (r : StreamResult) (g₀ g : ZstdSweller B.zstd_api)
      (x y input out' rest extra : List ℕ)
      → ZstdSqueezer.construct B.zstd_api f lvl ≡ some h₀
      → Session B
          (Compressor.holding B (SqueezerVariant.zstd h₀))
          d
          e
          (Compressor.holding B (SqueezerVariant.zstd h))
      → Compressor.finish B (Compressor.holding B (SqueezerVariant.zstd h)) out ≡ some c
      → c.result ≡ value r
      → r.bytes_produced < length out
      → ZstdSweller.construct B.zstd_api f' ≡ some g₀
      → Intake B
          ((e ++ take r.bytes_produced c.out) ++ extra)
          (Decompressor.holding B (SwellerVariant.zstd g₀))
          x
          y
          (Decompressor.holding B (SwellerVariant.zstd g))
      → x ++ (input ++ rest) ≡ (e ++ take r.bytes_produced c.out) ++ extra
      → 0 < length input
      → 0 < length out'
      → (c' : StreamCall (Decompressor B)) × (Decompressor.push B
            (Decompressor.holding B (SwellerVariant.zstd g))
            input
            out'
          ≡ some c')
        × Report d (e ++ take r.bytes_produced c.out) x y input c'
  push-finish_zstd f f' h₀ h lvl d e out c r g₀ g x y input out' rest extra made t ec er room made'
        t' goes some_in some_out =
      push-Inflates_zstd B L K I d (e ++ take r.bytes_produced c.out) f' g₀ g x y input out' rest
        extra made' (finish-Encodes_zstd B L K S f lvl h₀ h d e out c r made t ec er room) t' goes
        some_in some_out
