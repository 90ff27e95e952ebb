-- ===== src/Stream/Swelling.antt =====
-- What a compressor streamed, given to the one-shot swell.
use polliwog.Base.{◌^◌, ℕ, ◌≤◌, ◌<◌, ◌≡◌, [], List, ◌++◌, some, length, take, drop}
use polliwog.Base.Words.{u32_mod}
use polliwog.Error.{value}
use polliwog.Format.{Format, ZlibLevel, ZstdLevel}
use polliwog.Build.{Build}
use polliwog.Engine.Zlib.{stream_end, Flush, ZlibLaws}
use polliwog.Engine.ZlibCodec.{ZlibCodec}
use polliwog.Zlib.{aim}
use polliwog.Zlib.Squeezer as ZlibSqueezer
use polliwog.Zlib.Squeezer.{ZlibSqueezer}
use polliwog.Squeeze.{swell}
use polliwog.Squeeze.ZstdRoundtrip
use polliwog.Engine.Zstd.{ZstdLaws}
use polliwog.Engine.ZstdCodec.{ZstdCodec}
use polliwog.Engine.ZstdStreaming.{ZstdStreaming}
use polliwog.Zstd.Squeezer as ZstdSqueezer
use polliwog.Zstd.Squeezer.{ZstdSqueezer}
use polliwog.Stream.ZstdSession.{finish-Encodes_zstd}
use polliwog.Squeeze.Stages.{Opens}
use polliwog.Squeeze.Roundtrip.{swell-whole}
use polliwog.Stream.{StreamCall, StreamResult, SqueezerVariant}
use polliwog.Stream.Compressor
use polliwog.Stream.Compressor.{Compressor}
use polliwog.Stream.Steps.{Session}
use polliwog.Stream.Session.{finished-Encodes}

-- Round trip from the streaming compressor to the one-shot decompressor: whatever a session fed to a new
-- zlib compressor, in whatever pieces, with or without flushes, if zlib ends the stream in `finish` then
-- swell of all the bytes that the calls made gives all the bytes that they consumed. Stream and span are
-- below 4 GiB, and the span is not empty and has room.
pub swell-finish :
    (B : Build) (L : ZlibLaws B.zlib_api) (K : ZlibCodec B.zlib_api L) (f : Format)
    (h₀ h : ZlibSqueezer B.zlib_api) (lvl : ZlibLevel) (d e out dec : List ℕ)
    (c : StreamCall (Compressor B)) (r : StreamResult)
    → ZlibSqueezer.construct B.zlib_api f lvl ≡ some h₀
    → Session B
        (Compressor.holding B (SqueezerVariant.zlib h₀))
        d
        e
        (Compressor.holding B (SqueezerVariant.zlib h))
    → (B.zlib_api.deflate (aim h.stream [] out) Flush.finish).ret ≡ stream_end
    → Compressor.finish B (Compressor.holding B (SqueezerVariant.zlib h)) out ≡ some c
    → c.result ≡ value r
    → Opens B f
    → length (e ++ take r.bytes_produced c.out) < u32_mod
    → length dec < u32_mod
    → 0 < length dec
    → length d ≤ length dec
    → swell B f (e ++ take r.bytes_produced c.out) dec
      ≡ some (record {
        out = d ++ drop (length d) dec;
        result = value (record { bytes_written = length d });
      })
swell-finish B L K f h₀ h lvl d e out dec c r made t ends ec er p small_e small_dec some_dec room =
    swell-whole B L K f p d (e ++ take r.bytes_produced c.out) dec
      (finished-Encodes B L K f h₀ h lvl d e out c r made t ends ec er) small_e small_dec some_dec
      room

-- The same over zstd, where nothing is asked of zstd's answer: whatever a session fed to a new zstd
-- compressor, if `finish` succeeds and leaves room in its span, swell of all the bytes that the calls made
-- succeeds, reports as many bytes as they consumed and has exactly those at the front of the span, whose
-- length stays. The data is shorter than 2^63 bytes, and the span has room.
pub swell-finish_zstd :
    (B : Build) (L : ZstdLaws B.zstd_api) (K : ZstdCodec B.zstd_api L)
    (S : ZstdStreaming B.zstd_api L K) (f : Format) (lvl : ZstdLevel)
    (h₀ h : ZstdSqueezer B.zstd_api) (d e out dec : List ℕ) (c : StreamCall (Compressor B))
    (r : StreamResult)
    → ZstdSqueezer.construct B.zstd_api f lvl ≡ some h₀
    → Session B
        (Compressor.holding B (SqueezerVariant.zstd h₀))
        d
        e
        (Compressor.holding B (SqueezerVariant.zstd h))
    → Compressor.finish B (Compressor.holding B (SqueezerVariant.zstd h)) out ≡ some c
    → c.result ≡ value r
    → r.bytes_produced < length out
    → ZstdRoundtrip.Opens B
    → length d ≤ length dec
    → length d < 2 ^ 63
    → ZstdRoundtrip.Swollen (swell B Format.zstd (e ++ take r.bytes_produced c.out) dec) d dec
swell-finish_zstd B L K S f lvl h₀ h d e out dec c r made t ec er left p room word =
    ZstdRoundtrip.swell-whole B L K d (e ++ take r.bytes_produced c.out) dec p
      (finish-Encodes_zstd B L K S f lvl h₀ h d e out c r made t ec er left) room word
