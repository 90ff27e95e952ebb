-- ===== src/Lib.antt =====
-- polliwog: one-shot and streaming compression over zlib and zstd.
--
-- The program has four layers. include/polliwog/error.hpp and include/polliwog/format.hpp hold the errors,
-- the formats and the levels. include/detail/backend.hpp says what a compression engine offers, and
-- src/detail/zlib.cpp and src/detail/zstd.cpp are the two engines over the two libraries. src/squeeze.cpp
-- has the one-shot calls `bound`, `squeeze` and `swell`, which test the level and the room, make a handle and
-- push once. src/stream.cpp has the classes `compressor` and `decompressor`, which hold a handle in a variant
-- and visit it for each call. bench/squeeze_bench.cpp and the two targets in fuzz/ are clients of both.
--
-- Where each part is:
--   Error, Format, Backend    the headers, one type per type of theirs
--   Build                     the options that the sources test by #ifdef, and the two libraries
--   Engine                    the two libraries as parameters: operations (ZlibApi, ZstdApi), what every call
--                             accounts for (ZlibLaws, ZstdLaws), what the bytes mean (ZlibCodec, ZstdCodec,
--                             HonestBound), a frame or a stream in several calls (ZstdStreaming,
--                             ZstdInflating, ZlibInflating), the room that a stream needs (ZlibRoom), how
--                             far a call goes (ZlibProgress), what a flush makes visible (ZlibFlushing), a window
--                             too short for the data (ZlibShort)
--   Zlib, Zstd                the two backends: Squeezer and Sweller have a function per method, Facade the
--                             struct zlib_backend or zstd_backend
--   Owners                    objects that own an address, with the moves, the assignments and the destructor
--                             as steps on a store; Zstd.Ownership, Zlib.Ownership and Stream.Ownership are
--                             the classes of src/detail and of src/stream.cpp
--   Squeeze                   the one-shot calls, with a helper for each case of their switches
--   Stream                    the variants, the visitors and the factories; Stream.Compressor and
--                             Stream.Decompressor are the two classes. Stream.Steps is a sequence of pushes
--                             and flushes of a compressor, Stream.Intake one of pushes of a decompressor
--   Bench                     the iterations of bench/squeeze_bench.cpp; Bench.Streaming has the two loops of
--                             BM_streaming_zlib, and Bench.Programs the BM_ functions
--   Fuzz                      the target of fuzz/fuzz_squeeze.cpp; Fuzz.Streaming is that of fuzz/fuzz_stream.cpp
--   Toy, Tests                small libraries that meet the hypotheses, and each theorem at work on them
--   Base                      lists, buffers, integers and machine words over the native numbers
--
-- How state is modelled. A span is the list of its bytes. A call takes the object and the bytes of the output
-- span and gives both back with the `std::expected` that the code returns (Call, Shot, StreamCall). The
-- handles carry the library's own state as a value of a type that the parameter supplies. `none` stands for
-- an assertion that fails in a constructor, for a call on an object that was moved from, and for a call that
-- does not return; in Bench also for `r->` of a result that holds an error. uInt is 32 bits wide and uLong,
-- size_t and uint64_t 64 bits: the casts of the sizes to uInt keep `% 2 ^ 32`, and the differences of the
-- totals keep `% 2 ^ 64`.
--
-- The loop of zstd_squeezer::finish runs on fuel, one more round than the span has bytes. Each round that
-- goes on has written at least one byte, so this is enough.
--
-- The two loops of the streaming benchmark run on fuel as well: one round more than there are bytes of data, or
-- of the stream. Each round of the first moves by at least one byte, and the theorem gives the value, so this is
-- enough. Of the second nothing is proved: once the data is back, its last round may have an empty span (below).
--
-- The two loops of the streaming fuzz target run on fuel too. A push may consume nothing, but then it fills
-- its span; what deflate makes is bounded by compressBound, and what inflate makes by 1032 times its input, so
-- the sum of both bounds, of what is taken and of what is made, is enough.
--
-- An empty list stands for a span whose data() is null and for one whose data() is not. inflate answers the first
-- with Z_STREAM_ERROR, so the hypotheses on inflate that promise success are about output spans that are not
-- empty. zstd may use all of the room of an output span, so nothing is said of the bytes past those that it
-- reports; zlib leaves them alone.
--
-- A level is the integer that the code casts it to. The format of a handle over zlib lives in the library's
-- state, as the window bits.
--
-- Not modelled: running out of memory; the bytes that the libraries make, beyond what Engine states of them;
-- include/polliwog/brood.hpp, which is a note on lifetimes; the tests; the timing of the
-- benchmarks; the build files but for the two options. The corpus of the benchmarks is read from any file
-- system (Bench.Corpus).
--
-- The hypotheses on zlib and zstd are records that a theorem takes as arguments: each states what the
-- libraries' documentation says, and Toy has instances. HonestBound states what a comment in
-- src/detail/zlib.cpp says of compressBound, at the memory level 8 of the code; it is separate because zlib does
-- not promise it for the gzip container. ZlibRoom states it of a stream in pieces, at the default level: zlib.h
-- says this of deflateBound, Z_NO_FLUSH and Z_FINISH, and for these settings and the zlib container
-- compressBound is the same number. ZlibProgress states what zlib.h says of where a call stops, the same bound,
-- and the factor of the deflate format.
-- ZlibFlushing states what zlib.h says of Z_SYNC_FLUSH, and ZlibShort what it says of Z_FINISH in inflate when
-- the output window is too short. The zstd frames of ZstdInflating are those whose window the decompressor
-- takes by default.
pub mod Base
pub mod Error
pub mod Format
pub mod Backend
pub mod Engine
pub mod Zlib
pub mod Zstd
pub mod Build
pub mod Owners
pub mod Squeeze
pub mod Stream
pub mod Bench
pub mod Fuzz
pub mod Toy
pub mod Tests
