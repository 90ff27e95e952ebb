-- ===== src/Fuzz/Streaming.antt =====
-- fuzz/fuzz_stream.cpp: what the streaming fuzz target does with an input. It reads members `bytes_in` and
-- `bytes_out` of a stream_result, which has none of these names; they stand here for `bytes_consumed` and
-- `bytes_produced`, the only members that they can mean. The target always returns 0; where it returns is
-- told apart here. `none` is a failed assertion or an exception in a constructor, an index that is out of
-- range, and a loop that does not end.
use polliwog.Base.{
  ℕ, zero, suc, ◌+◌, ◌-◌, ◌*◌, ◌%◌, List, Option, none, some, length, take, drop, replicate,
  get_elem?, min, ltb, ◌==◌, ◌>>=◌, if◌then◌else◌,
}
use polliwog.Error.{value, unexpected}
use polliwog.Format.{Format}
use polliwog.Format.ZlibAnchors
use polliwog.Build.{Build}
use polliwog.Stream.{Made}
use polliwog.Stream.Compressor
use polliwog.Stream.Compressor.{Compressor}
use polliwog.Stream.Decompressor
use polliwog.Stream.Decompressor.{Decompressor}

-- Where the target returns: on an empty input, after an error of a push, of `finish` or of a push of the
-- decompressor, at the end of the stream, or with no more bytes of it.
pub data Return : Type 0 where
  empty : Return
  not_pushed : Return
  not_finished : Return
  not_swelled : Return
  ended : Return
  drained : Return

-- The first loop returns from the target, or leaves the compressor and the bytes of `out`.
pub data Pushed (B : Build) : Type 0 where
  failed : Pushed B
  pushed : Compressor B → List ℕ → Pushed B

-- std::byte out[65536], and decompressed
abbrev pub capacity : ℕ
capacity = 65536

-- (b & 0x3f) + 1, or what is left
abbrev pub chunk_size : ℕ → ℕ → ℕ
chunk_size b left = min (b % 64 + 1) left

module _ (B : Build) where
  -- while (pos < size)
  unfoldable pub push_loop : ℕ → List ℕ → ℕ → Compressor B → List ℕ → Option (Pushed B)
  push_loop zero input pos comp out = none
  push_loop (suc fuel) input pos comp out =
      if ltb pos (length input)
      then (do
        b ← get_elem? input pos
        call ←
            Compressor.push B comp (take (chunk_size b (length input - pos)) (drop pos input)) out
        elim call.result [
          | unexpected e ↦ some Pushed.failed
          | value r ↦ push_loop fuel input (pos + r.bytes_consumed) call.self call.out
        ])
      else some (Pushed.pushed comp out)

  -- while (cpos < compressed.size())
  unfoldable pub swell_loop : ℕ → List ℕ → List ℕ → ℕ → Decompressor B → List ℕ → Option Return
  swell_loop zero input compressed cpos dec out = none
  swell_loop (suc fuel) input compressed cpos dec out =
      if ltb cpos (length compressed)
      then (do
        b ← get_elem? input (cpos % length input)
        call ←
            Decompressor.push B dec
              (take (chunk_size b (length compressed - cpos)) (drop cpos compressed)) out
        elim call.result [
          | unexpected e ↦ some Return.not_swelled
          | value r ↦
              if r.done
              then some Return.ended
              else swell_loop fuel input compressed (cpos + r.bytes_consumed) call.self call.out
        ])
      else some Return.drained

  -- now decompress what we just compressed
  unfoldable pub decompress : List ℕ → List ℕ → Option Return
  unfolding swell_loop
  decompress input compressed = do
    dec ← Decompressor.construct B Format.zlib
    swell_loop (suc (1033 * length compressed)) input compressed 0 dec (replicate capacity 0)

  -- finish the stream
  unfoldable pub finish_and_swell : List ℕ → Pushed B → Option Return
  unfolding decompress
  finish_and_swell input Pushed.failed = some Return.not_pushed
  finish_and_swell input (Pushed.pushed comp out) = do
    fr ← Compressor.finish B comp out
    elim fr.result [
      | unexpected e ↦ some Return.not_finished
      | value r ↦ decompress input (take r.bytes_produced fr.out)
    ]

  -- compressor comp(format::zlib, zlib_level::default_level)
  unfoldable pub compress : List ℕ → Made (Compressor B) → Option (Pushed B)
  unfolding push_loop
  compress input (Made.thrown what) = none
  compress input (Made.made comp) =
      push_loop (suc (length input + B.zlib_api.compress_bound (length input))) input 0 comp
        (replicate capacity 0)

  -- LLVMFuzzerTestOneInput
  unfoldable pub test_one_stream : List ℕ → Option Return
  unfolding compress finish_and_swell
  test_one_stream input = if length input == 0 then some Return.empty else (do
    made ← Compressor.construct B Format.zlib ZlibAnchors.default_level
    left ← compress input made
    finish_and_swell input left)
