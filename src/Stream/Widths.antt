-- ===== src/Stream/Widths.antt =====
-- The casts of the sizes to uInt, seen from the streaming classes.
use polliwog.Base.{ℕ, ◌≤◌, ◌≡◌, subst, Every, List, Option, none, some, length, arith}
use polliwog.Base.Words.{u32}
use polliwog.Error.{BackendId, value}
use polliwog.Backend.{Progress}
use polliwog.Backend.Contract.{Returns}
use polliwog.Format.{Format, ZlibLevel}
use polliwog.Build.{Build}
use polliwog.Engine.Zlib.{Flush, ZlibApi, ZlibLaws}
use polliwog.Engine.Zstd.{ZstdLaws}
use polliwog.Zlib.{aim}
use polliwog.Zlib.Contract.{IsCounted, aim-IsAimed, Accounts-counts}
use polliwog.Zlib.Squeezer as ZlibSqueezer
use polliwog.Zlib.Squeezer.{ZlibSqueezer}
use polliwog.Zlib.Sweller as ZlibSweller
use polliwog.Zlib.Sweller.{ZlibSweller}
use polliwog.Stream.{
  Made, StreamCall, StreamResult, SqueezerVariant, SwellerVariant, pushed, swollen, push_visitor,
  swell_visitor,
}
use polliwog.Stream.Compressor
use polliwog.Stream.Compressor.{Compressor}
use polliwog.Stream.Decompressor
use polliwog.Stream.Decompressor.{Decompressor}
use polliwog.Stream.Pushes.{Pushes, Serves, Pushes-Serves, construct-Serves}
use polliwog.Stream.Answers.{IsLive}
use polliwog.Stream.Served.{Served, server, construct-IsLive}
use polliwog.Stream.Chunks.{adapted_value}
use polliwog.Stream.History.{History, History-IsLive}

-- A report of what lies in the windows that zlib is told of.
abbrev Windowed : List ℕ → List ℕ → Progress → Type 0
Windowed input out p = (p.bytes_in ≤ u32 (length input)) × (p.bytes_out ≤ u32 (length out))

module _ (Z : ZlibApi) (L : ZlibLaws Z) (input out : List ℕ) where
  push_more-Windowed :
      (h : ZlibSqueezer Z) (p : Progress)
      → IsCounted h.stream
      → (ZlibSqueezer.push_more Z h input out).result ≡ value p
      → Windowed input out p
  unfolding ZlibSqueezer.push_more
  push_more-Windowed h p v e =
      let s = aim h.stream input out in
      let a = L.deflate_accounts s Flush.no_flush (aim-IsAimed h.stream input out) in
      let counts = Accounts-counts h.stream input out (Z.deflate s Flush.no_flush) v a in
      ground (arith, counts, a.taken_fits, a.made_fits)

  swell_more-Windowed :
      (h : ZlibSweller Z) (p : Progress)
      → IsCounted h.stream
      → (ZlibSweller.push_more Z h input out).result ≡ value p
      → Windowed input out p
  unfolding ZlibSweller.push_more
  swell_more-Windowed h p v e =
      let s = aim h.stream input out in
      let a = L.inflate_accounts s Flush.no_flush (aim-IsAimed h.stream input out) in
      let counts = Accounts-counts h.stream input out (Z.inflate s Flush.no_flush) v a in
      ground (arith, counts, a.taken_fits, a.made_fits)

module _ (B : Build) (L : ZlibLaws B.zlib_api) (M : ZstdLaws B.zstd_api) (input out : List ℕ) where
  -- What a success of a call reports.
  abbrev Reported : {C : Type 0} → StreamCall C → Type 0
  Reported c =
      (r : StreamResult)
      → c.result ≡ value r
      → (r.bytes_consumed ≤ u32 (length input)) × (r.bytes_produced ≤ u32 (length out))

  live-Reported :
      (p : Option (SqueezerVariant B)) (c : StreamCall (Compressor B))
      → Returns p (Served B L M BackendId.zlib)
      → Compressor.push B (record { p = p }) input out ≡ some c
      → Reported c
  unfolding Compressor.push push_visitor
  live-Reported (some (SqueezerVariant.zlib h)) c k e =
      subst (λ o. Every o Reported) e
        λ r er.
          let q = ZlibSqueezer.push_more B.zlib_api h input out in
          let u =
            adapted_value SqueezerVariant.zlib (Compressor.holding B) pushed Compressor.push_result
              q r er in
          rw u.2 (push_more-Windowed B.zlib_api L input out h u.0 k.1 u.1)
  live-Reported none c k e = absurd k
  live-Reported (some (SqueezerVariant.zstd h)) c k e = absurd (cc k.0)
  live-Reported (some SqueezerVariant.zlib_stub) c k e = absurd (cc k.0)
  live-Reported (some SqueezerVariant.zstd_stub) c k e = absurd (cc k.0)

  -- The sizes of the spans are cast to uInt. Where zlib serves the format, a push that succeeds, after any
  -- history of a compressor that the constructor made, consumes no more bytes than the low 32 bits of the
  -- input's length say, and produces no more than those of the output span's length say. So where the
  -- input's length is a multiple of 4 GiB, a push that succeeds consumes nothing.
  pub push-window :
      (f : Format) (lvl : ZlibLevel) (s₀ s : Compressor B) (c : StreamCall (Compressor B))
      (r : StreamResult)
      → server B f ≡ BackendId.zlib
      → Compressor.construct B f lvl ≡ some (Made.made s₀)
      → History B s₀ s
      → Compressor.push B s input out ≡ some c
      → c.result ≡ value r
      → (r.bytes_consumed ≤ u32 (length input)) × (r.bytes_produced ≤ u32 (length out))
  push-window f lvl s₀ s c r serves made t ec er =
      let live = History-IsLive B L M (server B f) s₀ s (construct-IsLive B L M f lvl s₀ made) t in
      live-Reported s.p c (subst (λ id. IsLive id s) serves live) ec r er

  Serves-Reported :
      (p : Option (SwellerVariant B)) (c : StreamCall (Decompressor B))
      → Returns p (Serves BackendId.zlib)
      → Decompressor.push B (record { p = p }) input out ≡ some c
      → Reported c
  unfolding Decompressor.push swell_visitor
  Serves-Reported (some (SwellerVariant.zlib h)) c k e =
      subst (λ o. Every o Reported) e
        λ r er.
          let q = ZlibSweller.push_more B.zlib_api h input out in
          let u =
            adapted_value SwellerVariant.zlib (Decompressor.holding B) swollen
              Decompressor.push_result q r er in
          rw u.2 (swell_more-Windowed B.zlib_api L input out h u.0 k.1 u.1)
  Serves-Reported none c k e = absurd k
  Serves-Reported (some (SwellerVariant.zstd h)) c k e = absurd (cc k)
  Serves-Reported (some SwellerVariant.zlib_stub) c k e = absurd (cc k)
  Serves-Reported (some SwellerVariant.zstd_stub) c k e = absurd (cc k)

  -- The same for the pushes of a decompressor.
  pub swell-window :
      (f : Format) (s₀ s : Decompressor B) (c : StreamCall (Decompressor B)) (r : StreamResult)
      → server B f ≡ BackendId.zlib
      → Decompressor.construct B f ≡ some s₀
      → Pushes B s₀ s
      → Decompressor.push B s input out ≡ some c
      → c.result ≡ value r
      → (r.bytes_consumed ≤ u32 (length input)) × (r.bytes_produced ≤ u32 (length out))
  swell-window f s₀ s c r serves made t ec er =
      let live = Pushes-Serves B L M (server B f) s₀ s (construct-Serves B L M f s₀ made) t in
      Serves-Reported s.p c (subst (λ id. Returns s.p (Serves id)) serves live) ec r er
