-- ===== src/Buffer/Compress.antt =====
-- include/buffer.hh, `compress` and `uncompress`, over zlib.
use levbdim.Base.{
  ℕ, ◌+◌, ◌^◌, ◌≤◌, ◌<◌, ◌≡◌, ap, ◌∙◌, Option, some, none, ◌>>=◌, length, leb, if◌then◌else◌, arith,
}
use levbdim.Buffer.Memory.{
  Bytes, Buffer, header_size, set_payload, payload_size, payload_bytes, size,
}
use levbdim.Buffer.Layout.{ids, set_payload_lem}

-- zlib's `compress` and `uncompress`: from the target's room and the source, the bytes that stand
-- in the target up to `*destLen` after the call. The code does not look at their return values.
pub record Zlib : Type 0 where
  pub deflate : ℕ → Bytes → Bytes
  pub inflate : ℕ → Bytes → Bytes
  -- `compressBound`
  pub bound : ℕ → ℕ
  pub deflate_room : (room : ℕ) (bytes : Bytes) → length (deflate room bytes) ≤ room
  pub inflate_room : (room : ℕ) (bytes : Bytes) → length (inflate room bytes) ≤ room
  pub inflate-deflate :
      (room room' : ℕ) (bytes : Bytes)
      → bound (length bytes) ≤ room
      → length bytes ≤ room'
      → inflate room' (deflate room bytes) ≡ bytes

abbrev pub obuf_size : ℕ
obuf_size = 0x20000

-- The source `payload()`, `payloadSize()`; `none` where it runs beyond the block.
unfoldable pub payload_source : Buffer → Option Bytes
payload_source b =
    if leb (header_size + payload_size b) (length b.mem) then some (payload_bytes b) else none

module _ (zlib : Zlib) where
  unfoldable pub compress : Buffer → Option Buffer
  unfolding payload_source
  compress b = do source ← payload_source b; set_payload (zlib.deflate obuf_size source) b

  unfoldable pub uncompress : Buffer → Option Buffer
  unfolding payload_source
  uncompress b = do source ← payload_source b; set_payload (zlib.inflate obuf_size source) b

-- A block that `compress` can work on: its payload lies in it, and there is room for `obuf`.
pub record IsReady (b : Buffer) : Type 0 where
  pub filled : header_size + payload_size b ≤ length b.mem
  pub room : header_size + obuf_size ≤ length b.mem
  pub small : length b.mem < 2 ^ 32

-- What a store of `bytes` makes of the block `b`.
pub record Stored (bytes : Bytes) (b c : Buffer) : Type 0 where
  pub ready : IsReady c
  pub content : payload_bytes c ≡ bytes
  pub sized : size c ≡ header_size + length bytes
  pub kept : ids c ≡ ids b

pub store_runs :
    (bytes : Bytes) (b : Buffer)
    → length bytes ≤ obuf_size
    → IsReady b
    → (c : Buffer) × (set_payload bytes b ≡ some c) × Stored bytes b c
store_runs bytes b fits r =
    let (c, done, content, n, sized, long, kept) =
      set_payload_lem bytes b (omega (arith, r.room)) r.small in
    (
      c,
      done,
      record {
        ready = record {
          filled = omega (arith, n, long, r.room);
          room = omega (arith, long, r.room);
          small = omega (arith, long, r.small);
        };
        content = content;
        sized = sized;
        kept = kept;
      },
    )

pub payload_source_ready : (b : Buffer) → IsReady b → payload_source b ≡ some (payload_bytes b)
unfolding payload_source
payload_source_ready b r = ground (arith, r.filled)

module _ (zlib : Zlib) where
  open zlib use {deflate, inflate, bound, deflate_room, inflate_room, inflate-deflate}

  -- On a ready block `compress` succeeds: the payload becomes what zlib made of it, and the ids
  -- and the block's readiness are kept.
  pub compress_lem :
      (b : Buffer)
      → IsReady b
      → (c : Buffer) × (compress zlib b ≡ some c) × Stored (deflate obuf_size (payload_bytes b)) b c
  unfolding compress
  compress_lem b r = rw (payload_source_ready b r) (store_runs _ b (deflate_room obuf_size _) r)

  pub uncompress_lem :
      (b : Buffer)
      → IsReady b
      → (c : Buffer) × (uncompress zlib b ≡ some c)
        × Stored (inflate obuf_size (payload_bytes b)) b c
  unfolding uncompress
  uncompress_lem b r = rw (payload_source_ready b r) (store_runs _ b (inflate_room obuf_size _) r)

  -- A payload whose compressed form is sure to fit 128 KiB, and that fits it itself, is restored
  -- by `uncompress` after `compress`, with its sizes and its ids.
  pub uncompress-compress :
      (b : Buffer)
      → IsReady b
      → bound (length (payload_bytes b)) ≤ obuf_size
      → length (payload_bytes b) ≤ obuf_size
      → (c : Buffer) × (compress zlib b >>= uncompress zlib ≡ some c) × Stored (payload_bytes b) b c
  uncompress-compress b r fits fits' =
      let (c, compressed, s) = compress_lem b r in
      let (d, restored, t) = uncompress_lem c s.ready in
      let same : inflate obuf_size (payload_bytes c) ≡ payload_bytes b =
        ap (inflate obuf_size) s.content ∙ inflate-deflate obuf_size obuf_size _ fits fits' in
      (
        d,
        rw compressed restored,
        record {
          ready = t.ready;
          content = t.content ∙ same;
          sized = t.sized ∙ ap (λ (x : Bytes). header_size + length x) same;
          kept = t.kept ∙ s.kept;
        },
      )
