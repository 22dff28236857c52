-- ===== src/Buffer/Memory.antt =====
-- include/buffer.hh: the block, its header fields and its payload.
use levbdim.Base.{
  ℕ, zero, suc, ◌+◌, ◌*◌, ◌/◌, ◌%◌, ◌^◌, List, [], ◌∷◌, take, drop, slice, length, Option, some,
  none, leb, if◌then◌else◌,
}

abbrev pub Bytes : Type 0
Bytes = List ℕ

-- A number as `k` bytes, the lowest first, and back. What a list holds is read as a byte.
abbrev pub to_bytes : ℕ → ℕ → Bytes
to_bytes zero n = []
to_bytes (suc k) n = (n % 256) ∷ to_bytes k (n / 256)

abbrev pub from_bytes : Bytes → ℕ
from_bytes [] = 0
from_bytes (b ∷ bs) = b % 256 + 256 * from_bytes bs

-- `memcpy` of bytes over the start of a block, and from an offset on.
unfoldable pub overwrite : Bytes → Bytes → Bytes
overwrite [] mem = mem
overwrite (b ∷ bs) [] = []
overwrite (b ∷ bs) (x ∷ mem) = b ∷ overwrite bs mem

unfoldable pub patch : ℕ → Bytes → Bytes → Bytes
unfolding overwrite
patch zero bs mem = overwrite bs mem
patch (suc off) bs [] = []
patch (suc off) bs (x ∷ mem) = x ∷ patch off bs mem

pub record Buffer : Type 0 where
  pub mem : Bytes
  pub psize : ℕ

-- 3 * sizeof(uint32_t) + sizeof(uint64_t)
abbrev pub header_size : ℕ
header_size = 20

abbrev pub u32 : ℕ → ℕ
u32 n = n % 2 ^ 32

-- `new char[max_size]`: the bytes are whatever the allocation holds.
unfoldable pub new_buffer : Bytes → Buffer
new_buffer mem = record { mem = mem; psize = 0 }

unfoldable pub set_detector_id : ℕ → Buffer → Buffer
unfolding patch
set_detector_id id b = record b { mem = patch 0 (to_bytes 4 id) b.mem }

unfoldable pub set_data_source_id : ℕ → Buffer → Buffer
unfolding patch
set_data_source_id id b = record b { mem = patch 4 (to_bytes 4 id) b.mem }

unfoldable pub set_event_id : ℕ → Buffer → Buffer
unfolding patch
set_event_id id b = record b { mem = patch 8 (to_bytes 4 id) b.mem }

unfoldable pub set_bx_id : ℕ → Buffer → Buffer
unfolding patch
set_bx_id id b = record b { mem = patch 12 (to_bytes 8 id) b.mem }

-- `memcpy` of `payload_size` bytes behind the header; `none` where the block has no room for them.
unfoldable pub set_payload : Bytes → Buffer → Option Buffer
unfolding patch
set_payload bytes b =
    if leb (header_size + length bytes) (length b.mem)
    then some (record { mem = patch header_size bytes b.mem; psize = u32 (length bytes) })
    else none

unfoldable pub set_payload_size : ℕ → Buffer → Buffer
set_payload_size s b = record b { psize = u32 s }

unfoldable pub detector_id : Buffer → ℕ
detector_id b = from_bytes (slice 0 4 b.mem)

unfoldable pub data_source_id : Buffer → ℕ
data_source_id b = from_bytes (slice 4 4 b.mem)

unfoldable pub event_id : Buffer → ℕ
event_id b = from_bytes (slice 8 4 b.mem)

unfoldable pub bx_id : Buffer → ℕ
bx_id b = from_bytes (slice 12 8 b.mem)

unfoldable pub size : Buffer → ℕ
size b = u32 (b.psize + header_size)

-- The bytes from the payload's pointer on, to the end of the block.
unfoldable pub payload : Buffer → Bytes
payload b = drop header_size b.mem

unfoldable pub payload_size : Buffer → ℕ
payload_size b = b.psize

-- What `write(fd, ptr(), size())` and the DIM service send: the first `size()` bytes.
unfoldable pub image : Buffer → Bytes
unfolding size
image b = take (size b) b.mem

-- The payload that a reader sees: `payloadSize()` bytes from `payload()`.
unfoldable pub payload_bytes : Buffer → Bytes
unfolding payload payload_size
payload_bytes b = take (payload_size b) (payload b)
