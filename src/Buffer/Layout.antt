-- ===== src/Buffer/Layout.antt =====
-- include/buffer.hh: the header fields lie side by side, and each is read back as it was set.
use levbdim.Base.{
  ℕ, zero, suc, ◌+◌, ◌%◌, ◌^◌, ◌≤◌, ◌<◌, ◌≡◌, refl, ap, ◌∙◌, some, [], ◌∷◌, take, drop, slice,
  length, arith,
}
use levbdim.Buffer.Memory.{
  Bytes, Buffer, to_bytes, from_bytes, overwrite, patch, header_size, u32, set_detector_id,
  set_data_source_id, set_event_id, set_bx_id, set_payload, detector_id, data_source_id, event_id,
  bx_id, size, payload_bytes, payload, payload_size,
}

pub length-overwrite : (bs mem : Bytes) → length (overwrite bs mem) ≡ length mem
unfolding overwrite
length-overwrite [] mem = refl
length-overwrite (b ∷ bs) [] = refl
length-overwrite (b ∷ bs) (x ∷ mem) = ap suc (length-overwrite bs mem)

pub length-patch : (off : ℕ) (bs mem : Bytes) → length (patch off bs mem) ≡ length mem
unfolding patch
length-patch zero bs mem = length-overwrite bs mem
length-patch (suc off) bs [] = refl
length-patch (suc off) bs (x ∷ mem) = ap suc (length-patch off bs mem)

take-overwrite :
    (bs mem : Bytes) → length bs ≤ length mem → take (length bs) (overwrite bs mem) ≡ bs
unfolding overwrite
take-overwrite [] mem h = refl
take-overwrite (b ∷ bs) [] h = absurd (omega arith)
take-overwrite (b ∷ bs) (x ∷ mem) h = ap (λ t. b ∷ t) (take-overwrite bs mem (omega arith))

drop-overwrite : (n : ℕ) (bs mem : Bytes) → length bs ≤ n → drop n (overwrite bs mem) ≡ drop n mem
unfolding overwrite
drop-overwrite n [] mem h = refl
drop-overwrite n (b ∷ bs) [] h = refl
drop-overwrite zero (b ∷ bs) (x ∷ mem) h = absurd (omega arith)
drop-overwrite (suc n) (b ∷ bs) (x ∷ mem) h = drop-overwrite n bs mem (omega arith)

-- What was copied to an offset is found there.
pub slice-patch_self :
    (off : ℕ) (bs mem : Bytes)
    → off + length bs ≤ length mem
    → slice off (length bs) (patch off bs mem) ≡ bs
unfolding patch
slice-patch_self zero bs mem h = take-overwrite bs mem (omega arith)
slice-patch_self (suc off) bs [] h = absurd (omega arith)
slice-patch_self (suc off) bs (x ∷ mem) h = slice-patch_self off bs mem (omega arith)

-- A copy changes nothing below its offset, and nothing from its end on.
pub slice-patch_below :
    (o n off : ℕ) (bs mem : Bytes) → o + n ≤ off → slice o n (patch off bs mem) ≡ slice o n mem
unfolding patch
slice-patch_below zero zero off bs mem h = refl
slice-patch_below (suc o) n zero bs mem h = absurd (omega arith)
slice-patch_below zero (suc n) zero bs mem h = absurd (omega arith)
slice-patch_below zero (suc n) (suc off) bs [] h = refl
slice-patch_below zero (suc n) (suc off) bs (x ∷ mem) h =
    ap (λ t. x ∷ t) (slice-patch_below zero n off bs mem (omega arith))
slice-patch_below (suc o) n (suc off) bs [] h = refl
slice-patch_below (suc o) n (suc off) bs (x ∷ mem) h =
    slice-patch_below o n off bs mem (omega arith)

pub drop-patch :
    (o off : ℕ) (bs mem : Bytes) → off + length bs ≤ o → drop o (patch off bs mem) ≡ drop o mem
unfolding patch
drop-patch o zero bs mem h = drop-overwrite o bs mem (omega arith)
drop-patch zero (suc off) bs mem h = absurd (omega arith)
drop-patch (suc o) (suc off) bs [] h = refl
drop-patch (suc o) (suc off) bs (x ∷ mem) h = drop-patch o off bs mem (omega arith)

from_bytes-to_bytes_4 : (n : ℕ) → from_bytes (to_bytes 4 n) ≡ n % 2 ^ 32
from_bytes-to_bytes_4 n = omega arith

from_bytes-to_bytes_8 : (n : ℕ) → from_bytes (to_bytes 8 n) ≡ n % 2 ^ 64
from_bytes-to_bytes_8 n = omega arith

-- All that identifies a block: what the four getters return.
pub record Ids : Type 0 where
  pub detector : ℕ
  pub source : ℕ
  pub event : ℕ
  pub bx : ℕ

unfoldable pub ids : Buffer → Ids
unfolding detector_id data_source_id event_id bx_id
ids b = record {
  detector = detector_id b;
  source = data_source_id b;
  event = event_id b;
  bx = bx_id b;
}

-- A read of a field: at its own offset, below another field's store, and behind it.
read_self_4 :
    (off id : ℕ) (mem : Bytes)
    → off + 4 ≤ length mem
    → from_bytes (slice off 4 (patch off (to_bytes 4 id) mem)) ≡ u32 id
read_self_4 off id mem h =
    ap from_bytes (slice-patch_self off (to_bytes 4 id) mem (omega arith))
    ∙ from_bytes-to_bytes_4 id

read_self_8 :
    (off id : ℕ) (mem : Bytes)
    → off + 8 ≤ length mem
    → from_bytes (slice off 8 (patch off (to_bytes 8 id) mem)) ≡ id % 2 ^ 64
read_self_8 off id mem h =
    ap from_bytes (slice-patch_self off (to_bytes 8 id) mem (omega arith))
    ∙ from_bytes-to_bytes_8 id

read_below :
    (o n off : ℕ) (bs mem : Bytes)
    → o + n ≤ off
    → from_bytes (slice o n (patch off bs mem)) ≡ from_bytes (slice o n mem)
read_below o n off bs mem h = ap from_bytes (slice-patch_below o n off bs mem h)

read_behind :
    (o n off : ℕ) (bs mem : Bytes)
    → off + length bs ≤ o
    → from_bytes (slice o n (patch off bs mem)) ≡ from_bytes (slice o n mem)
read_behind o n off bs mem h = ap (λ m. from_bytes (take n m)) (drop-patch o off bs mem h)

module _ (id : ℕ) (b : Buffer) (room : header_size ≤ length b.mem) where
  abbrev bytes_4 : Bytes
  bytes_4 = to_bytes 4 id

  pub ids-set_detector_id : ids (set_detector_id id b) ≡ record (ids b) { detector = u32 id }
  unfolding ids set_detector_id
  ids-set_detector_id = λ i. record {
    detector = read_self_4 0 id b.mem (omega arith) i;
    source = read_behind 4 4 0 bytes_4 b.mem (omega arith) i;
    event = read_behind 8 4 0 bytes_4 b.mem (omega arith) i;
    bx = read_behind 12 8 0 bytes_4 b.mem (omega arith) i;
  }

  pub ids-set_data_source_id : ids (set_data_source_id id b) ≡ record (ids b) { source = u32 id }
  unfolding ids set_data_source_id
  ids-set_data_source_id = λ i. record {
    detector = read_below 0 4 4 bytes_4 b.mem (omega arith) i;
    source = read_self_4 4 id b.mem (omega arith) i;
    event = read_behind 8 4 4 bytes_4 b.mem (omega arith) i;
    bx = read_behind 12 8 4 bytes_4 b.mem (omega arith) i;
  }

  pub ids-set_event_id : ids (set_event_id id b) ≡ record (ids b) { event = u32 id }
  unfolding ids set_event_id
  ids-set_event_id = λ i. record {
    detector = read_below 0 4 8 bytes_4 b.mem (omega arith) i;
    source = read_below 4 4 8 bytes_4 b.mem (omega arith) i;
    event = read_self_4 8 id b.mem (omega arith) i;
    bx = read_behind 12 8 8 bytes_4 b.mem (omega arith) i;
  }

  pub ids-set_bx_id : ids (set_bx_id id b) ≡ record (ids b) { bx = id % 2 ^ 64 }
  unfolding ids set_bx_id
  ids-set_bx_id = λ i. record {
    detector = read_below 0 4 12 (to_bytes 8 id) b.mem (omega arith) i;
    source = read_below 4 4 12 (to_bytes 8 id) b.mem (omega arith) i;
    event = read_below 8 4 12 (to_bytes 8 id) b.mem (omega arith) i;
    bx = read_self_8 12 id b.mem (omega arith) i;
  }

  -- On a block with room for its header, each of the four setters stores its number at the field's
  -- width (32 bits, 64 for the bunch crossing), leaves the other three ids as they were, and
  -- leaves the bytes from the payload on.
  pub setters_lem :
      (ids (set_detector_id id b) ≡ record (ids b) { detector = u32 id })
      × (ids (set_data_source_id id b) ≡ record (ids b) { source = u32 id })
      × (ids (set_event_id id b) ≡ record (ids b) { event = u32 id })
      × (ids (set_bx_id id b) ≡ record (ids b) { bx = id % 2 ^ 64 })
      × (payload (set_detector_id id b) ≡ payload b)
      × (payload (set_data_source_id id b) ≡ payload b)
      × (payload (set_event_id id b) ≡ payload b)
      × (payload (set_bx_id id b) ≡ payload b)
  unfolding set_detector_id set_data_source_id set_event_id set_bx_id payload
  setters_lem = (
    ids-set_detector_id,
    ids-set_data_source_id,
    ids-set_event_id,
    ids-set_bx_id,
    drop-patch 20 0 bytes_4 b.mem (omega arith),
    drop-patch 20 4 bytes_4 b.mem (omega arith),
    drop-patch 20 8 bytes_4 b.mem (omega arith),
    drop-patch 20 12 (to_bytes 8 id) b.mem (omega arith),
  )

-- The ids are read from the first 20 bytes.
pub ids-patch :
    (bs : Bytes) (n : ℕ) (b : Buffer)
    → ids (record { mem = patch header_size bs b.mem; psize = n }) ≡ ids b
unfolding ids
ids-patch bs n b = λ i. record {
  detector = read_below 0 4 20 bs b.mem (omega arith) i;
  source = read_below 4 4 20 bs b.mem (omega arith) i;
  event = read_below 8 4 20 bs b.mem (omega arith) i;
  bx = read_below 12 8 20 bs b.mem (omega arith) i;
}

-- On a block with room for 20 bytes and the payload, `setPayload` succeeds, makes the payload the
-- given bytes, sets both sizes by it, and keeps the block's length and the four ids.
pub set_payload_lem :
    (bytes : Bytes) (b : Buffer)
    → header_size + length bytes ≤ length b.mem
    → length b.mem < 2 ^ 32
    → (c : Buffer) × (set_payload bytes b ≡ some c)
      × (payload_bytes c ≡ bytes)
      × (payload_size c ≡ length bytes)
      × (size c ≡ header_size + length bytes)
      × (length c.mem ≡ length b.mem)
      × (ids c ≡ ids b)
unfolding payload_bytes size set_payload
set_payload_lem bytes b room small = (
  record { mem = patch header_size bytes b.mem; psize = u32 (length bytes) },
  ground arith,
  ap (λ k. slice 20 k (patch 20 bytes b.mem)) (omega arith) ∙ slice-patch_self 20 bytes b.mem room,
  omega arith,
  omega arith,
  length-patch header_size bytes b.mem,
  ids-patch bytes (u32 (length bytes)) b,
)
