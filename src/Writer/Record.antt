-- ===== src/Writer/Record.antt =====
-- src/basicwriter.cc: the layout of an event in the file, and a reader for it.
use mathlib.Core.List.{append_assoc}
use native.Mathlib.Nat.{mod-eq_of_lt}
use levbdim.Base.{
  ℕ, zero, suc, ◌+◌, ◌^◌, ◌<◌, ◌≡◌, refl, ap, ◌∙◌, List, [], ◌∷◌, ◌++◌, some, length, map, take,
  drop, take-append, drop-append, All, Pairs, arith, length-take,
}
use levbdim.Buffer.{Bytes, Buffer, from_bytes, u32, size, image, payload_size, payload_bytes}
use levbdim.Buffer.Compress.{Zlib, IsReady, Stored, compress_lem, obuf_size}
use levbdim.Writer.File.{Output, BasicWriter, word, write_all, write_buffers, write_event}

-- What is written for an event: its number, the number of blocks, and each block with its size.
abbrev pub block_chunks : List Buffer → List Bytes
block_chunks [] = []
block_chunks (c ∷ cs) = word (size c) ∷ image c ∷ block_chunks cs

abbrev pub event_chunks : ℕ → List Buffer → List Bytes
event_chunks event cs = word event ∷ word (u32 (length cs)) ∷ block_chunks cs

abbrev pub total : ℕ → List Buffer → ℕ
total n [] = n
total n (c ∷ cs) = total (u32 (n + size c)) cs

-- `c` is `b` with its payload compressed.
abbrev pub Compressed : Zlib → Buffer → Buffer → Type 0
Compressed zlib b c = Stored (zlib.deflate obuf_size (payload_bytes b)) b c

module _ {W : Type 0} (out : Output W) (zlib : Zlib) where
  write_buffers_lem :
      (fd : ℕ) (bs : List Buffer) (n : ℕ) (w : W)
      → All IsReady bs
      → (cs : List Buffer) × (write_buffers out zlib fd bs n w
          ≡ some (write_all out fd (block_chunks cs) w, cs, total n cs))
        × Pairs (Compressed zlib) bs cs
  unfolding write_buffers write_all
  write_buffers_lem fd [] n w r = ([], refl, tt)
  write_buffers_lem fd (b ∷ bs) n w r =
      let (c, one, stored) = compress_lem zlib b r.0 in
      let (cs, rest, pairs) =
        write_buffers_lem fd bs (u32 (n + size c))
          (out.write fd (image c) (out.write fd (word (size c)) w)) r.1 in
      (c ∷ cs, rw (one, write_buffers) (rw rest), (stored, pairs))

  length-Pairs : (bs cs : List Buffer) → Pairs (Compressed zlib) bs cs → length cs ≡ length bs
  length-Pairs [] [] p = refl
  length-Pairs [] (c ∷ cs) p = elim p [ ]
  length-Pairs (b ∷ bs) [] p = elim p [ ]
  length-Pairs (b ∷ bs) (c ∷ cs) p = ap suc (length-Pairs bs cs p.1)

  -- An event of ready blocks, on an open file: each block is compressed in place, the event's
  -- chunks are written in order, the size counter grows by the blocks' sizes and the event counter
  -- by one, both modulo 2 ^ 32.
  pub write_event_lem :
      (fd : ℕ) (bs : List Buffer) (w : W) (s : BasicWriter)
      → All IsReady bs
      → (cs : List Buffer) × (write_event out zlib (some fd) bs w s
          ≡ some (
            write_all out fd (event_chunks s.event cs) w,
            cs,
            record s { total_size = total s.total_size cs; event = u32 (s.event + 1) },
          ))
        × Pairs (Compressed zlib) bs cs
  unfolding write_event write_all
  write_event_lem fd bs w s r =
      let (cs, done, pairs) =
        write_buffers_lem fd bs s.total_size
          (out.write fd (word (u32 (length bs))) (out.write fd (word s.event) w)) r in
      (cs, rw done (rw (length-Pairs bs cs pairs)), pairs)

-- A reader of such a file, independent of the writer.
abbrev pub read_word : Bytes → ℕ × Bytes
read_word bytes = (from_bytes (take 4 bytes), drop 4 bytes)

unfoldable pub read_blocks : ℕ → Bytes → List Bytes × Bytes
read_blocks zero bytes = ([], bytes)
read_blocks (suc n) bytes =
    let (len, rest) = read_word bytes in
    let (blocks, rest') = read_blocks n (drop len rest) in (take len rest ∷ blocks, rest')

unfoldable pub read_event : Bytes → ℕ × List Bytes × Bytes
unfolding read_blocks
read_event bytes =
    let (event, rest) = read_word bytes in
    let (n, rest') = read_word rest in
    let (blocks, rest'') = read_blocks n rest' in (event, blocks, rest'')

abbrev pub concat : List Bytes → Bytes
concat [] = []
concat (c ∷ cs) = c ++ concat cs

read_word-word : (n : ℕ) (rest : Bytes) → n < 2 ^ 32 → read_word (word n ++ rest) ≡ (n, rest)
read_word-word n rest h = λ i. (value i, rest)
  where
    value : from_bytes (take 4 (word n ++ rest)) ≡ n
    value = omega arith

size-lt : (c : Buffer) → size c < 2 ^ 32
unfolding size
size-lt c = omega arith

length-image : (c : Buffer) → IsReady c → length (image c) ≡ size c
unfolding image size payload_size
length-image c r = omega (arith, r.filled, length-take (size c) c.mem)

read_block :
    (c : Buffer) (rest : Bytes)
    → IsReady c
    → (take (size c) (image c ++ rest) ≡ image c) × (drop (size c) (image c ++ rest) ≡ rest)
read_block c rest r =
    rw (← length-image c r) (take-append (image c) rest, drop-append (image c) rest)

-- The rest of `read_blocks`, once the length of a block is read.
abbrev read_body : ℕ → ℕ × Bytes → List Bytes × Bytes
read_body n (len, rest) =
    (take len rest ∷ (read_blocks n (drop len rest)).0, (read_blocks n (drop len rest)).1)

read_blocks-concat :
    (cs : List Buffer) (rest : Bytes)
    → All IsReady cs
    → read_blocks (length cs) (concat (block_chunks cs) ++ rest) ≡ (map image cs, rest)
unfolding read_blocks
read_blocks-concat [] rest r = refl
read_blocks-concat (c ∷ cs) rest r =
    let n : ℕ = length cs in
    let tail : Bytes = concat (block_chunks cs) ++ rest in
    let (block, behind) = read_block c tail r.0 in
    ap (read_body n)
      (read_word-word (size c) ((image c ++ concat (block_chunks cs)) ++ rest) (size-lt c))
    ∙ ap (λ t. read_body n (size c, t)) (append_assoc (image c) (concat (block_chunks cs)) rest)
    ∙ (λ i. (block i ∷ (read_blocks n (behind i)).0, (read_blocks n (behind i)).1))
    ∙ ap (λ p. (image c ∷ p.0, p.1)) (read_blocks-concat cs rest r.1)

read_event-concat :
    (event : ℕ) (cs : List Buffer) (rest : Bytes)
    → event < 2 ^ 32
    → length cs < 2 ^ 32
    → All IsReady cs
    → read_event (concat (event_chunks event cs) ++ rest) ≡ (event, map image cs, rest)
unfolding read_event
read_event-concat event cs rest fits few r =
    let n : ℕ = u32 (length cs) in
    let tail : Bytes = concat (block_chunks cs) ++ rest in
    ap (λ p. after p.0 (read_word p.1)) (read_word-word event (word n ++ tail) fits)
    ∙ ap (after event) (read_word-word n tail (omega arith))
    ∙ ap (λ (k : ℕ). (event, (read_blocks k tail).0, (read_blocks k tail).1)) (mod-eq_of_lt few)
    ∙ ap (λ p. (event, p.0, p.1)) (read_blocks-concat cs rest r)
  where
    after : ℕ → ℕ × Bytes → ℕ × List Bytes × Bytes
    after e (k, bytes) = (e, (read_blocks k bytes).0, (read_blocks k bytes).1)

IsReady-of_Pairs :
    (zlib : Zlib) (bs cs : List Buffer) → Pairs (Compressed zlib) bs cs → All IsReady cs
IsReady-of_Pairs zlib [] [] p = tt
IsReady-of_Pairs zlib [] (c ∷ cs) p = elim p [ ]
IsReady-of_Pairs zlib (b ∷ bs) [] p = elim p [ ]
IsReady-of_Pairs zlib (b ∷ bs) (c ∷ cs) p = (p.0.ready, IsReady-of_Pairs zlib bs cs p.1)

module _ {W : Type 0} (out : Output W) (zlib : Zlib) where
  -- What an event leaves in the file is read back, whatever follows it: on an open file, ready
  -- blocks are compressed to blocks with the same ids, and the bytes that are then written, in
  -- order, are read as the event's number and the images of those blocks.
  pub event_round_trip :
      (fd : ℕ) (bs : List Buffer) (w : W) (s : BasicWriter)
      → All IsReady bs
      → s.event < 2 ^ 32
      → length bs < 2 ^ 32
      → (cs : List Buffer) × (chunks : List Bytes) × (write_event out zlib (some fd) bs w s
          ≡ some (
            write_all out fd chunks w,
            cs,
            record s { total_size = total s.total_size cs; event = u32 (s.event + 1) },
          ))
        × Pairs (Compressed zlib) bs cs
        × ((rest : Bytes) → read_event (concat chunks ++ rest) ≡ (s.event, map image cs, rest))
  event_round_trip fd bs w s r fits few =
      let (cs, done, pairs) = write_event_lem out zlib fd bs w s r in
      (
        cs,
        event_chunks s.event cs,
        done,
        pairs,
        λ rest.
            read_event-concat s.event cs rest fits
              (omega (arith, length-Pairs out zlib bs cs pairs, few))
              (IsReady-of_Pairs zlib bs cs pairs),
      )
