-- ===== src/Writer/RunHeader.antt =====
-- src/basicwriter.cc, `processRunHeader`: the block that carries the run header has 128 bytes and
-- one byte for each word of the header, where a word takes four.
use levbdim.Base.{
  ℕ, ◌+◌, ◌*◌, ◌<◌, ◌≡◌, refl, ap, ◌∙◌, List, [], ◌∷◌, some, none, ◌>>=◌, lt→ltb, length, arith,
}
use levbdim.Buffer.{
  Bytes, Buffer, new_buffer, set_detector_id, set_data_source_id, set_event_id, set_bx_id,
  set_payload, to_bytes,
}
use levbdim.Buffer.Layout.{length-patch}
use levbdim.Buffer.Compress.{Zlib, compress}
use levbdim.Writer.File.{
  Output, BasicWriter, open_fd, header_bytes, header_buffer, write_header, process_run_header,
}

length-header_bytes : (header : List ℕ) → length (header_bytes header) ≡ 4 * length header
unfolding header_bytes
length-header_bytes [] = refl
length-header_bytes (x ∷ xs) = omega (arith, length-header_bytes xs)

-- The block before its payload is set.
abbrev addressed : Bytes → Buffer
addressed junk =
    set_bx_id 0 (set_event_id 0 (set_data_source_id 1 (set_detector_id 255 (new_buffer junk))))

length-addressed : (junk : Bytes) → length (addressed junk).mem ≡ length junk
unfolding set_bx_id set_event_id set_data_source_id set_detector_id new_buffer
length-addressed junk =
    length-patch 12 (to_bytes 8 0) _
    ∙ length-patch 8 (to_bytes 4 0) _
    ∙ length-patch 4 (to_bytes 4 1) _
    ∙ length-patch 0 (to_bytes 4 255) junk

set_payload_overrun :
    (bytes : Bytes) (b : Buffer) → length b.mem < 20 + length bytes → set_payload bytes b ≡ none
unfolding set_payload
set_payload_overrun bytes b h = ground arith

header_buffer_overrun :
    (zlib : Zlib) (junk : Bytes) (header : List ℕ)
    → length junk ≡ 128 + length header
    → 36 < length header
    → header_buffer zlib junk header ≡ none
unfolding header_buffer
header_buffer_overrun zlib junk header size large =
    ap (λ m. m >>= compress zlib)
      (set_payload_overrun (header_bytes header) (addressed junk)
        (omega (arith, length-addressed junk, length-header_bytes header, size, large)))

-- With a file open, a run header of 37 to 255 words passes the length test and overruns the block
-- that is allocated for it.
pub run_header_overruns :
    {W : Type 0} (out : Output W) (zlib : Zlib) (junk : Bytes) (header : List ℕ) (w : W)
    (s : BasicWriter) (fd : ℕ)
    → open_fd s.fd_out ≡ some fd
    → length junk ≡ 128 + length header
    → 36 < length header
    → length header < 256
    → process_run_header out zlib junk header w s ≡ none
unfolding process_run_header
run_header_overruns out zlib junk header w s fd opened size large small =
    rw (lt→ltb (length header) 256 small, opened, write_header)
      (rw (header_buffer_overrun zlib junk header size large))
