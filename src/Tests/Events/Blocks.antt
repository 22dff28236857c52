-- ===== src/Tests/Events/Blocks.antt =====
-- Blocks: setters, compression, and the writer.
use levbdim.Base.{
  ℕ, ◌≡◌, refl, List, [], ◌∷◌, ◌++◌, some, none, true, length, arith, map, ◌>>=◌, ◌+◌, ◌^◌, ◌%◌,
  ◌≤◌, length-take, Pairs,
}
use levbdim.Buffer.{
  Bytes, Buffer, payload, payload_bytes, payload_size, image, size, set_detector_id,
  set_data_source_id, set_event_id, set_bx_id, set_payload, u32,
}
use levbdim.Buffer.Layout.{ids, setters_lem, set_payload_lem}
use levbdim.Buffer.Compress.{IsReady, Stored, compress, uncompress, uncompress-compress}
use levbdim.Writer.File.{BasicWriter, write_all, write_event, process_run_header}
use levbdim.Writer.Record.{Compressed, total, concat, read_event, event_round_trip}
use levbdim.Writer.RunHeader.{run_header_overruns}
use levbdim.Tests.Systems.{zlib, out, zeros, length-zeros}
use levbdim.Tests.Events.{large_block, dir, stored_block, room_of_zeros}

-- Blocks with room for what a compression makes.
ready : IsReady large_block
unfolding payload_size
ready = record {
  filled = room_of_zeros 24 (omega arith);
  room = room_of_zeros (20 + 0x20000) (omega arith);
  small = omega (arith, length-zeros 0x80000);
}

large_block_fits : length (payload_bytes large_block) ≤ 0x20000
unfolding payload_bytes payload_size
large_block_fits = omega (arith, length-take 4 (payload large_block))

uncompress-compress_example :
    (c : Buffer) × (compress zlib large_block >>= uncompress zlib ≡ some c)
    × Stored (payload_bytes large_block) large_block c
uncompress-compress_example =
    uncompress-compress zlib large_block ready large_block_fits large_block_fits

abbrev writer : BasicWriter
writer = record {
  directory = dir;
  run = 3;
  event = 4;
  total_size = 100;
  fd_out = some 3;
  started = true;
}

event_round_trip_example :
    (cs : List Buffer) × (chunks : List Bytes) × (write_event out zlib
        (some 3)
        (large_block ∷ large_block ∷ [])
        []
        writer
      ≡ some (
        write_all out 3 chunks [],
        cs,
        record writer { total_size = total 100 cs; event = u32 5 },
      ))
    × Pairs (Compressed zlib) (large_block ∷ large_block ∷ []) cs
    × ((rest : Bytes) → read_event (concat chunks ++ rest) ≡ (4, map image cs, rest))
event_round_trip_example =
    event_round_trip out zlib 3 (large_block ∷ large_block ∷ []) [] writer (ready, (ready, tt))
      (omega arith) (omega arith)

-- A header of 40 words.
abbrev header : List ℕ
header = zeros 40

run_header_overruns_example : process_run_header out zlib (zeros (128 + 40)) header [] writer ≡ none
run_header_overruns_example =
    run_header_overruns out zlib (zeros (128 + 40)) header [] writer 3 refl
      (omega (arith, length-zeros 168, length-zeros 40)) (omega (arith, length-zeros 40))
      (omega (arith, length-zeros 40))

setters_lem_example :
    (ids (set_detector_id 9 stored_block) ≡ record (ids stored_block) { detector = u32 9 })
    × (ids (set_data_source_id 9 stored_block) ≡ record (ids stored_block) { source = u32 9 })
    × (ids (set_event_id 9 stored_block) ≡ record (ids stored_block) { event = u32 9 })
    × (ids (set_bx_id 9 stored_block) ≡ record (ids stored_block) { bx = 9 % 2 ^ 64 })
    × (payload (set_detector_id 9 stored_block) ≡ payload stored_block)
    × (payload (set_data_source_id 9 stored_block) ≡ payload stored_block)
    × (payload (set_event_id 9 stored_block) ≡ payload stored_block)
    × (payload (set_bx_id 9 stored_block) ≡ payload stored_block)
setters_lem_example = setters_lem 9 stored_block (omega arith)

set_payload_lem_example :
    (c : Buffer) × (set_payload (4 ∷ 5 ∷ []) stored_block ≡ some c)
    × (payload_bytes c ≡ 4 ∷ 5 ∷ [])
    × (payload_size c ≡ 2)
    × (size c ≡ 22)
    × (length c.mem ≡ 22)
    × (ids c ≡ ids stored_block)
set_payload_lem_example = set_payload_lem (4 ∷ 5 ∷ []) stored_block (omega arith) (omega arith)
