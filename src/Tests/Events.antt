-- ===== src/Tests/Events.antt =====
-- Events of two sources, and files.
pub mod Blocks
pub mod Rounds
pub mod Handover
pub mod Watched
pub mod Orders
pub mod Threads
use levbdim.Base.{
  ℕ, All, ◌≡◌, ◌≢◌, refl, ap, List, [], ◌∷◌, ◌++◌, some, none, true, length, Str, codes, arith, map,
  ◌>>=◌, ◌+◌, ◌^◌, ◌%◌, ◌≤◌, take, length-take, Pairs, ◌==◌, if◌then◌else◌,
}
use levbdim.Buffer.{
  Bytes, Buffer, payload, payload_bytes, payload_size, image, size, set_detector_id,
  set_data_source_id, set_event_id, set_bx_id, set_payload, u32, event_id, detector_id,
  data_source_id, bx_id,
}
use levbdim.Buffer.Layout.{ids, setters_lem, set_payload_lem}
use levbdim.Buffer.Compress.{IsReady, Stored, compress, uncompress, uncompress-compress}
use levbdim.Shm.Name as FileName
use levbdim.Shm.Name.{dec, name}
use levbdim.Shm.Name.RoundTrip.{name_round_trip}
use levbdim.Shm.Files.{ls, pull, event_path, closed_path}
use levbdim.Shm.Driver.{
  ShmDriver, new, register_processor, register_data_source, number_of_data_source, run_processors,
  pending,
}
use levbdim.Shm.Scan.{collect, scan_files, scan_round}
use levbdim.Shm.Build.{collect_lem, added, handed, event_time}
use levbdim.Shm.Transfer.{Carried, CanStore, event_file, store_buffer, pull-store}
use levbdim.Shm.Delivery.{Log, recorder, IsSound}
use levbdim.Shm.Posix.{FileSystem}
use levbdim.Shm.Delivery.Round
use levbdim.Shm.Delivery.Round.{IsShort, IsDriver, scan_files-Progress, scan_round-IsDriver}
use levbdim.Writer.File.{BasicWriter, write_all, write_event, process_run_header}
use levbdim.Writer.Record.{Compressed, total, concat, read_event, event_round_trip}
use levbdim.Writer.RunHeader.{run_header_overruns}
use levbdim.Source.Datasource.{Datasource, new_datasource, publish}
use levbdim.Source.Datasocket.{receive}
use levbdim.Source.Publish.{receive-publish}
use levbdim.Tests.Systems.{zlib, real, out, zeros, length-zeros, fs, fs_laws, disk, put}

-- A block of detector 1 with the given source and event, and two bytes of payload.
abbrev block : ℕ → ℕ → Buffer
block source event = record {
  mem =
      1 ∷ 0 ∷ 0 ∷ 0 ∷ source ∷ 0 ∷ 0 ∷ 0 ∷ event ∷ 0 ∷ 0 ∷ 0 ∷ 7 ∷ 0 ∷ 0 ∷ 0 ∷ 0 ∷ 0 ∷ 0 ∷ 0 ∷ 8 ∷ 9
      ∷ [];
  psize = 2;
}

abbrev large_block : Buffer
large_block = record { mem = zeros 0x80000; psize = 4 }

abbrev pub world : ℕ
world = 0

-- A driver of two sources, with one recording processor.
abbrev pub driver : ShmDriver Log
driver = register_data_source 1 2 (register_data_source 1 1 (register_processor [] (new [] true)))

abbrev pub pulled : List Buffer
pulled = block 1 5 ∷ block 1 6 ∷ block 2 5 ∷ []

pub driver-IsSound : IsSound [] driver
unfolding register_data_source register_processor new number_of_data_source
driver-IsSound = record {
  records = refl;
  complete = tt;
  filed = tt;
  registered = omega arith;
  open_events = tt;
  begun = tt;
  distinct = tt;
}

collect_lem_example : collect recorder real (block 1 5) world driver 0 ≡ (
    if length (pending (event_id (block 1 5)) driver ++ block 1 5 ∷ [])
      == number_of_data_source driver
    then (if event_id (block 1 5) == 0
        then some (world, added (block 1 5) driver, event_time real (block 1 5) driver)
        else run_processors recorder
            (event_id (block 1 5))
            (pending (event_id (block 1 5)) driver ++ block 1 5 ∷ [])
            world
            driver.processors
          >>= λ r. some (
            r.0,
            handed (event_id (block 1 5)) (added (block 1 5) driver) r.2,
            event_time real (block 1 5) driver,
          ))
    else some (world, added (block 1 5) driver, 0))
collect_lem_example = collect_lem recorder real (block 1 5) world driver 0

abbrev dir : Str
dir = codes "/dev/shm/levbdim"

abbrev stored_block : Buffer
stored_block = block 1 5

room_of_zeros : (n : ℕ) → n ≤ 0x80000 → n ≤ length (zeros 0x80000)
room_of_zeros n h = omega (arith, h, length-zeros 0x80000)

can_store : CanStore fs fs_laws stored_block dir (event_file stored_block) disk
unfolding detector_id data_source_id event_id bx_id name dec
can_store = record {
  fits = refl;
  fresh = refl;
  opened = put (event_path dir (event_file stored_block)) (some []) disk;
  opens = refl;
  writes = refl;
}

abbrev at_event : Str
at_event = event_path dir (event_file stored_block)

abbrev at_mark : Str
at_mark = closed_path dir (event_file stored_block)

two_bytes : 20 + payload_size stored_block ≤ length stored_block.mem
unfolding payload_size
two_bytes = omega arith

two_bytes_read : 20 + payload_size stored_block ≤ 0x20000
unfolding payload_size
two_bytes_read = omega arith

not_event : [] ≢ at_event
not_event e = absurd (omega (arith, ap length e))

not_mark : [] ≢ at_mark
not_mark e = absurd (omega (arith, ap length e))

pull-store_example :
    (d' : fs.Disk) × (store_buffer fs stored_block dir disk ≡ some d')
    × Carried stored_block (pull fs (event_file stored_block) large_block dir d').0
    × ((pull fs (event_file stored_block) large_block dir d').1 at_event ≡ none)
    × ((pull fs (event_file stored_block) large_block dir d').1 at_mark ≡ none)
    × ((pull fs (event_file stored_block) large_block dir d').1 [] ≡ disk [])
pull-store_example =
    pull-store fs fs_laws stored_block large_block dir disk can_store [] two_bytes two_bytes_read
      (room_of_zeros 0x20000 (omega arith)) not_event not_mark

name_round_trip_example :
    (FileName.det_id (name 1 2 5 7) ≡ some 1)
    × (FileName.source_id (name 1 2 5 7) ≡ some 2)
    × (FileName.event_id (name 1 2 5 7) ≡ some 5)
    × (FileName.bx_id (name 1 2 5 7) ≡ some 7)
name_round_trip_example =
    name_round_trip 1 2 5 7 (omega arith) (omega arith) (omega arith) (omega arith)
