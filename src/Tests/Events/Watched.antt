-- ===== src/Tests/Events/Watched.antt =====
-- A monitor that stores an event of two blocks.
use levbdim.Base.{
  ◌≡◌, ◌+◌, ◌++◌, ◌≤◌, refl, subst, sym, ◌∙◌, ℕ, List, [], ◌∷◌, some, true, false, ltb, length, All,
  Option, str_eq, ◌*◌, arith,
}
use levbdim.Buffer.{
  Buffer, payload_size, image, u32, event_id, detector_id, data_source_id, bx_id, size,
}
use levbdim.Shm.Name.{name, dec}
use levbdim.Shm.Files.{pull, event_path, closed_path, ls, store, max_read}
use levbdim.Shm.Transfer.{CanStore, Carried, event_file, store_buffer}
use levbdim.Source.Monitor.{MonitorProcessor, process_event}
use levbdim.Source.Monitored.{CanStoreAll, pull-process_event}
use levbdim.Tests.Systems.{fs, fs_laws, disk, put, Files}
use levbdim.Tests.Events.{block, large_block, dir, room_of_zeros}

abbrev first_block : Buffer
first_block = block 1 5

abbrev second_block : Buffer
second_block = block 2 5

abbrev monitor : MonitorProcessor
monitor = record { directory = dir; run = 3; event = 4; started = true }

abbrev event : List Buffer
event = first_block ∷ second_block ∷ []

abbrev first_path : List ℕ
first_path = event_path dir (event_file first_block)

-- The disk once the first block is stored.
abbrev between : Files
between =
    put (closed_path dir (event_file first_block)) (some [])
      (put first_path (some (image first_block ++ [])) (put first_path (some []) disk))

CanStore-first : CanStore fs fs_laws first_block dir (event_file first_block) disk
unfolding detector_id data_source_id event_id bx_id name dec
CanStore-first = record {
  fits = refl;
  fresh = refl;
  opened = put first_path (some []) disk;
  opens = refl;
  writes = refl;
}

CanStore-second : CanStore fs fs_laws second_block dir (event_file second_block) between
unfolding detector_id data_source_id event_id bx_id name dec str_eq
CanStore-second = record {
  fits = refl;
  fresh = refl;
  opened = put (event_path dir (event_file second_block)) (some []) between;
  opens = refl;
  writes = refl;
}

first_stored : store_buffer fs first_block dir disk ≡ some between
unfolding store detector_id data_source_id event_id bx_id name dec image size str_eq
first_stored = refl

same_disk : (d d' : Files) → ◌≡◌ {A = Option Files} (some d) (some d') → d ≡ d'
same_disk d d' e = cc e

CanStoreAll-event : CanStoreAll fs fs_laws dir event disk
CanStoreAll-event = (
  CanStore-first,
  λ d' e. (
    subst (λ d. CanStore fs fs_laws second_block dir (event_file second_block) d)
        (same_disk between d' (sym first_stored ∙ e)) CanStore-second,
    λ d'' _. tt,
  ),
)

few_wait : ltb (u32 (20 * u32 (length event))) (length (ls fs monitor.directory disk)) ≡ false
unfolding ls
few_wait = refl

sizes : All (λ b. (20 + payload_size b ≤ length b.mem) × (20 + payload_size b ≤ max_read)) event
unfolding payload_size
sizes = omega arith

pull-process_event_example :
    (d' : Files) × (process_event fs 5 event disk monitor
      ≡ some (d', event, record monitor { event = u32 5 }))
    × All (λ b. Carried b (pull fs (event_file b) large_block monitor.directory d').0) event
pull-process_event_example =
    pull-process_event fs fs_laws monitor 5 event disk large_block refl few_wait CanStoreAll-event
      sizes (room_of_zeros 0x20000 (omega arith))
