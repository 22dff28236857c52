-- ===== src/Tests/Events/Rounds.antt =====
-- Rounds of the scan, over files that wait.
use levbdim.Base.StdMap
use levbdim.Base.StdMap.{nat_key, IsDistinct}
use levbdim.Shm.Driver.{EventMap, number_of_data_source, pending, unregister_data_source}
use levbdim.Shm.Clean.{is_stale, clean_buffer_map_lem}
use levbdim.Shm.Scan.{clean_buffer_map}
use levbdim.Shm.Delivery.{IsBegun}
use levbdim.Base.{◌<◌, refl, none, if◌then◌else◌, true, ◌++◌, length, keep, ◌%◌, ◌^◌}
use levbdim.Buffer.{event_id}
use levbdim.Shm.Files.{pull}
use levbdim.Shm.Live.{scan_files-delivers}
use levbdim.Shm.Keys.{unregister-register}
use levbdim.Shm.Batch.{is_handed, is_waiting, last_id, process_events_lem}
use levbdim.Base.{ℕ, All, ◌≡◌, List, [], ◌∷◌, some, Str, codes, arith}
use levbdim.Buffer.{Bytes}
use levbdim.Shm.Files.{ls, event_path}
use levbdim.Shm.Driver.{ShmDriver, new, register_processor, register_data_source}
use levbdim.Shm.Scan.{scan_files, scan_round, process_events}
use levbdim.Shm.Delivery.{Log, recorder, Progress, delivered, of_event}
use levbdim.Shm.Posix.{FileSystem}
use levbdim.Shm.Delivery.Round
use levbdim.Shm.Delivery.Round.{IsShort, IsDriver, scan_files-Progress, scan_round-IsDriver}
use levbdim.Tests.Systems.{real, zeros, fs, disk, put}
use levbdim.Tests.Events.{block, driver, driver-IsSound}

-- Two files, one of each source, that are there to be pulled.
abbrev pub waiting : List Str
waiting = codes "Event_1_1_5_7" ∷ codes "Event_1_2_5_7" ∷ []

abbrev pub busy_fs : FileSystem
busy_fs = record fs { scandir = λ path d. codes "." ∷ codes ".." ∷ waiting }

abbrev pub busy_disk : fs.Disk
busy_disk =
    put (event_path [] (codes "Event_1_1_5_7")) (some (block 1 5).mem)
      (put (event_path [] (codes "Event_1_2_5_7")) (some (block 2 5).mem) disk)

abbrev pub fresh : Str → Bytes
fresh file = zeros 0x80000

scan_files-Progress_example :
    (disk' : fs.Disk) × (d' : ShmDriver Log) × (t' : ℕ) × (log' : Log) × (scan_files busy_fs
        recorder real fresh waiting busy_disk driver 0
      ≡ some (disk', d', t'))
    × Progress [] driver (Round.pulled busy_fs real fresh waiting driver.memdir busy_disk) log' d'
scan_files-Progress_example =
    scan_files-Progress busy_fs real fresh waiting busy_disk [] driver 0 driver-IsSound

IsShort-names : All (IsShort busy_fs real fresh driver.memdir) (ls busy_fs driver.memdir busy_disk)
unfolding ls register_data_source register_processor new
IsShort-names = (omega arith, (omega arith, tt))

scan_round-IsDriver_example :
    (disk' : fs.Disk) × (d' : ShmDriver Log) × (scan_round busy_fs recorder real fresh busy_disk
        driver
      ≡ some (disk', d'))
    × IsDriver busy_fs real fresh driver.memdir d'
scan_round-IsDriver_example =
    scan_round-IsDriver busy_fs real fresh [] driver driver-IsSound busy_disk IsShort-names

-- The driver while event 5 waits for its second source.
abbrev waiting_driver : ShmDriver Log
waiting_driver = record driver { event_map = (5, block 1 5 ∷ []) ∷ [] }

waiting-IsBegun : All IsBegun waiting_driver.event_map
waiting-IsBegun = (omega arith, tt)

waiting-IsDistinct : IsDistinct waiting_driver.event_map
unfolding StdMap.find
waiting-IsDistinct = (refl, tt)

clean_buffer_map_lem_example :
    (m : EventMap) × (clean_buffer_map real 100 10 waiting_driver
      ≡ some (record waiting_driver { event_map = m }))
    × (StdMap.find 5 m ≡ (
        if is_stale real
          (number_of_data_source waiting_driver)
          100
          10
          (StdMap.find 5 waiting_driver.event_map)
        then none
        else StdMap.find 5 waiting_driver.event_map))
clean_buffer_map_lem_example =
    clean_buffer_map_lem real 5 100 10 waiting_driver waiting-IsBegun waiting-IsDistinct

-- The two files bring event 5 to its end.
abbrev small : Str → Bytes
small file = zeros 22

two_buffers :
    length (
      pending 5 driver
      ++ of_event 5 (Round.pulled busy_fs real small waiting driver.memdir busy_disk))
    ≡ number_of_data_source driver
unfolding number_of_data_source register_data_source register_processor new keep pull event_id
    StdMap.find levbdim.Base.str_eq levbdim.Buffer.new_buffer zeros
two_buffers = refl

scan_files-delivers_example :
    (disk' : fs.Disk) × (d' : ShmDriver Log) × (t' : ℕ) × (log' : Log) × (scan_files busy_fs
        recorder real small waiting busy_disk driver 0
      ≡ some (disk', d', t'))
    × (delivered 5 log'
        ≡ delivered 5 []
          ++ (pending 5 driver
              ++ of_event 5 (Round.pulled busy_fs real small waiting driver.memdir busy_disk)))
    × (pending 5 d' ≡ [])
scan_files-delivers_example =
    scan_files-delivers busy_fs real small waiting busy_disk [] driver 0 5 driver-IsSound
      (λ e. omega (arith, e)) two_buffers

unregister-register_example :
    unregister_data_source 3 9 (register_data_source 3 9 (new {P = Log} [] true))
    ≡ register_data_source 3 9 (new [] true)
unfolding new
unregister-register_example =
    unregister-register 3 9 (new [] true) (λ e. omega (arith, e)) (omega arith) tt

-- Event 0 and event 6 are complete, event 5 is not.
abbrev batch_driver : ShmDriver Log
batch_driver = record driver {
  event_map =
      (0, block 1 0 ∷ block 2 0 ∷ []) ∷ (5, block 1 5 ∷ []) ∷ (6, block 1 6 ∷ block 2 6 ∷ []) ∷ [];
}

abbrev batch_size : ℕ
batch_size = number_of_data_source batch_driver

abbrev batch_handed : Log
batch_handed = keep (is_handed batch_size) batch_driver.event_map

ids-small : All (λ e. e.0 < 2 ^ 32) batch_driver.event_map
ids-small = (omega arith, (omega arith, (omega arith, tt)))

one_processor : batch_driver.processors ≡ [] ∷ []
unfolding register_data_source register_processor new
one_processor = refl

process_events_lem_example :
    process_events recorder real disk batch_driver
    ≡ some (
      disk,
      record batch_driver {
        processors = ([] ++ batch_handed) ∷ [];
        evt = last_id batch_handed batch_driver.evt;
        event_map = keep (is_waiting batch_size) batch_driver.event_map;
      },
    )
process_events_lem_example = process_events_lem real disk [] batch_driver one_processor ids-small

handed_6 : batch_handed ≡ (6, block 1 6 ∷ block 2 6 ∷ []) ∷ []
unfolding number_of_data_source register_data_source register_processor new keep
handed_6 = refl
