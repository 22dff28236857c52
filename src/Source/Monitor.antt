-- ===== src/Source/Monitor.antt =====
-- src/monitorProcessor.cxx, include/monitorProcessor.hh: a processor that stores complete events
-- in another directory, for a client that watches it.
use levbdim.Base.{
  ℕ, ◌+◌, ◌*◌, List, [], ◌∷◌, Option, some, Bool, true, false, not, ◌>>=◌, if◌then◌else◌, ltb, Str,
  length,
}
use levbdim.Buffer.{Buffer, detector_id, data_source_id, event_id, bx_id, image, u32}
use levbdim.Shm.Posix.{FileSystem}
use levbdim.Shm.Files.{ls, store}
use levbdim.Shm.Driver.{ShmProcessor}

pub record MonitorProcessor : Type 0 where
  pub directory : Str
  pub run : ℕ
  pub event : ℕ
  pub started : Bool

unfoldable pub new_monitor : Str → MonitorProcessor
new_monitor dire = record { directory = dire; run = 0; event = 0; started = false }

unfoldable pub start : ℕ → MonitorProcessor → MonitorProcessor
start run m = record m { run = run; event = 0; started = true }

unfoldable pub stop : MonitorProcessor → MonitorProcessor
stop m = record m { started = false }

module _ (fs : FileSystem) where
  open fs use {Disk}

  unfoldable pub store_all : List Buffer → Str → Disk → Option Disk
  unfolding store detector_id data_source_id event_id bx_id image
  store_all [] dir disk = some disk
  store_all (b ∷ bs) dir disk =
      store fs (detector_id b) (data_source_id b) (event_id b) (bx_id b) (image b) dir disk
      >>= λ disk'. store_all bs dir disk'

  -- Nothing is stored, or counted, while more than twenty events' files wait.
  unfoldable pub process_event :
      ℕ → List Buffer → Disk → MonitorProcessor → Option (Disk × List Buffer × MonitorProcessor)
  unfolding ls store_all
  process_event key bufs disk m =
      if not m.started
      then some (disk, bufs, m)
      else if ltb (u32 (20 * u32 (length bufs))) (length (ls fs m.directory disk))
      then some (disk, bufs, m)
      else (store_all bufs m.directory disk >>= λ disk'.
          some (disk', bufs, record m { event = u32 (m.event + 1) }))

  unfoldable pub monitor_processor : ShmProcessor Disk MonitorProcessor
  unfolding start stop process_event
  monitor_processor = record {
    start = λ nr disk m. (disk, start nr m);
    stop = λ disk m. (disk, stop m);
    process_event = process_event;
    process_run_header = λ header disk m. some (disk, m);
  }
