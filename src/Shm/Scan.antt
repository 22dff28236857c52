-- ===== src/Shm/Scan.antt =====
-- src/shmdriver.cxx: `scanMemory` and what it calls, `cleanBufferMap`, `processEvents`,
-- `processRunHeader`, `start` and `stop`.
use levbdim.Base.{
  ℕ, ◌%◌, List, [], ◌∷◌, ◌++◌, Option, some, none, Bool, true, false, not, ◌>>=◌, if◌then◌else◌,
  ◌==◌, Str, length,
}
use levbdim.Base.StdMap
use levbdim.Base.StdMap.{StdMap, nat_key}
use levbdim.Buffer.{Bytes, Buffer, new_buffer, event_id, bx_id, u32}
use levbdim.Shm.Posix.{FileSystem}
use levbdim.Shm.Files.{ls, pull, purge_shm}
use levbdim.Shm.Driver.{
  ShmProcessor, Double, EventMap, ShmDriver, number_of_data_source, run_processors, process_event,
}

-- `cleanBufferMap`: the events that are incomplete and whose first buffer is too old.
module _ (real : Double) where
  open real use {Real, time_of, exceeds, nonzero, real_zero}

  -- The keys to remove; `none` where an event has no buffer to read a time from.
  unfoldable pub stale : ℕ → Real → ℕ → EventMap → Option (List ℕ)
  stale n last delay [] = some []
  stale n last delay ((k, []) ∷ m) = stale n last delay m >>= λ vr. if 0 == n then some vr else none
  stale n last delay ((k, b ∷ bs) ∷ m) = stale n last delay m >>= λ vr.
      if length (b ∷ bs) == n
      then some vr
      else if exceeds last (time_of (bx_id b)) delay
      then some (k ∷ vr)
      else some vr

  unfoldable pub erase_all : List ℕ → EventMap → EventMap
  unfolding StdMap.erase
  erase_all [] m = m
  erase_all (k ∷ ks) m = erase_all ks (StdMap.erase k m)

  module _ {P : Type 0} where
    unfoldable pub clean_buffer_map : Real → ℕ → ShmDriver P → Option (ShmDriver P)
    unfolding stale erase_all number_of_data_source
    clean_buffer_map last delay d = stale (number_of_data_source d) last delay d.event_map >>= λ vr.
        some (record d { event_map = erase_all vr d.event_map })

-- The event map with one more buffer, at the end of its event's vector.
unfoldable pub add_buffer : Buffer → EventMap → EventMap
unfolding StdMap.find StdMap.update StdMap.insert
add_buffer b m = elim (StdMap.find (event_id b) m) [
  | none ↦ StdMap.insert (event_id b) (b ∷ []) m
  | some bufs ↦ StdMap.update (event_id b) (bufs ++ b ∷ []) m
]

-- `*v.begin()`; `none` on an empty vector.
abbrev pub head? {ℓ} : {A : Type ℓ} → List A → Option A
head? [] = none
head? (x ∷ xs) = some x

module _ {W P : Type 0} (proc : ShmProcessor W P) (real : Double) where
  open real use {Real, time_of, nonzero, real_zero}

  -- The body of the loop over the files, once the buffer is pulled; `twrite` is threaded.
  unfoldable pub collect : Buffer → W → ShmDriver P → Real → Option (W × ShmDriver P × Real)
  unfolding add_buffer process_event
  collect b w d twrite =
      let d' = record d { event_map = add_buffer b d.event_map } in
      elim (StdMap.find (event_id b) d'.event_map) [
        | none ↦ none
        | some bufs ↦
            if length bufs == number_of_data_source d
            then (head? bufs >>= λ first. process_event proc (u32 (event_id b)) w d' >>= λ r.
                some (r.0, r.1, time_of (bx_id first)))
            else some (w, d', twrite)
      ]

  -- A run of the loop over buffers that are pulled already.
  unfoldable pub collect_all :
      List Buffer → W → ShmDriver P → Real → Option (W × ShmDriver P × Real)
  unfolding collect
  collect_all [] w d twrite = some (w, d, twrite)
  collect_all (b ∷ bs) w d twrite = collect b w d twrite >>= λ r. collect_all bs r.0 r.1 r.2

  -- `processEvents`: every complete event but event 0 goes to the processors, in the order of the
  -- ids; the complete ones, event 0 among them, are then removed.
  abbrev pub is_full : ℕ → List Buffer → Bool
  is_full n bufs = length bufs == n

  unfoldable pub process_full : ℕ → EventMap → W → List P → ℕ → Option (W × List P × ℕ)
  unfolding run_processors
  process_full n [] w ps evt = some (w, ps, evt)
  process_full n ((k, bufs) ∷ m) w ps evt = elim (is_full n bufs) [
    | false ↦ process_full n m w ps evt
    | true ↦ elim (k == 0) [
      | true ↦ process_full n m w ps evt
      | false ↦ run_processors proc (u32 k) bufs w ps >>= λ r. process_full n m r.0 r.2 (u32 k)
    ]
  ]

  unfoldable pub drop_full : ℕ → EventMap → EventMap
  drop_full n [] = []
  drop_full n ((k, bufs) ∷ m) = if is_full n bufs then drop_full n m else (k, bufs) ∷ drop_full n m

  -- One round of its loop.
  unfoldable pub process_events : W → ShmDriver P → Option (W × ShmDriver P)
  unfolding process_full drop_full number_of_data_source
  process_events w d =
      process_full (number_of_data_source d) d.event_map w d.processors d.evt >>= λ r. some (
        r.0,
        record d {
          processors = r.1;
          evt = r.2;
          event_map = drop_full (number_of_data_source d) d.event_map;
        },
      )

  unfoldable pub start_processors : ℕ → W → List P → W × List P
  start_processors nr w [] = (w, [])
  start_processors nr w (p ∷ ps) =
      let (w', p') = proc.start nr w p in
      let (w'', ps') = start_processors nr w' ps in (w'', p' ∷ ps')

  unfoldable pub stop_processors : W → List P → W × List P
  stop_processors w [] = (w, [])
  stop_processors w (p ∷ ps) =
      let (w', p') = proc.stop w p in let (w'', ps') = stop_processors w' ps in (w'', p' ∷ ps')

  -- `start`, up to the creation of the thread that runs `scanMemory`.
  unfoldable pub start : ℕ → W → ShmDriver P → W × ShmDriver P
  unfolding start_processors
  start nr w d =
      let (w', ps) = start_processors nr w d.processors in
      (w', record d { run = nr; evt = 0; processors = ps; running = true })

  -- `stop`; the thread has ended when the processors are stopped.
  unfoldable pub stop : W → ShmDriver P → W × ShmDriver P
  unfolding stop_processors
  stop w d =
      let (w', ps) = stop_processors w d.processors in
      (w', record d { processors = ps; running = false })

  run_headers : List ℕ → W → List P → Option (W × List P)
  run_headers header w [] = some (w, [])
  run_headers header w (p ∷ ps) = proc.process_run_header header w p >>= λ r.
      run_headers header r.0 ps >>= λ s. some (s.0, r.1 ∷ s.1)

  unfoldable pub process_run_header : W → ShmDriver P → Option (W × ShmDriver P)
  unfolding run_headers
  process_run_header w d =
      run_headers d.run_header w d.processors >>= λ r. some (r.0, record d { processors = r.1 })

-- `scanMemory`, where the processors' world is the disk. `junk` is what the block that is
-- allocated for a file happens to hold.
module _ (fs : FileSystem) {P : Type 0} (proc : ShmProcessor fs.Disk P) (real : Double)
    (junk : Str → Bytes) where
  open fs use {Disk}
  open real use {Real, nonzero, real_zero}

  unfoldable pub scan_files :
      List Str → Disk → ShmDriver P → Real → Option (Disk × ShmDriver P × Real)
  unfolding pull new_buffer collect
  scan_files [] disk d twrite = some (disk, d, twrite)
  scan_files (file ∷ files) disk d twrite =
      let (b, disk') = pull fs file (new_buffer (junk file)) d.memdir disk in
      collect proc real b disk' d twrite >>= λ r. scan_files files r.0 r.1 r.2

  abbrev pub clean_after : Disk × ShmDriver P × Real → Option (Disk × ShmDriver P)
  clean_after (disk, d, twrite) =
      if nonzero twrite
      then (clean_buffer_map real twrite 10 d >>= λ d'. some (disk, d'))
      else some (disk, d)

  -- One round of the loop. A remainder by zero, with no data source registered, is undefined.
  unfoldable pub scan_round : Disk → ShmDriver P → Option (Disk × ShmDriver P)
  unfolding ls scan_files purge_shm clean_buffer_map
  scan_round disk d =
      let vnames = ls fs d.memdir disk in
      let n = number_of_data_source d in
      if length vnames == 0
      then some (disk, d)
      else if n == 0
      then none
      else if not (length vnames % n == 0)
      then (purge_shm fs d.memdir disk >>= λ disk'. some (disk', d))
      else scan_files vnames disk d real_zero >>= clean_after

  -- The loop: before each round the sources change the disk.
  unfoldable pub scan_memory : List (Disk → Disk) → Disk → ShmDriver P → Option (Disk × ShmDriver P)
  unfolding scan_round
  scan_memory [] disk d = some (disk, d)
  scan_memory (sources ∷ later) disk d = elim d.running [
    | false ↦ some (disk, d)
    | true ↦ scan_round (sources disk) d >>= λ r. scan_memory later r.0 r.1
  ]
