-- ===== src/Source/Monitored.antt =====
-- src/monitorProcessor.cxx, src/shmdriver.cxx: what a monitor stores is what a client pulls.
use levbdim.Base.{
  ◌+◌, ◌*◌, ◌≤◌, ◌≡◌, ◌≢◌, refl, ap, sym, ◌∙◌, List, [], ◌∷◌, ◌++◌, some, true, false, length,
  arith, drop, drop-append, ltb, All, Str, codes, ℕ,
}
use levbdim.Buffer.{Bytes, Buffer, image, payload_size, u32}
use levbdim.Shm.Posix.{FileSystem, Laws}
use levbdim.Shm.Name.{name}
use levbdim.Shm.Files.{event_path, closed_path, max_read, ls, pull}
use levbdim.Shm.Transfer.{
  CanStore, Carried, event_file, store_buffer, store_runs, pulled, loaded-Carried,
}
use levbdim.Source.Monitor.{MonitorProcessor, store_all, process_event}

-- No stored event is the mark of another: their names differ behind the slash.
abbrev second : Str → ℕ
second [] = 0
second (x ∷ []) = 0
second (x ∷ y ∷ s) = y

path-ne-mark :
    (dir : Str) (b c : Buffer) → event_path dir (event_file b) ≢ closed_path dir (event_file c)
unfolding name
path-ne-mark dir b c e =
    let tails : codes "/" ++ event_file b ≡ codes "/closed/" ++ event_file c =
      sym (drop-append dir (codes "/" ++ event_file b))
      ∙ ap (drop (length dir)) e
      ∙ drop-append dir (codes "/closed/" ++ event_file c) in
    absurd (omega (arith, ap second tails))

module _ (fs : FileSystem) (laws : Laws fs) (dir : Str) where
  open fs use {Disk}
  open laws use {file}

  -- The buffers can be stored one after another.
  abbrev pub CanStoreAll : List Buffer → Disk → Type 0
  CanStoreAll [] d = Unit
  CanStoreAll (b ∷ bs) d =
      CanStore fs laws b dir (event_file b) d
      × ((d' : Disk) → store_buffer fs b dir d ≡ some d' → CanStoreAll bs d')

  -- Storing a buffer in a fresh file leaves the stored events alone.
  stays :
      (a b : Buffer) (bytes : Bytes) (d d' : Disk)
      → CanStore fs laws b dir (event_file b) d
      → ((q : Str)
          → q ≢ event_path dir (event_file b)
          → q ≢ closed_path dir (event_file b)
          → file q d' ≡ file q d)
      → file (event_path dir (event_file a)) d ≡ some bytes
      → file (event_path dir (event_file a)) d' ≡ some bytes
  stays a b bytes d d' can same here =
      same (event_path dir (event_file a)) (λ e. cc (can.fresh, ap (λ p. file p d) e))
        (path-ne-mark dir a b)
      ∙ here

  store_all_lem :
      (bs : List Buffer) (d : Disk)
      → CanStoreAll bs d
      → (d' : Disk) × (store_all fs bs dir d ≡ some d')
        × All (λ b. file (event_path dir (event_file b)) d' ≡ some (image b)) bs
        × ((a : Buffer) (bytes : Bytes)
            → file (event_path dir (event_file a)) d ≡ some bytes
            → file (event_path dir (event_file a)) d' ≡ some bytes)
  unfolding store_all
  store_all_lem [] d can = (d, refl, tt, λ a bytes here. here)
  store_all_lem (b ∷ bs) d (can, more) =
      let (d', one, here, same) = store_runs fs laws b b dir d can in
      let (d'', rest, lie, stay) = store_all_lem bs d' (more d' one) in
      (
        d'',
        rw (one, store_all) rest,
        (stay b (image b) here, lie),
        λ a bytes h. stay a bytes (stays a b bytes d d' can same h),
      )

  -- The files of a vector that was stored are the blocks of the vector for whoever pulls them.
  pulls-All :
      (f : Buffer) (bs : List Buffer) (d d' : Disk)
      → max_read ≤ length f.mem
      → CanStoreAll bs d
      → All (λ b. (20 + payload_size b ≤ length b.mem) × (20 + payload_size b ≤ max_read)) bs
      → All (λ b. file (event_path dir (event_file b)) d' ≡ some (image b)) bs
      → All (λ b. Carried b (pull fs (event_file b) f dir d').0) bs
  pulls-All f [] d d' big can fit lie = tt
  pulls-All f (b ∷ bs) d d' big (can, more) ((filled, readable), fit) (here, lie) =
      let (e, one, _, _) = store_runs fs laws b f dir d can in
      (
        rw (pulled fs laws b f dir d can filled readable big d' here)
            (loaded-Carried b f filled (omega arith) (omega arith)),
        pulls-All f bs e d' big (more e one) fit lie,
      )

-- A monitor that was started, in whose directory at most twenty files for each buffer of the event
-- wait, and in which the event's buffers can be stored one after another, each of a size that a
-- read takes in: handling an event runs without a fault, counts it, and leaves the buffers to the
-- next processor as they were. From the directory that it leaves, `pull` fills a block of at least
-- 128 KiB with the ids, the payload and the payload size of each of the event's buffers, found
-- under the buffer's own ids.
pub pull-process_event :
    (fs : FileSystem) (laws : Laws fs) (m : MonitorProcessor) (key : ℕ) (bufs : List Buffer)
    (d : fs.Disk) (f : Buffer)
    → m.started ≡ true
    → ltb (u32 (20 * u32 (length bufs))) (length (ls fs m.directory d)) ≡ false
    → CanStoreAll fs laws m.directory bufs d
    → All (λ b. (20 + payload_size b ≤ length b.mem) × (20 + payload_size b ≤ max_read)) bufs
    → max_read ≤ length f.mem
    → (d' : fs.Disk) × (process_event fs key bufs d m
        ≡ some (d', bufs, record m { event = u32 (m.event + 1) }))
      × All (λ b. Carried b (pull fs (event_file b) f m.directory d').0) bufs
unfolding process_event
pull-process_event fs laws m key bufs d f started few can fit big =
    let (d', stored, lie, stay) = store_all_lem fs laws m.directory bufs d can in
    (d', rw (started, few, stored) refl, pulls-All fs laws m.directory f bufs d d' big can fit lie)
