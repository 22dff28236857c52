-- ===== src/Shm/Transfer.antt =====
-- src/shmdriver.cxx: an event that `store` wrote is what `pull` reads.
use levbdim.Base.{
  ℕ, zero, suc, ◌+◌, ◌-◌, ◌^◌, ◌≤◌, ◌<◌, ◌≡◌, ◌≢◌, refl, ap, sym, ◌∙◌, [], ◌∷◌, ◌++◌, Option, some,
  none, true, inl, inr, Option-cases, ==_refl, Str, codes, length, length-append, length-take, take,
  drop, slice, take_all, arith,
}
use levbdim.Buffer.{
  Bytes, Buffer, overwrite, u32, image, size, payload_bytes, payload_size, from_bytes, detector_id,
  data_source_id, event_id, bx_id,
}
use levbdim.Buffer.Layout.{ids}
use levbdim.Shm.Posix.{FileSystem, Laws}
use levbdim.Shm.Name.{name}
use levbdim.Shm.Files.{event_path, closed_path, path_fits, max_read, pull, store, mark_closed}

-- The event's file and its mark in `closed/` are two files.
event-ne-closed : (dir file : Str) → event_path dir file ≢ closed_path dir file
event-ne-closed dir file e = absurd (
    omega (
      arith,
      ap length e,
      length-append dir (codes "/" ++ file),
      length-append dir (codes "/closed/" ++ file),
    ))

overwrite-prefix :
    (bs mem : Bytes) → length bs ≤ length mem → overwrite bs mem ≡ bs ++ drop (length bs) mem
unfolding overwrite
overwrite-prefix [] mem h = refl
overwrite-prefix (b ∷ bs) [] h = absurd (omega arith)
overwrite-prefix (b ∷ bs) (x ∷ mem) h = ap (λ t. b ∷ t) (overwrite-prefix bs mem (omega arith))

-- A slice within a prefix, and within bytes that were copied to the start of a block.
slice-take : (o n k : ℕ) (mem : Bytes) → o + n ≤ k → slice o n (take k mem) ≡ slice o n mem
slice-take o n zero [] h = refl
slice-take o n (suc k) [] h = refl
slice-take zero zero k (x ∷ mem) h = refl
slice-take zero (suc n) zero (x ∷ mem) h = absurd (omega arith)
slice-take zero (suc n) (suc k) (x ∷ mem) h =
    ap (λ t. x ∷ t) (slice-take zero n k mem (omega arith))
slice-take (suc o) n zero (x ∷ mem) h = absurd (omega arith)
slice-take (suc o) n (suc k) (x ∷ mem) h = slice-take o n k mem (omega arith)

slice-overwrite :
    (o n : ℕ) (bs mem : Bytes)
    → o + n ≤ length bs
    → length bs ≤ length mem
    → slice o n (overwrite bs mem) ≡ slice o n bs
unfolding overwrite
slice-overwrite zero zero bs mem h room = refl
slice-overwrite zero (suc n) [] mem h room = absurd (omega arith)
slice-overwrite (suc o) n [] mem h room = absurd (omega arith)
slice-overwrite o n (b ∷ bs) [] h room = absurd (omega arith)
slice-overwrite zero (suc n) (b ∷ bs) (x ∷ mem) h room =
    ap (λ t. b ∷ t) (slice-overwrite zero n bs mem (omega arith) (omega arith))
slice-overwrite (suc o) n (b ∷ bs) (x ∷ mem) h room =
    slice-overwrite o n bs mem (omega arith) (omega arith)

-- What `read` delivers of a stored block: its first `size()` bytes, laid over another block.
abbrev pub loaded : Bytes → Buffer → Buffer
loaded bytes b = record { mem = overwrite bytes b.mem; psize = u32 (length bytes + 2 ^ 32 - 20) }

-- A block whose image fits a read is carried over: ids, payload and sizes.
pub record Carried (b c : Buffer) : Type 0 where
  pub ids_kept : ids c ≡ ids b
  pub payload_kept : payload_bytes c ≡ payload_bytes b
  pub size_kept : payload_size c ≡ payload_size b

module _ (b f : Buffer) (filled : 20 + payload_size b ≤ length b.mem)
    (small : 20 + payload_size b < 2 ^ 32) (room : 20 + payload_size b ≤ length f.mem) where
  pub length-image : length (image b) ≡ 20 + payload_size b
  unfolding image payload_size
  length-image = omega (arith, filled, small, length-take (size b) b.mem)

  slice-image : (o n : ℕ) → o + n ≤ 20 + payload_size b → slice o n (image b) ≡ slice o n b.mem
  unfolding image size payload_size
  slice-image o n h = slice-take o n (size b) b.mem (omega (arith, small))

  slice-loaded :
      (o n : ℕ) → o + n ≤ 20 + payload_size b → slice o n (loaded (image b) f).mem ≡ slice o n b.mem
  slice-loaded o n h =
      slice-overwrite o n (image b) f.mem (omega (arith, length-image))
        (omega (arith, length-image, small, room))
      ∙ slice-image o n h

  ids-loaded : ids (loaded (image b) f) ≡ ids b
  unfolding ids
  ids-loaded = λ i. record {
    detector = from_bytes (slice-loaded 0 4 (omega arith) i);
    source = from_bytes (slice-loaded 4 4 (omega arith) i);
    event = from_bytes (slice-loaded 8 4 (omega arith) i);
    bx = from_bytes (slice-loaded 12 8 (omega arith) i);
  }

  size-loaded : (loaded (image b) f).psize ≡ payload_size b
  size-loaded = omega (arith, length-image, small)

  pub loaded-Carried : Carried b (loaded (image b) f)
  unfolding payload_bytes payload_size
  loaded-Carried = record {
    ids_kept = ids-loaded;
    payload_kept =
        ap (λ n. slice 20 n (loaded (image b) f).mem) size-loaded
        ∙ slice-loaded 20 (payload_size b) (omega arith);
    size_kept = size-loaded;
  }

-- A disk on which the event's directory takes new files and nothing of that name stands there.
pub record CanStore (fs : FileSystem) (laws : Laws fs) (b : Buffer) (dir file : Str) (d : fs.Disk)
    : Type 0 where
  pub fits : path_fits (closed_path dir file) ≡ true
  pub fresh : laws.file (event_path dir file) d ≡ none
  pub opened : fs.Disk
  pub opens : fs.open_create (event_path dir file) d ≡ some opened
  pub writes : (fs.write (event_path dir file) (image b) opened).0 ≡ length (image b)

event_path-fits :
    (dir file : Str)
    → path_fits (closed_path dir file) ≡ true
    → path_fits (event_path dir file) ≡ true
event_path-fits dir file h =
    ground
      (arith, length-append dir (codes "/" ++ file), length-append dir (codes "/closed/" ++ file))

-- The file name under which `infoHandler` stores a block.
abbrev pub event_file : Buffer → Str
event_file b = name (detector_id b) (data_source_id b) (event_id b) (bx_id b)

abbrev pub store_buffer : (fs : FileSystem) → Buffer → Str → fs.Disk → Option fs.Disk
store_buffer fs b dir d =
    store fs (detector_id b) (data_source_id b) (event_id b) (bx_id b) (image b) dir d

module _ (fs : FileSystem) (laws : Laws fs) (b f : Buffer) (dir : Str) (d : fs.Disk)
    (can : CanStore fs laws b dir (event_file b) d) where
  open fs use {Disk}
  open laws use {file}

  abbrev path : Str
  path = event_path dir (event_file b)

  abbrev mark : Str
  mark = closed_path dir (event_file b)

  mark_runs :
      (e : Disk)
      → (e' : Disk) × (mark_closed fs dir (event_file b) e ≡ some e')
        × ((q : Str) → q ≢ mark → file q e' ≡ file q e)
  mark_runs e = elim (Option-cases (fs.open_create mark e)) [
    | inl shut ↦ (e, rw (can.fits, shut), λ q other. refl)
    | inr (e', marked) ↦
        (e', rw (can.fits, marked), λ q other. laws.open-other mark q e e' marked other)
  ]

  pub store_runs :
      (d' : Disk) × (store_buffer fs b dir d ≡ some d')
      × (file path d' ≡ some (image b))
      × ((q : Str) → q ≢ path → q ≢ mark → file q d' ≡ file q d)
  unfolding store
  store_runs =
      let written : Disk = (fs.write path (image b) can.opened).1 in
      let (d', marked, kept) = mark_runs written in
      let empty : file path can.opened ≡ some [] =
        laws.open-new path d can.opened can.opens can.fresh in
      (
        d',
        rw
            (
              event_path-fits dir (event_file b) can.fits,
              can.opens,
              can.writes,
              ==_refl (length (image b)),
            )
            marked,
        kept path (event-ne-closed dir (event_file b))
            ∙ laws.write-empty path (image b) can.opened empty can.writes,
        λ q other other'.
            kept q other'
            ∙ laws.write-other path q (image b) can.opened other
            ∙ laws.open-other path q d can.opened can.opens other,
      )

  pub pulled :
      20 + payload_size b ≤ length b.mem
      → 20 + payload_size b ≤ max_read
      → max_read ≤ length f.mem
      → (d' : Disk) → file path d' ≡ some (image b)
      → pull fs (event_file b) f dir d' ≡ (loaded (image b) f, fs.unlink path (fs.unlink mark d'))
  unfolding pull
  pulled filled readable room d' here =
      let whole : fs.read path max_read d' ≡ some (some (image b)) =
        laws.read-file path max_read d' (image b) here
        ∙ ap (λ bytes. some (some bytes))
            (take_all max_read (image b)
              (omega (arith, length-image b f filled (omega arith) (omega arith)))) in
      rw (whole, pull)

  -- A block whose payload lies in it and that one read takes in, stored under its own ids in a
  -- directory that takes the file: pulling that file into a block of at least 128 KiB yields a
  -- block with the same ids, payload and payload size; both of the event's files are gone, and
  -- any other file is as it was.
  pub pull-store :
      (q : Str)
      → 20 + payload_size b ≤ length b.mem
      → 20 + payload_size b ≤ max_read
      → max_read ≤ length f.mem
      → q ≢ path
      → q ≢ mark
      → (d' : Disk) × (store_buffer fs b dir d ≡ some d')
        × Carried b (pull fs (event_file b) f dir d').0
        × (file path (pull fs (event_file b) f dir d').1 ≡ none)
        × (file mark (pull fs (event_file b) f dir d').1 ≡ none)
        × (file q (pull fs (event_file b) f dir d').1 ≡ file q d)
  pull-store q filled readable room other other' =
      let (d', stored, here, kept) = store_runs in
      let p = pulled filled readable room d' here in
      (
        d',
        stored,
        rw p (loaded-Carried b f filled (omega arith) (omega arith)),
        rw p (laws.unlink-self path (fs.unlink mark d')),
        rw p (
            laws.unlink-other path mark (fs.unlink mark d')
              (λ e. event-ne-closed dir (event_file b) (sym e))
            ∙ laws.unlink-self mark d'),
        rw p (
            laws.unlink-other path q (fs.unlink mark d') other
            ∙ laws.unlink-other mark q d' other'
            ∙ kept q other other'),
      )
