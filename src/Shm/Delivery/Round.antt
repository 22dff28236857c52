-- ===== src/Shm/Delivery/Round.antt =====
-- src/shmdriver.cxx: rounds of `scanMemory`, with a recording processor.
use levbdim.Base.{
  ℕ, ◌+◌, ◌%◌, ◌<◌, ◌≡◌, refl, subst, ◌∙◌, inl, inr, List, [], ◌∷◌, ◌++◌, some, true, ◌>>=◌, ◌==◌,
  leb, ==_iff, length, All, arith, Str, codes, Bool-cases,
}
use levbdim.Base.StdMap
use levbdim.Base.StdMap.{nat_key, All-erase, IsDistinct, IsDistinct-erase}
use levbdim.Buffer.{Bytes, Buffer, new_buffer, bx_id}
use levbdim.Shm.Posix.{FileSystem}
use levbdim.Shm.Files.{ls, event_path, pull, purge_files, purge_shm}
use levbdim.Shm.Driver.{Double, EventMap, ShmDriver, number_of_data_source}
use levbdim.Shm.Scan.{stale, erase_all, clean_buffer_map, scan_files, clean_after, scan_round}
use levbdim.Shm.Delivery.{Log, recorder, IsBegun, IsFiled, IsOpen, IsSound, Progress}
use levbdim.Shm.Delivery.Run.{collect-Progress, Progress-cons, Progress-nil}

erase_all-IsDistinct :
    (real : Double) (ks : List ℕ) (m : EventMap) → IsDistinct m → IsDistinct (erase_all real ks m)
unfolding erase_all
erase_all-IsDistinct real [] m u = u
erase_all-IsDistinct real (k ∷ ks) m u =
    erase_all-IsDistinct real ks (StdMap.erase k m) (IsDistinct-erase k m u)

erase_all-All :
    (real : Double) (P : ℕ × List Buffer → Type 0) (ks : List ℕ) (m : EventMap)
    → All P m
    → All P (erase_all real ks m)
unfolding erase_all
erase_all-All real P [] m a = a
erase_all-All real P (k ∷ ks) m a = erase_all-All real P ks (StdMap.erase k m) (All-erase P k m a)

module _ (real : Double) where
  open real use {Real, time_of, exceeds, nonzero, real_zero}

  stale-runs :
      (n : ℕ) (last : Real) (delay : ℕ) (m : EventMap)
      → All IsBegun m
      → (ks : List ℕ) × (stale real n last delay m ≡ some ks)
  unfolding stale
  stale-runs n last delay [] a = ([], refl)
  stale-runs n last delay ((k, []) ∷ m) a = absurd (omega arith)
  stale-runs n last delay ((k, b ∷ bs) ∷ m) a =
      let (ks, done) = stale-runs n last delay m a.1 in
      elim (Bool-cases (length (b ∷ bs) == n)) [
        | inl full ↦ (ks, rw (done, full))
        | inr more ↦ elim (Bool-cases (exceeds last (time_of (bx_id b)) delay)) [
          | inl old ↦ (k ∷ ks, rw (done, more, old))
          | inr recent ↦ (ks, rw (done, more, recent))
        ]
      ]

  -- `cleanBufferMap` does not fault, and leaves the driver in order.
  clean_buffer_map-IsSound :
      (last : Real) (delay : ℕ) (log : Log) (d : ShmDriver Log)
      → IsSound log d
      → (d' : ShmDriver Log) × (clean_buffer_map real last delay d ≡ some d')
        × IsSound log d'
        × (d'.memdir ≡ d.memdir)
  unfolding clean_buffer_map number_of_data_source
  clean_buffer_map-IsSound last delay log d r =
      let (ks, done) = stale-runs (number_of_data_source d) last delay d.event_map r.begun in
      (
        record d { event_map = erase_all real ks d.event_map },
        rw done,
        record {
          records = r.records;
          complete = r.complete;
          filed = erase_all-All real IsFiled ks d.event_map r.filed;
          registered = r.registered;
          open_events =
              erase_all-All real (IsOpen (number_of_data_source d)) ks d.event_map r.open_events;
          begun = erase_all-All real IsBegun ks d.event_map r.begun;
          distinct = erase_all-IsDistinct real ks d.event_map r.distinct;
        },
        refl,
      )

module _ (fs : FileSystem) (real : Double) (junk : Str → Bytes) where
  open fs use {Disk}
  open real use {Real, nonzero, real_zero}

  -- The buffers that a pass over the files pulls.
  abbrev pub pulled : List Str → Str → Disk → List Buffer
  pulled [] dir disk = []
  pulled (file ∷ files) dir disk =
      (pull fs file (new_buffer (junk file)) dir disk).0
      ∷ pulled files dir (pull fs file (new_buffer (junk file)) dir disk).1

  -- On a driver in order (`IsSound`: whole vectors recorded, incomplete ones waiting under their
  -- own events), with a recording processor: a pass of `scanMemory` over any files runs
  -- without a fault, leaves a driver in order with the same sources, and of every event has all
  -- the buffers pulled from those files recorded or waiting, in the order of the files, behind
  -- those that were recorded or waited before.
  pub scan_files-Progress :
      (files : List Str) (disk : Disk) (log : Log) (d : ShmDriver Log) (t : Real)
      → IsSound log d
      → (disk' : Disk) × (d' : ShmDriver Log) × (t' : Real) × (log' : Log) × (scan_files fs recorder
            real junk files disk d t
          ≡ some (disk', d', t'))
        × Progress log d (pulled files d.memdir disk) log' d'
  unfolding scan_files
  scan_files-Progress [] disk log d t r = (disk, d, t, log, refl, Progress-nil log d r)
  scan_files-Progress (file ∷ files) disk log d t r =
      let b : Buffer = (pull fs file (new_buffer (junk file)) d.memdir disk).0 in
      let disk1 : Disk = (pull fs file (new_buffer (junk file)) d.memdir disk).1 in
      let (d1, t1, log1, one, p) = collect-Progress real b disk1 log d t r in
      let (disk2, d2, t2, log2, rest, q) = scan_files-Progress files disk1 log1 d1 t1 p.sound in
      (
        disk2,
        d2,
        t2,
        log2,
        rw (one, scan_files) rest,
        Progress-cons b (pulled files d.memdir disk1) log log1 log2 d d1 d2 p
            (subst (λ dir. Progress log1 d1 (pulled files dir disk1) log2 d2) p.same_dir q),
      )

  -- `closed/` holds short names only: the paths that `purgeShm` prints fit their array.
  abbrev pub IsShort : Str → Str → Type 0
  IsShort dir file = length (dir ++ (codes "/closed//" ++ file)) < 256

  short_path :
      (dir file : Str)
      → IsShort dir file
      → leb (length (dir ++ (codes "/closed//" ++ file)) + 1) 256 ≡ true
  short_path dir file h = ground (arith, h)

  purge_files-runs :
      (dir : Str) (files : List Str) (disk : Disk)
      → All (IsShort dir) files
      → (disk' : Disk) × (purge_files fs dir files disk ≡ some disk')
  unfolding purge_files
  purge_files-runs dir [] disk a = (disk, refl)
  purge_files-runs dir (file ∷ files) disk a =
      let (disk', done) =
        purge_files-runs dir files
          (fs.unlink (dir ++ (codes "/closed//" ++ file)) (fs.unlink (event_path dir file) disk))
          a.1 in
      (disk', rw (done, short_path dir file a.0))

  -- A driver in order, whatever it has recorded.
  abbrev pub IsDriver : Str → ShmDriver Log → Type 0
  IsDriver dir d = (log : Log) × IsSound log d × (d.memdir ≡ dir)

  clean_after-IsDriver :
      (dir : Str) (disk : Disk) (d : ShmDriver Log) (t : Real)
      → IsDriver dir d
      → (disk' : Disk) × (d' : ShmDriver Log) × (clean_after fs recorder real junk (disk, d, t)
          ≡ some (disk', d'))
        × IsDriver dir d'
  clean_after-IsDriver dir disk d t (log, r, same) = elim (Bool-cases (nonzero t)) [
    | inl timed ↦
        let (d', done, r', same') = clean_buffer_map-IsSound real t 10 log d r in
        (disk, d', rw (timed, done), (log, r', same' ∙ same))
    | inr untimed ↦ (disk, d, rw untimed, (log, r, same))
  ]

  module _ (log : Log) (d : ShmDriver Log) (r : IsSound log d) where
    abbrev files : Disk → List Str
    files disk = ls fs d.memdir disk

    purge_round :
        (disk : Disk)
        → All (IsShort d.memdir) (files disk)
        → (disk' : Disk) × (purge_shm fs d.memdir disk ≡ some disk')
    unfolding purge_shm
    purge_round disk short = purge_files-runs d.memdir (files disk) disk short

    scan_pass :
        (disk : Disk)
        → (disk' : Disk) × (d' : ShmDriver Log) × ((scan_files fs recorder real junk
                (files disk)
                disk
                d
                real_zero
              >>= clean_after fs recorder real junk)
            ≡ some (disk', d'))
          × IsDriver d.memdir d'
    scan_pass disk =
        let (disk1, d1, t, log1, done, p) =
          scan_files-Progress (files disk) disk log d real_zero r in
        let (disk2, d2, cleaned, keeps) =
          clean_after-IsDriver d.memdir disk1 d1 t (log1, p.sound, p.same_dir) in
        (disk2, d2, rw done cleaned, keeps)

    -- One round of `scanMemory` on a driver in order (`IsSound`), in a directory of short names,
    -- does not fault, and leaves a driver in order: neither the remainder by the number of sources,
    -- nor the access to the first buffer of an event, nor a path is out of range.
    pub scan_round-IsDriver :
        (disk : Disk)
        → All (IsShort d.memdir) (files disk)
        → (disk' : Disk) × (d' : ShmDriver Log) × (scan_round fs recorder real junk disk d
            ≡ some (disk', d'))
          × IsDriver d.memdir d'
    unfolding scan_round
    scan_round-IsDriver disk short = elim (Bool-cases (length (files disk) == 0)) [
      | inl empty ↦ (disk, d, rw empty, (log, r, refl))
      | inr some_file ↦ elim (Bool-cases (number_of_data_source d == 0)) [
        | inl no_source ↦
            absurd (omega (arith, r.registered, (==_iff (number_of_data_source d) 0).0 no_source))
        | inr sources ↦ elim (Bool-cases (length (files disk) % number_of_data_source d == 0)) [
          | inl matches ↦
              let (disk', d', done, keeps) = scan_pass disk in
              (disk', d', rw (some_file, sources, matches) done, keeps)
          | inr mismatch ↦
              let (disk', done) = purge_round disk short in
              (disk', d, rw (some_file, sources, mismatch, done), (log, r, refl))
        ]
      ]
    ]
