-- ===== src/Shm/Threads/Alone.antt =====
-- src/shmdriver.cxx: an interleaving of the two threads comes to what the loop alone comes to.
use levbdim.Base.{
  ◌≡◌, refl, sym, ap, subst, ◌∙◌, inl, inr, List, [], ◌∷◌, ◌++◌, Option, some, Bool, true, false,
  ◌>>=◌, Str, Option-cases, Bool-cases,
}
use levbdim.Buffer.{Bytes}
use levbdim.Shm.Posix.{FileSystem}
use levbdim.Shm.Driver.{ShmProcessor, Double, ShmDriver}
use levbdim.Shm.Scan.{scan_round, scan_memory, stop, stop_processors}
use levbdim.Shm.Flag.{flagged, scan_round-flagged}
use levbdim.Shm.Threads.{
  testing, Process, Step, Run, here, next, sources, enter, leave, round, ask, started,
}

module _ (fs : FileSystem) {P : Type 0} (proc : ShmProcessor fs.Disk P) (real : Double)
    (junk : Str → Bytes) where
  open fs use {Disk}

  -- The loop's body under its test.
  abbrev tested :
      Bool → (Disk → Disk) → List (Disk → Disk) → Disk → ShmDriver P → Option (Disk × ShmDriver P)
  tested false c later disk d = some (disk, d)
  tested true c later disk d =
      scan_round fs proc real junk (c disk) d >>= λ o. scan_memory fs proc real junk later o.0 o.1

  scan_memory-flagged :
      (r : Bool) (c : Disk → Disk) (later : List (Disk → Disk)) (disk : Disk) (d : ShmDriver P)
      → scan_memory fs proc real junk (c ∷ later) disk (flagged r d)
        ≡ tested r c later disk (flagged r d)
  unfolding scan_memory
  scan_memory-flagged false c later disk d = refl
  scan_memory-flagged true c later disk d = refl

  scan_memory_cons :
      (c : Disk → Disk) (later : List (Disk → Disk)) (disk : Disk) (d : ShmDriver P)
      → scan_memory fs proc real junk (c ∷ later) disk d ≡ tested d.running c later disk d
  scan_memory_cons c later disk d = scan_memory-flagged d.running c later disk d

  off-still :
      (later : List (Disk → Disk)) (disk : Disk) (d : ShmDriver P)
      → d.running ≡ false
      → scan_memory fs proc real junk later disk d ≡ some (disk, d)
  unfolding scan_memory
  off-still [] disk d off = refl
  off-still (c ∷ later) disk d off =
      scan_memory_cons c later disk d ∙ ap (λ b. tested b c later disk d) off

  on-round :
      (c : Disk → Disk) (later : List (Disk → Disk)) (disk : Disk) (d : ShmDriver P)
      → d.running ≡ true
      → scan_memory fs proc real junk (c ∷ later) disk d ≡ tested true c later disk d
  on-round c later disk d on =
      scan_memory_cons c later disk d ∙ ap (λ b. tested b c later disk d) on

  scan_memory-append :
      (changes later : List (Disk → Disk)) (disk : Disk) (d : ShmDriver P)
      → scan_memory fs proc real junk (changes ++ later) disk d ≡ (
          scan_memory fs proc real junk changes disk d >>= λ o.
          scan_memory fs proc real junk later o.0 o.1)
  unfolding scan_memory
  scan_memory-append [] later disk d = refl
  scan_memory-append (c ∷ changes) later disk d = elim (Bool-cases d.running) [
    | inr off ↦
        off-still (c ∷ (changes ++ later)) disk d off
        ∙ sym (
            ap (λ m. m >>= λ o. scan_memory fs proc real junk later o.0 o.1)
              (off-still (c ∷ changes) disk d off)
            ∙ off-still later disk d off)
    | inl on ↦
        on-round c (changes ++ later) disk d on
        ∙ elim (Option-cases (scan_round fs proc real junk (c disk) d)) [
          | inl fault ↦ rw fault refl
          | inr (o, done) ↦ rw done (scan_memory-append changes later o.0 o.1)
        ]
        ∙ sym (
            ap (λ m. m >>= λ o. scan_memory fs proc real junk later o.0 o.1)
              (on-round c changes disk d on))
  ]

  -- What the sources did to the disk in a run: what all their steps before each round came to since
  -- the round before, and what those since the last round come to.
  abbrev pub Changes : Type 0
  Changes = List (Disk → Disk) × (Disk → Disk)

  abbrev pub changed :
      {p q : Process fs proc real junk} → Step fs proc real junk p q → Changes → Changes
  changed (sources p change) (cs, since) = (cs, λ w. change (since w))
  changed (round p disk d in_round done) (cs, since) = (cs ++ since ∷ [], λ w. w)
  changed (enter p at_test flag) c = c
  changed (leave p at_test flag) c = c
  changed (ask p) c = c

  abbrev pub changes_of : {p q : Process fs proc real junk} → Run fs proc real junk p q → Changes
  changes_of here = ([], λ w. w)
  changes_of (next r s) = changed s (changes_of r)

  -- A state of the threads is one of the loop run alone on these changes, with its driver but for
  -- the flag.
  record Alone (disk₀ : Disk) (d₀ : ShmDriver P) (p : Process fs proc real junk) (c : Changes)
      : Type 0 where
    disk : Disk
    driver : ShmDriver P
    runs : scan_memory fs proc real junk c.0 disk₀ d₀ ≡ some (disk, driver)
    on : driver.running ≡ true
    same_disk : p.disk ≡ c.1 disk
    same_driver : flagged true p.driver ≡ flagged true driver

  Alone-round :
      {disk₀ : Disk} {d₀ : ShmDriver P} (p : Process fs proc real junk) (disk : Disk)
      (d : ShmDriver P) (c : Changes)
      → scan_round fs proc real junk p.disk p.driver ≡ some (disk, d)
      → Alone disk₀ d₀ p c
      → Alone disk₀ d₀
          (record p { disk = disk; driver = d; thread = testing })
          (c.0 ++ c.1 ∷ [], λ w. w)
  unfolding scan_memory
  Alone-round {disk₀} {d₀} p disk d c done a = record {
    disk = disk;
    driver = flagged true d;
    runs =
        scan_memory-append c.0 (c.1 ∷ []) disk₀ d₀
        ∙ rw a.runs (on-round c.1 [] a.disk a.driver a.on ∙ rw alone refl);
    on = refl;
    same_disk = refl;
    same_driver = refl;
  }
    where
      flag : a.driver ≡ flagged true p.driver
      flag = ap (λ b. flagged b a.driver) a.on ∙ sym a.same_driver

      alone : scan_round fs proc real junk (c.1 a.disk) a.driver ≡ some (disk, flagged true d)
      alone =
          (λ i. scan_round fs proc real junk (sym a.same_disk i) (flag i))
          ∙ scan_round-flagged fs proc real junk true p.disk p.driver
          ∙ rw done refl

  -- A step that leaves the driver alone but for the flag.
  Alone-kept :
      {disk₀ : Disk} {d₀ : ShmDriver P} (change : Disk → Disk) (p q : Process fs proc real junk)
      (c : Changes)
      → q.disk ≡ change p.disk
      → flagged true q.driver ≡ flagged true p.driver
      → Alone disk₀ d₀ p c
      → Alone disk₀ d₀ q (c.0, λ w. change (c.1 w))
  Alone-kept change p q c same same' a = record {
    disk = a.disk;
    driver = a.driver;
    runs = a.runs;
    on = a.on;
    same_disk = same ∙ ap change a.same_disk;
    same_driver = same' ∙ a.same_driver;
  }

  Run-Alone :
      (disk₀ : Disk) (d₀ : ShmDriver P) (p : Process fs proc real junk)
      → d₀.running ≡ true
      → (r : Run fs proc real junk (started fs proc real junk disk₀ d₀) p)
      → Alone disk₀ d₀ p (changes_of r)
  unfolding scan_memory
  Run-Alone disk₀ d₀ p on here = record {
    disk = disk₀;
    driver = d₀;
    runs = refl;
    on = on;
    same_disk = refl;
    same_driver = refl;
  }
  Run-Alone disk₀ d₀ p on (next r (sources q change)) =
      Alone-kept change q p (changes_of r) refl refl (Run-Alone disk₀ d₀ q on r)
  Run-Alone disk₀ d₀ p on (next r (enter q at_test flag)) =
      Alone-kept (λ w. w) q p (changes_of r) refl refl (Run-Alone disk₀ d₀ q on r)
  Run-Alone disk₀ d₀ p on (next r (leave q at_test flag)) =
      Alone-kept (λ w. w) q p (changes_of r) refl refl (Run-Alone disk₀ d₀ q on r)
  Run-Alone disk₀ d₀ p on (next r (round q disk d in_round done)) =
      Alone-round q disk d (changes_of r) done (Run-Alone disk₀ d₀ q on r)
  Run-Alone disk₀ d₀ p on (next r (ask q)) =
      Alone-kept (λ w. w) q p (changes_of r) refl refl (Run-Alone disk₀ d₀ q on r)

  -- Processors that are stopped one after the other, on the disk that the one before left.
  pub data Stopped : Disk → List P → Disk → List P → Type 0 where
    all_stopped : (disk : Disk) → Stopped disk [] disk []
    stops :
        (disk disk' : Disk) (p : P) (ps ps' : List P)
        → Stopped (proc.stop disk p).0 ps disk' ps'
        → Stopped disk (p ∷ ps) disk' ((proc.stop disk p).1 ∷ ps')

  stop_processors-Stopped :
      (disk : Disk) (ps : List P)
      → Stopped disk ps (stop_processors proc real disk ps).0 (stop_processors proc real disk ps).1
  unfolding stop_processors
  stop_processors-Stopped disk [] = all_stopped disk
  stop_processors-Stopped disk (p ∷ ps) =
      stops disk _ p ps _ (stop_processors-Stopped (proc.stop disk p).0 ps)

  -- The two threads and the sources, in any interleaving from the start of the scanning thread to a
  -- state in which no fault was met. The loop alone, with the changes of the disk that the sources
  -- made before each of its rounds, comes to a disk and a driver: with the changes since, that disk
  -- is the same, and that driver is the same but for the flag. `stop` then stops each of its
  -- processors once, in their order, and leaves these, the flag cleared, and the rest as it was.
  pub stop-refines :
      (disk₀ : Disk) (d₀ : ShmDriver P) (p : Process fs proc real junk)
      → d₀.running ≡ true
      → (r : Run fs proc real junk (started fs proc real junk disk₀ d₀) p)
      → (disk : Disk) × (d : ShmDriver P) × (scan_memory fs proc real junk (changes_of r).0 disk₀ d₀
          ≡ some (disk, d))
        × (p.disk ≡ (changes_of r).1 disk)
        × (flagged true p.driver ≡ d)
        × (ps : List P) × Stopped p.disk d.processors (stop proc real p.disk p.driver).0 ps
        × ((stop proc real p.disk p.driver).1 ≡ record d { processors = ps; running = false })
  unfolding stop
  stop-refines disk₀ d₀ p on r =
      let a = Run-Alone disk₀ d₀ p on r in
      let same : flagged true p.driver ≡ a.driver =
        a.same_driver ∙ ap (λ b. flagged b a.driver) (sym a.on) in
      (
        a.disk,
        a.driver,
        a.runs,
        a.same_disk,
        same,
        (stop_processors proc real p.disk p.driver.processors).1,
        subst
            (λ (d : ShmDriver P).
              Stopped p.disk d.processors (stop_processors proc real p.disk p.driver.processors).0
                (stop_processors proc real p.disk p.driver.processors).1)
            same (stop_processors-Stopped p.disk p.driver.processors),
        ap
            (λ (d : ShmDriver P). record d {
              processors = (stop_processors proc real p.disk p.driver.processors).1;
              running = false;
            })
            same,
      )
