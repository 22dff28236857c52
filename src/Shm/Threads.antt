-- ===== src/Shm/Threads.antt =====
-- src/shmdriver.cxx: the thread that `start` creates and the one that calls `stop`, in any
-- interleaving, and what they come to.
pub mod Alone
pub mod Last
use levbdim.Base.{
  ◌≡◌, ◌≢◌, refl, sym, ap, ◌∙◌, inl, inr, List, [], ◌∷◌, ◌++◌, Option, some, none, Bool, true,
  false, ◌>>=◌, Str, Option-cases, Bool-cases, arith, ◌⊎◌,
}
use levbdim.Buffer.{Bytes}
use levbdim.Shm.Posix.{FileSystem}
use levbdim.Shm.Driver.{ShmProcessor, Double, ShmDriver}
use levbdim.Shm.Scan.{scan_round, scan_memory, stop}
use levbdim.Shm.Flag.{flagged, scan_round-flagged}

-- Where the scanning thread is: before the test of its loop, in a round, or at its end.
pub data Thread : Type 0 where
  testing : Thread
  inside : Thread
  ended : Thread

module _ (fs : FileSystem) {P : Type 0} (proc : ShmProcessor fs.Disk P) (real : Double)
    (junk : Str → Bytes) where
  open fs use {Disk}

  pub record Process : Type 0 where
    pub disk : Disk
    pub driver : ShmDriver P
    pub thread : Thread

  -- What `start` leaves.
  abbrev pub started : Disk → ShmDriver P → Process
  started disk d = record { disk = disk; driver = d; thread = testing }

  -- A step of one of the threads, or of the sources outside. A round is one step: the map of events
  -- and the processors are the scanning thread's alone until it has ended.
  pub data Step : Process → Process → Type 0 where
    sources : (p : Process) (change : Disk → Disk) → Step p (record p { disk = change p.disk })
    enter :
        (p : Process)
        → p.thread ≡ testing
        → p.driver.running ≡ true
        → Step p (record p { thread = inside })
    leave :
        (p : Process)
        → p.thread ≡ testing
        → p.driver.running ≡ false
        → Step p (record p { thread = ended })
    round :
        (p : Process) (disk : Disk) (d : ShmDriver P)
        → p.thread ≡ inside
        → scan_round fs proc real junk p.disk p.driver ≡ some (disk, d)
        → Step p (record p { disk = disk; driver = d; thread = testing })
    -- The first line of `stop`, in the other thread.
    ask : (p : Process) → Step p (record p { driver = flagged false p.driver })

  pub data Run (p : Process) : Process → Type 0 where
    here : Run p p
    next : {q q' : Process} → Run p q → Step q q' → Run p q'
