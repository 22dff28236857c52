-- ===== src/Shm/Threads/Last.antt =====
-- src/shmdriver.cxx: once `stop` has cleared the flag, at most one round is still to end.
use levbdim.Base.{◌≡◌, ◌≢◌, refl, sym, ap, ◌∙◌, inl, inr, some, false, Str, ◌⊎◌}
use levbdim.Buffer.{Bytes}
use levbdim.Shm.Posix.{FileSystem}
use levbdim.Shm.Driver.{ShmProcessor, Double, ShmDriver}
use levbdim.Shm.Scan.{scan_round}
use levbdim.Shm.Flag.{flagged, scan_round-flagged}
use levbdim.Shm.Threads.{
  testing, inside, ended, Process, Run, here, next, sources, enter, leave, round, ask,
}

module _ (fs : FileSystem) {P : Type 0} (proc : ShmProcessor fs.Disk P) (real : Double)
    (junk : Str → Bytes) where
  open fs use {Disk}

  -- Once the flag is cleared: the driver is as it was, or the round that was under way is over.
  abbrev pub IsLastRound : Process fs proc real junk → Process fs proc real junk → Type 0
  IsLastRound p q =
      ((q.driver ≡ p.driver) × ((q.thread ≡ inside) → (p.thread ≡ inside)))
      ⊎ ((p.thread ≡ inside)
          × (q.thread ≢ inside)
          × (disk disk' : Disk) × (scan_round fs proc real junk disk p.driver
              ≡ some (disk', q.driver)))

  round-off :
      (disk disk' : Disk) (d d' : ShmDriver P)
      → d.running ≡ false
      → scan_round fs proc real junk disk d ≡ some (disk', d')
      → d'.running ≡ false
  round-off disk disk' d d' off done =
      let flag : flagged false d ≡ d = ap (λ b. flagged b d) (sym off) in
      let same : some (disk', flagged false d') ≡ some (disk', d') =
        sym (scan_round-flagged fs proc real junk false disk d ∙ rw done refl)
        ∙ ap (scan_round fs proc real junk disk) flag
        ∙ done in
      cc same

  stays : (d d' : ShmDriver P) → d'.running ≡ false → d' ≡ d → flagged false d' ≡ d
  stays d d' off same = ap (λ b. flagged b d') (sym off) ∙ same

  Run-IsLastRound :
      (p q : Process fs proc real junk)
      → p.driver.running ≡ false
      → Run fs proc real junk p q
      → (q.driver.running ≡ false) × IsLastRound p q
  Run-IsLastRound p q off here = (off, inl (refl, λ h. h))
  Run-IsLastRound p q off (next r (sources q' change)) = Run-IsLastRound p q' off r
  Run-IsLastRound p q off (next r (enter q' at_test flag)) =
      absurd (cc (flag, (Run-IsLastRound p q' off r).0))
  Run-IsLastRound p q off (next r (leave q' at_test flag)) =
      let (off', last) = Run-IsLastRound p q' off r in (off', left last)
    where
      left : IsLastRound p q' → IsLastRound p (record q' { thread = ended })
      left (inl (same, _)) = inl (same, λ e. cc e)
      left (inr (first, _, x, x', done)) = inr (first, (λ e. cc e), x, x', done)
  Run-IsLastRound p q off (next r (round q' disk d in_round done)) =
      let (off', last) = Run-IsLastRound p q' off r in
      (round-off q'.disk disk q'.driver d off' done, over last)
    where
      over :
          IsLastRound p q' → IsLastRound p (record q' { disk = disk; driver = d; thread = testing })
      over (inl (same, first)) = inr (
        first in_round,
        (λ e. cc e),
        q'.disk,
        disk,
        ap (scan_round fs proc real junk q'.disk) (sym same) ∙ done,
      )
      over (inr (_, not_in, _, _, _)) = absurd (not_in in_round)
  Run-IsLastRound p q off (next r (ask q')) =
      let (off', last) = Run-IsLastRound p q' off r in (refl, asked off' last)
    where
      asked :
          q'.driver.running ≡ false
          → IsLastRound p q'
          → IsLastRound p (record q' { driver = flagged false q'.driver })
      asked off' (inl (same, first)) = inl (stays p.driver q'.driver off' same, first)
      asked off' (inr (first, not_in, x, x', done)) = inr (
        first,
        not_in,
        x,
        x',
        done ∙ ap (λ e. some (x', e)) (sym (stays q'.driver q'.driver off' refl)),
      )

  -- From a state in which the flag is cleared, as `stop` does first, no matter how the threads and
  -- the sources go on: the flag stays cleared, and the scanning thread ends at most the round that
  -- it was in. So the driver, its processors among its parts, is as it was, or it was in a round
  -- then and is as that round left it.
  pub cleared-at_most_one_round :
      (p q : Process fs proc real junk)
      → p.driver.running ≡ false
      → Run fs proc real junk p q
      → (q.driver.running ≡ false)
        × ((q.driver ≡ p.driver)
            ⊎ ((p.thread ≡ inside)
                × (disk : Disk) × (disk' : Disk) × (scan_round fs proc real junk disk p.driver
                    ≡ some (disk', q.driver))))
  cleared-at_most_one_round p q off r =
      let (off', last) = Run-IsLastRound p q off r in (off', as_said last)
    where
      as_said :
          IsLastRound p q
          → (q.driver ≡ p.driver)
            ⊎ ((p.thread ≡ inside)
                × (disk : Disk) × (disk' : Disk) × (scan_round fs proc real junk disk p.driver
                    ≡ some (disk', q.driver)))
      as_said (inl (same, _)) = inl same
      as_said (inr (first, _, x, x', done)) = inr (first, x, x', done)
