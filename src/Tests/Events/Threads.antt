-- ===== src/Tests/Events/Threads.antt =====
-- A run of the two threads: the scanning thread is in a round when `stop` clears the flag.
use levbdim.Base.{◌≡◌, ◌⊎◌, refl, List, [], some, true, false, arith, All}
use levbdim.Shm.Files.{ls}
use levbdim.Shm.Driver.{
  ShmDriver, register_data_source, register_processor, new, number_of_data_source,
}
use levbdim.Shm.Scan.{scan_round, scan_memory, stop}
use levbdim.Shm.Delivery.{Log, recorder, IsSound}
use levbdim.Shm.Delivery.Round.{IsShort, scan_round-IsDriver}
use levbdim.Shm.Threads.{testing, inside, Process, Run, here, next, enter, round, ask, started}
use levbdim.Shm.Threads.Alone.{Changes, changes_of, Stopped, stop-refines}
use levbdim.Shm.Flag.{flagged}
use levbdim.Shm.Threads.Last.{cleared-at_most_one_round}
use levbdim.Tests.Systems.{real, fs}
use levbdim.Tests.Events.{driver}
use levbdim.Tests.Events.Rounds.{busy_fs, busy_disk, fresh}

abbrev running_driver : ShmDriver Log
running_driver = record driver { running = true }

abbrev stopped_driver : ShmDriver Log
stopped_driver = record driver { running = false }

stopped-IsSound : IsSound [] stopped_driver
unfolding register_data_source register_processor new number_of_data_source
stopped-IsSound = record {
  records = refl;
  complete = tt;
  filed = tt;
  registered = omega arith;
  open_events = tt;
  begun = tt;
  distinct = tt;
}

stopped-IsShort :
    All
      (IsShort busy_fs real fresh stopped_driver.memdir)
      (ls busy_fs stopped_driver.memdir busy_disk)
unfolding ls register_data_source register_processor new
stopped-IsShort = (omega arith, (omega arith, tt))

-- The round that was under way.
last_round :
    (disk' : fs.Disk) × (d' : ShmDriver Log) × (scan_round busy_fs recorder real fresh busy_disk
        stopped_driver
      ≡ some (disk', d'))
last_round =
    let (disk', d', done, _) =
      scan_round-IsDriver busy_fs real fresh [] stopped_driver stopped-IsSound busy_disk
        stopped-IsShort in
    (disk', d', done)

abbrev beginning : Process busy_fs recorder real fresh
beginning = started busy_fs recorder real fresh busy_disk running_driver

-- In the round, with the flag cleared.
abbrev cleared : Process busy_fs recorder real fresh
cleared = record beginning { driver = stopped_driver; thread = inside }

abbrev finished : Process busy_fs recorder real fresh
finished = record { disk = last_round.0; driver = last_round.1; thread = testing }

abbrev asked : Run busy_fs recorder real fresh beginning cleared
asked = next (next here (enter beginning refl refl)) (ask (record beginning { thread = inside }))

ends : Run busy_fs recorder real fresh cleared finished
ends = next here (round cleared last_round.0 last_round.1 refl last_round.2)

abbrev whole : Run busy_fs recorder real fresh beginning finished
whole = next asked (round cleared last_round.0 last_round.1 refl last_round.2)

abbrev changes : Changes busy_fs recorder real fresh
changes = changes_of busy_fs recorder real fresh whole

stop-refines_example :
    (disk : fs.Disk) × (d : ShmDriver Log) × (scan_memory busy_fs recorder real fresh changes.0
        busy_disk running_driver
      ≡ some (disk, d))
    × (finished.disk ≡ changes.1 disk)
    × (flagged true finished.driver ≡ d)
    × (ps : List Log) × Stopped busy_fs recorder real fresh finished.disk d.processors
        (stop recorder real finished.disk finished.driver).0
        ps
    × ((stop recorder real finished.disk finished.driver).1
        ≡ record d { processors = ps; running = false })
stop-refines_example =
    stop-refines busy_fs recorder real fresh busy_disk running_driver finished refl whole

cleared-at_most_one_round_example :
    (finished.driver.running ≡ false)
    × ((finished.driver ≡ stopped_driver)
        ⊎ ((cleared.thread ≡ inside)
            × (disk : fs.Disk) × (disk' : fs.Disk) × (scan_round busy_fs recorder real fresh disk
                  stopped_driver
                ≡ some (disk', finished.driver))))
cleared-at_most_one_round_example =
    cleared-at_most_one_round busy_fs recorder real fresh cleared finished refl ends
