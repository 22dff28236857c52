-- ===== src/Apps/DummyBuilder.antt =====
-- test/dummyBuilder.cxx, test/dummyBuilder.hh: an event builder with fixed directories. Its state
-- is that of the other event builder; `memdir` is what the sockets are given.
use levbdim.Base.{ℕ, List, [], Option, some, none, true, codes}
use levbdim.Json.{JsonLib}
use levbdim.Buffer.{Bytes}
use levbdim.Buffer.Compress.{Zlib}
use levbdim.Shm.Posix.{FileSystem}
use levbdim.Shm.Files.{create_directories, purge_shm}
use levbdim.Shm.Driver.{Double, ShmDriver, register_processor}
use levbdim.Shm.Driver
use levbdim.Writer.File.{Output, BasicWriter}
use levbdim.Writer.File
use levbdim.Fsm.Message.{FsmMessage}
use levbdim.Fsm.Machine.{Fsm, new_fsm, add_state}
use levbdim.Apps.Builder
use levbdim.Apps.Builder.{
  Builder, App, ready, overrun, add_sources, detector, listed_sources, add, stop, halt,
}

-- The directory of the driver, and that of the sockets, with a slash behind it.
abbrev pub driver_dir : List ℕ
driver_dir = codes "/dev/shm/levbdim"

abbrev pub socket_dir : List ℕ
socket_dir = codes "/dev/shm/levbdim/"

unfoldable pub dummy_driver : ShmDriver BasicWriter
unfolding register_processor Driver.new File.new
dummy_driver = register_processor (File.new (codes "/tmp")) (Driver.new driver_dir true)

module _ (json : JsonLib) (fs : FileSystem) (out : Output fs.Disk) (zlib : Zlib) (real : Double)
    (junk : ℕ → Bytes) where
  open fs use {Disk}

  abbrev with_sources : FsmMessage json → Option Disk → App Disk
  with_sources m none = overrun
  with_sources m (some w) = ready w (
      add_sources junk (detector json fs out zlib real junk m)
        (listed_sources json fs out zlib real junk m)
        (record { memdir = socket_dir; sources = []; driver = none }) dummy_driver)

  unfoldable pub configure : Disk → Builder → FsmMessage json → App Disk × FsmMessage json
  unfolding create_directories purge_shm add_sources dummy_driver
  configure w s m =
      (with_sources m (purge_shm fs driver_dir (create_directories fs driver_dir w)), m)

  abbrev pub adds :
      List ℕ
      → List ℕ
      → List ℕ
      → (Disk → Builder → FsmMessage json → App Disk × FsmMessage json)
      → Fsm json (App Disk)
      → Fsm json (App Disk)
  adds = add json fs out zlib real junk

  -- `start`, `stop` and `halt` are those of the other event builder.
  unfoldable pub dummy_builder_machine : Fsm json (App Disk)
  unfolding add_state new_fsm configure Builder.start stop halt
  dummy_builder_machine =
      adds (codes "HALT") (codes "CONFIGURED") (codes "CREATED") (halt json fs out zlib real junk) (
        adds (codes "HALT") (codes "RUNNING") (codes "CREATED") (halt json fs out zlib real junk) (
          adds (codes "STOP") (codes "RUNNING") (codes "CONFIGURED")
            (stop json fs out zlib real junk)
            (adds (codes "START") (codes "CONFIGURED") (codes "RUNNING")
              (Builder.start json fs out zlib real junk)
              (adds (codes "CONFIGURE") (codes "CREATED") (codes "CONFIGURED") configure (
                add_state json (App Disk) (codes "RUNNING") (
                  add_state json (App Disk) (codes "CONFIGURED")
                    (add_state json (App Disk) (codes "CREATED") (new_fsm json (App Disk)))))))))
