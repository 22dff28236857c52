-- ===== src/Apps/Builder.antt =====
-- example/src/exBuilder.cxx, example/include/exBuilder.hh: the event builder, a driver with a
-- writer and the sockets of its sources, under a state machine.
use levbdim.Base.{ℕ, List, [], ◌∷◌, ◌++◌, Option, some, none, true, Str, codes, length, ◌>>=◌}
use levbdim.Json.{JsonLib}
use levbdim.Buffer.{Bytes, u32}
use levbdim.Buffer.Compress.{Zlib}
use levbdim.Shm.Posix.{FileSystem}
use levbdim.Shm.Files.{create_directories, purge_shm}
use levbdim.Shm.Driver.{Double, ShmDriver, register_processor, register_data_source}
use levbdim.Shm.Driver
use levbdim.Shm.Scan
use levbdim.Source.Datasocket.{Datasocket, new_datasocket, save2disk}
use levbdim.Writer.File.{Output, BasicWriter, writer_processor}
use levbdim.Writer.File
use levbdim.Fsm.Message.{FsmMessage, content, set_answer}
use levbdim.Fsm.Machine.{Fsm, new_fsm, add_state, add_transition}

-- `_evb` and `_writer`: none where the pointers are not set, or null.
pub record Builder : Type 0 where
  pub memdir : Str
  pub sources : List Datasocket
  pub driver : Option (ShmDriver BasicWriter)

unfoldable pub new_builder : Builder
new_builder = record { memdir = codes "/dev/shm/levbdim"; sources = []; driver = none }

-- What a method leaves: the disk and the builder; a file name that overruns the array of
-- `purgeShm`; or a call on the null pointer to the driver.
pub data App (Disk : Type 0) : Type 0 where
  ready : Disk → Builder → App Disk
  overrun : App Disk
  null_driver : App Disk

-- The loop of `addsources`. `junk` is what the block of a new socket happens to hold.
unfoldable pub add_sources : (ℕ → Bytes) → ℕ → List ℕ → Builder → ShmDriver BasicWriter → Builder
unfolding new_datasocket save2disk register_data_source
add_sources junk det [] s d = record s { driver = some d }
add_sources junk det (sid ∷ sids) s d =
    add_sources junk det sids
      (record s {
        sources = s.sources ++ save2disk s.memdir (new_datasocket det sid (junk sid)) ∷ [];
      })
      (register_data_source det sid d)

module _ (json : JsonLib) (fs : FileSystem) (out : Output fs.Disk) (zlib : Zlib) (real : Double)
    (junk : ℕ → Bytes) where
  open json use {Value, null, get, set, as_string, as_int, of_uint, of_int, items}
  open fs use {Disk}

  -- A method, on the disk and the builder.
  abbrev pub Method : Type 0
  Method = Disk → Builder → FsmMessage json → App Disk × FsmMessage json

  unfoldable pub new_driver : Value → ShmDriver BasicWriter
  unfolding register_processor Driver.new File.new
  new_driver jc =
      register_processor (File.new (as_string (get (codes "datadir") jc)))
        (Driver.new (as_string (get (codes "memdir") jc)) true)

  abbrev purged : Option Disk → Builder → App Disk
  purged none s = overrun
  purged (some w) s = ready w s

  unfoldable pub configure : Method
  unfolding content create_directories purge_shm new_driver
  configure w s m =
      let jc = content json m in
      let memdir = as_string (get (codes "memdir") jc) in
      (
        purged (purge_shm fs memdir (create_directories fs memdir w))
            (record { memdir = memdir; sources = []; driver = some (new_driver jc) }),
        m,
      )

  unfoldable pub source_count : Builder → Value
  source_count s = set (codes "nsources") (of_uint (u32 (length s.sources))) null

  abbrev integers : List Value → List ℕ
  integers [] = []
  integers (v ∷ vs) = as_int v ∷ integers vs

  abbrev pub listed_sources : FsmMessage json → List ℕ
  listed_sources m = integers (items (get (codes "sourceid") (content json m)))

  abbrev pub detector : FsmMessage json → ℕ
  detector m = as_int (get (codes "detid") (content json m))

  -- With no source listed the driver is not called.
  abbrev with_sources : List ℕ → ℕ → Builder → Option (ShmDriver BasicWriter) → Option Builder
  with_sources sids det s (some d) = some (add_sources junk det sids s d)
  with_sources [] det s none = some s
  with_sources (sid ∷ sids) det s none = none

  abbrev answered : Disk → FsmMessage json → Option Builder → App Disk × FsmMessage json
  answered w m none = (null_driver, m)
  answered w m (some s) = (ready w s, set_answer json (source_count s) m)

  unfoldable pub addsources : Method
  unfolding content add_sources source_count set_answer
  addsources w s m = answered w m (with_sources (listed_sources m) (detector m) s s.driver)

  unfoldable pub register_done : Method
  unfolding source_count set_answer
  register_done w s m = (ready w s, set_answer json (source_count s) m)

  unfoldable pub start : Method
  unfolding content Scan.start
  start w s m = elim s.driver [
    | none ↦ (null_driver, m)
    | some d ↦
        let run = as_int (get (codes "run") (content json m)) in
        let (w', d') = Scan.start (writer_processor out zlib junk) real run w d in
        (ready w' (record s { driver = some d' }), m)
  ]

  unfoldable pub stop : Method
  unfolding Scan.stop
  stop w s m = elim s.driver [
    | none ↦ (null_driver, m)
    | some d ↦
        let (w', d') = Scan.stop (writer_processor out zlib junk) real w d in
        (ready w' (record s { driver = some d' }), m)
  ]

  abbrev pub without_sources : App Disk × FsmMessage json → App Disk × FsmMessage json
  without_sources (ready w s, m) = (ready w (record s { sources = [] }), m)
  without_sources (a, m) = (a, m)

  unfoldable pub halt : Method
  unfolding stop
  halt w s m = without_sources (stop w s m)

  unfoldable pub destroy : Method
  destroy w s m = (ready w (record s { driver = none }), m)

  -- The answer to the web command `LIST`; `none` is a read through the null pointer.
  unfoldable pub list : Builder → Option Value
  list s = s.driver >>= λ d.
      some (set (codes "event") (of_uint d.evt) (set (codes "run") (of_uint d.run) null))

  -- A method as a callback: after undefined behaviour nothing more is said.
  abbrev pub callback : Method → App Disk → FsmMessage json → App Disk × FsmMessage json
  callback method (ready w s) m = method w s m
  callback method overrun m = (overrun, m)
  callback method null_driver m = (null_driver, m)

  abbrev pub states : Fsm json (App Disk)
  states = add_state json (App Disk) (codes "RUNNING") (
      add_state json (App Disk) (codes "REGISTERED") (
        add_state json (App Disk) (codes "CONFIGURED")
          (add_state json (App Disk) (codes "CREATED") (new_fsm json (App Disk)))))

  abbrev pub add : Str → Str → Str → Method → Fsm json (App Disk) → Fsm json (App Disk)
  add cmd istate fstate method f =
      add_transition json (App Disk) cmd istate fstate (callback method) f

  unfoldable pub builder_machine : Fsm json (App Disk)
  unfolding add_transition add_state new_fsm configure addsources register_done start stop halt
      destroy
  builder_machine = add (codes "DESTROY") (codes "CONFIGURED") (codes "CREATED") destroy (
      add (codes "HALT") (codes "RUNNING") (codes "CONFIGURED") halt (
        add (codes "STOP") (codes "RUNNING") (codes "REGISTERED") stop (
          add (codes "START") (codes "REGISTERED") (codes "RUNNING") start (
            add (codes "REGISTER") (codes "CONFIGURED") (codes "REGISTERED") register_done (
              add (codes "ADDSOURCES") (codes "CONFIGURED") (codes "CONFIGURED") addsources (
                add (codes "CONFIGURE") (codes "CREATED") (codes "CONFIGURED") configure
                  states))))))
