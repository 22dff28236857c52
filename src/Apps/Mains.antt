-- ===== src/Apps/Mains.antt =====
-- example/src/exBuilder.cc, example/src/exServer.cc: the main programs. What `getopt` returns, one
-- option after another with its argument, is an input, as are the environment and the host's name.
use levbdim.Base.{
  ℕ, List, [], ◌∷◌, ◌++◌, Option, some, none, ◌>>=◌, if◌then◌else◌, ◌==◌, Str, codes,
}
use levbdim.Apps.Server.{Server, new_server, set_detector_id, increment_event}

-- The variables that the options set. `detid` has no value until `-d` gives one.
pub record Options : Type 0 where
  pub port : ℕ
  pub detid : Option ℕ

-- A program that exits with a code, or goes on with what it has set up.
pub data Start {ℓ} (A : Type ℓ) : Type ℓ where
  exits : ℕ → Start A
  runs : A → Start A

-- What the constructor of the application is given.
pub record Launch : Type 0 where
  pub name : Str
  pub port : ℕ

-- `atoi`, as an unsigned number of 32 bits.
module _ (atoi : Str → ℕ) where
  -- The `switch` on an option.
  unfoldable pub take_option : ℕ × Str → Options → Options
  take_option (tmp, optarg) o =
      if tmp == b'd'
      then record o { detid = some (atoi optarg) }
      else if tmp == b'p'
      then record o { port = atoi optarg }
      else o

  unfoldable pub take_options : List (ℕ × Str) → Options → Options
  unfolding take_option
  take_options [] o = o
  take_options (opt ∷ opts) o = take_options opts (take_option opt o)

  -- `WEBPORT`, where the environment has it, goes before the options.
  unfoldable pub web_port : Option Str → ℕ → ℕ
  web_port none port = port
  web_port (some wp) port = atoi wp

  -- `main` of the event builder.
  unfoldable pub builder_main : ℕ → List (ℕ × Str) → Option Str → Str → Start Launch
  unfolding take_options web_port
  builder_main argc opts wp hname =
      if argc == 1
      then exits 1
      else runs (record {
        name = codes "EXB-" ++ hname;
        port = web_port wp (take_options opts (record { port = 45000; detid = none })).port;
      })

  -- `main` of the server of sources, up to its loop; `none`: it reads `detid` without a value.
  unfoldable pub server_main :
      ℕ → List (ℕ × Str) → Option Str → Str → Option (Start (Launch × Server))
  unfolding take_options web_port set_detector_id new_server
  server_main argc opts wp hname =
      let o = take_options opts (record { port = 46000; detid = none }) in
      if argc == 1
      then some (exits 1)
      else (o.detid >>= λ detid. some (
          runs (
            record { name = codes "EXS-" ++ hname; port = web_port wp o.port },
            set_detector_id detid new_server,
          )))

-- The body of the server's loop.
unfoldable pub server_tick : Server → Server
unfolding increment_event
server_tick s = if s.running then increment_event s else s
