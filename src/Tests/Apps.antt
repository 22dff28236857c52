-- ===== src/Tests/Apps.antt =====
-- The applications.
use levbdim.Base.{
  ℕ, ◌≡◌, refl, false, List, [], ◌∷◌, ◌++◌, some, none, true, Str, codes, length, map,
}
use levbdim.Buffer.{Bytes}
use levbdim.Shm.Driver.{ShmDriver, dskey}
use levbdim.Writer.File.{Output, BasicWriter}
use levbdim.Fsm.Message.{FsmMessage, content, command_key, content_key}
use levbdim.Fsm.Machine.{Fsm, process_command}
use levbdim.Fsm.Reach.{created, commanded}
use levbdim.Apps.Builder.{
  Builder, App, ready, new_builder, halt, addsources, listed_sources, builder_machine,
}
use levbdim.Apps.Wiring.{IsInOrder, setting}
use levbdim.Apps.Wiring.Run.{addsources-halt}
use levbdim.Apps.Wiring.Run.Machine.{IsListing, builder-IsInOrder}
use levbdim.Tests.Json.{Node, nil, text, num, field, item, json, json_laws}
use levbdim.Tests.Systems.{zlib, real, fs, disk, zeros, Files}

-- An output that leaves the files alone.
abbrev files_out : Output Files
files_out = record {
  date = λ w. [];
  open_file = λ path w. (some 3, w);
  write = λ fd chunk w. w;
  close = λ fd w. w;
}

abbrev junk : ℕ → Bytes
junk n = zeros 16

abbrev say : Str → Node → FsmMessage json
say cmd v = record {
  sroot = [];
  thrown = false;
  jsroot = field content_key v (field command_key (text cmd) nil);
}

abbrev configure_message : FsmMessage json
configure_message = say (codes "CONFIGURE") (
    field (codes "memdir") (text (codes "/mem"))
      (field (codes "datadir") (text (codes "/data")) nil))

abbrev add_message : FsmMessage json
add_message = say (codes "ADDSOURCES") (
    field (codes "detid") (num 100)
      (field (codes "sourceid") (item (item nil (num 23)) (num 24)) nil))

abbrev Machine : Type 0
Machine = Fsm json (App Files)

abbrev machine : Machine
machine = builder_machine json fs files_out zlib real junk

abbrev new_app : App Files
new_app = ready disk new_builder

abbrev machine_1 : Machine
machine_1 = (process_command json (App Files) machine new_app configure_message).machine

abbrev app_1 : App Files
app_1 = (process_command json (App Files) machine new_app configure_message).app

abbrev machine_2 : Machine
machine_2 = (process_command json (App Files) machine_1 app_1 add_message).machine

abbrev app_2 : App Files
app_2 = (process_command json (App Files) machine_1 app_1 add_message).app

builder-IsInOrder_example :
    IsInOrder machine_2.state app_2
    × IsListing json fs files_out zlib real junk machine_2.state app_2
builder-IsInOrder_example =
    builder-IsInOrder json fs files_out zlib real junk json_laws disk machine_2 app_2
      (commanded machine_1 app_1 add_message (commanded machine new_app configure_message created))

-- It is the state after `CONFIGURE` and `ADDSOURCES`, with two sockets.
abbrev socket_count : App Files → ℕ
socket_count (ready w s) = length s.sources
socket_count a = 0

two_sockets : (machine_2.state ≡ codes "CONFIGURED") × (socket_count app_2 ≡ 2)
unfolding builder_machine process_command levbdim.Base.StdMap.str_less
two_sockets = (refl, refl)

abbrev driver : ShmDriver BasicWriter
driver = record {
  memdir = codes "/mem";
  use_event_id = true;
  datasources = 409623 ∷ [];
  processors = [];
  event_map = [];
  running = true;
  run = 7;
  evt = 0;
  run_header = [];
}

abbrev running_builder : Builder
running_builder = record { memdir = codes "/mem"; sources = []; driver = some driver }

addsources-halt_example :
    (w' : Files) × (s' : Builder) × (s'' : Builder) × (d' : ShmDriver BasicWriter) × ((halt json fs
        files_out zlib real junk disk running_builder
        (say (codes "HALT") nil)).0
      ≡ ready w' s')
    × ((addsources json fs files_out zlib real junk w' s' add_message).0 ≡ ready w' s'')
    × (s''.driver ≡ some d')
    × (map setting s''.sources
        ≡ map
            (λ sid. (
              json.as_int (json.get (codes "detid") (content json add_message)),
              sid,
              codes "/mem",
            ))
            (listed_sources json fs files_out zlib real junk add_message))
    × (d'.datasources
        ≡ driver.datasources
          ++ map
              (dskey (json.as_int (json.get (codes "detid") (content json add_message))))
              (listed_sources json fs files_out zlib real junk add_message))
addsources-halt_example =
    addsources-halt json fs files_out zlib real junk disk running_builder driver
      (say (codes "HALT") nil) add_message refl
