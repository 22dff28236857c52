-- ===== src/Tests/Server.antt =====
-- A server of data sources.
use levbdim.Base.{ℕ, ◌≡◌, refl, [], ◌∷◌, List, some, none, Option, codes}
use levbdim.Buffer.{Bytes}
use levbdim.Base.{str_eq}
use levbdim.Base.StdMap
use levbdim.Base.StdMap.{StdMap, nat_key, str_less}
use levbdim.Fsm.Message.{FsmMessage, command, content_key, command_key}
use levbdim.Fsm.Machine.{Outcome, process_command, add_transition, add_state, new_fsm}
use levbdim.Base.{true, false}
use levbdim.Buffer.{Buffer, new_buffer, data_source_id, detector_id}
use levbdim.Source.Datasource.{Datasource, new_datasource}
use levbdim.Apps.Server.{stat_key}
use levbdim.Apps.Mains.{server_tick}
use levbdim.Apps.Service.{IsInService}
use levbdim.Apps.Service.Life.{Life, created, commanded, counted, server-IsInService}
use levbdim.Apps.Server.{
  Server, server_machine, new_server, configure, start, increment_event, read_data,
}
use levbdim.Tests.Json.{nil, num, field, item, text, json, json_laws}
use levbdim.Tests.Systems.{zeros}

-- A server of the sources 2 and 3, after its first event; source 2 publishes.
abbrev junk : ℕ → Bytes
junk n = zeros 40

abbrev configured : Server
configured =
    (configure json junk new_server (record {
      sroot = [];
      thrown = false;
      jsroot =
          field content_key
            (field (codes "detid") (num 1)
              (field (codes "sourceid") (item (item nil (num 2)) (num 3)) nil))
            nil;
    })).0

abbrev with_event : Server
with_event =
    increment_event
      (start json junk configured (record { sroot = []; thrown = false; jsroot = nil })).0

abbrev statistics : Option Server → List (ℕ × ℕ)
statistics none = []
statistics (some s) = s.stat

publishes : statistics (read_data (λ i. 9) 0 with_event) ≡ (65538, 1) ∷ (65539, 0) ∷ []
unfolding configure start increment_event read_data new_server zeros levbdim.Base.str_eq
publishes = refl

abbrev configure_message : FsmMessage json
configure_message = record {
  sroot = [];
  thrown = false;
  jsroot =
      field content_key
        (field (codes "detid") (num 1)
          (field (codes "sourceid") (item (item nil (num 2)) (num 3)) nil))
        (field command_key (text (codes "CONFIGURE")) nil);
}

abbrev start_message : FsmMessage json
start_message = record {
  sroot = [];
  thrown = false;
  jsroot = field command_key (text (codes "START")) nil;
}

abbrev first : Outcome json Server
first = process_command json Server (server_machine json junk) new_server configure_message

abbrev second : Outcome json Server
second = process_command json Server first.machine first.app start_message

-- The server is configured and started, and an event is counted up.
life : Life json junk (server_machine json junk) new_server second.machine (server_tick second.app)
life = counted second.machine second.app (
    commanded first.machine first.app start_message
      (commanded (server_machine json junk) new_server configure_message created))

server-IsInService_example : IsInService second.machine.state (server_tick second.app)
server-IsInService_example =
    server-IsInService json junk json_laws second.machine (server_tick second.app) life

runs : second.machine.state ≡ codes "RUNNING"
unfolding process_command server_machine add_transition add_state new_fsm command configure start
    new_server zeros str_eq str_less
runs = refl

-- The round of the thread of source 2.
abbrev source : Datasource
source = new_datasource 1 2 (zeros 40)

abbrev active : Server
active = record new_server {
  sources = source ∷ [];
  running = true;
  threads = 0 ∷ [];
  event = 6;
  bx = 8;
  stat = (stat_key 1 2, 5) ∷ [];
}

abbrev empty_block : Buffer
empty_block = new_buffer (zeros 64)

-- The key of the source.
abbrev key : ℕ
key = stat_key (detector_id source.buffer) (data_source_id source.buffer)
