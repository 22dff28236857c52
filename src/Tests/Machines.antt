-- ===== src/Tests/Machines.antt =====
-- State machines and the job control.
use levbdim.Base.{
  is_some, contains, ℕ, ◌+◌, ◌≡◌, refl, List, [], ◌∷◌, ◌++◌, some, none, true, false, Str, str_eq,
  codes, arith, if◌then◌else◌, ◌&&◌, All,
}
use levbdim.Base.StdMap.{keys, IsDistinct, nat_key, str_key}
use levbdim.Fsm.Message.{
  FsmMessage, command, content, set_answer, set_answer_lem, AnswerIsSet, command_key, content_key,
}
use levbdim.Fsm.Machine.{
  reply, FsmTransition, Fsm, new_fsm, add_transition, process_command, allowed_names,
}
use levbdim.Fsm.Web.{Request, FsmWeb, not_set, asked, web_message, fsm_process}
use levbdim.Fsm.Serve.{fsm_process_done}
use levbdim.Fsm.Table.{target, or_else, target-add_transition, IsDistinct-add_transition}
use levbdim.Fsm.Command.{
  Answers, process_command_done, process_command_failed, IsRefused, allow_list_lem,
}
use levbdim.Job.Status.{process_status, trim_string, trim_string_throws}
use levbdim.Job.Table.{FsmJob, ProcessData, System, running}
use levbdim.Job.Control.{Net, kill}
use levbdim.Job.Kill.{IsTable, IsReadable, kill_each, kill_lem}
use levbdim.Tests.Json.{nil, text, num, field, json, json_laws}

abbrev pub Callback : Type 0
Callback = ℕ → FsmMessage json → ℕ × FsmMessage json

-- A callback that counts its calls.
abbrev pub count_call : Callback
count_call n m = (n + 1, m)

abbrev pub machine : Fsm json ℕ
machine =
    add_transition json ℕ (codes "START") (codes "CREATED") (codes "RUNNING") count_call
      (new_fsm json ℕ)

abbrev message : Str → FsmMessage json
message cmd = record {
  sroot = [];
  thrown = false;
  jsroot = field content_key nil (field command_key (text cmd) nil);
}

abbrev pub start_transition : FsmTransition json ℕ
start_transition = record {
  initial_state = codes "CREATED";
  final_state = codes "RUNNING";
  callback = count_call;
}

set_answer_lem_example :
    AnswerIsSet json json_laws
      (num 3)
      (message (codes "START"))
      (set_answer json (num 3) (message (codes "START")))
      (json.has_members (content json (message (codes "START"))))
set_answer_lem_example = set_answer_lem json json_laws (num 3) (message (codes "START"))

target-add_transition_example : target json ℕ (codes "START") (codes "CREATED") machine ≡ (
    if str_eq (codes "START") (codes "START") && str_eq (codes "CREATED") (codes "CREATED")
    then or_else json ℕ
        (target json ℕ (codes "START") (codes "CREATED") (new_fsm json ℕ))
        start_transition
    else target json ℕ (codes "START") (codes "CREATED") (new_fsm json ℕ))
target-add_transition_example =
    target-add_transition json ℕ (codes "START") (codes "CREATED") (codes "RUNNING") count_call
      (new_fsm json ℕ) (codes "START") (codes "CREATED")

finds_start :
    target json ℕ (command json (message (codes "START"))) machine.state machine
    ≡ some start_transition
unfolding add_transition new_fsm command str_eq
finds_start = refl

finds_nothing : target json ℕ (command json (message (codes "STOP"))) machine.state machine ≡ none
unfolding add_transition new_fsm command str_eq
finds_nothing = refl

process_command_done_example :
    ((process_command json ℕ machine 0 (message (codes "START"))).machine ≡ record machine {
      state = codes "RUNNING";
      published = machine.published ++ codes "RUNNING" ∷ [];
    })
    × ((process_command json ℕ machine 0 (message (codes "START"))).app ≡ 1)
    × ((process_command json ℕ machine 0 (message (codes "START"))).result ≡ codes "RUNNING")
    × Answers json ℕ json_laws
        (codes "DONE")
        (content json (message (codes "START")))
        (message (codes "START"))
        (process_command json ℕ machine 0 (message (codes "START"))).message
process_command_done_example =
    process_command_done json ℕ json_laws machine 0 (message (codes "START")) start_transition
      finds_start refl

process_command_failed_example :
    ((process_command json ℕ machine 0 (message (codes "STOP"))).machine ≡ machine)
    × ((process_command json ℕ machine 0 (message (codes "STOP"))).app ≡ 0)
    × IsRefused json ℕ json_laws machine 0
        (message (codes "STOP"))
        (json.has_members (content json (message (codes "STOP"))))
process_command_failed_example =
    process_command_failed json ℕ json_laws machine 0 (message (codes "STOP")) finds_nothing

no_commands : IsDistinct (new_fsm json ℕ).transitions
unfolding new_fsm
no_commands = tt

allow_list_lem_example :
    contains (codes "START") (allowed_names json ℕ machine.state machine.transitions)
    ≡ is_some (target json ℕ (codes "START") machine.state machine)
allow_list_lem_example = allow_list_lem json ℕ json_laws machine (codes "START") (
    IsDistinct-add_transition json ℕ (codes "START") (codes "CREATED") (codes "RUNNING") count_call
      (new_fsm json ℕ) no_commands)

-- A web interface of that machine, and a request.
abbrev pub web : FsmWeb json ℕ
web = record {
  machine = machine;
  running = true;
  commands = [];
  name = codes "ljc";
  web_state = some (codes "http://lyosdhcal:45000/ljc");
  updates = [];
}

abbrev start_request : Request
start_request key default =
    if str_eq key (codes "command")
    then codes "START"
    else if str_eq key (codes "content")
    then json.write nil
    else default

asked_nothing : asked json ℕ web.web_state (start_request (codes "command") not_set) ≡ none
unfolding str_eq
asked_nothing = refl

starts :
    target json ℕ (start_request (codes "command") not_set) web.machine.state web.machine
    ≡ some start_transition
unfolding add_transition new_fsm str_eq
starts = refl

command_given : str_eq (start_request (codes "command") not_set) not_set ≡ false
unfolding str_eq
command_given = refl

content_given : str_eq (start_request (codes "content") not_set) not_set ≡ false
unfolding str_eq
content_given = refl

abbrev start_message : FsmMessage json
start_message =
    web_message json ℕ (start_request (codes "command") not_set)
      (start_request (codes "content") not_set)

fsm_process_done_example :
    (command json start_message ≡ start_request (codes "command") not_set)
    × (content json start_message ≡ (json.parse (start_request (codes "content") not_set)).0)
    × (fsm_process json ℕ web 0 start_request nil ≡ (
      record web {
        machine = record machine {
          state = codes "RUNNING";
          published = machine.published ++ codes "RUNNING" ∷ [];
        };
      },
      1,
      reply json ℕ (codes "DONE") start_message,
    ))
unfolding web_message
fsm_process_done_example =
    fsm_process_done json ℕ json_laws web 0 start_request nil start_transition command_given
      content_given asked_nothing starts refl

trim_string_throws_example : trim_string (codes "S ") ≡ none
trim_string_throws_example = trim_string_throws (codes "S")

-- A system whose world lists the processes that were killed, and whose processes get the id 7.
abbrev sys : System (List ℕ)
sys = record {
  fork = λ child w. (7, w);
  kill = λ pid sig w. w ++ pid ∷ [];
  status_lines = λ pid w. none;
}

abbrev net : Net (List ℕ)
net = record {
  file_text = λ path w. [];
  curl_query = λ url login w. [];
  addresses = λ host. none;
  local_addresses = [];
}

abbrev process : ℕ → ProcessData json
process pid = record { process_info = nil; child_pid = pid; status = running; text = [] }

abbrev jobs : FsmJob json
jobs = record {
  jfile = nil;
  jconf = nil;
  hostname = codes "lyosdhcal";
  port = 9999;
  process_map = (5, process 5) ∷ (9, process 9) ∷ [];
  login = [];
  env_conf = [];
}

jobs-IsTable : IsTable json jobs.process_map
jobs-IsTable = ((refl, refl, omega arith), ((refl, refl, omega arith), tt))

jobs-IsReadable : All (IsReadable json sys net json_laws []) jobs.process_map
unfolding process_status
jobs-IsReadable = ((codes "X (dead)", refl), ((codes "X (dead)", refl), tt))

kill_lem_example :
    kill json sys net [] jobs (message (codes "KILL"))
    ≡ some (
      kill_each json sys net (keys jobs.process_map) 9 [],
      record jobs { process_map = [] },
      set_answer json nil (message (codes "KILL")),
    )
kill_lem_example =
    kill_lem json sys net json_laws [] jobs (message (codes "KILL")) jobs-IsTable jobs-IsReadable
