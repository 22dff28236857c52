-- ===== src/Tests/Jobs.antt =====
-- A job control that starts a job.
use levbdim.Base.{ℕ, ◌≡◌, refl, false, List, [], ◌∷◌, ◌++◌, none, some, Str, codes, Option}
use levbdim.Base.StdMap.{keys, nat_key}
use levbdim.Fsm.Message.{FsmMessage, command_key, content_key}
use levbdim.Fsm.Machine.{Fsm, process_command}
use levbdim.Job.Table.{System}
use levbdim.Job.Control.{Net}
use levbdim.Job.Machine.{App, Env, new_job, job_machine}
use levbdim.Tests.Json.{Node, nil, text, field, json}

-- A system whose world lists the processes that were killed, and whose processes get the id 7.
abbrev sys : System (List ℕ)
sys = record {
  fork = λ child w. (7, w);
  kill = λ pid sig w. w ++ pid ∷ [];
  status_lines = λ pid w. none;
}

abbrev net : Net (List ℕ)
net = record {
  file_text = λ path w. [];
  curl_query = λ url login w. [];
  addresses = λ host. none;
  local_addresses = [];
}

abbrev say : Str → Node → FsmMessage json
say cmd v = record {
  sroot = [];
  thrown = false;
  jsroot = field content_key v (field command_key (text cmd) nil);
}

abbrev job : Node
job =
    field (codes "processname") (text (codes "daq"))
      (field (codes "processbin") (text (json.write (text (codes "/bin/daq")))) nil)

abbrev host : Str
host = codes "lyosdhcal"

abbrev port : ℕ
port = 9999

abbrev lines : List Str
lines = codes "WEBLOGIN=daq:daq" ∷ []

abbrev env : Env
env = λ n. none

abbrev Machine : Type 0
Machine = Fsm json (App json sys net)

abbrev machine : Machine
machine = job_machine json sys net

abbrev app : App json sys net
app = some ([], new_job json host port lines env)

abbrev next : Machine → App json sys net → FsmMessage json → Machine
next f a m = (process_command json (App json sys net) f a m).machine

abbrev next_app : Machine → App json sys net → FsmMessage json → App json sys net
next_app f a m = (process_command json (App json sys net) f a m).app

abbrev m1 : FsmMessage json
m1 = say (codes "REGISTRATION") nil

abbrev m2 : FsmMessage json
m2 = say (codes "REGISTERJOB") job

abbrev m3 : FsmMessage json
m3 = say (codes "ENDREGISTRATION") nil

abbrev m4 : FsmMessage json
m4 = say (codes "START") nil

abbrev f1 : Machine
f1 = next machine app m1

abbrev a1 : App json sys net
a1 = next_app machine app m1

abbrev f2 : Machine
f2 = next f1 a1 m2

abbrev a2 : App json sys net
a2 = next_app f1 a1 m2

abbrev f3 : Machine
f3 = next f2 a2 m3

abbrev a3 : App json sys net
a3 = next_app f2 a2 m3

abbrev f4 : Machine
f4 = next f3 a3 m4

abbrev a4 : App json sys net
a4 = next_app f3 a3 m4

-- The job runs.
abbrev ids : App json sys net → List ℕ
ids none = []
ids (some (w, j)) = keys j.process_map

one_job : (f4.state ≡ codes "RUNNING") × (ids a4 ≡ 7 ∷ [])
unfolding job_machine process_command levbdim.Base.StdMap.str_less new_job
one_job = (refl, refl)
