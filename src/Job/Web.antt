-- ===== src/Job/Web.antt =====
-- src/fsmjob.cxx: the commands of the web interface. A request is the function that `get` is, from
-- a name and a default to a text; a response is the JSON value that is filled in.
use levbdim.Base.{
  ℕ, ◌*◌, List, [], ◌∷◌, ◌++◌, Option, some, none, Bool, true, false, not, ◌&&◌, ◌||◌, ◌>>=◌,
  if◌then◌else◌, ◌==◌, Str, str_eq, codes,
}
use levbdim.Json.{JsonLib}
use levbdim.Shm.Name.{atol, dec}
use levbdim.Job.Tailer.Print.{tail}
use levbdim.Job.Table.{FsmJob, ProcessMap, System, process_name, launch, kill_process, json_status}
use levbdim.Job.Control.{Net}

abbrev pub Request : Type 0
Request = Str → Str → Str

abbrev pub no_name : Str
no_name = codes "NONE"

module _ (json : JsonLib) {W : Type 0} (sys : System W) where
  open json use {Value, null, get, set, of_string, parse}

  abbrev pub Answer : Type 0
  Answer = Option (W × FsmJob json × Value)

  -- `response["JOBS"]=jsonStatus()`, then the status text.
  unfoldable pub respond : Str → Value → W × FsmJob json → Answer
  unfolding json_status
  respond text response (w, j) = json_status json sys w j >>= λ jobs.
      some (w, j, set (codes "STATUS") (of_string text) (set (codes "JOBS") jobs response))

  unfoldable pub status : Value → W → FsmJob json → Answer
  unfolding respond
  status response w j = respond (codes "DONE") response (w, j)

  -- The id of the first process of that name, 0 if there is none.
  unfoldable pub pid_of_name : Str → ProcessMap json → ℕ
  unfolding str_eq
  pid_of_name name [] = 0
  pid_of_name name ((k, p) ∷ m) =
      if str_eq (process_name json p) name then k else pid_of_name name m

  unfoldable pub killjob : Request → Value → W → FsmJob json → Answer
  unfolding atol pid_of_name kill_process respond
  killjob request response w j =
      let name = request (codes "processname") no_name in
      let pid = atol (request (codes "pid") (codes "0")) in
      let sig = atol (request (codes "signal") (codes "9")) in
      let found = pid_of_name name j.process_map in
      if (pid == 0) && str_eq name no_name
      then some (w, j, set (codes "STATUS") (of_string (codes "No pid or name given")) response)
      else if not (pid == 0)
      then respond (codes "DONE") response (kill_process json sys pid sig w j)
      else if not (found == 0)
      then respond (codes "DONE") response (kill_process json sys found sig w j)
      else respond (codes "name not found in pid list") response (w, j)

  -- The first process of that name or id, with its text.
  unfoldable pub match_job : Str → ℕ → ProcessMap json → Option (ℕ × Str)
  unfolding str_eq
  match_job name pid [] = none
  match_job name pid ((k, p) ∷ m) =
      if str_eq (process_name json p) name || (pid == k)
      then some (k, p.text)
      else match_job name pid m

  abbrev pub restarted : ℕ → ℕ → Str → W → FsmJob json → W × FsmJob json
  restarted pid sig text w j =
      let (w', j') = kill_process json sys pid sig w j in launch json sys text w' j'

  abbrev pub job_missing : Str
  job_missing = codes "pid or name not found in pid list"

  unfoldable pub restart_found : Option (ℕ × Str) → ℕ → Value → W → FsmJob json → Answer
  unfolding kill_process launch respond
  restart_found none sig response w j = respond job_missing response (w, j)
  restart_found (some (pid, text)) sig response w j =
      if not (pid == 0) && not (str_eq text no_name)
      then respond (codes "DONE") response (restarted pid sig text w j)
      else respond job_missing response (w, j)

  unfoldable pub restartjob : Request → Value → W → FsmJob json → Answer
  unfolding atol match_job restart_found
  restartjob request response w j =
      let name = request (codes "processname") no_name in
      let pid = atol (request (codes "pid") (codes "0")) in
      let sig = atol (request (codes "signal") (codes "9")) in
      if (pid == 0) && str_eq name no_name
      then some (w, j, set (codes "STATUS") (of_string (codes "No pid or name given")) response)
      else restart_found (match_job name pid j.process_map) sig response w j

  -- `joblog`. `log_file` is the text of a file, none where it cannot be opened; `junk` is what the
  -- buffer of the tail happens to hold.
  abbrev log_path : ℕ → Str
  log_path pid = codes "/tmp/fsmjobPID" ++ dec pid (codes ".log")

  abbrev log_size : ℕ
  log_size = 1024 * 512

  unfoldable pub show_log :
      (Str → W → Option Str) → List ℕ → ℕ → ℕ → Value → W → FsmJob json → Answer
  unfolding tail dec
  show_log log_file junk pid nlines response w j =
      tail (log_file (log_path pid) w) nlines junk log_size >>= λ buf. buf >>= λ text. some (
        w,
        j,
        set (codes "LINES") (of_string text) (
            set (codes "FILE") (of_string (log_path pid))
              (set (codes "STATUS") (of_string (codes "DONE")) response)),
      )

  unfoldable pub joblog :
      (Str → W → Option Str) → List ℕ → Request → Value → W → FsmJob json → Answer
  unfolding atol pid_of_name show_log respond
  joblog log_file junk request response w j =
      let name = request (codes "processname") no_name in
      let pid = atol (request (codes "pid") (codes "0")) in
      let nlines = atol (request (codes "lines") (codes "100")) in
      let found = if pid == 0 then pid_of_name name j.process_map else pid in
      if (pid == 0) && str_eq name no_name
      then some (w, j, set (codes "STATUS") (of_string (codes "No pid or name given")) response)
      else if not (found == 0)
      then show_log log_file junk found nlines response w j
      else respond (codes "name not found in pid list") response (w, j)

  module _ (net : Net W) where
    abbrev pub file_config : Value × Bool → FsmJob json → FsmJob json
    file_config (v, true) j = record j { jfile = v; jconf = get j.hostname (get (codes "HOSTS") v) }
    file_config (v, false) j = record j { jfile = v }

    -- `state` is the state of the machine.
    unfoldable pub registerfile : Str → Request → Value → W → FsmJob json → FsmJob json × Value
    unfolding str_eq
    registerfile state request response w j =
        let file = request (codes "file") no_name in
        let cleared = record j { jfile = null; jconf = null; process_map = [] } in
        if not (str_eq state (codes "INITIALISED"))
        then (
          j,
          set (codes "STATUS") (of_string (codes "cannot register jobs if not initialised"))
              response,
        )
        else if str_eq file no_name
        then (cleared, set (codes "STATUS") (of_string (codes "No file  given")) response)
        else (let j' = file_config (parse (net.file_text file w)) cleared in
            (
              j',
              set (codes "STATUS") (of_string (codes "DONE"))
                  (set (codes "JOBS") j'.jconf response),
            ))
