-- ===== src/Job/Table.antt =====
-- src/fsmjob.cxx, include/fsmjob.hh: the process table, starting and killing.
use levbdim.Base.{
  ℕ, ◌+◌, List, [], ◌∷◌, ◌++◌, Option, some, none, Bool, true, false, ◌&&◌, ◌||◌, not, ◌>>=◌,
  if◌then◌else◌, ltb, leb, ◌==◌, Str, codes, length, map,
}
use levbdim.Base.StdMap
use levbdim.Base.StdMap.{StdMap, nat_key}
use levbdim.Json.{JsonLib}
use levbdim.Job.Status.{process_status}

pub data Status : Type 0 where
  not_created running killed : Status

abbrev pub is_running : Status → Bool
is_running running = true
is_running _ = false

abbrev pub is_not_created : Status → Bool
is_not_created not_created = true
is_not_created _ = false

-- What the child process executes.
pub record Launch : Type 0 where
  pub path : Str
  pub argv : List Str
  pub envp : List Str

-- The operating system, over the world `W`: `fork`, with what the child then executes (`none`: the
-- child overruns its arrays, or `sprintf` reads arguments that it was not given), and the process
-- id that the parent gets, as a 32-bit pattern; `kill(pid, signal)`; the lines of
-- `/proc/<pid>/status`.
pub record System (W : Type 0) : Type 0 where
  pub fork : Option Launch → W → ℕ × W
  pub kill : ℕ → ℕ → W → W
  pub status_lines : ℕ → W → Option (List Str)

module _ (json : JsonLib) where
  open json use {
    Value, null, get, set, is_member, of_string, as_string, of_int, append, items, parse, write,
  }

  pub record ProcessData : Type 0 where
    pub process_info : Value
    pub child_pid : ℕ
    pub status : Status
    pub text : Str

  abbrev pub ProcessMap : Type 0
  ProcessMap = StdMap ℕ ProcessData

  pub record FsmJob : Type 0 where
    pub jfile : Value
    pub jconf : Value
    pub hostname : Str
    pub port : ℕ
    pub process_map : ProcessMap
    pub login : Str
    pub env_conf : List Str

  unfoldable pub new_process_data : Str → ProcessData
  new_process_data text = record {
    process_info = (parse text).0;
    child_pid = 0;
    status = not_created;
    text = text;
  }

  abbrev strings : List Value → List Str
  strings = map as_string

  -- `argv[16][4096]` and `envp[100][4096]`, each with a null pointer at its end.
  all_short : List Str → Bool
  all_short [] = true
  all_short (s ∷ ss) = ltb (length s) 4096 && all_short ss

  -- `sprintf(executivePath, programName.c_str())`: a `%` in the path begins a conversion.
  has_percent : Str → Bool
  has_percent [] = false
  has_percent (c ∷ s) = (c == b'%') || has_percent s

  unfoldable pub launch_of : List Str → Value → Option Launch
  unfolding all_short has_percent
  launch_of env_conf info =
      let path = as_string (get (codes "PROGRAM") info) in
      let args = strings (items (get (codes "ARGS") info)) in
      let env =
        env_conf
        ++ (strings (items (get (codes "ENV") info))
            ++ (codes "PROCESSNAME=" ++ as_string (get (codes "NAME") info)) ∷ []) in
      if not (has_percent path)
        && ((leb (length args + 2) 16 && leb (length env + 1) 100)
            && (all_short (path ∷ args) && all_short env))
      then some (record { path = path; argv = path ∷ args; envp = env })
      else none

  abbrev pub process_name : ProcessData → Str
  process_name p = as_string (get (codes "NAME") p.process_info)

  module _ {W : Type 0} (sys : System W) where
    -- `startProcess`, in the parent; a failed `fork`, which returns -1, is not told apart.
    unfoldable pub start_process : List Str → ProcessData → W → W × ProcessData
    unfolding launch_of
    start_process env_conf p w =
        if is_not_created p.status
        then (let (pid, w') = sys.fork (launch_of env_conf p.process_info) w in
            (w', record p { child_pid = pid; status = running }))
        else (w, p)

    -- The loop of `killProcess`: the first running process of that id is killed and erased.
    unfoldable pub kill_in : ℕ → ℕ → W → ProcessMap → W × ProcessMap
    kill_in pid sig w [] = (w, [])
    kill_in pid sig w ((k, p) ∷ m) =
        let (w', m') = kill_in pid sig w m in
        if is_running p.status && (pid == k) then (sys.kill k sig w, m) else (w', (k, p) ∷ m')

    unfoldable pub kill_process : ℕ → ℕ → W → FsmJob → W × FsmJob
    unfolding kill_in
    kill_process pid sig w j =
        let (w', m) = kill_in pid sig w j.process_map in (w', record j { process_map = m })

    -- The new process under its id; an entry that has that id already stays.
    unfoldable pub launch : Str → W → FsmJob → W × FsmJob
    unfolding new_process_data start_process StdMap.insert
    launch text w j =
        let (w', p) = start_process j.env_conf (new_process_data text) w in
        (w', record j { process_map = StdMap.insert p.child_pid p j.process_map })

    -- `jsonStatus`; `none` where a status line makes `trimString` throw.
    unfoldable pub status_of : Str → W → ℕ × ProcessData → Option Value
    unfolding process_status
    status_of hostname w (pid, p) = process_status (sys.status_lines pid w) >>= λ status. some (
        set (codes "STATUS") (of_string status) (
          set (codes "NAME") (get (codes "NAME") p.process_info)
            (set (codes "PID") (of_int pid) (set (codes "HOST") (of_string hostname) null))))

    unfoldable pub status_array : Value → Str → W → ProcessMap → Option Value
    unfolding status_of
    status_array array hostname w [] = some array
    status_array array hostname w (e ∷ m) =
        status_of hostname w e >>= λ pinf. status_array (append array pinf) hostname w m

    unfoldable pub json_status : W → FsmJob → Option Value
    unfolding status_array
    json_status w j = status_array null j.hostname w j.process_map
