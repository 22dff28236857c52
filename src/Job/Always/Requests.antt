-- ===== src/Job/Always/Requests.antt =====
-- src/fsmjob.cxx: what the web requests do to the process table.
use levbdim.Base.{
  ℕ, [], Option, Option-cases, Bool-cases, some, none, Bool, true, false, ◌&&◌, not, inl, inr, Str,
  codes, if◌then◌else◌, ◌==◌, str_eq,
}
use levbdim.Base.StdMap.{nat_key}
use levbdim.Json.{JsonLib}
use levbdim.Job.Table.{FsmJob, System, kill_process, json_status}
use levbdim.Job.Control.{Net}
use levbdim.Job.Web.{
  Request, Answer, respond, killjob, restartjob, restart_found, restarted, registerfile, match_job,
  pid_of_name, no_name, job_missing, file_config,
}
use levbdim.Shm.Name.{atol}
use levbdim.Job.Always.{IsTable, launch-IsTable, kill_process-IsTable, IsForking}

module _ (json : JsonLib) {W : Type 0} (sys : System W) (net : Net W) where
  open json use {Value}

  -- The table that a web request leaves.
  abbrev pub AnswerTabled : Answer json sys → Type 0
  AnswerTabled none = Unit
  AnswerTabled (some (w, j, v)) = IsTable json sys net j.process_map

  on_test :
      (b : Bool) (x y : Answer json sys)
      → AnswerTabled x
      → AnswerTabled y
      → AnswerTabled (if b then x else y)
  on_test true x y p q = p
  on_test false x y p q = q

  respond-tabled :
      (text : Str) (response : Value) (r : W × FsmJob json)
      → IsTable json sys net r.1.process_map
      → AnswerTabled (respond json sys text response r)
  unfolding respond
  respond-tabled text response (w, j) a = elim (Option-cases (json_status json sys w j)) [
    | inl e ↦ rw (e, respond) tt
    | inr (v, e) ↦ rw (e, respond) a
  ]

  pub killjob-tabled :
      (request : Request) (response : Value) (w : W) (j : FsmJob json)
      → IsTable json sys net j.process_map
      → AnswerTabled (killjob json sys request response w j)
  unfolding killjob
  killjob-tabled request response w j a =
      let name = request (codes "processname") no_name in
      let pid = atol (request (codes "pid") (codes "0")) in
      let sig = atol (request (codes "signal") (codes "9")) in
      let found = pid_of_name json sys name j.process_map in
      elim (Bool-cases ((pid == 0) && str_eq name no_name)) [
        | inl nothing ↦ rw (nothing, killjob) a
        | inr given ↦ elim (Bool-cases (not (pid == 0))) [
          | inl by_pid ↦
              rw (given, by_pid, killjob)
                (respond-tabled _ response (kill_process json sys pid sig w j)
                  (kill_process-IsTable json sys net pid sig w j a))
          | inr by_name ↦ elim (Bool-cases (not (found == 0))) [
            | inl here ↦
                rw (given, by_name, here, killjob)
                  (respond-tabled _ response (kill_process json sys found sig w j)
                    (kill_process-IsTable json sys net found sig w j a))
            | inr missing ↦
                rw (given, by_name, missing, killjob) (respond-tabled _ response (w, j) a)
          ]
        ]
      ]

  module _ (forks : IsForking json sys net) where
    restart_found-tabled :
        (found : Option (ℕ × Str)) (sig : ℕ) (response : Value) (w : W) (j : FsmJob json)
        → IsTable json sys net j.process_map
        → AnswerTabled (restart_found json sys found sig response w j)
    unfolding restart_found
    restart_found-tabled none sig response w j a = respond-tabled _ response (w, j) a
    restart_found-tabled (some (pid, text)) sig response w j a =
        on_test (not (pid == 0) && not (str_eq text no_name)) _ _
          (respond-tabled (codes "DONE") response (restarted json sys pid sig text w j) (
            launch-IsTable json sys net forks text (kill_process json sys pid sig w j).0
              (kill_process json sys pid sig w j).1
              (kill_process-IsTable json sys net pid sig w j a)))
          (respond-tabled (job_missing json sys) response (w, j) a)

    pub restartjob-tabled :
        (request : Request) (response : Value) (w : W) (j : FsmJob json)
        → IsTable json sys net j.process_map
        → AnswerTabled (restartjob json sys request response w j)
    unfolding restartjob
    restartjob-tabled request response w j a =
        let name = request (codes "processname") no_name in
        let pid = atol (request (codes "pid") (codes "0")) in
        let sig = atol (request (codes "signal") (codes "9")) in
        elim (Bool-cases ((pid == 0) && str_eq name no_name)) [
          | inl nothing ↦ rw (nothing, restartjob) a
          | inr given ↦
              rw (given, restartjob)
                (restart_found-tabled (match_job json sys name pid j.process_map) sig response w j
                  a)
        ]

    configured-IsTable :
        (r : Value × Bool) (j : FsmJob json)
        → IsTable json sys net j.process_map
        → IsTable json sys net (file_config json sys net r j).process_map
    configured-IsTable (v, true) j a = a
    configured-IsTable (v, false) j a = a

    pub registerfile-IsTable :
        (state : Str) (request : Request) (response : Value) (w : W) (j : FsmJob json)
        → IsTable json sys net j.process_map
        → IsTable json sys net (registerfile json sys net state request response w j).0.process_map
    unfolding registerfile
    registerfile-IsTable state request response w j a =
        let file = request (codes "file") no_name in
        elim (Bool-cases (not (str_eq state (codes "INITIALISED")))) [
          | inl early ↦ rw (early, registerfile) a
          | inr ready ↦ elim (Bool-cases (str_eq file no_name)) [
            | inl nothing ↦ rw (ready, nothing, registerfile) tt
            | inr given ↦
                rw (ready, given, registerfile)
                  (configured-IsTable (json.parse (net.file_text file w))
                    (record j { jfile = json.null; jconf = json.null; process_map = [] }) tt)
          ]
        ]
