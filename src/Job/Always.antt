-- ===== src/Job/Always.antt =====
-- src/fsmjob.cxx: the process table in every state of the job control.
pub mod Requests
pub mod Run
use levbdim.Base.{
  ℕ, ◌-◌, ◌⊎◌, ◌<◌, ◌^◌, ◌≡◌, refl, ap, [], ◌∷◌, Option, Bool-cases, some, none, ◌&&◌, not, inl,
  inr, Str, All, arith, ◌>>=◌, ◌==◌, str_eq,
}
use levbdim.Base.StdMap.{nat_key}
use levbdim.Json.{JsonLib, Laws}
use levbdim.Fsm.Message.{FsmMessage}
use levbdim.Fsm.Machine.{Fsm, process_command, add_state, new_fsm}
use levbdim.Fsm.Reach.{
  AllKeep, AllKeep-no_transitions, AllKeep-add_transition, IsKept-process_command,
}
use levbdim.Job.Table
use levbdim.Job.Table.{FsmJob, System, ProcessMap, kill_in, kill_process, launch}
use levbdim.Job.Control.{Net, end_registration, has_name}
use levbdim.Job.Kill.{All-insert}
use levbdim.Job.Machine.{App, Callback, job_states, add, on_end_registration, job_machine}
use levbdim.Job.Web.{
  Request, Answer, respond, killjob, restartjob, restart_found, restarted, registerfile, match_job,
  pid_of_name,
}

module _ (json : JsonLib) {W : Type 0} (sys : System W) (net : Net W) where
  open json use {Value, items}

  -- An id that `fork` returns, as a 32-bit pattern: that of a process, which is not negative as an
  -- `int`, or the -1 of a failure.
  abbrev pub IsForked : ℕ → Type 0
  IsForked pid = (pid < 2 ^ 31) ⊎ (pid ≡ 2 ^ 32 - 1)

  -- An entry that is marked as running, under the id that `fork` returned for it.
  abbrev pub IsMarked : ℕ × Table.ProcessData json → Type 0
  IsMarked (pid, p) = (p.status ≡ Table.running) × (p.child_pid ≡ pid) × IsForked pid

  abbrev pub IsTable : ProcessMap json → Type 0
  IsTable m = All IsMarked m

  -- The table of a state that is not undefined.
  abbrev pub IsTabled : App json sys net → Type 0
  IsTabled none = Unit
  IsTabled (some (w, j)) = IsTable j.process_map

  kill_in-IsTable :
      (pid sig : ℕ) (w : W) (m : ProcessMap json)
      → IsTable m
      → IsTable (kill_in json sys pid sig w m).1
  unfolding kill_in
  kill_in-IsTable pid sig w [] a = tt
  kill_in-IsTable pid sig w ((k, p) ∷ m) a =
      elim (Bool-cases (Table.is_running p.status && (pid == k))) [
        | inl hit ↦ rw hit a.1
        | inr miss ↦ rw miss (a.0, kill_in-IsTable pid sig w m a.1)
      ]

  kill_process-IsTable :
      (pid sig : ℕ) (w : W) (j : FsmJob json)
      → IsTable j.process_map
      → IsTable (kill_process json sys pid sig w j).1.process_map
  unfolding kill_process
  kill_process-IsTable pid sig w j a = kill_in-IsTable pid sig w j.process_map a

  -- What `fork` is documented to return, in the parent.
  abbrev pub IsForking : Type 0
  IsForking = (child : Option Table.Launch) (w : W) → IsForked (sys.fork child w).0

  module _ (forks : IsForking) where
    pub launch-IsTable :
        (text : Str) (w : W) (j : FsmJob json)
        → IsTable j.process_map
        → IsTable (launch json sys text w j).1.process_map
    unfolding launch Table.start_process Table.new_process_data levbdim.Base.StdMap.insert
    launch-IsTable text w j ok = All-insert IsMarked _ _ j.process_map (refl, refl, forks _ w) ok

    -- Every callback keeps the table.
    abbrev pub KeepsTable : Callback json sys net → Type 0
    KeepsTable cb = (a : App json sys net) (m : FsmMessage json) → IsTabled a → IsTabled (cb a m).0
