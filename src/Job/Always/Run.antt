-- ===== src/Job/Always/Run.antt =====
-- src/fsmjob.cxx: the runs of the job control, by commands to its machine and by web requests.
use levbdim.Base.{◌≡◌, some}
use levbdim.Base.StdMap.{nat_key}
use levbdim.Json.{JsonLib}
use levbdim.Fsm.Message.{FsmMessage}
use levbdim.Fsm.Machine.{Fsm, process_command}
use levbdim.Fsm.Reach.{AllKeep}
use levbdim.Job.Table.{FsmJob, System}
use levbdim.Job.Control.{Net}
use levbdim.Job.Machine.{App}
use levbdim.Job.Web.{Request, killjob, restartjob, registerfile}
use levbdim.Job.Always.{IsTabled, IsForking}

module _ (json : JsonLib) {W : Type 0} (sys : System W) (net : Net W) where
  open json use {Value}

  -- The states that commands and web requests lead to, from a first one.
  pub data Run (f : Fsm json (App json sys net)) (a : App json sys net)
      : Fsm json (App json sys net) → App json sys net → Type 0 where
    created : Run f a f a
    commanded :
        (f' : Fsm json (App json sys net)) (a' : App json sys net) (m : FsmMessage json)
        → Run f a f' a'
        → Run f a
            (process_command json (App json sys net) f' a' m).machine
            (process_command json (App json sys net) f' a' m).app
    killed :
        (f' : Fsm json (App json sys net)) (w w' : W) (j j' : FsmJob json) (request : Request)
        (response answer : Value)
        → Run f a f' (some (w, j))
        → killjob json sys request response w j ≡ some (w', j', answer)
        → Run f a f' (some (w', j'))
    restarted_job :
        (f' : Fsm json (App json sys net)) (w w' : W) (j j' : FsmJob json) (request : Request)
        (response answer : Value)
        → Run f a f' (some (w, j))
        → restartjob json sys request response w j ≡ some (w', j', answer)
        → Run f a f' (some (w', j'))
    file_registered :
        (f' : Fsm json (App json sys net)) (w : W) (j : FsmJob json) (request : Request)
        (response : Value)
        → Run f a f' (some (w, j))
        → Run f a f' (some (w, (registerfile json sys net f'.state request response w j).0))

  module _ (forks : IsForking json sys net) where
    abbrev Kept : Fsm json (App json sys net) → Type 0
    Kept = AllKeep json (App json sys net) (λ state. IsTabled json sys net)
