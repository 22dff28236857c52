-- ===== src/Job/Machine.antt =====
-- src/fsmjob.cxx, the constructor of `fsmjob`: the state machine of the job control, its
-- configuration and its environment.
use levbdim.Base.{
  ℕ, List, [], ◌∷◌, Option, some, none, ◌>>=◌, if◌then◌else◌, ◌==◌, Str, str_eq, codes,
}
use levbdim.Json.{JsonLib}
use levbdim.Fsm.Message.{FsmMessage}
use levbdim.Fsm.Machine.{Fsm, new_fsm, add_state, add_transition}
use levbdim.Job.Table.{FsmJob, System}
use levbdim.Job.Control.{
  Net, registration, end_registration, registerjob, initialise, start, kill, destroy,
}

-- The environment of the process, by names.
abbrev pub Env : Type 0
Env = Str → Option Str

abbrev setenv : Str → Str → Env → Env
setenv name value env = λ n. if str_eq n name then some value else env n

-- The text before the first `=` of a line, and the text after it.
unfoldable pub split_line : Str → Option (Str × Str)
split_line [] = none
split_line (c ∷ s) =
    let rest = split_line s in if c == b'=' then some ([], s) else rest >>= λ r. some (c ∷ r.0, r.1)

abbrev set_from : Option (Str × Str) → Env → Env
set_from none env = env
set_from (some (name, value)) env = setenv name value env

-- The loop over the lines of `/etc/ljc.conf`.
unfoldable pub read_conf : List Str → Env → Env
unfolding split_line str_eq
read_conf [] env = env
read_conf (line ∷ lines) env = read_conf lines (set_from (split_line line) env)

abbrev or_none_login : Option Str → Str
or_none_login none = []
or_none_login (some login) = login

module _ (json : JsonLib) where
  open json use {null}

  -- `lines` are those of the configuration file, none if it cannot be opened. `m_jfile` and
  -- `m_jconf` are JSON values of their own, null at first.
  unfoldable pub new_job : Str → ℕ → List Str → Env → FsmJob json
  unfolding read_conf
  new_job hostname port lines env = record {
    jfile = null;
    jconf = null;
    hostname = hostname;
    port = port;
    process_map = [];
    login = or_none_login (read_conf lines env (codes "WEBLOGIN"));
    env_conf = lines;
  }

  module _ {W : Type 0} (sys : System W) (net : Net W) where
    -- The world and the job control; none after undefined behaviour.
    abbrev pub App : Type 0
    App = Option (W × FsmJob json)

    abbrev pub Callback : Type 0
    Callback = App → FsmMessage json → App × FsmMessage json

    -- A method that does not touch the world, and one that may be undefined.
    abbrev pub plain :
        (W → FsmJob json → FsmMessage json → FsmJob json × FsmMessage json) → Callback
    plain method none m = (none, m)
    plain method (some (w, j)) m = let (j', m') = method w j m in (some (w, j'), m')

    abbrev pub left_by :
        FsmMessage json → Option (W × FsmJob json × FsmMessage json) → App × FsmMessage json
    left_by m none = (none, m)
    left_by m (some (w, j, m')) = (some (w, j), m')

    abbrev pub partial :
        (W → FsmJob json → FsmMessage json → Option (W × FsmJob json × FsmMessage json)) → Callback
    partial method none m = (none, m)
    partial method (some (w, j)) m = left_by m (method w j m)

    abbrev pub job_states : Fsm json App
    job_states = add_state json App (codes "RUNNING") (
        add_state json App (codes "INITIALISED") (
          add_state json App (codes "REGISTERING")
            (add_state json App (codes "CREATED") (new_fsm json App))))

    -- The callbacks, in the order of the table.
    abbrev pub on_initialise : Callback
    on_initialise = plain (initialise json sys net)

    abbrev pub on_registration : Callback
    on_registration = plain (λ w j m. (registration json j, m))

    abbrev pub on_registerjob : Callback
    on_registerjob = plain (λ w j m. registerjob json j m)

    abbrev pub on_end_registration : Callback
    on_end_registration = plain (λ w j m. (j, end_registration json j m))

    abbrev pub on_start : Callback
    on_start = partial (start json sys net)

    abbrev pub on_kill : Callback
    on_kill = partial (kill json sys net)

    abbrev pub on_destroy : Callback
    on_destroy = plain (λ w j m. destroy json sys net j m)

    abbrev pub add : Str → Str → Str → Callback → Fsm json App → Fsm json App
    add cmd istate fstate cb f = add_transition json App cmd istate fstate cb f

    unfoldable pub job_machine : Fsm json App
    unfolding add_transition add_state new_fsm initialise registration registerjob end_registration
        start kill destroy
    job_machine = add (codes "DESTROY") (codes "INITIALISED") (codes "CREATED") on_destroy (
        add (codes "KILL") (codes "RUNNING") (codes "INITIALISED") on_kill (
          add (codes "START") (codes "INITIALISED") (codes "RUNNING") on_start (
            add (codes "ENDREGISTRATION") (codes "REGISTERING") (codes "INITIALISED")
              on_end_registration
              (add (codes "REGISTERJOB") (codes "REGISTERING") (codes "REGISTERING") on_registerjob
                (add (codes "REGISTRATION") (codes "CREATED") (codes "REGISTERING") on_registration
                  (add (codes "INITIALISE") (codes "CREATED") (codes "INITIALISED") on_initialise
                    job_states))))))
