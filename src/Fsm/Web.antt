-- ===== src/Fsm/Web.antt =====
-- src/fsmweb.cxx, include/fsmweb.hh: a state machine with a web interface, `fsmweb`, and the
-- controller that answers the requests, `FSMMongo`. A request is the function that `get` is, from
-- a name and a default to a text; a response is the JSON value that is filled in.
use levbdim.Base.{
  [], ◌∷◌, ◌++◌, List, ℕ, Option, some, none, Bool, true, false, ◌||◌, if◌then◌else◌, Str, str_eq,
  codes,
}
use levbdim.Base.StdMap
use levbdim.Base.StdMap.{StdMap, str_key}
use levbdim.Json.{JsonLib}
use levbdim.Shm.Name.{dec}
use levbdim.Fsm.Message.{
  FsmMessage, new_message, set_value, value, command, command_key, content_key,
}
use levbdim.Fsm.Machine.{
  Fsm, Outcome, new_fsm, process_command, name_list, transitions_list, allow_list,
}

abbrev pub Request : Type 0
Request = Str → Str → Str

abbrev pub not_set : Str
not_set = codes "NOTSET"

module _ (json : JsonLib) (A : Type 0) where
  open json use {Value, null, set, of_string, of_int, write, parse}

  -- `MGRFunctor`: from a request, and a response that is empty, to the response.
  abbrev pub Functor : Type 0
  Functor = A → Request → A × Value

  -- `web_state` is what the service `/FSM/<name>/WEB` holds, `none` before `start`; `updates`
  -- lists what it was updated to.
  pub record FsmWeb : Type 0 where
    pub machine : Fsm json A
    pub running : Bool
    pub commands : StdMap Str Functor
    pub name : Str
    pub web_state : Option Str
    pub updates : List Str

  unfoldable pub new_web : Str → FsmWeb
  unfolding new_fsm
  new_web name = record {
    machine = new_fsm json A;
    running = false;
    commands = [];
    name = name;
    web_state = none;
    updates = [];
  }

  -- `start`, up to the creation of the thread that serves.
  unfoldable pub start_web : Str → ℕ → FsmWeb → FsmWeb
  unfolding dec
  start_web hostname port w =
      let web_name =
        codes "http://" ++ (hostname ++ (codes ":" ++ dec port (codes "/" ++ w.name))) in
      record w { running = true; web_state = some web_name; updates = w.updates ++ web_name ∷ [] }

  unfoldable pub stop_web : FsmWeb → FsmWeb
  stop_web w = record w { running = false }

  unfoldable pub add_command : Str → Functor → FsmWeb → FsmWeb
  unfolding StdMap.insert
  add_command s f w = record w { commands = StdMap.insert s f w.commands }

  pub record WebOutcome : Type 0 where
    pub web : FsmWeb
    pub app : A
    pub message : FsmMessage json
    pub result : Str

  abbrev pub of_machine : FsmWeb → Outcome json A → WebOutcome
  of_machine w o = record {
    web = record w { machine = o.machine };
    app = o.app;
    message = o.message;
    result = o.result;
  }

  abbrev pub asked : Option Str → Str → Option Str
  asked none cmd = none
  asked (some web_name) cmd = if str_eq cmd (codes "?") then some web_name else none

  -- `processCommand`: a `?` updates the service of the web address, once that is there.
  unfoldable pub process_web_command : FsmWeb → A → FsmMessage json → WebOutcome
  unfolding str_eq process_command command
  process_web_command w a m = elim (asked w.web_state (command json m)) [
    | none ↦ of_machine w (process_command json A w.machine a m)
    | some web_name ↦ record {
      web = record w { updates = w.updates ++ web_name ∷ [] };
      app = a;
      message = m;
      result = w.machine.state;
    }
  ]

  unfoldable pub handle_request : FsmWeb → A → Request → Value → A × Value
  unfolding StdMap.find str_eq
  handle_request w a request response =
      let cmd = request (codes "name") not_set in
      if str_eq cmd not_set
      then (a, set (codes "status") (of_string (codes "No command or content given")) response)
      else elim (StdMap.find cmd w.commands) [
        | none ↦ (a, set (codes "status") (of_string (codes "Unknown Command")) response)
        | some f ↦
            let (a', answer) = f a request in
            (
              a',
              set (codes "status") (of_string (codes "OK")) (set (codes "answer") answer response),
            )
      ]

  unfoldable pub command_names : StdMap Str Functor → List Str
  command_names [] = []
  command_names ((c, f) ∷ m) = c ∷ command_names m

  unfoldable pub commands_list : FsmWeb → Value
  unfolding command_names name_list
  commands_list w = name_list json A null (command_names w.commands)

  -- The message that `fsmProcess` makes of a command and the text of its content.
  unfoldable pub web_message : Str → Str → FsmMessage json
  unfolding set_value new_message
  web_message cmd text =
      set_value json (write (set content_key (parse text).0 (set command_key (of_string cmd) null)))
        (new_message json)

  -- After an exception the response is what the web server library was given so far.
  unfoldable pub fsm_process : FsmWeb → A → Request → Value → FsmWeb × A × Value
  unfolding str_eq web_message process_web_command value
  fsm_process w a request response =
      let cmd = request (codes "command") not_set in
      let text = request (codes "content") not_set in
      let o = process_web_command w a (web_message cmd text) in
      if str_eq cmd not_set || str_eq text not_set
      then (w, a, set (codes "status") (of_string (codes "No command or content given")) response)
      else (o.web, o.app, (if o.message.thrown then response else (parse (value json o.message)).0))

  -- `List`; `pid` is what `getpid` returns.
  unfoldable pub web_list : ℕ → FsmWeb → Value → Value
  unfolding transitions_list allow_list commands_list
  web_list pid w response = set (codes "PID") (of_int pid) (
      set (codes "STATE") (of_string w.machine.state) (
        set (codes "CMD") (commands_list w) (
          set (codes "ALLOWED") (allow_list json A w.machine) (
            set (codes "FSM") (transitions_list json A w.machine)
              (set (codes "PREFIX") (of_string w.name) response)))))
