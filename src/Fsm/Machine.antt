-- ===== src/Fsm/Machine.antt =====
-- src/fsm.cxx, include/fsm.hh: the machine. `A` is the state of the application whose methods are
-- the callbacks; a callback changes that state and the message, and does not touch the machine.
use levbdim.Base.{
  ℕ, List, [], ◌∷◌, ◌++◌, Option, some, none, Bool, false, not, ◌&&◌, ◌||◌, if◌then◌else◌, ltb,
  ◌==◌, Str, str_eq, codes, length,
}
use levbdim.Base.StdMap
use levbdim.Base.StdMap.{StdMap, str_key}
use levbdim.Json.{JsonLib}
use levbdim.Fsm.Message.{
  FsmMessage, command, content, set_value, value, of_text, with_answer, command_key, content_key,
  status_key, throws, thrown_by,
}

module _ (json : JsonLib) (A : Type 0) where
  open json use {Value, null, set, has_members, append, of_string, write}

  pub record FsmTransition : Type 0 where
    pub initial_state : Str
    pub final_state : Str
    pub callback : A → FsmMessage json → A × FsmMessage json

  abbrev pub Transitions : Type 0
  Transitions = StdMap Str (List FsmTransition)

  -- `published` lists what the DIM service `/FSM/<name>/STATE` was updated to, oldest first.
  pub record Fsm : Type 0 where
    pub states : List Str
    pub state : Str
    pub transitions : Transitions
    pub published : List Str

  unfoldable pub new_fsm : Fsm
  new_fsm = record {
    states = [];
    state = codes "CREATED";
    transitions = [];
    published = codes "CREATED" ∷ [];
  }

  unfoldable pub add_state : Str → Fsm → Fsm
  add_state s f = record f { states = f.states ++ s ∷ [] }

  unfoldable pub set_state : Str → Fsm → Fsm
  set_state s f = record f { state = s }

  unfoldable pub publish_state : Fsm → Fsm
  publish_state f = record f { published = f.published ++ f.state ∷ [] }

  -- The first transition of a vector that leaves the state.
  unfoldable pub from_state : Str → List FsmTransition → Option FsmTransition
  from_state s [] = none
  from_state s (t ∷ ts) = if str_eq t.initial_state s then some t else from_state s ts

  unfoldable pub add_to_vector : FsmTransition → List FsmTransition → List FsmTransition
  unfolding from_state
  add_to_vector t ts = elim (from_state t.initial_state ts) [ none ↦ ts ++ t ∷ [] | some old ↦ ts ]

  unfoldable pub add_transition :
      Str → Str → Str → (A → FsmMessage json → A × FsmMessage json) → Fsm → Fsm
  unfolding StdMap.find StdMap.insert StdMap.update add_to_vector
  add_transition cmd istate fstate f m =
      let t : FsmTransition = record {
        initial_state = istate;
        final_state = fstate;
        callback = f;
      } in
      elim (StdMap.find cmd m.transitions) [
        | none ↦ record m { transitions = StdMap.insert cmd (t ∷ []) m.transitions }
        | some ts ↦ record m { transitions = StdMap.update cmd (add_to_vector t ts) m.transitions }
      ]

  abbrev pub not_found : Str → Str
  not_found cmd = cmd ++ codes " not found in transitions list "

  abbrev pub not_initial : Str → Str → Str
  not_initial state cmd =
      codes "Current State=" ++ (state ++ (codes " is not an initial state of the command " ++ cmd))

  abbrev pub reply : Str → FsmMessage json → Value
  reply status m =
      set content_key (content json m)
        (set status_key (of_string status) (set command_key (of_string (command json m)) null))

  abbrev pub error_text : Str
  error_text = codes "ERROR"

  -- The two error branches: the answer is put into the message's content.
  unfoldable pub refuse : Str → FsmMessage json → FsmMessage json
  unfolding set_value command content
  refuse text m =
      if has_members (content json m)
      then set_value json (write (with_answer json (of_string text) (reply (codes "FAILED") m))) m
      else throws json m

  unfoldable pub confirm : FsmMessage json → FsmMessage json
  unfolding set_value command content
  confirm m = set_value json (write (reply (codes "DONE") m)) m

  -- After an exception (`thrown` in the message) there is no result; it stands as an empty text.
  pub record Outcome : Type 0 where
    pub machine : Fsm
    pub app : A
    pub message : FsmMessage json
    pub result : Str

  abbrev pub failed : Fsm → A → FsmMessage json → Str → Outcome
  failed f a m text = record { machine = f; app = a; message = refuse text m; result = error_text }

  unfoldable pub take_transition : FsmTransition → Fsm → A → FsmMessage json → Outcome
  unfolding confirm publish_state
  take_transition t f a m =
      let (a', m') = t.callback a m in
      if thrown_by json m m'
      then record { machine = f; app = a'; message = m'; result = [] }
      else record {
        machine = publish_state (record f { state = t.final_state });
        app = a';
        message = confirm m';
        result = t.final_state;
      }

  unfoldable pub process_command : Fsm → A → FsmMessage json → Outcome
  unfolding StdMap.find from_state take_transition refuse
  process_command f a m = elim (StdMap.find (command json m) f.transitions) [
    | none ↦ failed f a m (not_found (command json m))
    | some ts ↦ elim (from_state f.state ts) [
      | none ↦ failed f a m (not_initial f.state (command json m))
      | some t ↦ take_transition t f a m
    ]
  ]

  -- `transitionsList` and `allowList`, as the names that they list, and as JSON.
  unfoldable pub transition_names : Transitions → List Str
  transition_names [] = []
  transition_names ((c, ts) ∷ m) = c ∷ transition_names m

  unfoldable pub allowed_names : Str → Transitions → List Str
  unfolding from_state
  allowed_names s [] = []
  allowed_names s ((c, ts) ∷ m) = elim (from_state s ts) [
    | none ↦ allowed_names s m
    | some t ↦ c ∷ allowed_names s m
  ]

  unfoldable pub name_list : Value → List Str → Value
  name_list v [] = v
  name_list v (c ∷ cs) = name_list (append v (set (codes "name") (of_string c) null)) cs

  unfoldable pub transitions_list : Fsm → Value
  unfolding transition_names name_list
  transitions_list f = name_list null (transition_names f.transitions)

  unfoldable pub allow_list : Fsm → Value
  unfolding allowed_names name_list
  allow_list f = name_list null (allowed_names f.state f.transitions)

  -- `char msgi[32768]`, zeroed, and read as a C string.
  abbrev rpc_size : ℕ
  rpc_size = 32768

  unfoldable pub c_string : List ℕ → Str
  c_string [] = []
  c_string (c ∷ s) = if c == 0 then [] else c ∷ c_string s

  has_end : List ℕ → Bool
  has_end [] = false
  has_end (c ∷ s) = (c == 0) || has_end s

  -- `rpcHandler`: the data of a DIM call, to the data of its answer. `none` is data that overrun
  -- the array, or fill it and leave no end of the string, or an exception.
  unfoldable pub rpc_handler : Fsm → A → List ℕ → Option (Fsm × A × Str)
  unfolding c_string has_end of_text process_command value
  rpc_handler f a bytes =
      if ltb rpc_size (length bytes) || ((length bytes == rpc_size) && not (has_end bytes))
      then none
      else (let o = process_command f a (of_text json (c_string bytes)) in
          if o.message.thrown then none else some (o.machine, o.app, value json o.message))
