-- ===== src/Fsm/Requests.antt =====
-- src/fsmweb.cxx: the table of web commands, and the requests that `handleRequest` answers.
use levbdim.Base.{
  ◌≡◌, refl, sym, ap, ◌∙◌, [], ◌∷◌, Option, some, none, is_some, Bool, true, false, not, ◌||◌, ◌&&◌,
  if◌then◌else◌, Str, str_eq, str_eq_iff, codes, contains, arith, Bool-cases, Option-cases, inl,
  inr,
}
use levbdim.Base.StdMap
use levbdim.Base.StdMap.{StdMap, str_key}
use levbdim.Json.{JsonLib, Laws}
use levbdim.Fsm.Web.{Request, not_set, Functor, FsmWeb, add_command, handle_request, command_names}

module _ (json : JsonLib) (A : Type 0) where
  open json use {Value, has_members, set, get, of_string, as_string}

  contains-command_names :
      (c : Str) (m : StdMap Str (Functor json A))
      → contains c (command_names json A m) ≡ is_some (StdMap.find c m)
  unfolding command_names StdMap.find
  contains-command_names c [] = refl
  contains-command_names c ((d, f) ∷ m) = ground (arith, contains-command_names c m)

  -- The name that a request asks for.
  abbrev pub asked_name : Request → Str
  asked_name request = request (codes "name") not_set

  -- Whether a name is one that `commandsList` gives.
  abbrev pub is_listed : Str → FsmWeb json A → Bool
  is_listed c w = contains c (command_names json A w.commands)

  -- The response of a method with the status `OK` around it.
  abbrev pub wrapped : A × Value → Value → A × Value
  wrapped (a, answer) response =
      (a, set (codes "status") (of_string (codes "OK")) (set (codes "answer") answer response))

  find-commands :
      (c d : Str) (f : Functor json A) (w : FsmWeb json A)
      → StdMap.find d (add_command json A c f w).commands
        ≡ (if str_eq c d && not (is_listed c w) then some f else StdMap.find d w.commands)
  unfolding add_command
  find-commands c d f w = elim (Option-cases (StdMap.find c w.commands)) [
    | inl absent ↦
        StdMap.find-insert_new c d f w.commands absent
        ∙ ground (arith, absent, contains-command_names c w.commands)
    | inr (g, there) ↦
        ap (StdMap.find d) (StdMap.find-insert_old c f g w.commands there)
        ∙ ground (arith, there, contains-command_names c w.commands)
  ]

  status :
      Laws json
      → (text : Str) (response : Value) → has_members response ≡ true
      → as_string (get (codes "status") (set (codes "status") (of_string text) response)) ≡ text
  status laws text response members =
      ap as_string (laws.get-set_self (codes "status") (of_string text) response members)
      ∙ laws.as_string-of_string text

  is_some-if :
      (c d : Str) (f : Functor json A) (w : FsmWeb json A)
      → is_some (if str_eq c d && not (is_listed c w) then some f else StdMap.find d w.commands)
        ≡ (str_eq c d || is_listed d w)
  is_some-if c d f w = elim (Bool-cases (str_eq c d)) [
    | inl same ↦ rw same (listed ((str_eq_iff c d).0 same))
    | inr other ↦ rw other (sym (contains-command_names d w.commands))
  ]
    where
      listed :
          c ≡ d → is_some (if not (is_listed c w) then some f else StdMap.find d w.commands) ≡ true
      listed e = elim (Bool-cases (is_listed c w)) [
        | inl there ↦
            rw there
              (sym (contains-command_names d w.commands) ∙ ap (λ k. is_listed k w) (sym e) ∙ there)
        | inr absent ↦ rw absent refl
      ]

  abbrev answered : A → Request → Value → Option (Functor json A) → A × Value
  answered a request response none =
      (a, set (codes "status") (of_string (codes "Unknown Command")) response)
  answered a request response (some f) = wrapped (f a request) response

  handled :
      (w : FsmWeb json A) (a : A) (request : Request) (response : Value)
      → str_eq (asked_name request) not_set ≡ false
      → handle_request json A w a request response
        ≡ answered a request response (StdMap.find (asked_name request) w.commands)
  unfolding handle_request
  handled w a request response named =
      elim (Option-cases (StdMap.find (asked_name request) w.commands)) [
        | inl absent ↦ rw (named, absent) refl
        | inr (f, there) ↦ rw (named, there) refl
      ]

  answered-if :
      (added : Bool) (f : Functor json A) (o : Option (Functor json A)) (a : A) (request : Request)
      (response : Value)
      → answered a request response (if added then some f else o)
        ≡ (if added then wrapped (f a request) response else answered a request response o)
  answered-if true f o a request response = refl
  answered-if false f o a request response = refl

  status-answered :
      Laws json
      → (o : Option (Functor json A)) (a : A) (request : Request) (response : Value)
      → has_members response ≡ true
      → as_string (get (codes "status") (answered a request response o).1)
        ≡ (if is_some o then codes "OK" else codes "Unknown Command")
  status-answered laws none a request response members =
      status laws (codes "Unknown Command") response members
  status-answered laws (some f) a request response members =
      status laws (codes "OK") _ (laws.has_members-set members)

  -- A request that names a command, and a response to fill in that is null or an object. Once a
  -- command is added whose name was not taken, a request for that name is answered by what its
  -- method answers, with the status `OK`; every other request is answered as before. The names that
  -- `commandsList` gives are those of before and the name of the command. The status of a response
  -- is `OK` if the name is among them, else `Unknown Command`.
  pub handle_request-add_command :
      Laws json
      → (w : FsmWeb json A) (c : Str) (f : Functor json A) (a : A) (request : Request)
        (response : Value)
      → has_members response ≡ true
      → str_eq (asked_name request) not_set ≡ false
      → (handle_request json A (add_command json A c f w) a request response ≡ (
          if str_eq c (asked_name request) && not (is_listed c w)
          then wrapped (f a request) response
          else handle_request json A w a request response))
        × (is_listed (asked_name request) (add_command json A c f w)
            ≡ (str_eq c (asked_name request) || is_listed (asked_name request) w))
        × (as_string (get (codes "status") (handle_request json A w a request response).1)
            ≡ (if is_listed (asked_name request) w then codes "OK" else codes "Unknown Command"))
  handle_request-add_command laws w c f a request response members named =
      let name : Str = asked_name request in
      let now : StdMap.find name (add_command json A c f w).commands
          ≡ (if str_eq c name && not (is_listed c w) then some f else StdMap.find name w.commands) =
        find-commands c name f w in
      (
        handled (add_command json A c f w) a request response named
            ∙ ap (answered a request response) now
            ∙ answered-if (str_eq c name && not (is_listed c w)) f (StdMap.find name w.commands) a
                request response
            ∙ ap
                (λ r.
                  if str_eq c name && not (is_listed c w)
                  then wrapped (f a request) response
                  else r)
                (sym (handled w a request response named)),
        contains-command_names name (add_command json A c f w).commands
            ∙ ap is_some now
            ∙ is_some-if c name f w,
        ap (λ r. as_string (get (codes "status") r.1)) (handled w a request response named)
            ∙ status-answered laws (StdMap.find name w.commands) a request response members
            ∙ ap (λ b. if b then codes "OK" else codes "Unknown Command")
                (sym (contains-command_names name w.commands)),
      )
