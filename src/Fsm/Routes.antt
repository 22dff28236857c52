-- ===== src/Fsm/Routes.antt =====
-- src/fsmweb.cxx: the routes of the controller `FSMMongo`, and the thread that serves them. The
-- web server library is a parameter.
use levbdim.Base.{
  ℕ, ◌≡◌, List, [], ◌∷◌, ◌++◌, Option, some, none, Bool, true, false, ◌&&◌, if◌then◌else◌, Str,
  str_eq, codes,
}
use levbdim.Json.{JsonLib}
use levbdim.Fsm.Web.{Request, FsmWeb, fsm_process, handle_request, web_list}

-- The methods of the controller that answer requests.
pub data Handler : Type 0 where
  list : Handler
  fsm_handler : Handler
  cmd_handler : Handler

-- A controller of the library: `addRouteResponse(method, path, ...)`, `setPrefix(path)`, and the
-- handler that a request of a method and a path is given to.
pub record Controller : Type 1 where
  pub Routes : Type 0
  pub no_routes : Routes
  pub add_route : Str → Str → Handler → Routes → Routes
  pub set_prefix : Str → Routes → Routes
  pub find : Str → Str → Routes → Option Handler

module _ (lib : Controller) where
  open lib use {Routes, no_routes, add_route, set_prefix, find}

  -- What is documented: a prefix goes before the paths that are added behind it, and a later route
  -- takes the place of an earlier one.
  pub record RouteLaws : Type 0 where
    pub prefix : Routes → Str
    pub prefix-none : prefix no_routes ≡ []
    pub prefix-set : (p : Str) (r : Routes) → prefix (set_prefix p r) ≡ p
    pub prefix-add : (m p : Str) (h : Handler) (r : Routes) → prefix (add_route m p h r) ≡ prefix r
    pub find-none : (m url : Str) → find m url no_routes ≡ none
    pub find-set_prefix : (m url p : Str) (r : Routes) → find m url (set_prefix p r) ≡ find m url r
    pub find-add_route :
        (m url m' p : Str) (h : Handler) (r : Routes)
        → find m url (add_route m' p h r)
          ≡ (if str_eq m' m && str_eq (prefix r ++ p) url then some h else find m url r)

  -- `setup`, which the library calls when the controller is registered.
  unfoldable pub setup : Str → Routes → Routes
  setup name r =
      let os = codes "/" ++ name in
      add_route (codes "GET") (codes "/CMD") cmd_handler (
        add_route (codes "GET") (codes "/FSM") fsm_handler (
          add_route (codes "GET") (codes "/") list
            (set_prefix os (add_route (codes "GET") (codes "/") list r))))

  module _ (json : JsonLib) (A : Type 0) where
    open json use {Value}

    -- What a handler does; `cmdProcess` is `handleRequest`. `pid` is the process's.
    unfoldable pub handle :
        Handler → ℕ → FsmWeb json A → A → Request → Value → FsmWeb json A × A × Value
    unfolding fsm_process handle_request web_list
    handle list pid w a request response = (w, a, web_list json A pid w response)
    handle fsm_handler pid w a request response = fsm_process json A w a request response
    handle cmd_handler pid w a request response =
        let (a', response') = handle_request json A w a request response in (w, a', response')

    -- A request to the server; `none`: no route, which the library answers.
    unfoldable pub serve :
        Routes
        → ℕ
        → Str
        → Str
        → FsmWeb json A
        → A
        → Request
        → Value
        → Option (FsmWeb json A × A × Value)
    unfolding handle
    serve routes pid m url w a request response = elim (find m url routes) [
      | none ↦ none
      | some h ↦ some (handle h pid w a request response)
    ]

-- The calls of the server library that `serving` makes.
pub data ServerCall : Type 0 where
  create : ℕ → ServerCall
  register_controller : ServerCall
  set_option : Str → Str → ServerCall
  start_server : ServerCall
  stop_server : ServerCall

-- The loop of `serving`, which sleeps as long as it finds `_running` set: what it finds, one look
-- after another, and whether it has come to its end.
unfoldable pub wait : List Bool → Bool
wait [] = false
wait (false ∷ looks) = true
wait (true ∷ looks) = wait looks

unfoldable pub serving : ℕ → List Bool → List ServerCall
unfolding wait
serving port looks =
    create port
    ∷ (register_controller
        ∷ (set_option (codes "enable_directory_listing") (codes "true")
            ∷ (start_server ∷ (if wait looks then stop_server ∷ [] else []))))
