-- ===== src/Apps/Application.antt =====
-- src/baseApplication.cxx: an application reads its configuration and takes its parameters from it.
use levbdim.Base.{
  Option, some, none, Bool, true, false, not, ◌>>=◌, if◌then◌else◌, Str, str_eq, codes,
}
use levbdim.Json.{JsonLib}
use levbdim.Fsm.Message.{FsmMessage, content, set_answer, thrown_by}
use levbdim.Fsm.Machine.{add_state, set_state, add_transition}
use levbdim.Fsm.Web.{Request, FsmWeb, new_web, add_command}
use levbdim.Job.Control.{Net}
use levbdim.Apps.Database.{Mongo, new_reader, query_daq_config}
use levbdim.Apps.Process.{BaseApplication, find_param}

module _ (json : JsonLib) where
  open json use {
    Value, null, is_null, get, set, is_member, of_string, as_string, as_int, items, parse,
  }

  abbrev pub error_answer : Str → Value
  error_answer text = set (codes "error") (of_string text) null

  module _ {W : Type 0} (net : Net W) (mongo : Mongo W)
      (user_create : BaseApplication json
        → FsmMessage json
        → BaseApplication json × FsmMessage json) where
    abbrev with_login : Value → BaseApplication json → BaseApplication json
    with_login jc s =
        if is_member (codes "login") jc
        then record s { login = as_string (get (codes "login") jc) }
        else s

    abbrev unwrapped : Value → Value
    unwrapped v = if is_member (codes "content") v then get (codes "content") v else v

    abbrev from_database : Value → W → BaseApplication json → W × BaseApplication json
    from_database dbp w s =
        let reader =
          new_reader (as_string (get (codes "dbname") dbp)) (as_string (get (codes "host") dbp))
            (as_int (get (codes "port") dbp)) in
        let (text, w') =
          query_daq_config mongo (as_string (get (codes "collection") dbp))
            (as_string (get (codes "name") dbp)) (as_int (get (codes "version") dbp)) reader w in
        (w', record s { config = (parse text).0 })

    -- Where the configuration is read from.
    unfoldable pub read_config : Value → W → BaseApplication json → W × BaseApplication json
    unfolding query_daq_config new_reader
    read_config jc w s =
        if is_member (codes "file") jc
        then (
          w,
          record s { config = (parse (net.file_text (as_string (get (codes "file") jc)) w)).0 },
        )
        else if is_member (codes "url") jc
        then (
          w,
          record s {
            config =
                unwrapped (parse (net.curl_query (as_string (get (codes "url") jc)) s.login w)).0;
          },
        )
        else if is_member (codes "mongo") jc
        then from_database (get (codes "mongo") jc) w s
        else (w, s)

    abbrev answered :
        Value
        → W
        → BaseApplication json
        → FsmMessage json
        → Option (W × BaseApplication json × FsmMessage json)
    answered rep w s m = some (w, s, set_answer json rep m)

    abbrev host_of : BaseApplication json → Value
    host_of s = get s.hostname (get (codes "HOSTS") s.config)

    abbrev finished :
        W
        → BaseApplication json
        → FsmMessage json
        → Option (W × BaseApplication json × FsmMessage json)
    finished w s m = find_param json (items (host_of s)) s >>= λ param.
        let s' = record s { param = param } in
        let rep = set (codes "config") s.config (set (codes "param") param null) in
        let m' = set_answer json rep m in
        let (s'', m'') = if thrown_by json m m' then (s', m') else user_create s' m' in
        some (w, s'', m'')

    abbrev looked_up :
        FsmMessage json
        → W × BaseApplication json
        → Option (W × BaseApplication json × FsmMessage json)
    looked_up m (w, s) =
        let done = finished w s m in
        if is_null s.config
        then answered (error_answer (codes "Missing configuration")) w s m
        else if not (is_member (codes "HOSTS") s.config)
        then answered (error_answer (codes "Missing HOSTS tag")) w s m
        else if not (is_member s.hostname (get (codes "HOSTS") s.config))
        then answered
            (set (codes "config") s.config (error_answer (codes "Missing hostname in list"))) w s m
        else done

    -- `create`; none where it throws.
    unfoldable pub create :
        W
        → BaseApplication json
        → FsmMessage json
        → Option (W × BaseApplication json × FsmMessage json)
    unfolding read_config content set_answer find_param
    create w s m = let jc = content json m in looked_up m (read_config jc w (with_login jc s))

    -- The application with the world it is in; none after an exception.
    abbrev pub App : Type 0
    App = Option (W × BaseApplication json)

    abbrev left_by :
        FsmMessage json
        → Option (W × BaseApplication json × FsmMessage json)
        → App × FsmMessage json
    left_by m none = (none, m)
    left_by m (some (w, s, m')) = (some (w, s), m')

    abbrev pub on_create : App → FsmMessage json → App × FsmMessage json
    on_create none m = (none, m)
    on_create (some (w, s)) m = left_by m (create w s m)

  -- The three web commands, each with the answer that it fills in.
  abbrev status_answer : Str → Value
  status_answer text = set (codes "STATUS") (of_string text) null

  unfoldable pub c_getconfiguration : BaseApplication json → Value
  c_getconfiguration s =
      if is_null s.config
      then status_answer (codes "NO Configuration yet")
      else set (codes "configuration") s.config (status_answer (codes "DONE"))

  unfoldable pub c_getparameter : BaseApplication json → Value
  c_getparameter s =
      if is_null s.param
      then status_answer (codes "No Parameters yet")
      else set (codes "PARAMETER") s.param (status_answer (codes "DONE"))

  abbrev set_param : Value × Bool → BaseApplication json → BaseApplication json × Value
  set_param (v, true) s =
      (record s { param = v }, set (codes "PARAMETER") v (status_answer (codes "DONE")))
  set_param (v, false) s = (s, status_answer (codes "Invalid parsing of PARAMETER"))

  unfoldable pub c_setparameter : Request → BaseApplication json → BaseApplication json × Value
  unfolding str_eq
  c_setparameter request s =
      let text = request (codes "PARAMETER") (codes "NONE") in
      if str_eq text (codes "NONE")
      then (s, status_answer (codes "No PARAMETER tag found"))
      else set_param (parse text) s

  -- The constructor: the machine and the web commands of an application.
  module _ {W : Type 0} (net : Net W) (mongo : Mongo W)
      (user_create : BaseApplication json
        → FsmMessage json
        → BaseApplication json × FsmMessage json) where
    abbrev AppOf : Type 0
    AppOf = App net mongo user_create

    abbrev on_get : (BaseApplication json → Value) → AppOf → Request → AppOf × Value
    on_get answer none request = (none, null)
    on_get answer (some (w, s)) request = (some (w, s), answer s)

    abbrev on_set : AppOf → Request → AppOf × Value
    on_set none request = (none, null)
    on_set (some (w, s)) request = let (s', v) = c_setparameter request s in (some (w, s'), v)

    unfoldable pub application_web : Str → FsmWeb json AppOf
    unfolding new_web add_command add_state add_transition set_state create c_getconfiguration
        c_getparameter c_setparameter
    application_web name =
        let web = new_web json AppOf name in
        add_command json AppOf (codes "SETPARAM") on_set (
          add_command json AppOf (codes "GETPARAM") (on_get c_getparameter) (
            add_command json AppOf (codes "GETCONFIG") (on_get c_getconfiguration) (record web {
              machine = set_state json AppOf (codes "VOID") (
                  add_transition json AppOf (codes "CREATE") (codes "VOID") (codes "CREATED")
                    (on_create net mongo user_create)
                    (add_state json AppOf (codes "CREATED")
                      (add_state json AppOf (codes "VOID") web.machine)));
            })))
