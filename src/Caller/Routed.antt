-- ===== src/Caller/Routed.antt =====
-- src/fsmwebCaller.cxx, src/fsmweb.cxx: the addresses that a client builds, and the routes of the
-- interface that it calls.
use levbdim.Base.{ℕ, ◌≡◌, [], ◌++◌, some, Bool, Option, ◌>>=◌, Str, codes}
use levbdim.Json.{JsonLib, Laws}
use levbdim.Shm.Name.{dec}
use levbdim.Fsm.Web.{FsmWeb}
use levbdim.Fsm.Routes.{Controller, RouteLaws, Handler, setup}
use levbdim.Caller.Client.{Curl, curl_query, FsmWebCaller, new_caller}

-- Scheme, host and port of an address.
abbrev pub origin : Str → ℕ → Str
origin host port = codes "http://" ++ (host ++ (codes ":" ++ dec port []))

module _ (json : JsonLib) (laws : Laws json) {A : Type 0} where
  open json use {Value, null, has_members, get, set, as_string, of_string, parse, write}
  open laws use {has_members-set, get-set_self, get-set_other, as_string-of_string, parse-write}

  module _ (lib : Controller) (rules : RouteLaws lib) {W : Type 0} (curl : Curl W) (host : Str)
      (port : ℕ) (w : W) (web : FsmWeb json A) (pid : ℕ) (response : Value) where
    abbrev pub caller : FsmWebCaller json
    caller = (new_caller json curl host port w).0

    abbrev pub served : lib.Routes
    served = setup lib web.name lib.no_routes

    abbrev pub GetsTo : Str → Handler → Type 0
    GetsTo url h = lib.find (codes "GET") url served ≡ some h

    -- Where the client sends a request, and what it keeps of the response.
    abbrev pub sends :
        (Value × Bool → Option Value) → Str → W → Option (Str × FsmWebCaller json × W)
    sends keep_of address w' =
        let (rc, w'') = curl_query curl address [] w' in
        keep_of (parse rc) >>= λ kept. some (rc, record caller { answer = kept }, w'')
