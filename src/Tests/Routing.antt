-- ===== src/Tests/Routing.antt =====
-- A table of routes, and a client of the interface that they belong to.
use levbdim.Base.{
  ℕ, ◌≡◌, ◌++◌, refl, [], ◌∷◌, List, Option, none, some, Bool, true, ◌&&◌, if◌then◌else◌, Str,
  str_eq, codes,
}
use levbdim.Fsm.Web.{web_list}
use levbdim.Fsm.Routes.{Controller, RouteLaws, Handler, setup}
use levbdim.Caller.Client.{Curl, FsmWebCaller, new_caller}
use levbdim.Caller.Routed.{origin, sends}
use levbdim.Tests.Json.{Node, nil, json, json_laws}
use levbdim.Tests.Machines.{web}

pub record Table : Type 0 where
  pub prefix : Str
  pub entries : List (Str × Str × Handler)

abbrev lookup : Str → Str → List (Str × Str × Handler) → Option Handler
lookup m url [] = none
lookup m url ((m', p, h) ∷ es) = if str_eq m' m && str_eq p url then some h else lookup m url es

abbrev controller : Controller
controller = record {
  Routes = Table;
  no_routes = record { prefix = []; entries = [] };
  add_route = λ m p h r. record r { entries = (m, r.prefix ++ p, h) ∷ r.entries };
  set_prefix = λ p r. record r { prefix = p };
  find = λ m url r. lookup m url r.entries;
}

controller_laws : RouteLaws controller
controller_laws = record {
  prefix = λ r. r.prefix;
  prefix-none = refl;
  prefix-set = λ p r. refl;
  prefix-add = λ m p h r. refl;
  find-none = λ m url. refl;
  find-set_prefix = λ m url p r. refl;
  find-add_route = λ m url m' p h r. refl;
}

-- A transfer that brings back what `List` responds.
abbrev curl : Curl ℕ
curl = record {
  has_handle = λ w. true;
  perform = λ url login w. (json.write (web_list json ℕ 77 web nil) ∷ [], w);
}

abbrev client : FsmWebCaller json
client = (new_caller json curl (codes "lyosdhcal") 45000 0).0

abbrev here : Str
here = origin (codes "lyosdhcal") 45000

abbrev GetsTo : Str → Handler → Type 0
GetsTo url h =
    controller.find (codes "GET") url (setup controller web.name controller.no_routes) ≡ some h

-- The field of a content that is null.
abbrev field : Str
field = codes "&content={}"

abbrev asks : (Node × Bool → Option Node) → Str → ℕ → Option (Str × FsmWebCaller json × ℕ)
asks = sends json json_laws controller controller_laws curl (codes "lyosdhcal") 45000 0 web 77 nil
