-- ===== src/Tests/Caller.antt =====
-- The client of a web interface.
use levbdim.Base.{ℕ, [], ◌∷◌, true, Str, codes}
use levbdim.Fsm.Machine.{reply}
use levbdim.Fsm.Web.{web_message}
use levbdim.Caller.Client.{Curl, FsmWebCaller}
use levbdim.Caller.Served.{content_text}
use levbdim.Tests.Json.{Node, nil, num, field, json}

abbrev start_name : Str
start_name = codes "START"

abbrev value : Node
value = field (codes "a") (num 4) nil

abbrev client : FsmWebCaller json
client = record {
  parse_ok = true;
  config = nil;
  url = codes "http://localhost:45000/ljc/";
  answer = nil;
}

abbrev answered : Node
answered = reply json ℕ (codes "DONE") (web_message json ℕ start_name (content_text json value))

-- A transfer that brings back the response in two parts.
abbrev curl : Curl ℕ
curl = record {
  has_handle = λ w. true;
  perform = λ url login w. ([] ∷ json.write answered ∷ [], w);
}
