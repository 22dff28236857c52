-- ===== src/Caller/Client.antt =====
-- src/fsmwebCaller.cxx, include/fsmwebCaller.hh: queries to the web interface of a state machine.
use levbdim.Base.{
  ℕ, ◌+◌, List, [], ◌∷◌, ◌++◌, Option, some, none, Bool, true, false, ◌&&◌, if◌then◌else◌, ltb, leb,
  ◌==◌, ◌>>=◌, Str, codes, length,
}
use levbdim.Json.{JsonLib}
use levbdim.Shm.Name.{dec}
use levbdim.Caller.Encode.{html5, url_encode, c_string}

-- libcurl, over the world `W`: whether `curl_easy_init` gives a handle, and the parts that a
-- transfer of a URL, with a login if one is set, hands to the write function.
pub record Curl (W : Type 0) : Type 0 where
  pub has_handle : W → Bool
  pub perform : Str → Option Str → W → List Str × W

-- `FsmCurlWrite_CallbackFunc_StdString`
unfoldable pub write_callback : Str → Str → Str
write_callback contents s = s ++ contents

abbrev pub write_parts : List Str → Str → Str
write_parts [] s = s
write_parts (p ∷ ps) s = write_parts ps (write_callback p s)

module _ {W : Type 0} (curl : Curl W) where
  abbrev login_option : Str → Option Str
  login_option login = if length login == 0 then none else some (c_string login)

  abbrev received : List Str × W → Str × W
  received (parts, w) = (write_parts parts [], w)

  -- `curlQuery`; the code of the transfer only goes into a text that is dropped.
  unfoldable pub curl_query : Str → Str → W → Str × W
  unfolding write_callback c_string
  curl_query url login w =
      if curl.has_handle w
      then received (curl.perform (c_string url) (login_option login) w)
      else ([], w)

abbrev pub base_url : Str → ℕ → Str
base_url host port = codes "http://" ++ (host ++ (codes ":" ++ dec port (codes "/")))

module _ (json : JsonLib) where
  open json use {Value, null, get, is_null, is_member, has_members, as_string, parse, write}

  pub record FsmWebCaller : Type 0 where
    pub parse_ok : Bool
    pub config : Value
    pub url : Str
    pub answer : Value

  abbrev pub greeted : Str → Value × Bool → FsmWebCaller
  greeted base (v, true) = record {
    parse_ok = true;
    config = v;
    url = base ++ (as_string (get (codes "PREFIX") v) ++ codes "/");
    answer = null;
  }
  greeted base (v, false) = record { parse_ok = false; config = v; url = []; answer = null }

  abbrev state_of : Value × Bool → Str
  state_of (v, true) = as_string (get (codes "STATE") v)
  state_of (v, false) = codes "UNKOWN"

  abbrev pub value_of : Value × Bool → Value
  value_of (v, true) = v
  value_of (v, false) = null

  -- `none` is the exception that `isMember` throws on a content without members.
  abbrev pub answer_of : Value × Bool → Option Value
  answer_of (v, true) =
      if has_members (get (codes "content") v)
      then some (
          if is_member (codes "answer") (get (codes "content") v)
          then get (codes "answer") (get (codes "content") v)
          else null)
      else none
  answer_of (v, false) = some null

  -- `char out[4096]`: none where the encoded content overruns it, or leaves it unset.
  unfoldable pub content_field : Value → Option Str
  unfolding url_encode html5
  content_field cnt =
      let out = url_encode html5 (write cnt) in
      if is_null cnt
      then some (codes "&content={}")
      else if leb (length out + 1) 4096 && ltb 0 (length out)
      then some (codes "&content=" ++ out)
      else none

  module _ {W : Type 0} (curl : Curl W) where
    unfoldable pub new_caller : Str → ℕ → W → FsmWebCaller × W
    unfolding curl_query dec
    new_caller host port w =
        let (rc, w') = curl_query curl (base_url host port) [] w in
        (greeted (base_url host port) (parse rc), w')

    unfoldable pub query_state : W → FsmWebCaller → Str × FsmWebCaller × W
    unfolding curl_query
    query_state w s =
        let (rc, w') = curl_query curl s.url [] w in
        (state_of (parse rc), record s { parse_ok = (parse rc).1 }, w')

    unfoldable pub query_web_status : W → FsmWebCaller → Value × FsmWebCaller × W
    unfolding curl_query
    query_web_status w s =
        let (rc, w') = curl_query curl s.url [] w in
        (value_of (parse rc), record s { parse_ok = (parse rc).1 }, w')

    abbrev sent : Str → W → FsmWebCaller → Option (Str × FsmWebCaller × W)
    sent query w s =
        let (rc, w') = curl_query curl query [] w in
        answer_of (parse rc) >>= λ kept. some (rc, record s { answer = kept }, w')

    unfoldable pub send_transition :
        Str → Value → W → FsmWebCaller → Option (Str × FsmWebCaller × W)
    unfolding content_field curl_query
    send_transition name cnt w s = elim (content_field cnt) [
      | none ↦ none
      | some field ↦ sent (s.url ++ (codes "FSM?command=" ++ (name ++ field))) w s
    ]

    unfoldable pub send_command : Str → Str → W → FsmWebCaller → Str × FsmWebCaller × W
    unfolding curl_query
    send_command name params w s =
        let query =
          s.url
          ++ (codes "CMD?name=" ++ (name ++ (if ltb 2 (length params) then params else []))) in
        let (rc, w') = curl_query curl query [] w in
        (rc, record s { answer = value_of (parse rc) }, w')
