-- ===== src/Job/Control.antt =====
-- src/fsmjob.cxx: the methods that the state machine calls, and `checkIP`.
use levbdim.Base.{
  List, [], ◌∷◌, Option, some, none, Bool, true, false, ◌||◌, ◌>>=◌, if◌then◌else◌, Str, str_eq,
  codes,
}
use levbdim.Json.{JsonLib}
use levbdim.Fsm.Message.{FsmMessage, content, set_answer}
use levbdim.Job.Table.{FsmJob, System, launch, kill_process, json_status}

-- What the methods read from outside: the text of a file, the answer of a web server to a query
-- with a login, the addresses of a host (`none`: it is not known), and the name of this host.
pub record Net (W : Type 0) : Type 0 where
  pub file_text : Str → W → Str
  pub curl_query : Str → Str → W → Str
  pub addresses : Str → Option (List Str)
  pub local_addresses : List Str

abbrev occurs : Str → List Str → Bool
occurs s [] = false
occurs s (x ∷ xs) = str_eq s x || occurs s xs

abbrev meets : List Str → List Str → Bool
meets [] ys = false
meets (x ∷ xs) ys = occurs x ys || meets xs ys

module _ {W : Type 0} (net : Net W) where
  unfoldable pub check_ip : Str → Bool
  unfolding str_eq
  check_ip host = elim (net.addresses host) [
    | none ↦ false
    | some hostips ↦ meets hostips net.local_addresses
  ]

module _ (json : JsonLib) where
  open json use {
    Value, null, get, set, is_member, of_string, as_string, as_uint, append, items, member_names,
    parse, write,
  }

  unfoldable pub registration : FsmJob json → FsmJob json
  registration j = record j { jfile = null; jconf = null }

  unfoldable pub end_registration : FsmJob json → FsmMessage json → FsmMessage json
  unfolding set_answer
  end_registration j m = set_answer json j.jconf m

  unfoldable pub has_name : Str → List Value → Bool
  has_name pname [] = false
  has_name pname (v ∷ vs) = str_eq (as_string (get (codes "NAME") v)) pname || has_name pname vs

  -- The description that a `REGISTERJOB` message gives.
  unfoldable pub job_of : Value → Value
  job_of jcr = set (codes "PROGRAM") (parse (as_string (get (codes "processbin") jcr))).0 (
      set (codes "ENV") (parse (as_string (get (codes "processenv") jcr))).0 (
        set (codes "ARGS") (parse (as_string (get (codes "processargs") jcr))).0
          (set (codes "NAME") (of_string (as_string (get (codes "processname") jcr))) null)))

  unfoldable pub registerjob : FsmJob json → FsmMessage json → FsmJob json × FsmMessage json
  unfolding content has_name job_of set_answer
  registerjob j m =
      let jcr = content json m in
      if has_name (as_string (get (codes "processname") jcr)) (items j.jconf)
      then (j, m)
      else (let jconf = append j.jconf (job_of jcr) in
          (record j { jconf = jconf }, set_answer json jconf m))

  module _ {W : Type 0} (sys : System W) (net : Net W) where
    first_local : List Str → Value → Value → Value
    first_local [] hosts jconf = jconf
    first_local (x ∷ xs) hosts jconf =
        if check_ip net x then get x hosts else first_local xs hosts jconf

    unfoldable pub build_job_config : FsmJob json → FsmJob json
    unfolding first_local check_ip
    build_job_config j =
        let hosts = get (codes "HOSTS") j.jfile in
        record j { jconf = first_local (member_names hosts) hosts j.jconf }

    abbrev pub configured : Value × Bool → FsmJob json → FsmJob json
    configured (v, true) j = build_job_config (record j { jfile = v })
    configured (v, false) j = record j { jfile = v }

    -- The content of a web answer, or the answer itself.
    abbrev unwrap : Value × Bool → Value × Bool
    unwrap (v, ok) = (if is_member (codes "content") v then get (codes "content") v else v, ok)

    abbrev pub with_login : Value → FsmJob json → FsmJob json
    with_login jc j =
        if is_member (codes "login") jc
        then record j { login = as_string (get (codes "login") jc) }
        else j

    abbrev pub read_config : Value → W → FsmJob json → FsmJob json
    read_config jc w j =
        if is_member (codes "file") jc
        then configured (parse (net.file_text (as_string (get (codes "file") jc)) w)) j
        else if is_member (codes "url") jc
        then configured
            (unwrap (parse (net.curl_query (as_string (get (codes "url") jc)) j.login w))) j
        else j

    unfoldable pub initialise : W → FsmJob json → FsmMessage json → FsmJob json × FsmMessage json
    unfolding build_job_config content set_answer
    initialise w j m =
        let jc = content json m in
        let cleared = record j { jfile = null; jconf = null; process_map = [] } in
        let j' = read_config jc w (with_login jc cleared) in (j', set_answer json j'.jconf m)

    unfoldable pub launch_all : List Value → W → FsmJob json → W × FsmJob json
    unfolding launch
    launch_all [] w j = (w, j)
    launch_all (book ∷ books) w j =
        let (w', j') = launch json sys (write book) w j in launch_all books w' j'

    abbrev pub answer_status :
        FsmMessage json → W × FsmJob json → Option (W × FsmJob json × FsmMessage json)
    answer_status m (w, j) = json_status json sys w j >>= λ v. some (w, j, set_answer json v m)

    unfoldable pub start :
        W → FsmJob json → FsmMessage json → Option (W × FsmJob json × FsmMessage json)
    unfolding launch_all json_status set_answer
    start w j m = answer_status m (launch_all (items j.jconf) w j)

    unfoldable pub kill_all : List Value → W → FsmJob json → W × FsmJob json
    unfolding kill_process
    kill_all [] w j = (w, j)
    kill_all (book ∷ books) w j =
        let (w', j') = kill_process json sys (as_uint (get (codes "PID") book)) 9 w j in
        kill_all books w' j'

    unfoldable pub kill :
        W → FsmJob json → FsmMessage json → Option (W × FsmJob json × FsmMessage json)
    unfolding kill_all json_status set_answer
    kill w j m = json_status json sys w j >>= λ books. answer_status m (kill_all (items books) w j)

    unfoldable pub destroy : FsmJob json → FsmMessage json → FsmJob json × FsmMessage json
    destroy j m = (j, m)
