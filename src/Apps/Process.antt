-- ===== src/Apps/Process.antt =====
-- src/baseApplication.cxx, include/baseApplication.hh: an application, and how it finds itself
-- among the processes of its host.
use levbdim.Base.{
  ℕ, ◌-◌, List, [], ◌∷◌, Option, some, none, Bool, ◌&&◌, ◌>>=◌, if◌then◌else◌, ltb, ◌==◌, Str,
  str_eq, codes, length, take, drop,
}
use levbdim.Json.{JsonLib}
use levbdim.Shm.Name.{atol}
use levbdim.Job.Machine.{Env}

-- `s.substr(pos, n)`: a position beyond the end throws.
unfoldable pub substr : ℕ → ℕ → Str → Option Str
substr pos n s = if ltb (length s) pos then none else some (take n (drop pos s))

abbrev starts_with : Str → Str → Bool
starts_with key s = str_eq (take (length key) s) key

abbrev number_of : Option Str → ℕ
number_of none = 0
number_of (some s) = atol s

-- The two tests on an entry of `ENV`; the value begins one character after the key.
unfoldable pub read_env : Str → ℕ × ℕ → Option (ℕ × ℕ)
unfolding substr str_eq atol
read_env envp (port, instance) =
    (if starts_with (codes "WEBPORT") envp
      then (substr 8 (length envp - 7) envp >>= λ s. some (atol s))
      else some port)
    >>= λ port'.
        (if starts_with (codes "INSTANCE") envp
          then (substr 9 (length envp - 8) envp >>= λ s. some (atol s))
          else some instance)
        >>= λ instance'. some (port', instance')

module _ (json : JsonLib) where
  open json use {
    Value, null, is_null, get, set, is_member, of_string, as_string, as_int, items, parse,
  }

  pub record BaseApplication : Type 0 where
    pub hostname : Str
    pub login : Str
    pub process_name : Str
    pub config : Value
    pub param : Value
    pub instance_number : ℕ
    pub port : ℕ

  abbrev or_unknown : Option Str → Str
  or_unknown none = codes "UNKNOWN"
  or_unknown (some s) = s

  abbrev or_nothing : Option Str → Str
  or_nothing none = []
  or_nothing (some s) = s

  unfoldable pub new_application : Str → Env → BaseApplication
  unfolding atol
  new_application hostname env = record {
    hostname = hostname;
    login = or_nothing (env (codes "WEBLOGIN"));
    process_name = or_unknown (env (codes "PROCESSNAME"));
    config = null;
    param = null;
    instance_number = number_of (env (codes "INSTANCE"));
    port = number_of (env (codes "WEBPORT"));
  }

  -- The port and the instance that the entries of `ENV` give, 0 where they give none.
  unfoldable pub env_ids : List Value → ℕ × ℕ → Option (ℕ × ℕ)
  unfolding read_env
  env_ids [] ids = some ids
  env_ids (e ∷ es) ids = read_env (as_string e) ids >>= env_ids es

  abbrev pub ids_of : Value → Option (ℕ × ℕ)
  ids_of b =
      if is_member (codes "ENV") b
      then env_ids (items (get (codes "ENV") b)) (0, 0)
      else some (0, 0)

  abbrev pub is_named : Value → BaseApplication → Bool
  is_named b s =
      is_member (codes "NAME") b && str_eq (as_string (get (codes "NAME") b)) s.process_name

  abbrev pub has_ids : ℕ × ℕ → BaseApplication → Bool
  has_ids (port, instance) s = (port == s.port) && (instance == s.instance_number)

  -- The loop over the processes of the host: the parameters that it finds, or those there were.
  unfoldable pub find_param : List Value → BaseApplication → Option Value
  unfolding env_ids str_eq
  find_param [] s = some s.param
  find_param (b ∷ bs) s =
      let rest = find_param bs s in
      if is_named b s
      then (ids_of b >>= λ ids.
          if has_ids ids s && is_member (codes "PARAMETER") b
          then some (get (codes "PARAMETER") b)
          else rest)
      else rest
