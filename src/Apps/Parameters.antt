-- ===== src/Apps/Parameters.antt =====
-- src/baseApplication.cxx: which parameters an application finds, and what the web commands do to
-- them.
use levbdim.Base.{
  ℕ, ◌≡◌, ◌⊎◌, refl, ◌∙◌, inl, inr, List, [], ◌∷◌, ◌++◌, Option-cases, Bool-cases, some, none, true,
  false, ◌&&◌, str_eq, codes, All,
}
use levbdim.Json.{JsonLib, Laws}
use levbdim.Fsm.Web.{Request}
use levbdim.Apps.Process.{
  substr, read_env, BaseApplication, env_ids, ids_of, is_named, has_ids, find_param,
}
use levbdim.Apps.Application.{c_getparameter, c_setparameter}

module _ (json : JsonLib) where
  open json use {Value, null, is_null, get, set, is_member, as_string, parse, write}

  -- Parameters that are set by the web command, as the text of a value other than null, are those
  -- of the application, and what the command to get them answers then is what the command to set
  -- them answered: the value, under `PARAMETER`.
  pub getparameter-setparameter :
      Laws json
      → (v : Value) (s : BaseApplication json) (request : Request)
      → request (codes "PARAMETER") (codes "NONE") ≡ write v
      → str_eq (write v) (codes "NONE") ≡ false
      → is_null v ≡ false
      → ((c_setparameter json request s).0 ≡ record s { param = v })
        × (get (codes "PARAMETER") (c_setparameter json request s).1 ≡ v)
        × (c_getparameter json (c_setparameter json request s).0
            ≡ (c_setparameter json request s).1)
  unfolding c_setparameter c_getparameter str_eq
  getparameter-setparameter laws v s request asked given value =
      rw (asked, given, laws.parse-write v, c_setparameter)
        (
          refl,
          laws.get-set_self (codes "PARAMETER") v _ (laws.has_members-set laws.has_members-null),
          rw value refl,
        )

  -- A process of the host that is not taken: it has another name, or, with its port and instance
  -- read, other ones than the application, or no parameters.
  abbrev pub IsOther : BaseApplication json → Value → Type 0
  IsOther s b =
      (is_named json b s ≡ false)
      ⊎ ((ids : ℕ × ℕ) × (ids_of json b ≡ some ids)
          × ((has_ids json ids s && is_member (codes "PARAMETER") b) ≡ false))

  find_param-other :
      (s : BaseApplication json) (b : Value) (bs : List Value)
      → IsOther s b
      → find_param json (b ∷ bs) s ≡ find_param json bs s
  unfolding find_param
  find_param-other s b bs (inl unnamed) = rw (unnamed, find_param) refl
  find_param-other s b bs (inr (ids, read, unfit)) = elim (Bool-cases (is_named json b s)) [
    | inl named ↦ rw (named, find_param) (rw (read, unfit) refl)
    | inr unnamed ↦ rw (unnamed, find_param) refl
  ]

  -- Of the processes of the host, the application takes the parameters of the first that has its
  -- name, its port and instance, and parameters; where none does, it keeps those it had.
  pub find_param_lem :
      (s : BaseApplication json) (before : List Value) (b : Value) (after : List Value)
      (ids : ℕ × ℕ)
      → All (IsOther s) before
      → is_named json b s ≡ true
      → ids_of json b ≡ some ids
      → (has_ids json ids s && is_member (codes "PARAMETER") b) ≡ true
      → (find_param json (before ++ b ∷ after) s ≡ some (get (codes "PARAMETER") b))
        × (find_param json before s ≡ some s.param)
  unfolding find_param
  find_param_lem s [] b after ids others named read fit =
      (rw (named, find_param) (rw (read, fit) refl), refl)
  find_param_lem s (x ∷ before) b after ids others named read fit =
      let (found, kept) = find_param_lem s before b after ids others.1 named read fit in
      (
        find_param-other s x (before ++ b ∷ after) others.0 ∙ found,
        find_param-other s x before others.0 ∙ kept,
      )

  -- An entry `WEBPORT` without a value, wherever it stands among those of `ENV`, makes the
  -- application throw: the value would begin one character after the end of the entry.
  pub env_ids-throws :
      (before : List Value) (e : Value) (after : List Value) (ids : ℕ × ℕ)
      → as_string e ≡ codes "WEBPORT"
      → env_ids json (before ++ e ∷ after) ids ≡ none
  unfolding env_ids read_env substr str_eq
  env_ids-throws [] e after ids is = rw is refl
  env_ids-throws (x ∷ before) e after ids is = elim (Option-cases (read_env (as_string x) ids)) [
    | inl throws ↦ rw (throws, env_ids) refl
    | inr (ids', read) ↦ rw (read, env_ids) (env_ids-throws before e after ids' is)
  ]
