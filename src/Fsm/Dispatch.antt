-- ===== src/Fsm/Dispatch.antt =====
-- src/fsmweb.cxx: which method of the controller answers a path.
use levbdim.Base.{
  ◌≡◌, ◌≢◌, ◌<◌, refl, ap, ◌∙◌, [], ◌∷◌, ◌++◌, some, none, false, if◌then◌else◌, Str, str_eq,
  str_eq_iff, str_eq_refl, codes, length, length-append, arith, Bool-cases, inl, inr,
}
use levbdim.Fsm.Routes.{Controller, RouteLaws, Handler, list, fsm_handler, cmd_handler, setup}

str_eq-append : (p s t : Str) → str_eq (p ++ s) (p ++ t) ≡ str_eq s t
unfolding str_eq
str_eq-append [] s t = refl
str_eq-append (c ∷ p) s t = ground (arith, str_eq-append p s t)

str_eq-length : (s t : Str) → length s ≢ length t → str_eq s t ≡ false
str_eq-length s t other = elim (Bool-cases (str_eq s t)) [
  | inl same ↦ absurd (other (ap length ((str_eq_iff s t).0 same)))
  | inr e ↦ e
]

-- The path of a method under the name of the machine.
abbrev pub path : Str → Str → Str
path name method = (codes "/" ++ name) ++ method

module _ (lib : Controller) (laws : RouteLaws lib) (name : Str) where
  open lib use {Routes, no_routes, find}

  abbrev pub routes : Routes
  routes = setup lib name no_routes

  -- The routes that `setup` leaves, for requests of the method `GET`.
  found :
      (url : Str)
      → find (codes "GET") url routes ≡ (
          if str_eq (path name (codes "/CMD")) url
          then some cmd_handler
          else if str_eq (path name (codes "/FSM")) url
          then some fsm_handler
          else if str_eq (path name (codes "/")) url
          then some list
          else if str_eq (codes "/") url
          then some list
          else none)
  unfolding setup str_eq
  found url = simp (
    laws.find-add_route, laws.find-set_prefix, laws.prefix-add, laws.prefix-set, laws.prefix-none,
    laws.find-none,
  )

  abbrev GetsTo : Str → Handler → Type 0
  GetsTo url h = find (codes "GET") url routes ≡ some h

  -- Two methods under the name are different paths, and none is the root.
  differ : (m m' : Str) → str_eq m m' ≡ false → str_eq (path name m) (path name m') ≡ false
  differ m m' other = str_eq-append (codes "/" ++ name) m m' ∙ other

  not_root : (m : Str) → 0 < length m → str_eq (path name m) (codes "/") ≡ false
  not_root m some_method = str_eq-length (path name m) (codes "/") (λ e.
      omega (
        arith,
        e,
        some_method,
        length-append (codes "/" ++ name) m,
        length-append (codes "/") name,
      ))

  pub gets-root : GetsTo (codes "/") list
  gets-root =
      found (codes "/")
      ∙ rw (
        not_root (codes "/CMD") (omega arith),
        not_root (codes "/FSM") (omega arith),
        not_root (codes "/") (omega arith),
        str_eq_refl (codes "/"),
      )

  pub gets-list : GetsTo (path name (codes "/")) list
  unfolding str_eq
  gets-list =
      found (path name (codes "/"))
      ∙ rw (
        differ (codes "/CMD") (codes "/") refl,
        differ (codes "/FSM") (codes "/") refl,
        str_eq_refl (path name (codes "/")),
      )

  pub gets-fsm : GetsTo (path name (codes "/FSM")) fsm_handler
  unfolding str_eq
  gets-fsm =
      found (path name (codes "/FSM"))
      ∙ rw (differ (codes "/CMD") (codes "/FSM") refl, str_eq_refl (path name (codes "/FSM")))

  pub gets-cmd : GetsTo (path name (codes "/CMD")) cmd_handler
  gets-cmd = found (path name (codes "/CMD")) ∙ rw (str_eq_refl (path name (codes "/CMD")))
