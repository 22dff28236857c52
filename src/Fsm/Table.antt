-- ===== src/Fsm/Table.antt =====
-- src/fsm.cxx, `addTransition`: the machine as a table from commands and states to transitions.
use levbdim.Base.{
  ◌≡◌, refl, sym, ap, ◌∙◌, ◌⊎◌, List, [], ◌∷◌, ◌++◌, Option, some, none, true, false, ◌&&◌,
  if◌then◌else◌, Str, str_eq, str_eq_iff, inl, inr, Option-cases, Bool-cases, arith, ◌>>=◌,
}
use levbdim.Base.StdMap
use levbdim.Base.StdMap.{
  StdMap, str_key, find-insert_new, find-update, IsDistinct, IsDistinct-place, IsDistinct-update,
}
use levbdim.Json.{JsonLib}
use levbdim.Fsm.Message.{FsmMessage}
use levbdim.Fsm.Machine.{FsmTransition, Fsm, from_state, add_to_vector, add_transition}

module _ (json : JsonLib) (A : Type 0) where
  -- The transition of a command in a state.
  abbrev pub target : Str → Str → Fsm json A → Option (FsmTransition json A)
  target cmd s f = StdMap.find cmd f.transitions >>= from_state json A s

  abbrev pub or_else :
      Option (FsmTransition json A) → FsmTransition json A → Option (FsmTransition json A)
  or_else none t = some t
  or_else (some old) t = some old

  abbrev or_nil : Option (List (FsmTransition json A)) → List (FsmTransition json A)
  or_nil none = []
  or_nil (some ts) = ts

  from_state-append :
      (s : Str) (ts : List (FsmTransition json A)) (t : FsmTransition json A)
      → from_state json A s (ts ++ t ∷ []) ≡ (
          if str_eq t.initial_state s
          then or_else (from_state json A s ts) t
          else from_state json A s ts)
  unfolding from_state
  from_state-append s [] t = ground arith
  from_state-append s (u ∷ ts) t = ground (arith, from_state-append s ts t)

  from_state-add_to_vector :
      (s : Str) (t : FsmTransition json A) (ts : List (FsmTransition json A))
      → from_state json A s (add_to_vector json A t ts) ≡ (
          if str_eq t.initial_state s
          then or_else (from_state json A s ts) t
          else from_state json A s ts)
  unfolding add_to_vector
  from_state-add_to_vector s t ts = elim (Option-cases (from_state json A t.initial_state ts)) [
    | inl e ↦ rw (e, add_to_vector) (from_state-append s ts t)
    | inr (old, e) ↦ rw (e, add_to_vector) (stored old e (Bool-cases (str_eq t.initial_state s)))
  ]
    where
      stored :
          (old : FsmTransition json A)
          → from_state json A t.initial_state ts ≡ some old
          → (str_eq t.initial_state s ≡ true) ⊎ (str_eq t.initial_state s ≡ false)
          → from_state json A s ts ≡ (
              if str_eq t.initial_state s
              then or_else (from_state json A s ts) t
              else from_state json A s ts)
      stored old e (inl hit) =
          let here : from_state json A s ts ≡ some old =
            ap (λ x. from_state json A x ts) (sym ((str_eq_iff t.initial_state s).0 hit)) ∙ e in
          rw (hit, here)
      stored old e (inr miss) = rw miss

  module _ (cmd istate fstate : Str) (cb : A → FsmMessage json → A × FsmMessage json)
      (f : Fsm json A) where
    abbrev entry : FsmTransition json A
    entry = record { initial_state = istate; final_state = fstate; callback = cb }

    abbrev added : Fsm json A
    added = add_transition json A cmd istate fstate cb f

    find-added :
        (c : Str)
        → StdMap.find c added.transitions ≡ (
            if str_eq cmd c
            then some (add_to_vector json A entry (or_nil (StdMap.find cmd f.transitions)))
            else StdMap.find c f.transitions)
    unfolding add_transition
    find-added c = elim (Option-cases (StdMap.find cmd f.transitions)) [
      | inl e ↦ rw (e, add_transition) (find-insert_new cmd c (entry ∷ []) f.transitions e)
      | inr (ts, e) ↦
          rw (e, add_transition)
            (find-update cmd c (add_to_vector json A entry ts) ts f.transitions e)
    ]

    from_state-or_nil :
        (s : Str) (o : Option (List (FsmTransition json A)))
        → from_state json A s (or_nil o) ≡ (o >>= from_state json A s)
    unfolding from_state
    from_state-or_nil s none = refl
    from_state-or_nil s (some ts) = refl

    -- A new transition is used for its command in its initial state, unless there was one before,
    -- which stays; no other command or state is touched.
    pub target-add_transition :
        (c s : Str)
        → target c s added
          ≡ (if str_eq cmd c && str_eq istate s then or_else (target c s f) entry else target c s f)
    target-add_transition c s =
        ap (λ o. o >>= from_state json A s) (find-added c) ∙ elim (Bool-cases (str_eq cmd c)) [
          | inl hit ↦ rw hit (here ((str_eq_iff cmd c).0 hit))
          | inr miss ↦ rw miss
        ]
      where
        here :
            cmd ≡ c
            → from_state json A s
                (add_to_vector json A entry (or_nil (StdMap.find cmd f.transitions)))
              ≡ (if str_eq istate s then or_else (target c s f) entry else target c s f)
        here e =
            from_state-add_to_vector s entry (or_nil (StdMap.find cmd f.transitions))
            ∙ ap (λ o. if str_eq istate s then or_else o entry else o)
                (from_state-or_nil s (StdMap.find cmd f.transitions) ∙ ap (λ x. target x s f) e)

    pub IsDistinct-add_transition : IsDistinct f.transitions → IsDistinct added.transitions
    unfolding add_transition StdMap.insert
    IsDistinct-add_transition u = elim (Option-cases (StdMap.find cmd f.transitions)) [
      | inl e ↦
          rw (e, add_transition)
            (rw (e, StdMap.insert) (IsDistinct-place cmd (entry ∷ []) f.transitions e u))
      | inr (ts, e) ↦
          rw (e, add_transition)
            (IsDistinct-update cmd (add_to_vector json A entry ts) f.transitions u)
    ]
