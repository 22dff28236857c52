-- ===== src/Fsm/Reach.antt =====
-- src/fsm.cxx: what every run of a machine keeps, from what each of its transitions keeps.
use levbdim.Base.{
  ◌≡◌, ◌≢◌, ap, refl, sym, ◌∙◌, subst, [], Option, some, none, Bool, true, false, if◌then◌else◌,
  ◌&&◌, Str, str_eq, str_eq_iff, inl, inr, Option-cases, Bool-cases, arith, ◌>>=◌,
}
use levbdim.Base.StdMap
use levbdim.Base.StdMap.{str_key}
use levbdim.Json.{JsonLib, Laws}
use levbdim.Fsm.Message.{FsmMessage, command, thrown_by, thrown_by-same}
use levbdim.Fsm.Machine.{
  FsmTransition, Fsm, from_state, add_transition, process_command, take_transition, publish_state,
}
use levbdim.Fsm.Table.{target, or_else, target-add_transition}
use levbdim.Fsm.Command.{outcome_lem}

module _ (json : JsonLib) (A : Type 0) where
  -- The states of a machine and its application that commands lead to.
  pub data Reachable (f : Fsm json A) (a : A) : Fsm json A → A → Type 0 where
    created : Reachable f a f a
    commanded :
        (f' : Fsm json A) (a' : A) (m : FsmMessage json)
        → Reachable f a f' a'
        → Reachable f a
            (process_command json A f' a' m).machine
            (process_command json A f' a' m).app

  module _ (Inv : Str → A → Type 0) where
    -- The state that a method of a transition leads to: the first where it throws.
    abbrev pub left_at : Bool → Str → Str → Str
    left_at thrown istate fstate = if thrown then istate else fstate

    -- What a method has to keep.
    abbrev pub MethodKeeps : Str → Str → (A → FsmMessage json → A × FsmMessage json) → Type 0
    MethodKeeps istate fstate method =
        (a : A) (m : FsmMessage json)
        → Inv istate a
        → Inv (left_at (thrown_by json m (method a m).1) istate fstate) (method a m).0

    abbrev pub Keeps : FsmTransition json A → Type 0
    Keeps t = MethodKeeps t.initial_state t.final_state t.callback

    -- A method that keeps it in both states, and one that gives the message back as it is.
    pub at_both :
        (thrown : Bool) (istate fstate : Str) (a : A)
        → Inv istate a
        → Inv fstate a
        → Inv (left_at thrown istate fstate) a
    at_both true istate fstate a i i' = i
    at_both false istate fstate a i i' = i'

    pub quietly :
        (istate fstate : Str) (a : A) (m m' : FsmMessage json)
        → m' ≡ m
        → Inv fstate a
        → Inv (left_at (thrown_by json m m') istate fstate) a
    quietly istate fstate a m m' same i =
        subst (λ b. Inv (left_at b istate fstate) a)
          (sym (ap (thrown_by json m) same ∙ thrown_by-same json m)) i

    abbrev pub AllKeep : Fsm json A → Type 0
    AllKeep f =
        (c s : Str) (t : FsmTransition json A)
        → target json A c s f ≡ some t
        → (t.initial_state ≡ s) × Keeps t

    pub AllKeep-no_transitions : (f : Fsm json A) → f.transitions ≡ [] → AllKeep f
    unfolding StdMap.find
    AllKeep-no_transitions f e c s t h = absurd (missing (sym found ∙ h))
      where
        found : target json A c s f ≡ none
        found = ap (λ ts. StdMap.find c ts >>= from_state json A s) e

        missing : none ≢ some t
        missing h' = cc h'

    -- A transition that is added keeps it too.
    pub AllKeep-add_transition :
        (cmd istate fstate : Str) (cb : A → FsmMessage json → A × FsmMessage json) (f : Fsm json A)
        → MethodKeeps istate fstate cb
        → AllKeep f
        → AllKeep (add_transition json A cmd istate fstate cb f)
    AllKeep-add_transition cmd istate fstate cb f keeps others c s t h =
        elim (Bool-cases (str_eq cmd c && str_eq istate s)) [
          | inl hit ↦
              fresh (target json A c s f) (others c s t)
                ((str_eq_iff istate s).0 (ground (arith, hit))) (sym (added hit) ∙ h)
          | inr miss ↦ others c s t (sym (kept miss) ∙ h)
        ]
      where
        entry : FsmTransition json A
        entry = record { initial_state = istate; final_state = fstate; callback = cb }

        added :
            (str_eq cmd c && str_eq istate s) ≡ true
            → target json A c s (add_transition json A cmd istate fstate cb f)
              ≡ or_else json A (target json A c s f) entry
        added hit = target-add_transition json A cmd istate fstate cb f c s ∙ rw hit refl

        kept :
            (str_eq cmd c && str_eq istate s) ≡ false
            → target json A c s (add_transition json A cmd istate fstate cb f) ≡ target json A c s f
        kept miss = target-add_transition json A cmd istate fstate cb f c s ∙ rw miss refl

        same : or_else json A none entry ≡ some t → entry ≡ t
        same h' = cc h'

        fresh :
            (o : Option (FsmTransition json A))
            → (o ≡ some t → (t.initial_state ≡ s) × Keeps t)
            → istate ≡ s
            → or_else json A o entry ≡ some t
            → (t.initial_state ≡ s) × Keeps t
        fresh none old e h' =
            subst (λ (u : FsmTransition json A). (u.initial_state ≡ s) × Keeps u) (same h')
              (e, keeps)
        fresh (some u) old e h' = old h'

    module _ (laws : Laws json) where
      pub IsKept-process_command :
          (f : Fsm json A) (a : A) (m : FsmMessage json)
          → AllKeep f
          → Inv f.state a
          → AllKeep (process_command json A f a m).machine
            × Inv (process_command json A f a m).machine.state (process_command json A f a m).app
      unfolding take_transition publish_state
      IsKept-process_command f a m keep i =
          elim (Option-cases (target json A (command json m) f.state f)) [
            | inl e ↦ rw (outcome_lem json A laws f a m, e) (keep, i)
            | inr (t, e) ↦
                let (here, keeps) = keep (command json m) f.state t e in
                let i' = keeps a m (subst (λ s. Inv s a) (sym here) i) in
                elim (Bool-cases (thrown_by json m (t.callback a m).1)) [
                  | inl loud ↦
                      rw (outcome_lem json A laws f a m, e)
                        (rw loud (
                          keep,
                          subst (λ s. Inv s (t.callback a m).0)
                              (ap (λ b. left_at b t.initial_state t.final_state) loud ∙ here) i',
                        ))
                  | inr quiet ↦
                      rw (outcome_lem json A laws f a m, e)
                        (rw quiet (
                          keep,
                          subst (λ s. Inv s (t.callback a m).0)
                              (ap (λ b. left_at b t.initial_state t.final_state) quiet) i',
                        ))
                ]
          ]

      -- What holds at first, and each transition keeps, holds in every state that commands lead to.
      pub Reachable-Inv :
          (f : Fsm json A) (a : A) (f' : Fsm json A) (a' : A)
          → AllKeep f
          → Inv f.state a
          → Reachable f a f' a'
          → AllKeep f' × Inv f'.state a'
      Reachable-Inv f a _ _ keep i created = (keep, i)
      Reachable-Inv f a _ _ keep i (commanded g b m r) =
          let (keep', i') = Reachable-Inv f a g b keep i r in IsKept-process_command g b m keep' i'
