-- ===== src/Fsm/Command.antt =====
-- src/fsm.cxx, `processCommand` and `allowList`: what a command does, on every branch.
use levbdim.Base.{
  ◌≡◌, refl, sym, ap, ◌∙◌, List, [], ◌∷◌, ◌++◌, Option, some, none, Bool, true, false, Str, codes,
  str_eq_iff, inl, inr, Option-cases, arith, ◌>>=◌, is_some, contains,
}
use levbdim.Base.StdMap
use levbdim.Base.StdMap.{StdMap, str_key, IsDistinct}
use levbdim.Json.{JsonLib, Laws}
use levbdim.Fsm.Message.{
  FsmMessage, command, content, status, with_answer, command_key, content_key, status_key,
  answer_key, command-ne-content, command-ne-status, status-ne-content, root-set_value, set_value,
  throws, thrown_by,
}
use levbdim.Fsm.Machine.{
  FsmTransition, Fsm, Transitions, Outcome, from_state, take_transition, process_command, refuse,
  confirm, allowed_names, not_found, not_initial, failed, reply,
}
use levbdim.Fsm.Table.{target}

-- The keys of a reply, read back.
module _ (json : JsonLib) (A : Type 0) (laws : Laws json) where
  open json use {Value, null, get, set, has_members, of_string, as_string, write}
  open laws use {
    has_members-null, has_members-set, get-set_self, get-set_other, as_string-of_string,
  }

  -- A reply of a status: its command and content are those of the message that it answers.
  pub record Answers (status_text : Str) (v : Value) (m r : FsmMessage json) : Type 0 where
    pub same_command : command json r ≡ command json m
    pub says : as_string (status json r) ≡ status_text
    pub carries : content json r ≡ v

  module _ (text : Str) (m : FsmMessage json) where
    reply-command : as_string (get command_key (reply json A text m)) ≡ command json m
    reply-command =
        ap as_string (
          get-set_other content_key command_key (content json m) _
            (has_members-set (has_members-set has_members-null)) command-ne-content
          ∙ get-set_other status_key command_key (of_string text) _
              (has_members-set has_members-null) command-ne-status
          ∙ get-set_self command_key (of_string (command json m)) null has_members-null)
        ∙ as_string-of_string (command json m)

    reply-status : as_string (get status_key (reply json A text m)) ≡ text
    reply-status =
        ap as_string (
          get-set_other content_key status_key (content json m) _
            (has_members-set (has_members-set has_members-null)) status-ne-content
          ∙ get-set_self status_key (of_string text) _ (has_members-set has_members-null))
        ∙ as_string-of_string text

    reply-content : get content_key (reply json A text m) ≡ content json m
    reply-content =
        get-set_self content_key (content json m) _
          (has_members-set (has_members-set has_members-null))

  confirm-Answers :
      (m : FsmMessage json) → Answers (codes "DONE") (content json m) m (confirm json A m)
  unfolding confirm command status content
  confirm-Answers m =
      let root = root-set_value json laws (reply json A (codes "DONE") m) m in
      record {
        same_command =
            ap (λ v. as_string (get command_key v)) root ∙ reply-command (codes "DONE") m;
        says = ap (λ v. as_string (get status_key v)) root ∙ reply-status (codes "DONE") m;
        carries = ap (get content_key) root ∙ reply-content (codes "DONE") m;
      }

  refuse-Answers :
      (text : Str) (m : FsmMessage json)
      → Answers (codes "FAILED") (set answer_key (of_string text) (content json m)) m (
          set_value json
            (write (with_answer json (of_string text) (reply json A (codes "FAILED") m)))
            m)
  unfolding command status content
  refuse-Answers text m =
      let body : Value = reply json A (codes "FAILED") m in
      let root = root-set_value json laws (with_answer json (of_string text) body) m in
      record {
        same_command =
            ap (λ v. as_string (get command_key v)) root
            ∙ ap as_string (
                get-set_other content_key command_key _ body
                  (has_members-set (has_members-set (has_members-set has_members-null)))
                  command-ne-content)
            ∙ reply-command (codes "FAILED") m;
        says =
            ap (λ v. as_string (get status_key v)) root
            ∙ ap as_string (
                get-set_other content_key status_key _ body
                  (has_members-set (has_members-set (has_members-set has_members-null)))
                  status-ne-content)
            ∙ reply-status (codes "FAILED") m;
        carries =
            ap (get content_key) root
            ∙ get-set_self content_key _ body
                (has_members-set (has_members-set (has_members-set has_members-null)))
            ∙ ap (set answer_key (of_string text)) (reply-content (codes "FAILED") m);
      }

  module _ (f : Fsm json A) (a : A) (m : FsmMessage json) where
    abbrev pub outcome : Outcome json A
    outcome = process_command json A f a m

    -- The text with which a command is refused.
    abbrev reason_of : Option (List (FsmTransition json A)) → Str
    reason_of none = not_found json A (command json m)
    reason_of (some ts) = not_initial json A f.state (command json m)

    abbrev pub reason : Str
    reason = reason_of (StdMap.find (command json m) f.transitions)

    pub outcome_lem : outcome ≡ (elim (target json A (command json m) f.state f) [
      | none ↦ failed json A f a m reason
      | some t ↦ take_transition json A t f a m
    ])
    unfolding process_command
    outcome_lem = elim (Option-cases (StdMap.find (command json m) f.transitions)) [
      | inl e ↦ rw (e, process_command) (ap (failed json A f a m) (sym (ap reason_of e)))
      | inr (ts, e) ↦
          rw (e, process_command)
            (elim (Option-cases (from_state json A f.state ts)) [
              | inl e' ↦ rw e' (ap (failed json A f a m) (sym (ap reason_of e)))
              | inr (t, e') ↦ rw e'
            ])
    ]

    -- A command that has a transition in the current state, whose callback throws no exception: it
    -- runs once, on the message; the machine goes to the final state and publishes it; the table
    -- stays; the result is the new state; and the reply is `DONE`, with the command and content
    -- that the callback left in the message.
    pub process_command_done :
        (t : FsmTransition json A)
        → target json A (command json m) f.state f ≡ some t
        → thrown_by json m (t.callback a m).1 ≡ false
        → (outcome.machine
            ≡ record f { state = t.final_state; published = f.published ++ t.final_state ∷ [] })
          × (outcome.app ≡ (t.callback a m).0)
          × (outcome.result ≡ t.final_state)
          × Answers
              (codes "DONE")
              (content json (t.callback a m).1)
              (t.callback a m).1
              outcome.message
    unfolding take_transition
    process_command_done t h quiet =
        rw (outcome_lem, h) (rw quiet (refl, refl, refl, confirm-Answers (t.callback a m).1))

    -- Where the callback throws, the machine stays as it was, without a reply.
    pub process_command_thrown :
        (t : FsmTransition json A)
        → target json A (command json m) f.state f ≡ some t
        → thrown_by json m (t.callback a m).1 ≡ true
        → (outcome.machine ≡ f)
          × (outcome.app ≡ (t.callback a m).0)
          × (outcome.message ≡ (t.callback a m).1)
    unfolding take_transition
    process_command_thrown t h loud = rw (outcome_lem, h) (rw loud (refl, refl, refl))

    -- The reply to a command that is refused, by whether its content has members.
    abbrev pub IsRefused : Bool → Type 0
    IsRefused true =
        (outcome.result ≡ codes "ERROR")
        × Answers (codes "FAILED") (set answer_key (of_string reason) (content json m)) m
            outcome.message
    IsRefused false = outcome.message ≡ throws json m

    refused : target json A (command json m) f.state f ≡ none → outcome ≡ failed json A f a m reason
    refused h = outcome_lem ∙ rw h refl

    IsRefused-has_members :
        (b : Bool)
        → has_members (content json m) ≡ b
        → target json A (command json m) f.state f ≡ none
        → IsRefused b
    unfolding refuse
    IsRefused-has_members true e h = rw (refused h) (rw e (refl, refuse-Answers reason m))
    IsRefused-has_members false e h = rw (refused h) (rw e refl)

    -- A command that has no transition in the current state: no callback runs, and the machine and
    -- the application stay as they were. If the content of the message is null or an object, the
    -- result is `ERROR`, and the reply is `FAILED`, with the message's command and its content, in
    -- which the answer tells whether the command or the state was at fault. On any other content an
    -- exception is thrown, and the message is as it was.
    pub process_command_failed :
        target json A (command json m) f.state f ≡ none
        → (outcome.machine ≡ f) × (outcome.app ≡ a) × IsRefused (has_members (content json m))
    process_command_failed h = (
      ap (λ (o : Outcome json A). o.machine) (refused h),
      ap (λ (o : Outcome json A). o.app) (refused h),
      IsRefused-has_members (has_members (content json m)) refl h,
    )

  contains_missing :
      (s c : Str) (m : Transitions json A)
      → StdMap.find c m ≡ none
      → contains c (allowed_names json A s m) ≡ false
  unfolding StdMap.find allowed_names
  contains_missing s c [] h = refl
  contains_missing s c ((x, ts) ∷ m) h = ground (arith, contains_missing s c m)

  contains-allowed_names :
      (s c : Str) (m : Transitions json A)
      → IsDistinct m
      → contains c (allowed_names json A s m) ≡ is_some (StdMap.find c m >>= from_state json A s)
  unfolding StdMap.find allowed_names
  contains-allowed_names s c [] u = refl
  contains-allowed_names s c ((x, ts) ∷ m) u =
      ground (arith, contains-allowed_names s c m u.1, contains_missing s c m, str_eq_iff x c)

  -- The names in `allowList` are those of the commands whose execution in the current state would
  -- take a transition, for a machine in whose table no command stands twice.
  pub allow_list_lem :
      (f : Fsm json A) (c : Str)
      → IsDistinct f.transitions
      → contains c (allowed_names json A f.state f.transitions)
        ≡ is_some (target json A c f.state f)
  allow_list_lem f c = contains-allowed_names f.state c f.transitions
