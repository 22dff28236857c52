-- ===== src/Fsm/Serve.antt =====
-- src/fsmweb.cxx, `fsmProcess`: a web request drives the machine and is answered by its reply.
use levbdim.Base.{
  ◌≡◌, refl, true, if◌then◌else◌, ap, ◌∙◌, ◌∷◌, [], ◌++◌, some, none, false, Str, str_eq, codes,
}
use levbdim.Json.{JsonLib, Laws}
use levbdim.Fsm.Message.{
  FsmMessage, new_message, set_value, value, command, content, command_key, content_key,
  command-ne-content, root-set_value, with_answer,
}
use levbdim.Fsm.Machine.{
  FsmTransition, process_command, take_transition, confirm, publish_state, reply, failed, refuse,
}
use levbdim.Fsm.Table.{target}
use levbdim.Fsm.Command.{outcome_lem, reason}
use levbdim.Fsm.Web.{
  Request, not_set, of_machine, FsmWeb, asked, web_message, process_web_command, fsm_process,
}

module _ (json : JsonLib) (A : Type 0) (laws : Laws json) where
  open json use {Value, null, get, set, has_members, of_string, as_string, parse}

  message_root :
      (cmd text : Str)
      → (web_message json A cmd text).jsroot
        ≡ set content_key (parse text).0 (set command_key (of_string cmd) null)
  unfolding web_message
  message_root cmd text = root-set_value json laws _ (new_message json)

  -- The message says what the request said.
  pub command-web_message : (cmd text : Str) → command json (web_message json A cmd text) ≡ cmd
  unfolding command
  command-web_message cmd text =
      ap (λ v. as_string (get command_key v)) (message_root cmd text)
      ∙ ap as_string (
          laws.get-set_other content_key command_key (parse text).0 _
            (laws.has_members-set laws.has_members-null) command-ne-content
          ∙ laws.get-set_self command_key (of_string cmd) null laws.has_members-null)
      ∙ laws.as_string-of_string cmd

  pub content-web_message :
      (cmd text : Str) → content json (web_message json A cmd text) ≡ (parse text).0
  unfolding content
  content-web_message cmd text =
      ap (get content_key) (message_root cmd text)
      ∙ laws.get-set_self content_key (parse text).0 _ (laws.has_members-set laws.has_members-null)

  module _ (w : FsmWeb json A) (a : A) (request : Request) (response : Value)
      (t : FsmTransition json A) where
    abbrev cmd : Str
    cmd = request (codes "command") not_set

    abbrev text : Str
    text = request (codes "content") not_set

    abbrev m : FsmMessage json
    m = web_message json A cmd text

    abbrev called : A × FsmMessage json
    called = t.callback a m

    taken :
        target json A cmd w.machine.state w.machine ≡ some t
        → process_command json A w.machine a m ≡ take_transition json A t w.machine a m
    taken found =
        outcome_lem json A laws w.machine a m
        ∙ rw (
            ap (λ c. target json A c w.machine.state w.machine) (command-web_message cmd text)
            ∙ found)

    unasked_lem :
        asked json A w.web_state cmd ≡ none
        → process_web_command json A w a m
          ≡ of_machine json A w (process_command json A w.machine a m)
    unfolding process_web_command
    unasked_lem unasked = rw (
      ap (asked json A w.web_state) (command-web_message cmd text) ∙ unasked,
      process_web_command,
    )

    -- A web request with a command that has a transition in the current state (and is not the
    -- question for the web address), whose callback throws no exception: it runs once, on a message
    -- with the request's command and its content as parsed; the machine goes to the final state and
    -- publishes it, and nothing else of the interface changes; and the response is the reply of the
    -- machine, `DONE` with the command and content that the callback left.
    pub fsm_process_done :
        str_eq cmd not_set ≡ false
        → str_eq text not_set ≡ false
        → asked json A w.web_state cmd ≡ none
        → target json A cmd w.machine.state w.machine ≡ some t
        → called.1.thrown ≡ false
        → (command json m ≡ cmd)
          × (content json m ≡ (parse text).0)
          × (fsm_process json A w a request response ≡ (
            record w {
              machine = record w.machine {
                state = t.final_state;
                published = w.machine.published ++ t.final_state ∷ [];
              };
            },
            called.0,
            reply json A (codes "DONE") called.1,
          ))
    unfolding fsm_process take_transition confirm publish_state value set_value
    fsm_process_done given given' unasked found quiet = (
      command-web_message cmd text,
      content-web_message cmd text,
      rw (given, given')
          (ap
              (λ o. (
                o.web,
                o.app,
                (if o.message.thrown then response else (parse (value json o.message)).0),
              ))
              (unasked_lem unasked ∙ ap (of_machine json A w) (taken found))
            ∙ rw quiet refl
            ∙ ap
                (λ v. (
                  record w {
                    machine = record w.machine {
                      state = t.final_state;
                      published = w.machine.published ++ t.final_state ∷ [];
                    };
                  },
                  called.0,
                  v,
                ))
                (root-set_value json laws (reply json A (codes "DONE") called.1) called.1)),
    )

  module _ (w : FsmWeb json A) (a : A) (request : Request) (response : Value) where
    abbrev asked_for : Str
    asked_for = request (codes "command") not_set

    abbrev with_content : Str
    with_content = request (codes "content") not_set

    abbrev refused : FsmMessage json
    refused = web_message json A asked_for with_content

    refused_lem :
        target json A asked_for w.machine.state w.machine ≡ none
        → process_command json A w.machine a refused
          ≡ failed json A w.machine a refused (reason json A laws w.machine a refused)
    refused_lem missing =
        outcome_lem json A laws w.machine a refused
        ∙ rw (
            ap (λ c. target json A c w.machine.state w.machine)
              (command-web_message asked_for with_content)
            ∙ missing)

    unasked :
        asked json A w.web_state asked_for ≡ none
        → process_web_command json A w a refused
          ≡ of_machine json A w (process_command json A w.machine a refused)
    unfolding process_web_command
    unasked h = rw (
      ap (asked json A w.web_state) (command-web_message asked_for with_content) ∙ h,
      process_web_command,
    )

    -- A web request with a command that has no transition in the current state (and is not the
    -- question for the web address), and a content that has members: no callback runs, the machine
    -- and the application stay as they were, and the response is the reply `FAILED`, with the
    -- content of the request, in which the answer tells whether the command or the state was at
    -- fault.
    pub fsm_process_failed :
        str_eq asked_for not_set ≡ false
        → str_eq with_content not_set ≡ false
        → asked json A w.web_state asked_for ≡ none
        → target json A asked_for w.machine.state w.machine ≡ none
        → has_members (content json refused) ≡ true
        → (content json refused ≡ (parse with_content).0)
          × (fsm_process json A w a request response ≡ (
            w,
            a,
            with_answer json
                (of_string (reason json A laws w.machine a refused))
                (reply json A (codes "FAILED") refused),
          ))
    unfolding fsm_process refuse value set_value
    fsm_process_failed given given' h missing open' = (
      content-web_message asked_for with_content,
      rw (given, given')
          (ap
              (λ o. (
                o.web,
                o.app,
                (if o.message.thrown then response else (parse (value json o.message)).0),
              ))
              (unasked h ∙ ap (of_machine json A w) (refused_lem missing))
            ∙ rw open' refl
            ∙ ap (λ v. (w, a, v))
                (root-set_value json laws
                  (with_answer json (of_string (reason json A laws w.machine a refused))
                    (reply json A (codes "FAILED") refused))
                  refused)),
    )
