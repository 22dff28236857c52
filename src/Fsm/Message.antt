-- ===== src/Fsm/Message.antt =====
-- src/fsmmessage.cxx, include/fsmmessage.hh: a command with its content, as text and as JSON.
use levbdim.Base.{
  ◌≡◌, refl, sym, ap, inl, inr, Bool-cases, ◌∙◌, ◌≢◌, Bool, true, false, not, ◌&&◌, if◌then◌else◌,
  Str, str_eq, str_eq_iff, codes, [],
}
use levbdim.Json.{JsonLib, Laws}

-- Two keys that the test tells apart.
pub key_ne : (s t : Str) → str_eq s t ≡ false → s ≢ t
key_ne s t h e = cc (h, (str_eq_iff s t).1 e)

abbrev pub command_key : Str
command_key = codes "command"

abbrev pub content_key : Str
content_key = codes "content"

abbrev pub status_key : Str
status_key = codes "status"

abbrev pub answer_key : Str
answer_key = codes "answer"

pub command-ne-content : command_key ≢ content_key
unfolding str_eq
command-ne-content = key_ne command_key content_key refl

pub command-ne-status : command_key ≢ status_key
unfolding str_eq
command-ne-status = key_ne command_key status_key refl

pub status-ne-content : status_key ≢ content_key
unfolding str_eq
status-ne-content = key_ne status_key content_key refl

module _ (json : JsonLib) where
  open json use {Value, null, get, set, has_members, of_string, as_string, write, parse}

  -- `thrown` tells that an exception left the code that was given the message, at a `set` on a
  -- value that has no members; nothing of that code runs after it.
  pub record FsmMessage : Type 0 where
    pub sroot : Str
    pub jsroot : Value
    pub thrown : Bool

  unfoldable pub new_message : FsmMessage
  new_message = record { sroot = []; jsroot = null; thrown = false }

  unfoldable pub of_text : Str → FsmMessage
  of_text s = record { sroot = s; jsroot = (parse s).0; thrown = false }

  unfoldable pub command : FsmMessage → Str
  command m = as_string (get (command_key) m.jsroot)

  unfoldable pub value : FsmMessage → Str
  value m = m.sroot

  unfoldable pub content : FsmMessage → Value
  content m = get (content_key) m.jsroot

  unfoldable pub status : FsmMessage → Value
  status m = get (status_key) m.jsroot

  unfoldable pub set_value : Str → FsmMessage → FsmMessage
  set_value s m = record m { sroot = s; jsroot = (parse s).0 }

  -- `msg["content"]["answer"]=rep` on a value with that content.
  abbrev pub with_answer : Value → Value → Value
  with_answer rep v = set (content_key) (set (answer_key) rep (get (content_key) v)) v

  -- The message with an exception.
  abbrev pub throws : FsmMessage → FsmMessage
  throws m = record m { thrown = true }

  unfoldable pub set_answer : Value → FsmMessage → FsmMessage
  unfolding set_value command content
  set_answer rep m =
      if has_members (content m)
      then set_value
          (write (
            with_answer rep
              (set (content_key) (content m) (set (command_key) (of_string (command m)) null))))
          m
      else throws m

  -- Whether the code that left the second message for the first ended by an exception.
  abbrev pub thrown_by : FsmMessage → FsmMessage → Bool
  thrown_by m m' = m'.thrown && not m.thrown

  pub thrown_by-same : (m : FsmMessage) → thrown_by m m ≡ false
  thrown_by-same m = none_by m.thrown
    where
      none_by : (b : Bool) → (b && not b) ≡ false
      none_by true = refl
      none_by false = refl

  module _ (laws : Laws json) where
    open laws use {
      has_members-null, has_members-set, get-set_self, get-set_other, as_string-of_string,
      parse-write,
    }

    pub root-set_value : (v : Value) (m : FsmMessage) → (set_value (write v) m).jsroot ≡ v
    unfolding set_value
    root-set_value v m = ap (λ r. r.0) (parse-write v)

    abbrev with_content : FsmMessage → Value
    with_content m = set content_key (content m) (set command_key (of_string (command m)) null)

    -- What `setAnswer` leaves, by whether the content has members.
    abbrev pub AnswerIsSet : Value → FsmMessage → FsmMessage → Bool → Type 0
    AnswerIsSet rep m m' true =
        (command m' ≡ command m)
        × (content m' ≡ set answer_key rep (content m))
        × (parse (value m') ≡ (m'.jsroot, true))
        × (m'.thrown ≡ m.thrown)
    AnswerIsSet rep m m' false = m' ≡ throws m

    -- On a content that is null or an object, `setAnswer` keeps the message's command, and of its
    -- content changes the answer alone, which becomes the given value; this holds of the text that
    -- is sent too: it parses to the value that the message then holds. On any other content it
    -- throws, and leaves the message as it was.
    pub set_answer_lem :
        (rep : Value) (m : FsmMessage)
        → AnswerIsSet rep m (set_answer rep m) (has_members (content m))
    unfolding set_answer value set_value command content
    set_answer_lem rep m = elim (Bool-cases (has_members (content m))) [
      | inl h ↦ rw h opened
      | inr h ↦ rw h refl
    ]
      where
        inner : Value
        inner = with_content m

        root : (set_value (write (with_answer rep inner)) m).jsroot ≡ with_answer rep inner
        root = root-set_value (with_answer rep inner) m

        opened : AnswerIsSet rep m (set_value (write (with_answer rep inner)) m) true
        opened = (
          ap (λ r. as_string (get command_key r)) root
              ∙ ap as_string (
                  get-set_other content_key command_key _ inner
                    (has_members-set (has_members-set has_members-null)) command-ne-content
                  ∙ get-set_other content_key command_key (content m) _
                      (has_members-set has_members-null) command-ne-content
                  ∙ get-set_self command_key (of_string (command m)) null has_members-null)
              ∙ as_string-of_string (command m),
          ap (get content_key) root
              ∙ get-set_self content_key _ inner
                  (has_members-set (has_members-set has_members-null))
              ∙ ap (set answer_key rep)
                  (get-set_self content_key (content m) _ (has_members-set has_members-null)),
          parse-write (with_answer rep inner) ∙ ap (λ v. (v, true)) (sym root),
          refl,
        )
