-- ===== src/Caller/Served.antt =====
-- src/fsmwebCaller.cxx and src/fsmweb.cxx: a client and the interface that it sends a transition
-- to.
use levbdim.Base.{
  ◌+◌, ◌<◌, ◌≤◌, ◌≡◌, refl, ap, ◌∙◌, ◌>>=◌, Option, [], ◌∷◌, ◌++◌, some, none, true, false,
  if◌then◌else◌, leb, ltb, Str, str_eq, codes, length, length-append, All, arith,
}
use levbdim.Json.{JsonLib, Laws}
use levbdim.Fsm.Message.{FsmMessage}
use levbdim.Fsm.Machine.{FsmTransition, reply}
use levbdim.Fsm.Web.{Request, FsmWeb, web_message}
use levbdim.Caller.Encode.{html5, encoded, url_encode, c_string}
use levbdim.Caller.Decode.{
  url_decode, between, html5-IsReadable, decode-url_encode, c_string_lem, length-url_encode,
}
use levbdim.Caller.Client.{Curl, FsmWebCaller, content_field, answer_of}

-- The characters of a text: no zero, and bytes.
abbrev pub IsText : Str → Type 0
IsText s = All (λ c. (0 < c) × (c < 256)) s

All-nonzero : (s : Str) → IsText s → All (λ c. 0 < c) s
All-nonzero [] a = tt
All-nonzero (c ∷ s) a = (a.0.0, All-nonzero s a.1)

All-bytes : (s : Str) → IsText s → All (λ c. c < 256) s
All-bytes [] a = tt
All-bytes (c ∷ s) a = (a.0.1, All-bytes s a.1)

html5_round_trip : (s : Str) → IsText s → url_decode b' ' between (url_encode html5 s) ≡ s
html5_round_trip s a =
    decode-url_encode b' ' html5 s html5-IsReadable (All-bytes s a)
    ∙ c_string_lem s (All-nonzero s a)

some_encoded : (s : Str) → IsText s → 0 < length s → 0 < length (url_encode html5 s)
unfolding url_encode
some_encoded [] a h = absurd (omega arith)
some_encoded (c ∷ s) a h = ground (arith, length-append (encoded html5 c) (url_encode html5 s))

-- Each character takes at least one.
long_encoded : (s : Str) → IsText s → length s ≤ length (url_encode html5 s)
unfolding url_encode
long_encoded [] a = omega arith
long_encoded (c ∷ s) a =
    ground (arith, length-append (encoded html5 c) (url_encode html5 s), long_encoded s a.1)

module _ (json : JsonLib) where
  open json use {Value, null, is_null, parse, write}

  -- The content of a query that a server decodes.
  abbrev pub content_text : Value → Str
  content_text v = url_decode b' ' between (url_encode html5 (write v))

  -- A content of up to 1365 characters fits the array of `sendTransition`, and its query has it.
  pub content_field-fits :
      (v : Value)
      → is_null v ≡ false
      → IsText (write v)
      → 0 < length (write v)
      → length (write v) ≤ 1365
      → content_field json v ≡ some (codes "&content=" ++ url_encode html5 (write v))
  unfolding content_field
  content_field-fits v given text some_text short = rw (given, fits, starts) refl
    where
      out : Str
      out = url_encode html5 (write v)

      fits : leb (length out + 1) 4096 ≡ true
      fits = ground (arith, length-url_encode html5 (write v), short)

      starts : ltb 0 (length out) ≡ true
      starts = ground (arith, some_encoded (write v) text some_text)

  -- A content of more than 4095 characters, none of which is a zero, overruns the array.
  content_field-overruns :
      (v : Value)
      → is_null v ≡ false
      → IsText (write v)
      → 4095 < length (write v)
      → content_field json v ≡ none
  unfolding content_field
  content_field-overruns v given text long = rw (given, overruns) refl
    where
      overruns : leb (length (url_encode html5 (write v)) + 1) 4096 ≡ false
      overruns = ground (arith, long_encoded (write v) text, long)

  -- The request that a server makes of the fields of a query, which it decodes; the client sends
  -- the name as it is.
  abbrev pub request_of : Str → Value → Request
  request_of name cnt key default =
      if str_eq key (codes "command")
      then url_decode b' ' between name
      else if str_eq key (codes "content")
      then content_text cnt
      else default

  -- The query of a transition.
  abbrev pub transition_url : Str → Str → Value → Str
  transition_url url name cnt =
      url ++ (codes "FSM?command=" ++ (name ++ (codes "&content=" ++ url_encode html5 (write cnt))))

  module _ (laws : Laws json) where
    -- A server that decodes the content of a query parses it to the value that was sent.
    pub content_round_trip : (v : Value) → IsText (write v) → parse (content_text v) ≡ (v, true)
    content_round_trip v text = ap parse (html5_round_trip (write v) text) ∙ laws.parse-write v

    module _ {A : Type 0} {W : Type 0} (curl : Curl W) (s : FsmWebCaller json) (w : W) (name : Str)
        (cnt : Value) (web : FsmWeb json A) (a : A) (response : Value)
        (t : FsmTransition json A) where
      abbrev called : A × FsmMessage json
      called = t.callback a (web_message json A name (content_text cnt))

      abbrev answered : Value
      answered = reply json A (codes "DONE") called.1

      -- What the client returns and keeps; `none` where the answer cannot be taken.
      abbrev pub kept : Option (Str × FsmWebCaller json × W)
      kept = answer_of json (answered, true) >>= λ answer. some (
        write answered,
        record s { answer = answer },
        (curl.perform (c_string (transition_url s.url name cnt)) none w).1,
      )
