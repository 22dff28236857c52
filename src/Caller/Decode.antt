-- ===== src/Caller/Decode.antt =====
-- src/fsmwebCaller.cxx, src/wget.cxx: what a reader of the encoded texts gets back.
use levbdim.Base.{
  ℕ, ◌+◌, ◌*◌, ◌-◌, ◌/◌, ◌%◌, ◌<◌, ◌≤◌, ◌≡◌, refl, ap, ◌∙◌, [], ◌∷◌, ◌++◌, Bool, true, false, ◌||◌,
  if◌then◌else◌, leb, ◌==◌, Str, All, Bool-cases, inl, inr, length, length-append, arith,
}
use levbdim.Caller.Encode.{
  rfc3986, html5, hex_digit, percent, encoded, url_encode, wget_url_encode, escaped,
  escape_json_string, is_alnum, c_string,
}

-- A digit of a hexadecimal number, in upper or lower case.
abbrev pub digit_value : ℕ → ℕ
digit_value c = if leb c b'9' then c - b'0' else if leb c b'F' then c - b'A' + 10 else c - b'a' + 10

-- Where a reader stands: between characters, after `%`, or after `%` and a digit.
pub data Place : Type 0 where
  between after_percent : Place
  after_digit : ℕ → Place

-- A reader of an encoded text: `%` and two digits are a character, `+` is the given one.
unfoldable pub url_decode : ℕ → Place → Str → Str
url_decode plus place [] = []
url_decode plus between (c ∷ s) = elim (c == b'%') [
  | true ↦ url_decode plus after_percent s
  | false ↦ (if c == b'+' then plus else c) ∷ url_decode plus between s
]
url_decode plus after_percent (a ∷ s) = url_decode plus (after_digit a) s
url_decode plus (after_digit a) (b ∷ s) =
    (digit_value a * 16 + digit_value b) ∷ url_decode plus between s

digit_value-hex_digit : (d : ℕ) → d < 16 → digit_value (hex_digit d) ≡ d
digit_value-hex_digit d h = ground arith

decode-percent :
    (plus c : ℕ) (s : Str)
    → c < 256
    → url_decode plus between (percent c ++ s) ≡ c ∷ url_decode plus between s
unfolding url_decode
decode-percent plus c s h =
    ap (λ (n : ℕ). n ∷ url_decode plus between s)
      (omega (
        arith,
        digit_value-hex_digit (c / 16) (omega arith),
        digit_value-hex_digit (c % 16) (omega arith),
      ))

-- A character that stands for itself.
decode-plain :
    (plus c : ℕ) (s : Str)
    → (c == b'%') ≡ false
    → url_decode plus between (c ∷ s) ≡ (if c == b'+' then plus else c) ∷ url_decode plus between s
unfolding url_decode
decode-plain plus c s h = rw (h, url_decode) refl

-- A table whose characters a reader takes for what they stand for.
abbrev pub IsReadable : ℕ → (ℕ → ℕ) → Type 0
IsReadable plus table =
    (c : ℕ)
    → (table c == 0) ≡ false
    → ((table c == b'%') ≡ false) × ((if table c == b'+' then plus else table c) ≡ c)

pub rfc3986-IsReadable : IsReadable b'+' rfc3986
unfolding rfc3986
rfc3986-IsReadable c h = (ground arith, ground arith)

pub html5-IsReadable : IsReadable b' ' html5
unfolding html5
html5-IsReadable c h = (ground arith, ground arith)

decode-encoded :
    (plus : ℕ) (table : ℕ → ℕ) (c : ℕ) (s : Str)
    → IsReadable plus table
    → c < 256
    → url_decode plus between (encoded table c ++ s) ≡ c ∷ url_decode plus between s
decode-encoded plus table c s r h = elim (Bool-cases (table c == 0)) [
  | inl hex ↦ rw hex (decode-percent plus c s h)
  | inr plain ↦ rw plain (
      decode-plain plus (table c) s (r c plain).0
      ∙ ap (λ (n : ℕ). n ∷ url_decode plus between s) (r c plain).1)
]

nonzero : (c : ℕ) → 0 < c → (c == 0) ≡ false
nonzero c h = ground arith

-- A string without a zero is the same as a C string.
pub c_string_lem : (s : Str) → All (λ c. 0 < c) s → c_string s ≡ s
unfolding c_string
c_string_lem [] a = refl
c_string_lem (c ∷ s) a = rw (nonzero c a.0, c_string) (ap (λ (t : Str). c ∷ t) (c_string_lem s a.1))

-- Of both tables, read with the character that `+` stands for under each: a reader of an encoded
-- C string gets the string back, up to its zero.
pub decode-url_encode :
    (plus : ℕ) (table : ℕ → ℕ) (s : Str)
    → IsReadable plus table
    → All (λ c. c < 256) s
    → url_decode plus between (url_encode table s) ≡ c_string s
unfolding url_encode url_decode c_string
decode-url_encode plus table [] r a = refl
decode-url_encode plus table (c ∷ s) r a = elim (Bool-cases (c == 0)) [
  | inl end ↦ rw (end, url_encode) refl
  | inr more ↦
      rw (more, url_encode)
        (decode-encoded plus table c (url_encode table s) r a.0
          ∙ ap (λ (t : Str). c ∷ t) (decode-url_encode plus table s r a.1))
]

kept_or_encoded :
    (c : ℕ)
    → 0 < c
    → (if is_alnum c || ((c == b'-') || ((c == b'_') || ((c == b'.') || (c == b'~'))))
        then c ∷ []
        else percent c)
      ≡ encoded rfc3986 c
unfolding rfc3986
kept_or_encoded c h = ground arith

-- The encoding of `wget` is that of the RFC 3986 table, on a string without a zero.
pub wget_url_encode_lem : (s : Str) → All (λ c. 0 < c) s → wget_url_encode s ≡ url_encode rfc3986 s
unfolding wget_url_encode url_encode rfc3986
wget_url_encode_lem [] a = refl
wget_url_encode_lem (c ∷ s) a =
    rw (nonzero c a.0, url_encode)
      (ap (λ (t : Str). t ++ wget_url_encode s) (kept_or_encoded c a.0)
        ∙ ap (◌++◌ (encoded rfc3986 c)) (wget_url_encode_lem s a.1))

-- No character takes more than three.
pub length-url_encode : (table : ℕ → ℕ) (s : Str) → length (url_encode table s) ≤ 3 * length s
unfolding url_encode
length-url_encode table [] = omega arith
length-url_encode table (c ∷ s) =
    ground (arith, length-append (encoded table c) (url_encode table s), length-url_encode table s)

-- A reader of the escapes of JSON in a string; without one after a backslash it stops.
abbrev pub unescaped : ℕ → ℕ
unescaped c =
    if c == b'b'
    then 8
    else if c == b'f'
    then 12
    else if c == b'n'
    then 10
    else if c == b'r'
    then 13
    else if c == b't'
    then 9
    else c

unfoldable pub unescape : Bool → Str → Str
unescape after_backslash [] = []
unescape true (c ∷ s) = unescaped c ∷ unescape false s
unescape false (c ∷ s) = elim (c == 0x5C) [ true ↦ unescape true s | false ↦ c ∷ unescape false s ]

unescape-escaped : (c : ℕ) (s : Str) → unescape false (escaped c ++ s) ≡ c ∷ unescape false s
unfolding unescape
unescape-escaped c s = ground arith

-- A string that `escapeJsonString` escaped is read back as it was.
pub unescape-escape_json_string : (s : Str) → unescape false (escape_json_string s) ≡ s
unfolding unescape escape_json_string
unescape-escape_json_string [] = refl
unescape-escape_json_string (c ∷ s) =
    unescape-escaped c (escape_json_string s)
    ∙ ap (λ (t : Str). c ∷ t) (unescape-escape_json_string s)
