-- ===== src/Caller/Encode.antt =====
-- src/fsmwebCaller.cxx, `url_encoder_rfc_tables_init`, `url_encode`, `escapeJsonString`, and
-- src/wget.cxx, `url_encode`. Characters are bytes; `isalnum` is that of the C locale.
use levbdim.Base.{
  ℕ, ◌+◌, ◌-◌, ◌/◌, ◌%◌, [], ◌∷◌, ◌++◌, Bool, ◌&&◌, ◌||◌, if◌then◌else◌, ltb, leb, ◌==◌, Str,
}

abbrev pub is_alnum : ℕ → Bool
is_alnum c =
    (leb b'0' c && leb c b'9') || ((leb b'A' c && leb c b'Z') || (leb b'a' c && leb c b'z'))

-- The two tables: what a character is written as, or 0 where it is written in hexadecimal.
unfoldable pub rfc3986 : ℕ → ℕ
rfc3986 i =
    if is_alnum i || ((i == b'~') || ((i == b'-') || ((i == b'.') || (i == b'_')))) then i else 0

unfoldable pub html5 : ℕ → ℕ
html5 i =
    if is_alnum i || ((i == b'*') || ((i == b'-') || ((i == b'.') || (i == b'_'))))
    then i
    else if i == b' '
    then b'+'
    else 0

-- A digit of `%X`.
abbrev pub hex_digit : ℕ → ℕ
hex_digit d = if ltb d 10 then b'0' + d else b'A' + (d - 10)

-- `%%%02X` of a character.
abbrev pub percent : ℕ → Str
percent c = b'%' ∷ hex_digit (c / 16) ∷ hex_digit (c % 16) ∷ []

abbrev pub encoded : (ℕ → ℕ) → ℕ → Str
encoded table c = if table c == 0 then percent c else table c ∷ []

-- The characters of a `char*` up to its zero.
unfoldable pub c_string : Str → Str
c_string [] = []
c_string (c ∷ s) = if c == 0 then [] else c ∷ c_string s

-- What `url_encode` writes, without the zero at its end; it stops at the zero of its input.
unfoldable pub url_encode : (ℕ → ℕ) → Str → Str
url_encode table [] = []
url_encode table (c ∷ s) =
    let rest = url_encode table s in if c == 0 then [] else encoded table c ++ rest

-- The `url_encode` of `wget`, over a whole `std::string`.
unfoldable pub wget_url_encode : Str → Str
wget_url_encode [] = []
wget_url_encode (c ∷ s) =
    (if is_alnum c || ((c == b'-') || ((c == b'_') || ((c == b'.') || (c == b'~'))))
      then c ∷ []
      else percent c)
    ++ wget_url_encode s

abbrev pub escaped : ℕ → Str
escaped c =
    if c == 0x5C
    then 0x5C ∷ 0x5C ∷ []
    else if c == 0x22
    then 0x5C ∷ 0x22 ∷ []
    else if c == b'/'
    then 0x5C ∷ b'/' ∷ []
    else if c == 8
    then 0x5C ∷ b'b' ∷ []
    else if c == 12
    then 0x5C ∷ b'f' ∷ []
    else if c == 10
    then 0x5C ∷ b'n' ∷ []
    else if c == 13
    then 0x5C ∷ b'r' ∷ []
    else if c == 9
    then 0x5C ∷ b't' ∷ []
    else c ∷ []

unfoldable pub escape_json_string : Str → Str
escape_json_string [] = []
escape_json_string (c ∷ s) = escaped c ++ escape_json_string s
