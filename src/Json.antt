-- ===== src/Json.antt =====
-- jsoncpp, the JSON library that the state machine, its web interface and the job control call:
-- an interface of values, with the documented behaviour that the messages rely on.
use levbdim.Base.{ℕ, ◌<◌, ◌^◌, [], ◌∷◌, ◌≡◌, ◌≢◌, Bool, true, List, Str}

pub record JsonLib : Type 1 where
  pub Value : Type 0
  -- `Json::Value()`, and a value after `clear()`.
  pub null : Value
  pub is_null : Value → Bool
  -- Whether a value is null or an object. On any other `operator[]` of a name and `isMember` throw.
  pub has_members : Value → Bool
  -- `v["key"]` as a value, and `v["key"]=x`.
  pub get : Str → Value → Value
  pub set : Str → Value → Value → Value
  pub is_member : Str → Value → Bool
  -- `Value(std::string)`, `asString()`; `asUInt()`.
  pub of_string : Str → Value
  pub as_string : Value → Str
  -- `Value(int32_t)` of a number as a 32-bit pattern.
  pub of_int : ℕ → Value
  pub as_uint : Value → ℕ
  -- `Value(uint32_t)`; `asInt()`, as a 32-bit pattern.
  pub of_uint : ℕ → Value
  pub as_int : Value → ℕ
  pub append : Value → Value → Value
  -- The elements that an iteration from `begin()` to `end()` meets; `getMemberNames()`.
  pub items : Value → List Value
  pub member_names : Value → List Str
  -- `FastWriter::write`; what `Reader::parse` leaves in a cleared root, and whether it succeeds.
  pub write : Value → Str
  pub parse : Str → Value × Bool

module _ (json : JsonLib) where
  open json use {
    Value, null, has_members, get, set, of_string, as_string, of_int, as_uint, of_uint, as_int,
    append, items, write, parse,
  }

  -- A value to which the elements of a list are appended in turn.
  abbrev pub appended : Value → List Value → Value
  appended v [] = v
  appended v (x ∷ xs) = appended (append v x) xs

  pub record Laws : Type 0 where
    -- `set` on a value that has members leaves one that has members; null is such a value.
    pub has_members-null : has_members null ≡ true
    pub has_members-set :
        {k : Str} {x v : Value} → has_members v ≡ true → has_members (set k x v) ≡ true
    pub get-set_self : (k : Str) (x v : Value) → has_members v ≡ true → get k (set k x v) ≡ x
    pub get-set_other :
        (k j : Str) (x v : Value) → has_members v ≡ true → j ≢ k → get j (set k x v) ≡ get j v
    pub as_string-of_string : (s : Str) → as_string (of_string s) ≡ s
    pub parse-write : (v : Value) → parse (write v) ≡ (v, true)
    pub as_uint-of_int : (n : ℕ) → n < 2 ^ 31 → as_uint (of_int n) ≡ n
    pub as_uint-of_uint : (n : ℕ) → n < 2 ^ 32 → as_uint (of_uint n) ≡ n
    pub as_int-of_int : (n : ℕ) → n < 2 ^ 32 → as_int (of_int n) ≡ n
    -- Values appended to a null value are an array of them.
    pub items-appended : (xs : List Value) → items (appended null xs) ≡ xs
