-- ===== src/Caller/Wget.antt =====
-- src/wget.cxx: a transfer into an array of fixed size.
use levbdim.Base.{
  ℕ, ◌+◌, List, [], ◌∷◌, ◌++◌, Option, some, none, if◌then◌else◌, ltb, Str, length, take,
}
use levbdim.Caller.Encode.{c_string}
use levbdim.Caller.Client.{Curl}

-- `realloc`, of a size and a block that may be null; `none` is null.
abbrev pub Realloc : Type 0
Realloc = ℕ → Option Str → Option Str

-- `CurlBufferStruct`
pub record CurlBuffer : Type 0 where
  pub buffer : Option Str
  pub size : ℕ

abbrev pub empty : CurlBuffer
empty = record { buffer = none; size = 0 }

-- `char RC[500000]`
abbrev pub capacity : ℕ
capacity = 500000

-- `strcpy` into the array: from a null pointer, or beyond the end, it is undefined.
abbrev pub copied : Option Str → Option Str
copied none = none
copied (some block) = if ltb (length (c_string block)) capacity then some (c_string block) else none

module _ {W : Type 0} (curl : Curl W) where
  -- The parts of the transfer: without a handle there are none.
  abbrev pub transfer : Str → W → List Str × W
  transfer url w = if curl.has_handle w then curl.perform (c_string url) none w else ([], w)

module _ (realloc : Realloc) where
  -- `CurlCallback`: the part goes behind what is there, and a zero behind it.
  unfoldable pub curl_callback : Str → CurlBuffer → CurlBuffer
  curl_callback part m = elim (realloc (m.size + length part + 1) m.buffer) [
    | none ↦ record m { buffer = none }
    | some block ↦ record {
      buffer = some (take m.size block ++ (part ++ 0 ∷ []));
      size = m.size + length part;
    }
  ]

  abbrev pub callbacks : List Str → CurlBuffer → CurlBuffer
  callbacks [] m = m
  callbacks (part ∷ parts) m = callbacks parts (curl_callback part m)

  module _ {W : Type 0} (curl : Curl W) where
    -- `CurlQuery`; what the transfer returns only goes into a size that is not read any more.
    unfoldable pub load_page : Str → W → Option Str × W
    unfolding curl_callback c_string
    load_page url w =
        let (parts, w') = transfer curl url w in (copied (callbacks parts empty).buffer, w')

    -- `wget`: the array as a text.
    unfoldable pub wget : Str → W → Option Str × W
    unfolding load_page
    wget url w = load_page url w
