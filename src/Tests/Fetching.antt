-- ===== src/Tests/Fetching.antt =====
-- A page that comes in two parts.
use levbdim.Base.{ℕ, ◌≡◌, ◌+◌, ◌++◌, refl, ap, [], ◌∷◌, some, none, true, Str, codes, length, take}
use levbdim.Caller.Encode.{c_string}
use levbdim.Caller.Client.{Curl, curl_query}
use levbdim.Caller.Wget.{Realloc, transfer, wget}
use levbdim.Caller.Fetched.{HasMemory, fetched, wget-curl_query}
use levbdim.Tests.Systems.{zeros}

-- A heap that always has memory.
abbrev realloc : Realloc
realloc n none = some (zeros n)
realloc n (some old) = some (old ++ zeros n)

take-append_all : (s t : Str) → take (length s) (s ++ t) ≡ s
take-append_all [] t = refl
take-append_all (c ∷ s) t = ap (λ r. c ∷ r) (take-append_all s t)

memory : HasMemory realloc
memory = record {
  fresh = λ n. (zeros n, refl);
  grown = λ n old fits. (old ++ zeros n, refl, take-append_all old (zeros n));
}

abbrev curl : Curl ℕ
curl = record {
  has_handle = λ w. true;
  perform = λ url login w. (codes "{\"a\":" ∷ codes "1}" ∷ [], w + 1);
}

wget-curl_query_example : wget realloc curl (codes "http://a/b") 0 ≡ (
  fetched
      (transfer curl (codes "http://a/b") 0).0
      (c_string (curl_query curl (codes "http://a/b") [] 0).0),
  (curl_query curl (codes "http://a/b") [] 0).1,
)
wget-curl_query_example = wget-curl_query realloc memory curl (codes "http://a/b") 0
