-- ===== src/Caller/Fetched.antt =====
-- src/wget.cxx, src/fsmwebCaller.cxx: `wget` gets what the query of the client gets.
use levbdim.Base.{
  ℕ, ◌+◌, ◌≤◌, ◌≡◌, refl, ap, sym, ◌∙◌, List, [], ◌∷◌, ◌++◌, Option, some, none, Bool-cases, inl,
  inr, if◌then◌else◌, ltb, Str, length, length-append, take, drop, arith,
}
use mathlib.Core.List.{append_assoc}
use levbdim.Caller.Encode.{c_string}
use levbdim.Caller.Client.{Curl, write_parts, write_callback, curl_query}
use levbdim.Caller.Wget.{
  Realloc, CurlBuffer, empty, capacity, curl_callback, callbacks, copied, transfer, load_page, wget,
}

-- Memory is given whenever it is asked for; a block that grows begins as before.
pub record HasMemory (realloc : Realloc) : Type 0 where
  pub fresh : (n : ℕ) → (new : Str) × (realloc n none ≡ some new)
  pub grown :
      (n : ℕ) (old : Str)
      → length old ≤ n
      → (new : Str) × (realloc n (some old) ≡ some new) × (take (length old) new ≡ old)

prefix : (s t new : Str) → take (length (s ++ t)) new ≡ s ++ t → take (length s) new ≡ s
prefix [] t new e = refl
prefix (x ∷ s) t [] e = cc e
prefix (x ∷ s) t (y ∷ new) e = cc (e, prefix s t new (ap (drop 1) e))

-- The zero behind a text is where it is read up to.
c_string-zero : (s : Str) → c_string (s ++ 0 ∷ []) ≡ c_string s
unfolding c_string
c_string-zero [] = refl
c_string-zero (c ∷ s) = ground (arith, c_string-zero s)

abbrev holds : Str → CurlBuffer
holds s = record { buffer = some (s ++ 0 ∷ []); size = length s }

-- What `wget` makes of the parts, given the text that they are, up to its zero.
abbrev pub fetched : List Str → Str → Option Str
fetched [] text = none
fetched (part ∷ parts) text = if ltb (length text) capacity then some text else none

module _ (realloc : Realloc) (memory : HasMemory realloc) where
  callback-holds : (part s : Str) → curl_callback realloc part (holds s) ≡ holds (s ++ part)
  unfolding curl_callback
  callback-holds part s =
      let (new, given, same) =
        memory.grown (length s + length part + 1) (s ++ 0 ∷ [])
          (omega (arith, length-append s (0 ∷ []))) in
      rw (given, curl_callback)
        (λ i. record {
          buffer = some (
              ((ap (λ t. t ++ (part ++ 0 ∷ [])) (prefix s (0 ∷ []) new same))
                  ∙ sym (append_assoc s part (0 ∷ [])))
                i);
          size = sym (length-append s part) i;
        })

  callbacks-holds :
      (parts : List Str) (s : Str) → callbacks realloc parts (holds s) ≡ holds (write_parts parts s)
  unfolding write_callback
  callbacks-holds [] s = refl
  callbacks-holds (part ∷ parts) s =
      ap (callbacks realloc parts) (callback-holds part s) ∙ callbacks-holds parts (s ++ part)

  callback-empty : (part : Str) → curl_callback realloc part empty ≡ holds part
  unfolding curl_callback
  callback-empty part =
      let (new, given) = memory.fresh (0 + length part + 1) in
      let same : 0 + length part ≡ length part = omega arith in
      rw (given, curl_callback) (λ i. record { buffer = some (part ++ 0 ∷ []); size = same i })

  copied-fetched :
      (parts : List Str)
      → copied (callbacks realloc parts empty).buffer
        ≡ fetched parts (c_string (write_parts parts []))
  unfolding write_callback
  copied-fetched [] = refl
  copied-fetched (part ∷ parts) =
      ap (λ m. copied (callbacks realloc parts m).buffer) (callback-empty part)
      ∙ ap (λ (m : CurlBuffer). copied m.buffer) (callbacks-holds parts part)
      ∙ ap (λ t. if ltb (length t) capacity then some t else none)
          (c_string-zero (write_parts parts part))

  -- Where memory is given, `wget` is the query of the web client without a login, cut at the first
  -- zero of the answer: the text comes back if a part of it arrived and it has fewer than 500000
  -- characters. Otherwise what `wget` does is undefined: it reads through a null pointer, or writes
  -- beyond the array.
  pub wget-curl_query :
      {W : Type 0} (curl : Curl W) (url : Str) (w : W)
      → wget realloc curl url w ≡ (
        fetched (transfer curl url w).0 (c_string (curl_query curl url [] w).0),
        (curl_query curl url [] w).1,
      )
  unfolding wget load_page curl_query c_string
  wget-curl_query curl url w = elim (Bool-cases (curl.has_handle w)) [
    | inr no_handle ↦ rw no_handle refl
    | inl handle ↦ rw handle (
        ap (λ o. (o, (curl.perform (c_string url) none w).1))
          (copied-fetched (curl.perform (c_string url) none w).0))
  ]
