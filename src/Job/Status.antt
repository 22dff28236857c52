-- ===== src/Job/Status.antt =====
-- src/fsmjob.cxx, `trimString` and `processStatus`.
use mathlib.Core.List.{reverse, reverse-append}
use levbdim.Base.{
  ℕ, ◌≡◌, refl, List, [], ◌∷◌, ◌++◌, Option, some, none, ◌>>=◌, if◌then◌else◌, ◌==◌, Str, str_eq,
  codes, take, drop, ◌⊎◌, inl, inr, Bool-cases, ◌∙◌,
}

-- `while(str.at(0) == ' ') str.erase(0, 1)`: `at` throws on an empty string, `none`.
unfoldable pub trim_front : Str → Option Str
trim_front [] = none
trim_front (c ∷ s) = if c == b' ' then trim_front s else some (c ∷ s)

-- `while(str.at(str.size()-1) == ' ') str.erase(str.size()-2, 1)`, on the reversed string: the
-- character before the last is erased, and on one character the position is out of range.
unfoldable pub trim_back : Str → Option Str
trim_back [] = none
trim_back (c ∷ []) = if c == b' ' then none else some (c ∷ [])
trim_back (c ∷ d ∷ s) = let rest = trim_back (c ∷ s) in if c == b' ' then rest else some (c ∷ d ∷ s)

unfoldable pub trim_string : Str → Option Str
unfolding trim_front trim_back
trim_string [] = some []
trim_string (c ∷ s) = trim_front (c ∷ s) >>= λ t. trim_back (reverse t) >>= λ r. some (reverse r)

abbrev pub dead : Str
dead = codes "X (dead)"

unfoldable pub status_of_lines : List Str → Option Str
unfolding trim_string str_eq
status_of_lines [] = some dead
status_of_lines (line ∷ lines) =
    if str_eq (take 6 line) (codes "State:")
    then trim_string (drop 6 line)
    else status_of_lines lines

-- The lines of `/proc/<pid>/status`, or `none` where it cannot be opened.
unfoldable pub process_status : Option (List Str) → Option Str
unfolding status_of_lines
process_status none = some dead
process_status (some lines) = status_of_lines lines

trim_back_space : (s : Str) → trim_back (b' ' ∷ s) ≡ none
unfolding trim_back
trim_back_space [] = refl
trim_back_space (d ∷ s) = trim_back_space s

-- Leading spaces go; what is left still ends as the string did.
trim_front-append :
    (t : Str)
    → (trim_front (t ++ b' ' ∷ []) ≡ none)
      ⊎ ((u : Str) × (trim_front (t ++ b' ' ∷ []) ≡ some (u ++ b' ' ∷ [])))
unfolding trim_front
trim_front-append [] = inl refl
trim_front-append (c ∷ t) = elim (Bool-cases (c == b' ')) [
  | inl space ↦ rw space (trim_front-append t)
  | inr other ↦ inr (c ∷ t, rw other)
]

trim_string_cons :
    (s : Str) (c : ℕ)
    → trim_string (s ++ c ∷ [])
      ≡ (trim_front (s ++ c ∷ []) >>= λ t. trim_back (reverse t) >>= λ r. some (reverse r))
unfolding trim_string
trim_string_cons [] c = refl
trim_string_cons (x ∷ s) c = refl

-- A string that ends in a space is never trimmed: the loop erases the wrong character until the
-- position is out of range, or the string is used up before, and an exception is thrown.
pub trim_string_throws : (s : Str) → trim_string (s ++ b' ' ∷ []) ≡ none
trim_string_throws s = trim_string_cons s b' ' ∙ elim (trim_front-append s) [
  | inl e ↦ rw e
  | inr (u, e) ↦ rw (e, reverse-append u (b' ' ∷ []), trim_back_space (reverse u))
]
