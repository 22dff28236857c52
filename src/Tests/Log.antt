-- ===== src/Tests/Log.antt =====
-- The tail of a log file.
use levbdim.Base.{ℕ, ◌≡◌, refl, [], ◌∷◌, List, some, none, Str, codes, length, All, arith}
use levbdim.Job.Tailer.{Tailer, file_tail}
use levbdim.Job.Tailer.Safe.{IsLine}
use levbdim.Job.Tailer.Safe.End.{file_tail-IsSafe}
use levbdim.Job.Tailer.Print.{tail}

-- Three short lines.
abbrev log : Str
log = b'a' ∷ 10 ∷ b'b' ∷ 10 ∷ b'c' ∷ 10 ∷ []

abbrev junk : List ℕ
junk = 7 ∷ 7 ∷ 7 ∷ 7 ∷ 7 ∷ 7 ∷ 7 ∷ 7 ∷ 7 ∷ 7 ∷ []

file_tail-IsSafe_example :
    (s : Tailer) × (file_tail log 2 junk 10 ≡ some s)
    × (length s.buff ≡ 10)
    × (length s.lines ≡ 2)
    × All (IsLine 10) s.lines
file_tail-IsSafe_example = file_tail-IsSafe log 2 junk (omega arith) (omega arith)

tails : tail (some log) 2 junk 20 ≡ some (some (b'b' ∷ 10 ∷ b'c' ∷ 10 ∷ []))
unfolding tail
tails = refl

-- A `%` in the log is read as a conversion.
percent_in_log : tail (some (codes "50% done")) 2 junk 20 ≡ none
unfolding tail
percent_in_log = refl
