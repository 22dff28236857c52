-- ===== src/Job/Tailer/Print.antt =====
-- src/fileTailer.cxx, `tail`: the lines that were found, printed into the caller's array.
use levbdim.Base.{
  ℕ, ◌+◌, List, [], ◌∷◌, ◌++◌, Option, some, none, ◌>>=◌, if◌then◌else◌, ltb, leb, ◌==◌, Str,
  length, drop,
}
use levbdim.Job.Tailer.{Line, file_tail}

-- The C string at a place of the buffer; without a zero it is read beyond the end.
unfoldable pub c_text : List ℕ → Option Str
c_text [] = none
c_text (c ∷ s) = let rest = c_text s in if c == 0 then some [] else rest >>= λ t. some (c ∷ t)

-- `sprintf` with a text as its format and no arguments: `%%` is a `%`, and any other conversion
-- reads an argument that is not there.
unfoldable pub sprintf_text : Str → Option Str
sprintf_text [] = some []
sprintf_text (c ∷ []) = if c == b'%' then none else some (c ∷ [])
sprintf_text (c ∷ d ∷ s) =
    let skipped = sprintf_text s in
    let next = sprintf_text (d ∷ s) in
    if c == b'%'
    then (if d == b'%' then (skipped >>= λ t. some (b'%' ∷ t)) else none)
    else (next >>= λ t. some (c ∷ t))

-- What stands in the array before `ib`; it is not set until the first text is printed.
abbrev so_far : Option Str → Str
so_far none = []
so_far (some t) = t

-- `nb=sprintf(&buf[ib], p); ib+=nb`, where `room` is the size of the array. A null pointer or an
-- overrun of the array is none.
unfoldable pub print_at : ℕ → List ℕ → Option ℕ → Option Str → Option (Option Str)
unfolding c_text sprintf_text
print_at room buff none printed = none
print_at room buff (some p) printed = c_text (drop p buff) >>= sprintf_text >>= λ t.
    if leb (length (so_far printed) + length t + 1) room
    then some (some (so_far printed ++ t))
    else none

-- The condition of a half of a line, and its printing; for the second half, too, the code prints
-- the first.
abbrev print_if : ℕ → ℕ → List ℕ → Option ℕ → Option ℕ → Option Str → Option (Option Str)
print_if maxbuff room buff none pointer printed = some printed
print_if maxbuff room buff (some p) pointer printed =
    if ltb (length (so_far printed)) maxbuff
    then print_at room buff pointer printed
    else some printed

unfoldable pub print_lines : ℕ → ℕ → List ℕ → List Line → Option Str → Option (Option Str)
unfolding print_at
print_lines maxbuff room buff [] printed = some printed
print_lines maxbuff room buff ((a, b) ∷ ls) printed =
    print_if maxbuff room buff a a printed >>= print_if maxbuff room buff b a >>= λ t.
    print_lines maxbuff room buff ls t

-- `tail`: what it prints into an array of `room` characters; the array may stay unset. A file that
-- cannot be opened is read all the same, through a null pointer. `junk` is what the buffer happens
-- to hold.
unfoldable pub tail : Option Str → ℕ → List ℕ → ℕ → Option (Option Str)
unfolding file_tail print_lines
tail file nlines junk room = file >>= λ text. file_tail text nlines junk (length junk) >>= λ s.
    print_lines (length junk) room s.buff s.lines none
