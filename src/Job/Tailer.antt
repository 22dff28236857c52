-- ===== src/Job/Tailer.antt =====
-- src/fileTailer.cxx, include/fileTailer.hh: the last lines of a log file, in a buffer of fixed
-- size. A pointer into the buffer is an index, or none where it is null; an access out of range
-- is none.
pub mod Safe
pub mod Print
use levbdim.Base.{
  ℕ, zero, suc, ◌+◌, ◌-◌, List, [], ◌∷◌, ◌++◌, Option, some, none, Bool, true, false, not, ◌&&◌,
  ◌||◌, ◌>>=◌, if◌then◌else◌, ltb, leb, ◌==◌, Str, length,
}

abbrev pub Line : Type 0
Line = Option ℕ × Option ℕ

-- The variables of `fileTail`.
pub record Tailer : Type 0 where
  pub buff : List ℕ
  pub lines : List Line
  pub buffp : ℕ
  pub linestart : ℕ
  pub wrap : Bool
  pub nfound : ℕ

-- `xs[i] = c` and `xs[i]`.
unfoldable pub put : ℕ → ℕ → List ℕ → Option (List ℕ)
put i c [] = none
put zero c (x ∷ xs) = some (c ∷ xs)
put (suc i) c (x ∷ xs) = put i c xs >>= λ ys. some (x ∷ ys)

unfoldable pub get {ℓ} : {A : Type ℓ} → ℕ → List A → Option A
get i [] = none
get zero (x ∷ xs) = some x
get (suc i) (x ∷ xs) = get i xs

-- Without a line, `shift` writes to `lines[-1]`.
unfoldable pub shift : List Line → Option (List Line)
shift [] = none
shift (l ∷ ls) = some (ls ++ (none, none) ∷ [])

abbrev set_half : Bool → ℕ → Line → Line
set_half false p (a, b) = (some p, b)
set_half true p (a, b) = (a, some p)

-- `lines[nlines - 1][half] = p`
unfoldable pub set_last : Bool → ℕ → List Line → Option (List Line)
set_last half p [] = none
set_last half p (l ∷ []) = some (set_half half p l ∷ [])
set_last half p (l ∷ m ∷ ls) = set_last half p (m ∷ ls) >>= λ rest. some (l ∷ rest)

abbrev is_next : ℕ → Line → Bool
is_next buffp (none, b) = false
is_next buffp (some p, b) = (buffp == p) || (buffp + 1 == p)

-- `testForRoom`
unfoldable pub test_for_room : List Line → ℕ → ℕ → Option Bool
unfolding get
test_for_room lines index buffp = get index lines >>= λ l. some (not (is_next buffp l))

-- The index of the oldest line that was found.
abbrev pub oldest : Tailer → ℕ
oldest s = length s.lines - s.nfound

-- The first character of a line.
unfoldable pub begin_line : Tailer → Option Tailer
unfolding shift
begin_line s =
    if (s.buffp == s.linestart) && not s.wrap
    then (shift s.lines >>= λ lines. some (record s {
      lines = lines;
      nfound = if ltb s.nfound (length s.lines) then s.nfound + 1 else s.nfound;
    }))
    else some s

-- The end of the buffer: the rest of the line goes to its start.
unfoldable pub wrap_line : ℕ → Tailer → Option Tailer
unfolding put set_last
wrap_line maxbuff s =
    if s.buffp + 1 == maxbuff
    then (put s.buffp 0 s.buff >>= λ buff. set_last false s.linestart s.lines >>= λ lines.
        some (record s { buff = buff; lines = lines; wrap = true; linestart = 0; buffp = 0 }))
    else some s

abbrev after_line : ℕ → ℕ → ℕ
after_line maxbuff p = if leb maxbuff (p + 1) then 0 else p

unfoldable pub store_char : ℕ → ℕ → Tailer → Option Tailer
unfolding put set_last
store_char maxbuff c s = put s.buffp c s.buff >>= λ buff.
    if c == 10
    then (put (s.buffp + 1) 0 buff >>= λ buff'. set_last s.wrap s.linestart s.lines >>= λ lines.
        some (record s {
          buff = buff';
          lines = lines;
          wrap = false;
          buffp = after_line maxbuff (s.buffp + 2);
          linestart = after_line maxbuff (s.buffp + 2);
        }))
    else some (record s { buff = buff; buffp = s.buffp + 1 })

-- The loop of `fileTail`, and whether it came to the end of the file.
unfoldable pub read_file : ℕ → Str → Tailer → Option (Tailer × Bool)
unfolding begin_line wrap_line test_for_room store_char
read_file maxbuff [] s = some (s, true)
read_file maxbuff (c ∷ cs) s = begin_line s >>= wrap_line maxbuff >>= λ s'.
    test_for_room s'.lines (oldest s') s'.buffp >>= λ room. elim room [
      | true ↦ store_char maxbuff c s' >>= read_file maxbuff cs
      | false ↦ some (s', false)
    ]

-- The loop of `findTail`, which goes on without room.
unfoldable pub read_stdin : ℕ → Str → Tailer → Option Tailer
unfolding begin_line wrap_line test_for_room store_char
read_stdin maxbuff [] s = some s
read_stdin maxbuff (c ∷ cs) s = begin_line s >>= wrap_line maxbuff >>= λ s'.
    test_for_room s'.lines (oldest s') s'.buffp >>= λ room.
    store_char maxbuff c s' >>= read_stdin maxbuff cs

abbrev null_lines : ℕ → List Line
null_lines zero = []
null_lines (suc n) = (none, none) ∷ null_lines n

abbrev pub new_tailer : ℕ → List ℕ → Tailer
new_tailer nlines buff = record {
  buff = buff;
  lines = null_lines nlines;
  buffp = 0;
  linestart = 0;
  wrap = false;
  nfound = 0;
}

-- The input ended, perhaps without a newline: whether a last line is open.
unfoldable pub is_open : Tailer → Option Bool
unfolding get
is_open s =
    if s.buffp == 0 then some false else get (s.buffp - 1) s.buff >>= λ c. some (not (c == 0))

unfoldable pub end_line : Tailer → Option Tailer
unfolding put set_last
end_line s = put s.buffp 0 s.buff >>= λ buff.
    set_last s.wrap s.linestart s.lines >>= λ lines. some (record s { buff = buff; lines = lines })

-- After the loop of `fileTail`, the test for room is made, and not heeded.
unfoldable pub end_file : Tailer × Bool → Option Tailer
unfolding is_open test_for_room end_line
end_file (s, false) = some s
end_file (s, true) = is_open s >>= λ unfinished.
    if unfinished then (test_for_room s.lines (oldest s) s.buffp >>= λ room. end_line s) else some s

unfoldable pub file_tail : Str → ℕ → List ℕ → ℕ → Option Tailer
unfolding read_file end_file
file_tail file nlines buff maxbuff = read_file maxbuff file (new_tailer nlines buff) >>= end_file

unfoldable pub find_tail : Str → ℕ → List ℕ → ℕ → Option Tailer
unfolding read_stdin is_open test_for_room end_line
find_tail input nlines buff maxbuff = read_stdin maxbuff input (new_tailer nlines buff) >>= λ s.
    is_open s >>= λ unfinished.
    if unfinished
    then (test_for_room s.lines (oldest s) s.buffp >>= λ room. if room then end_line s else some s)
    else some s
