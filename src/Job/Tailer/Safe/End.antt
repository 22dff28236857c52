-- ===== src/Job/Tailer/Safe/End.antt =====
-- src/fileTailer.cxx: the end of the input, and the two functions as a whole.
use levbdim.Base.{
  ℕ, zero, suc, ◌-◌, ◌<◌, ◌≤◌, ◌≡◌, ◌⊎◌, refl, ap, ◌∙◌, inl, inr, List, Option, some, Bool, true,
  false, not, ◌>>=◌, if◌then◌else◌, ◌==◌, Str, length, All, Bool-cases, arith,
}
use levbdim.Job.Tailer.{
  Tailer, put, get, set_last, test_for_room, oldest, read_file, read_stdin, null_lines, new_tailer,
  is_open, end_line, end_file, file_tail, find_tail,
}
use levbdim.Job.Tailer.Safe.{
  Succeeds, Succeeds-then, put-Succeeds, get-Succeeds, IsLine, AreLines, set_last-Succeeds,
  IsInside, test_for_room-Succeeds,
}
use levbdim.Job.Tailer.Safe.Loop.{Ended, read_file-Succeeds, read_stdin-Succeeds}

module _ (size n : ℕ) (some_line : 0 < n) where
  module _ (two : 2 ≤ size) where
    is_open-Succeeds :
        (s : Tailer)
        → IsInside size n s
        → Succeeds (λ unfinished. (unfinished ≡ true) → 0 < s.nfound) (is_open s)
    unfolding is_open
    is_open-Succeeds s i = elim (Bool-cases (s.buffp == 0)) [
      | inl start ↦ rw (start, is_open) (false, refl, λ e. absurd (ground (arith, e)))
      | inr more ↦
          rw (more, is_open)
            (Succeeds-then (get (s.buffp - 1) s.buff) (λ c. some (not (c == 0)))
              (get-Succeeds (s.buffp - 1) s.buff (omega (arith, i.whole, i.next)))
              (λ c u. (not (c == 0), refl, λ e. begun i.begun more)))
    ]
      where
        begun :
            (0 < s.nfound) ⊎ ((s.buffp ≡ 0) × (s.linestart ≡ 0) × (s.wrap ≡ false))
            → (s.buffp == 0) ≡ false
            → 0 < s.nfound
        begun (inl h) more = h
        begun (inr (a, b, c)) more = ground (arith, a, more)

    end_line-Succeeds : (s : Tailer) → IsInside size n s → Succeeds (IsInside size n) (end_line s)
    unfolding end_line
    end_line-Succeeds s i =
        Succeeds-then (put s.buffp 0 s.buff) _
          (put-Succeeds s.buffp 0 s.buff (omega (arith, i.whole, i.next)))
          (λ buff e.
            Succeeds-then (set_last s.wrap s.linestart s.lines) _
              (set_last-Succeeds size s.wrap s.linestart n s.lines some_line i.start i.pointers)
              (λ lines a. (
                _,
                refl,
                record {
                  whole = e ∙ i.whole;
                  pointers = a;
                  next = i.next;
                  start = i.start;
                  few = i.few;
                  begun = i.begun;
                },
              )))

    -- The test for room of an unfinished line, whatever it gives.
    tested :
        (s : Tailer) (f : Bool → Option Tailer)
        → IsInside size n s
        → 0 < s.nfound
        → ((room : Bool) → Succeeds (IsInside size n) (f room))
        → Succeeds (IsInside size n) (test_for_room s.lines (oldest s) s.buffp >>= f)
    tested s f i h each =
        Succeeds-then (test_for_room s.lines (oldest s) s.buffp) f
          (test_for_room-Succeeds size n some_line s (i, h)) (λ room u. each room)

    last_line :
        (s : Tailer) (f : Bool → Option Tailer)
        → IsInside size n s
        → ((room : Bool) → Succeeds (IsInside size n) (f room))
        → Succeeds (IsInside size n) (
            is_open s >>= λ unfinished.
            if unfinished then (test_for_room s.lines (oldest s) s.buffp >>= f) else some s)
    last_line s f i each =
        Succeeds-then (is_open s) _ (is_open-Succeeds s i) (λ unfinished e. on unfinished e)
      where
        on :
            (unfinished : Bool)
            → (unfinished ≡ true → 0 < s.nfound)
            → Succeeds
                (IsInside size n)
                (if unfinished then (test_for_room s.lines (oldest s) s.buffp >>= f) else some s)
        on true e = tested s f i (e refl) each
        on false e = (s, refl, i)

    end_file-Succeeds :
        (r : Tailer × Bool) → Ended size n some_line r → Succeeds (IsInside size n) (end_file r)
    unfolding end_file
    end_file-Succeeds (s, false) i = (s, refl, i)
    end_file-Succeeds (s, true) i =
        last_line s (λ room. end_line s) i (λ room. end_line-Succeeds s i)

length-null_lines : (size n : ℕ) → AreLines size n (null_lines n)
length-null_lines size zero = (refl, tt)
length-null_lines size (suc n) = let (e, a) = length-null_lines size n in (ap suc e, ((tt, tt), a))

new_tailer-IsInside :
    (size n : ℕ) (buff : List ℕ)
    → 2 ≤ size
    → length buff ≡ size
    → IsInside size n (new_tailer n buff)
new_tailer-IsInside size n buff two whole = record {
  whole = whole;
  pointers = length-null_lines size n;
  next = omega (arith, two);
  start = omega (arith, two);
  few = omega arith;
  begun = inr (refl, refl, refl);
}

-- Of a file of any length and content, for at least one line and a buffer of at least two
-- characters: `fileTail` ends, with every access to the buffer and to the lines in range, and each
-- line that it found begins in the buffer, and so does its second part.
pub file_tail-IsSafe :
    (file : Str) (nlines : ℕ) (buff : List ℕ)
    → 0 < nlines
    → 2 ≤ length buff
    → (s : Tailer) × (file_tail file nlines buff (length buff) ≡ some s)
      × (length s.buff ≡ length buff)
      × (length s.lines ≡ nlines)
      × All (IsLine (length buff)) s.lines
unfolding file_tail
file_tail-IsSafe file nlines buff some_line two =
    let size = length buff in
    let (s, e, i) =
      Succeeds-then (read_file size file (new_tailer nlines buff)) end_file
        (read_file-Succeeds size nlines some_line two file (new_tailer nlines buff)
          (new_tailer-IsInside size nlines buff two refl))
        (λ r i. end_file-Succeeds size nlines some_line two r i) in
    (s, e, i.whole, i.pointers.0, i.pointers.1)

-- The same of `findTail`, which does not stop where there is no room.
pub find_tail-IsSafe :
    (input : Str) (nlines : ℕ) (buff : List ℕ)
    → 0 < nlines
    → 2 ≤ length buff
    → (s : Tailer) × (find_tail input nlines buff (length buff) ≡ some s)
      × (length s.buff ≡ length buff)
      × (length s.lines ≡ nlines)
      × All (IsLine (length buff)) s.lines
unfolding find_tail
find_tail-IsSafe input nlines buff some_line two =
    let size = length buff in
    let (s, e, i) =
      Succeeds-then (read_stdin size input (new_tailer nlines buff)) _
        (read_stdin-Succeeds size nlines some_line two input (new_tailer nlines buff)
          (new_tailer-IsInside size nlines buff two refl))
        (λ s i.
          last_line size nlines some_line two s (λ room. if room then end_line s else some s) i
            (λ room. on s i room)) in
    (s, e, i.whole, i.pointers.0, i.pointers.1)
  where
    on :
        (s : Tailer)
        → IsInside (length buff) nlines s
        → (room : Bool)
        → Succeeds (IsInside (length buff) nlines) (if room then end_line s else some s)
    on s i true = end_line-Succeeds (length buff) nlines some_line two s i
    on s i false = (s, refl, i)
