-- ===== src/Job/Tailer/Safe.antt =====
-- src/fileTailer.cxx: every access to the buffer and to the lines is in range.
pub mod Loop
pub mod End
use levbdim.Base.{
  ℕ, zero, suc, ◌+◌, ◌-◌, ◌<◌, ◌≤◌, ◌≡◌, ◌⊎◌, refl, sym, ap, ◌∙◌, inl, inr, List, [], ◌∷◌, ◌++◌,
  Option, some, none, Bool, true, false, not, ◌&&◌, ◌>>=◌, if◌then◌else◌, ltb, leb, ◌==◌, Str,
  length, length-append, All, All-append, Bool-cases, Option-cases, arith,
}
use levbdim.Job.Tailer.{
  Line, Tailer, put, get, shift, set_half, set_last, is_next, test_for_room, oldest, begin_line,
  wrap_line, after_line, store_char, read_file, read_stdin, null_lines, new_tailer, is_open,
  end_line, end_file, file_tail, find_tail,
}

-- A result that is there, with a property.
abbrev pub Succeeds {ℓ} : {A : Type ℓ} → (A → Type 0) → Option A → Type ℓ
Succeeds P o = (a : _) × (o ≡ some a) × P a

Succeeds-then {ℓ κ} :
    {A : Type ℓ} {B : Type κ} {P : A → Type 0} {Q : B → Type 0} (o : Option A) (f : A → Option B)
    → Succeeds P o
    → ((a : A) → P a → Succeeds Q (f a))
    → Succeeds Q (o >>= f)
Succeeds-then o f (a, e, p) next = let (b, e', q) = next a p in (b, ap (λ m. m >>= f) e ∙ e', q)

put-Succeeds :
    (i c : ℕ) (xs : List ℕ) → i < length xs → Succeeds (λ ys. length ys ≡ length xs) (put i c xs)
unfolding put
put-Succeeds i c [] h = absurd (omega arith)
put-Succeeds zero c (x ∷ xs) h = (c ∷ xs, refl, refl)
put-Succeeds (suc i) c (x ∷ xs) h =
    Succeeds-then (put i c xs) (λ ys. some (x ∷ ys)) (put-Succeeds i c xs (omega arith))
      (λ ys e. (x ∷ ys, refl, ap suc e))

get-Succeeds : {A : Type 0} (i : ℕ) (xs : List A) → i < length xs → Succeeds (λ x. Unit) (get i xs)
unfolding get
get-Succeeds i [] h = absurd (omega arith)
get-Succeeds zero (x ∷ xs) h = (x, refl, tt)
get-Succeeds (suc i) (x ∷ xs) h = get-Succeeds i xs (omega arith)

-- A pointer that is null or into the buffer.
abbrev pub InBuffer : ℕ → Option ℕ → Type 0
InBuffer size none = Unit
InBuffer size (some p) = p < size

abbrev pub IsLine : ℕ → Line → Type 0
IsLine size l = InBuffer size l.0 × InBuffer size l.1

abbrev AreLines : ℕ → ℕ → List Line → Type 0
AreLines size n ls = (length ls ≡ n) × All (IsLine size) ls

shift-Succeeds :
    (size n : ℕ) (ls : List Line)
    → 0 < n
    → AreLines size n ls
    → Succeeds (AreLines size n) (shift ls)
unfolding shift
shift-Succeeds size n [] h a = absurd (omega (arith, a.0))
shift-Succeeds size n (l ∷ ls) h a = (
  ls ++ (none, none) ∷ [],
  refl,
  (
    omega (arith, a.0, length-append ls ((none, none) ∷ [])),
    All-append (IsLine size) ls ((none, none) ∷ []) a.1.1 ((tt, tt), tt),
  ),
)

set_half-IsLine :
    (size : ℕ) (half : Bool) (p : ℕ) (l : Line)
    → p < size
    → IsLine size l
    → IsLine size (set_half half p l)
set_half-IsLine size true p (a, b) h i = (i.0, h)
set_half-IsLine size false p (a, b) h i = (h, i.1)

set_last-Succeeds :
    (size : ℕ) (half : Bool) (p n : ℕ) (ls : List Line)
    → 0 < n
    → p < size
    → AreLines size n ls
    → Succeeds (AreLines size n) (set_last half p ls)
unfolding set_last
set_last-Succeeds size half p n [] h i a = absurd (omega (arith, a.0))
set_last-Succeeds size half p n (l ∷ []) h i a =
    (set_half half p l ∷ [], refl, (a.0, (set_half-IsLine size half p l i a.1.0, tt)))
set_last-Succeeds size half p n (l ∷ m ∷ ls) h i a =
    Succeeds-then (set_last half p (m ∷ ls)) (λ rest. some (l ∷ rest))
      (set_last-Succeeds size half p (length (m ∷ ls)) (m ∷ ls) (omega arith) i (refl, a.1.1))
      (λ rest r. (l ∷ rest, refl, (omega (arith, r.0, a.0), (a.1.0, r.1))))

-- Between two characters: the buffer and the lines have their sizes, the next character has room
-- up to the last place, every pointer is into the buffer, and a line is begun unless none was
-- read.
pub record IsInside (size n : ℕ) (s : Tailer) : Type 0 where
  pub whole : length s.buff ≡ size
  pub pointers : AreLines size n s.lines
  pub next : s.buffp + 1 ≤ size
  pub start : s.linestart < size
  pub few : s.nfound ≤ n
  pub begun : (0 < s.nfound) ⊎ ((s.buffp ≡ 0) × (s.linestart ≡ 0) × (s.wrap ≡ false))

-- A line is begun.
abbrev IsBegun : ℕ → ℕ → Tailer → Type 0
IsBegun size n s = IsInside size n s × (0 < s.nfound)

-- There is room for the character and one more.
abbrev HasRoom : ℕ → ℕ → Tailer → Type 0
HasRoom size n s = IsInside size n s × (0 < s.nfound) × (s.buffp + 2 ≤ size)

module _ (size n : ℕ) (some_line : 0 < n) where
  begin_line-Succeeds : (s : Tailer) → IsInside size n s → Succeeds (IsBegun size n) (begin_line s)
  unfolding begin_line
  begin_line-Succeeds s i = elim (Bool-cases ((s.buffp == s.linestart) && not s.wrap)) [
    | inl fresh ↦
        rw (fresh, begin_line)
          (Succeeds-then (shift s.lines)
            (λ lines. some (record s {
              lines = lines;
              nfound = if ltb s.nfound (length s.lines) then s.nfound + 1 else s.nfound;
            }))
            (shift-Succeeds size n s.lines some_line i.pointers)
            (λ lines a. (
              _,
              refl,
              (
                record {
                  whole = i.whole;
                  pointers = a;
                  next = i.next;
                  start = i.start;
                  few = ground (arith, i.few, i.pointers.0);
                  begun = inl (counted);
                },
                counted,
              ),
            )))
    | inr old ↦ rw (old, begin_line) (s, refl, (i, begun i.begun old))
  ]
    where
      counted : 0 < (if ltb s.nfound (length s.lines) then s.nfound + 1 else s.nfound)
      counted = ground (arith, i.pointers.0, some_line)

      begun :
          (0 < s.nfound) ⊎ ((s.buffp ≡ 0) × (s.linestart ≡ 0) × (s.wrap ≡ false))
          → ((s.buffp == s.linestart) && not s.wrap) ≡ false
          → 0 < s.nfound
      begun (inl h) old = h
      begun (inr (a, b, c)) old = ground (arith, a, b, c, old)

  wrap_line-Succeeds :
      (s : Tailer) → 2 ≤ size → IsBegun size n s → Succeeds (HasRoom size n) (wrap_line size s)
  unfolding wrap_line
  wrap_line-Succeeds s two i = elim (Bool-cases (s.buffp + 1 == size)) [
    | inl full ↦
        rw (full, wrap_line)
          (Succeeds-then (put s.buffp 0 s.buff)
            (λ buff. set_last false s.linestart s.lines >>= λ lines.
              some (record s { buff = buff; lines = lines; wrap = true; linestart = 0; buffp = 0 }))
            (put-Succeeds s.buffp 0 s.buff (omega (arith, i.0.whole, i.0.next)))
            (λ buff e.
              Succeeds-then (set_last false s.linestart s.lines)
                (λ lines.
                  some (record s {
                    buff = buff;
                    lines = lines;
                    wrap = true;
                    linestart = 0;
                    buffp = 0;
                  }))
                (set_last-Succeeds size false s.linestart n s.lines some_line i.0.start
                  i.0.pointers)
                (λ lines a. (
                  _,
                  refl,
                  (
                    record {
                      whole = e ∙ i.0.whole;
                      pointers = a;
                      next = omega (arith, two);
                      start = omega (arith, two);
                      few = i.0.few;
                      begun = inl i.1;
                    },
                    i.1,
                    two,
                  ),
                ))))
    | inr more ↦ rw (more, wrap_line) (s, refl, (i.0, i.1, ground (arith, i.0.next, more)))
  ]

  test_for_room-Succeeds :
      (s : Tailer)
      → IsBegun size n s
      → Succeeds (λ room. Unit) (test_for_room s.lines (oldest s) s.buffp)
  unfolding test_for_room
  test_for_room-Succeeds s i =
      Succeeds-then (get (oldest s) s.lines) (λ l. some (not (is_next s.buffp l)))
        (get-Succeeds (oldest s) s.lines (omega (arith, i.1, i.0.few, i.0.pointers.0, some_line)))
        (λ l u. (not (is_next s.buffp l), refl, tt))
