-- ===== src/Job/Tailer/Safe/Loop.antt =====
-- src/fileTailer.cxx: the loops over the characters end, with every access in range.
use levbdim.Base.{
  ℕ, ◌+◌, ◌<◌, ◌≤◌, ◌≡◌, refl, ◌∙◌, inl, inr, List, [], ◌∷◌, Option, some, Bool, true, false, ◌>>=◌,
  ◌==◌, Str, length, Bool-cases, arith,
}
use levbdim.Job.Tailer.{
  Tailer, put, set_last, test_for_room, oldest, begin_line, wrap_line, after_line, store_char,
  read_file, read_stdin,
}
use levbdim.Job.Tailer.Safe.{
  Succeeds, Succeeds-then, put-Succeeds, set_last-Succeeds, IsInside, IsBegun, HasRoom,
  begin_line-Succeeds, wrap_line-Succeeds, test_for_room-Succeeds,
}

module _ (size n : ℕ) (some_line : 0 < n) where
  -- A character that ends the line.
  newline-Succeeds :
      (s : Tailer) (buff : List ℕ)
      → length buff ≡ size
      → HasRoom size n s
      → Succeeds (IsBegun size n) (
          put (s.buffp + 1) 0 buff >>= λ buff'. set_last s.wrap s.linestart s.lines >>= λ lines.
          some (record s {
            buff = buff';
            lines = lines;
            wrap = false;
            buffp = after_line size (s.buffp + 2);
            linestart = after_line size (s.buffp + 2);
          }))
  newline-Succeeds s buff whole i =
      Succeeds-then (put (s.buffp + 1) 0 buff) _
        (put-Succeeds (s.buffp + 1) 0 buff (omega (arith, whole, i.2)))
        (λ buff' e.
          Succeeds-then (set_last s.wrap s.linestart s.lines) _
            (set_last-Succeeds size s.wrap s.linestart n s.lines some_line i.0.start i.0.pointers)
            (λ lines a. (
              _,
              refl,
              (
                record {
                  whole = e ∙ whole;
                  pointers = a;
                  next = ground (arith, i.2);
                  start = ground (arith, i.2);
                  few = i.0.few;
                  begun = inl i.1;
                },
                i.1,
              ),
            )))

  store_char-Succeeds :
      (c : ℕ) (s : Tailer) → HasRoom size n s → Succeeds (IsBegun size n) (store_char size c s)
  unfolding store_char
  store_char-Succeeds c s i =
      Succeeds-then (put s.buffp c s.buff) _
        (put-Succeeds s.buffp c s.buff (omega (arith, i.0.whole, i.2)))
        (λ buff e. elim (Bool-cases (c == 10)) [
          | inl end ↦ rw end (newline-Succeeds s buff (e ∙ i.0.whole) i)
          | inr more ↦ rw more (
            _,
            refl,
            (
              record {
                whole = e ∙ i.0.whole;
                pointers = i.0.pointers;
                next = omega (arith, i.2);
                start = i.0.start;
                few = i.0.few;
                begun = inl i.1;
              },
              i.1,
            ),
          )
        ])

  abbrev pub Ended : Tailer × Bool → Type 0
  Ended r = IsInside size n r.0

  abbrev proceed : ℕ → Str → Tailer → Bool → Option (Tailer × Bool)
  proceed c cs s room = elim room [
    | true ↦ store_char size c s >>= read_file size cs
    | false ↦ some (s, false)
  ]

  module _ (two : 2 ≤ size) where
    ready-Succeeds :
        (s : Tailer)
        → IsInside size n s
        → Succeeds (HasRoom size n) (begin_line s >>= wrap_line size)
    ready-Succeeds s i =
        Succeeds-then (begin_line s) (wrap_line size) (begin_line-Succeeds size n some_line s i)
          (λ s' i'. wrap_line-Succeeds size n some_line s' two i')

    goes_on :
        (c : ℕ) (cs : Str) (s : Tailer)
        → HasRoom size n s
        → ((s' : Tailer) → IsInside size n s' → Succeeds Ended (read_file size cs s'))
        → (room : Bool) → Succeeds Ended (proceed c cs s room)
    goes_on c cs s i later true =
        Succeeds-then (store_char size c s) (read_file size cs) (store_char-Succeeds c s i)
          (λ s' i'. later s' i'.0)
    goes_on c cs s i later false = ((s, false), refl, i.0)

    pub read_file-Succeeds :
        (file : Str) (s : Tailer) → IsInside size n s → Succeeds Ended (read_file size file s)
    unfolding read_file
    read_file-Succeeds [] s i = ((s, true), refl, i)
    read_file-Succeeds (c ∷ cs) s i =
        Succeeds-then (begin_line s >>= wrap_line size) _ (ready-Succeeds s i) (λ s' i'.
          Succeeds-then (test_for_room s'.lines (oldest s') s'.buffp) (proceed c cs s')
            (test_for_room-Succeeds size n some_line s' (i'.0, i'.1))
            (λ room u. goes_on c cs s' i' (λ s'' i''. read_file-Succeeds cs s'' i'') room))

    pub read_stdin-Succeeds :
        (input : Str) (s : Tailer)
        → IsInside size n s
        → Succeeds (IsInside size n) (read_stdin size input s)
    unfolding read_stdin
    read_stdin-Succeeds [] s i = (s, refl, i)
    read_stdin-Succeeds (c ∷ cs) s i =
        Succeeds-then (begin_line s >>= wrap_line size) _ (ready-Succeeds s i) (λ s' i'.
          Succeeds-then (test_for_room s'.lines (oldest s') s'.buffp)
            (λ room. store_char size c s' >>= read_stdin size cs)
            (test_for_room-Succeeds size n some_line s' (i'.0, i'.1))
            (λ room u.
              Succeeds-then (store_char size c s') (read_stdin size cs)
                (store_char-Succeeds c s' i') (λ s'' i''. read_stdin-Succeeds cs s'' i''.0)))
