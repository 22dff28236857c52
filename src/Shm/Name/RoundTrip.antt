-- ===== src/Shm/Name/RoundTrip.antt =====
-- src/shmdriver.cxx: the ids in a file's name are read back.
use native.Mathlib.Nat.{mod-eq_of_lt}
use levbdim.Base.{
  ℕ, zero, suc, ◌+◌, ◌/◌, ◌%◌, ◌^◌, ◌≤◌, ◌<◌, ◌≡◌, refl, ap, ◌∙◌, sym, [], ◌∷◌, Option, some,
  dec_lt, false, Str, arith,
}
use levbdim.Shm.Name.{
  dec_digits, dec, name, is_digit, scan_digits, saturate, scan_u, scan_text, u32_mod, u64_mod,
  scan_detector, scan_source, scan_event, scan_bx, det_id, source_id, event_id, bx_id,
}

-- Digits are scanned back from what was printed, whatever stands behind them.
scan_digits-dec_digits :
    (fuel n : ℕ) (rest : Str)
    → n < fuel
    → scan_digits 0 (dec_digits fuel n rest) ≡ scan_digits n rest
unfolding scan_digits dec_digits
scan_digits-dec_digits zero n rest h = absurd (omega arith)
scan_digits-dec_digits (suc fuel) n rest h =
    ground (arith, scan_digits-dec_digits fuel (n / 10) ((b'0' + n % 10) ∷ rest))

-- What is printed begins with a digit.
dec_digits_head :
    (fuel n : ℕ) (rest : Str)
    → n < fuel
    → (k : ℕ) × (t : Str) × (k < 10) × (dec_digits fuel n rest ≡ (b'0' + k) ∷ t)
unfolding dec_digits
dec_digits_head zero n rest h = absurd (omega arith)
dec_digits_head (suc fuel) n rest h = elim (dec_lt n 10) [
  | yes p ↦ (n, rest, p, ground arith)
  | no p ↦
      let (k, t, small, e) = dec_digits_head fuel (n / 10) ((b'0' + n % 10) ∷ rest) (omega arith) in
      (k, t, small, ground arith)
]

abbrev NoDigit : Str → Type 0
NoDigit [] = Unit
NoDigit (c ∷ s) = is_digit c ≡ false

scan_digits_stop : (n : ℕ) (rest : Str) → NoDigit rest → scan_digits n rest ≡ (n, rest)
unfolding scan_digits
scan_digits_stop n [] h = refl
scan_digits_stop n (c ∷ s) h = ground arith

abbrev reduced : ℕ → ℕ × Str → Option (ℕ × Str)
reduced modulus (v, s) = some (saturate v % modulus, s)

scan_u_digit :
    (modulus k : ℕ) (t : Str)
    → k < 10
    → scan_u modulus ((b'0' + k) ∷ t) ≡ reduced modulus (scan_digits 0 ((b'0' + k) ∷ t))
unfolding scan_u
scan_u_digit modulus k t h = ground arith

scan_u-dec_digits :
    (modulus fuel n : ℕ) (rest : Str)
    → n < fuel
    → NoDigit rest
    → n < modulus
    → modulus ≤ 2 ^ 64
    → scan_u modulus (dec_digits fuel n rest) ≡ some (n, rest)
scan_u-dec_digits modulus fuel n rest enough stop h wide =
    let (k, t, small, e) = dec_digits_head fuel n rest enough in
    let scanned : scan_digits 0 (dec_digits fuel n rest) ≡ (n, rest) =
      scan_digits-dec_digits fuel n rest enough ∙ scan_digits_stop n rest stop in
    ap (scan_u modulus) e
    ∙ scan_u_digit modulus k t small
    ∙ ap (λ s. reduced modulus (scan_digits 0 s)) (sym e)
    ∙ ap (reduced modulus) scanned
    ∙ ap (λ (m : ℕ). some (m % modulus, rest)) (omega arith)
    ∙ ap (λ m. some (m, rest)) (mod-eq_of_lt h)

pub scan_u-dec :
    (modulus n : ℕ) (rest : Str)
    → NoDigit rest
    → n < modulus
    → modulus ≤ 2 ^ 64
    → scan_u modulus (dec n rest) ≡ some (n, rest)
unfolding dec
scan_u-dec modulus n rest stop h wide =
    scan_u-dec_digits modulus (suc n) n rest (omega arith) stop h wide

module _ (d s e b : ℕ) (d_fits : d < u32_mod) (s_fits : s < u32_mod) (e_fits : e < u32_mod)
    (b_fits : b < u64_mod) where
  abbrev bx_text : Str
  bx_text = b'_' ∷ dec b []

  abbrev event_text : Str
  event_text = b'_' ∷ dec e bx_text

  abbrev source_text : Str
  source_text = b'_' ∷ dec s event_text

  scan_detector-name : scan_detector (name d s e b) ≡ some (d, source_text)
  unfolding scan_text name
  scan_detector-name = scan_u-dec u32_mod d source_text refl d_fits (omega arith)

  scan_source-name : scan_source (name d s e b) ≡ some (s, event_text)
  unfolding scan_text
  scan_source-name =
      rw scan_detector-name (scan_u-dec u32_mod s event_text refl s_fits (omega arith))

  scan_event-name : scan_event (name d s e b) ≡ some (e, bx_text)
  unfolding scan_text
  scan_event-name = rw scan_source-name (scan_u-dec u32_mod e bx_text refl e_fits (omega arith))

  scan_bx-name : scan_bx (name d s e b) ≡ some (b, [])
  unfolding scan_text
  scan_bx-name = rw scan_event-name (scan_u-dec u64_mod b [] tt b_fits (omega arith))

  -- The four readers find in a file's name the ids that `name` printed, for ids within the widths
  -- of their types.
  pub name_round_trip :
      (det_id (name d s e b) ≡ some d)
      × (source_id (name d s e b) ≡ some s)
      × (event_id (name d s e b) ≡ some e)
      × (bx_id (name d s e b) ≡ some b)
  unfolding det_id source_id event_id bx_id
  name_round_trip =
      (rw scan_detector-name, rw scan_source-name, rw scan_event-name, rw scan_bx-name)
