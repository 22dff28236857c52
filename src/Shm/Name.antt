-- ===== src/Shm/Name.antt =====
-- src/shmdriver.cxx, `name`, `detId`, `sourceId`, `eventId`, `bxId`: file names of stored events.
pub mod RoundTrip
pub mod Fuel
use Prim.Native.Nat.{min}
use native.Mathlib.Nat.{mod-eq_of_lt}
use levbdim.Base.{
  ℕ, zero, suc, ◌+◌, ◌-◌, ◌*◌, ◌/◌, ◌%◌, ◌^◌, ◌≤◌, ◌<◌, ◌≡◌, refl, ap, ◌∙◌, sym, [], ◌∷◌, ◌++◌,
  Option, some, none, ◌>>=◌, dec_lt, Bool, false, ◌&&◌, ◌||◌, if◌then◌else◌, ltb, leb, ◌==◌, Str,
  codes, arith,
}

-- A number in decimal, in front of `rest`. The fuel is one more than the number.
pub dec_digits : ℕ → ℕ → Str → Str
dec_digits zero n rest = rest
dec_digits (suc fuel) n rest =
    let longer = dec_digits fuel (n / 10) ((b'0' + n % 10) ∷ rest) in
    if ltb n 10 then (b'0' + n) ∷ rest else longer

unfoldable pub dec : ℕ → Str → Str
unfolding dec_digits
dec n rest = dec_digits (suc n) n rest

unfoldable pub name : ℕ → ℕ → ℕ → ℕ → Str
unfolding dec
name detid sourceid eventid bxid =
    codes "Event_" ++ dec detid (b'_' ∷ dec sourceid (b'_' ∷ dec eventid (b'_' ∷ dec bxid [])))

-- `sscanf`: white space, a sign and digits for `%u` and `%lu`, reduced to the width of the
-- variable; a mismatch ends the scan and leaves the variables that follow as they were.
abbrev is_digit : ℕ → Bool
is_digit c = leb b'0' c && leb c b'9'

abbrev is_space : ℕ → Bool
is_space c = c == b' ' || (leb 9 c && leb c 13)

unfoldable skip_space : Str → Str
skip_space [] = []
skip_space (c ∷ s) = if is_space c then skip_space s else c ∷ s

scan_digits : ℕ → Str → ℕ × Str
scan_digits v [] = (v, [])
scan_digits v (c ∷ s) = if is_digit c then scan_digits (v * 10 + (c - b'0')) s else (v, c ∷ s)

scan_magnitude : Str → Option (ℕ × Str)
unfolding scan_digits
scan_magnitude [] = none
scan_magnitude (c ∷ s) = if is_digit c then some (scan_digits 0 (c ∷ s)) else none

abbrev converted : (ℕ → ℕ) → ℕ × Str → Option (ℕ × Str)
converted f (v, s) = some (f v, s)

-- A sign and digits; a positive and a negative magnitude are converted each in its way.
scan_signed : (ℕ → ℕ) → (ℕ → ℕ) → Str → Option (ℕ × Str)
unfolding scan_magnitude
scan_signed positive negative [] = none
scan_signed positive negative (c ∷ s) =
    if c == b'-'
    then scan_magnitude s >>= converted negative
    else if c == b'+'
    then scan_magnitude s >>= converted positive
    else scan_magnitude (c ∷ s) >>= converted positive

-- `strtoul` stops at the greatest `unsigned long`, whatever the sign.
abbrev saturate : ℕ → ℕ
saturate v = min v (2 ^ 64 - 1)

abbrev negate : ℕ → ℕ → ℕ
negate modulus v =
    if leb (2 ^ 64) v then (2 ^ 64 - 1) % modulus else (modulus - v % modulus) % modulus

unfoldable pub scan_u : ℕ → Str → Option (ℕ × Str)
unfolding scan_signed skip_space
scan_u modulus s = scan_signed (λ v. saturate v % modulus) (negate modulus) (skip_space s)

-- `%d`: a `long` that stops at its bounds, as a 32-bit pattern.
unfoldable pub scan_d : Str → Option (ℕ × Str)
unfolding scan_signed skip_space
scan_d s =
    scan_signed (λ v. min v (2 ^ 63 - 1) % 2 ^ 32)
      (λ v. (2 ^ 32 - min v (2 ^ 63) % 2 ^ 32) % 2 ^ 32) (skip_space s)

-- `(uint32_t) atol(...)`: 0 where no number stands.
unfoldable pub atol : Str → ℕ
unfolding scan_d
atol s = elim (scan_d s) [ none ↦ 0 | some r ↦ r.0 ]

-- A literal text of the format.
unfoldable pub scan_text : Str → Str → Option Str
scan_text [] s = some s
scan_text (c ∷ t) [] = none
scan_text (c ∷ t) (d ∷ s) = if c == d then scan_text t s else none

abbrev u32_mod : ℕ
u32_mod = 2 ^ 32

abbrev u64_mod : ℕ
u64_mod = 2 ^ 64

-- The scan of `"Event_%u_%u_%u_%lu"` up to each variable; `none`: it is left unset.
abbrev scan_detector : Str → Option (ℕ × Str)
scan_detector s = do s ← scan_text (codes "Event_") s; scan_u u32_mod s

abbrev scan_source : Str → Option (ℕ × Str)
scan_source s = do d ← scan_detector s; s ← scan_text (codes "_") d.1; scan_u u32_mod s

abbrev scan_event : Str → Option (ℕ × Str)
scan_event s = do d ← scan_source s; s ← scan_text (codes "_") d.1; scan_u u32_mod s

abbrev scan_bx : Str → Option (ℕ × Str)
scan_bx s = do d ← scan_event s; s ← scan_text (codes "_") d.1; scan_u u64_mod s

abbrev first : ℕ × Str → Option ℕ
first d = some d.0

unfoldable pub det_id : Str → Option ℕ
unfolding scan_u scan_text
det_id s = scan_detector s >>= first

unfoldable pub source_id : Str → Option ℕ
unfolding scan_u scan_text
source_id s = scan_source s >>= first

unfoldable pub event_id : Str → Option ℕ
unfolding scan_u scan_text
event_id s = scan_event s >>= first

unfoldable pub bx_id : Str → Option ℕ
unfolding scan_u scan_text
bx_id s = scan_bx s >>= first
