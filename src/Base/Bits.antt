-- ===== src/Base/Bits.antt =====
-- Masks of low bits, and fields side by side, as arithmetic.
use Prim.Native.Nat.{
  ℕ, zero, suc, ◌+◌, ◌*◌, ◌/◌, ◌%◌, ◌^◌, ◌-◌, ◌<◌, ◌≤◌, min, max, digits, bit_and, bit_or,
  bit_and-bitwise, bit_or-bitwise,
}
use mathlib.Core.Path.{◌≡◌, refl, ap, ap₂, ◌∙◌}
use native.Mathlib.Nat.{pow-suc, one-le-pow}
use native.Mathlib.Omega.{arith}

-- A count of digits to go that is larger than the number changes nothing.
spare_digits :
    (rest : ℕ → ℕ) (op : ℕ → ℕ → ℕ) (few many a b : ℕ)
    → a ≤ few
    → few ≤ many
    → digits rest op many a b ≡ digits rest op few a b
spare_digits rest op zero zero zero b h k = refl
spare_digits rest op zero (suc many) zero b h k = refl
spare_digits rest op (suc few) zero a b h k = absurd (omega arith)
spare_digits rest op zero many (suc a) b h k = absurd (omega arith)
spare_digits rest op (suc few) (suc many) zero b h k = refl
spare_digits rest op (suc few) (suc many) (suc a) b h k =
    ap (λ (high : ℕ). high * 2 + op (suc a % 2) (b % 2))
      (spare_digits rest op few many (suc a / 2) (b / 2) (omega arith) (omega arith))

half : (a : ℕ) → suc a / 2 ≤ a
half a = omega arith

pub lowest_or : (a b : ℕ) → bit_or a b ≡ bit_or (a / 2) (b / 2) * 2 + max (a % 2) (b % 2)
lowest_or zero b = simp bit_or-bitwise (omega arith)
lowest_or (suc a) b = simp bit_or-bitwise (
    ap (λ (high : ℕ). high * 2 + max (suc a % 2) (b % 2))
      (spare_digits (λ y. y) max (suc a / 2) a (suc a / 2) (b / 2) (omega arith) (half a)))

pub lowest_and : (a b : ℕ) → bit_and a b ≡ bit_and (a / 2) (b / 2) * 2 + min (a % 2) (b % 2)
lowest_and zero b = simp bit_and-bitwise (omega arith)
lowest_and (suc a) b = simp bit_and-bitwise (
    ap (λ (high : ℕ). high * 2 + min (suc a % 2) (b % 2))
      (spare_digits (λ y. 0) min (suc a / 2) a (suc a / 2) (b / 2) (omega arith) (half a)))

and-zero : (fuel a : ℕ) → a ≤ fuel → bit_and a 0 ≡ 0
and-zero fuel zero h = simp bit_and-bitwise refl
and-zero zero (suc a) h = absurd (omega arith)
and-zero (suc fuel) (suc a) h =
    omega (arith, lowest_and (suc a) 0, and-zero fuel (suc a / 2) (omega arith))

or-zero : (b : ℕ) → bit_or 0 b ≡ b
or-zero b = simp bit_or-bitwise refl

high_half : (k high : ℕ) → high * 2 ^ suc k ≡ 2 * (high * 2 ^ k)
high_half k high = grind (arith, pow-suc 2 k)

half_high : (k high : ℕ) → high * 2 ^ suc k / 2 ≡ high * 2 ^ k
half_high k high = omega (arith, high_half k high)

half_mask : (k : ℕ) → (2 ^ suc k - 1) / 2 ≡ 2 ^ k - 1
half_mask k = omega (arith, pow-suc 2 k, one-le-pow k 2 (omega arith))

odd_mask : (k : ℕ) → (2 ^ suc k - 1) % 2 ≡ 1
odd_mask k = omega (arith, pow-suc 2 k, one-le-pow k 2 (omega arith))

half_fields : (k low high : ℕ) → (high * 2 ^ suc k + low) / 2 ≡ high * 2 ^ k + low / 2
half_fields k low high = omega (arith, high_half k high)

-- A mask takes the low field out.
pub and-fields : (k low high : ℕ) → low < 2 ^ k → bit_and (high * 2 ^ k + low) (2 ^ k - 1) ≡ low
and-fields zero low high h = and-zero (high * 1 + low) (high * 1 + low) (omega arith) ∙ omega arith
and-fields (suc k) low high h = omega (
  arith,
  lowest_and (high * 2 ^ suc k + low) (2 ^ suc k - 1),
  ap₂ bit_and (half_fields k low high) (half_mask k),
  and-fields k (low / 2) high (omega (arith, h, pow-suc 2 k)),
  odd_mask k,
  high_half k high,
)

-- `& (2 ^ k - 1)` is the remainder by `2 ^ k`.
pub and-mask : (k a : ℕ) → bit_and a (2 ^ k - 1) ≡ a % 2 ^ k
and-mask k a = ground (arith, one-le-pow k 2, and-fields k (a % 2 ^ k) (a / 2 ^ k))

-- A low field and a high one, joined by `|`.
pub or-fields : (k low high : ℕ) → low < 2 ^ k → bit_or low (high * 2 ^ k) ≡ high * 2 ^ k + low
or-fields zero low high h =
    ap (λ l. bit_or l (high * 1)) (the_zero low h) ∙ or-zero (high * 1) ∙ omega arith
  where
    the_zero : (n : ℕ) → n < 1 → n ≡ 0
    the_zero n small = omega arith
or-fields (suc k) low high h = omega (
  arith,
  lowest_or low (high * 2 ^ suc k),
  ap (bit_or (low / 2)) (half_high k high),
  high_half k high,
  or-fields k (low / 2) high (omega (arith, h, pow-suc 2 k)),
)
