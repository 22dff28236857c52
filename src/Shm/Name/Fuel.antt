-- ===== src/Shm/Name/Fuel.antt =====
-- src/shmdriver.cxx, the decimal digits in `name`: the fuel of their production is enough.
use levbdim.Base.{
  ℕ, zero, suc, ◌+◌, ◌/◌, ◌%◌, ◌<◌, ◌≡◌, refl, ◌∷◌, ◌++◌, Str, arith, ltb, Bool-cases, inl, inr,
}
use levbdim.Shm.Name.{dec, dec_digits}

-- Fuel above the number is enough: more of it gives the same digits.
enough :
    (few many n : ℕ) (rest : Str)
    → n < few
    → n < many
    → dec_digits few n rest ≡ dec_digits many n rest
unfolding dec_digits
enough zero many n rest h k = absurd (omega arith)
enough (suc few) zero n rest h k = absurd (omega arith)
enough (suc few) (suc many) n rest h k = elim (Bool-cases (ltb n 10)) [
  | inl last ↦ rw last refl
  | inr more ↦ rw more (
      enough few many (n / 10) ((b'0' + n % 10) ∷ rest) (ground (arith, more, h))
        (ground (arith, more, k)))
]

-- The digits of a number come to their end within the fuel that they are given: with any fuel above
-- the number they are the same, in front of any text.
pub dec_digits-ends : (fuel n : ℕ) (rest : Str) → n < fuel → dec_digits fuel n rest ≡ dec n rest
unfolding dec
dec_digits-ends fuel n rest h = enough fuel (suc n) n rest h (omega arith)

-- The digits stand in front of the rest.
pub dec_digits-append :
    (fuel n : ℕ) (s t : Str) → dec_digits fuel n (s ++ t) ≡ dec_digits fuel n s ++ t
unfolding dec_digits
dec_digits-append zero n s t = refl
dec_digits-append (suc fuel) n s t =
    ground (arith, dec_digits-append fuel (n / 10) ((b'0' + n % 10) ∷ s) t)
