-- ===== src/Auth/Digits.antt =====
-- The digits of the c32 encoding.
use mailslot.Base.{
  ℕ, zero, suc, ◌+◌, ◌*◌, ◌/◌, ◌%◌, ◌<◌, List, [], ◌∷◌, ◌++◌, ◌≡◌, refl, ap, ◌∙◌, eqb, arith, All,
  inl, inr, Bool-cases,
}
use mailslot.Clarity.Words.{bytes_value}
use mailslot.Auth.Address.{c32_loop, leading_zeros, c32_digits}

-- The number that digits in base 32 stand for, behind an accumulator.
unfoldable pub value_32 : List ℕ → ℕ → ℕ
value_32 [] acc = acc
value_32 (d ∷ ds) acc = value_32 ds (acc * 32 + d)

value_32-c32_loop :
    (fuel n : ℕ) (rest : List ℕ) → n < fuel → value_32 (c32_loop fuel n rest) 0 ≡ value_32 rest n
unfolding c32_loop value_32
value_32-c32_loop zero n rest h = elim h [ ]
value_32-c32_loop (suc fuel) n rest h = elim (Bool-cases (eqb n 0)) [
  | inl done ↦ rw done (ap (value_32 rest) (ground arith))
  | inr more ↦ rw more (
      value_32-c32_loop fuel (n / 32) (n % 32 ∷ rest) (ground arith)
      ∙ ap (value_32 rest) (ground arith))
]

c32_loop_small :
    (fuel n : ℕ) (rest : List ℕ) → All (λ d. d < 32) rest → All (λ d. d < 32) (c32_loop fuel n rest)
unfolding c32_loop
c32_loop_small zero n rest h = h
c32_loop_small (suc fuel) n rest h = elim (Bool-cases (eqb n 0)) [
  | inl done ↦ rw done h
  | inr more ↦ rw more (c32_loop_small fuel (n / 32) (n % 32 ∷ rest) (omega arith, h))
]

-- Zeros in front change neither the value nor the bound.
value_32-leading_zeros :
    (bytes ds : List ℕ) → value_32 (leading_zeros bytes ++ ds) 0 ≡ value_32 ds 0
unfolding leading_zeros value_32
value_32-leading_zeros [] ds = refl
value_32-leading_zeros (b ∷ bytes) ds = elim (Bool-cases (eqb b 0)) [
  | inl zero_byte ↦ rw zero_byte (value_32-leading_zeros bytes ds)
  | inr other ↦ rw other refl
]

leading_zeros_small :
    (bytes ds : List ℕ) → All (λ d. d < 32) ds → All (λ d. d < 32) (leading_zeros bytes ++ ds)
unfolding leading_zeros
leading_zeros_small [] ds h = h
leading_zeros_small (b ∷ bytes) ds h = elim (Bool-cases (eqb b 0)) [
  | inl zero_byte ↦ rw zero_byte (omega arith, leading_zeros_small bytes ds h)
  | inr other ↦ rw other h
]

-- The digits of the encoding are digits in base 32 of the number that the bytes stand for.
pub c32_digits_value :
    (bytes : List ℕ)
    → All (λ d. d < 32) (c32_digits bytes) × (value_32 (c32_digits bytes) 0 ≡ bytes_value bytes 0)
unfolding c32_digits value_32
c32_digits_value bytes =
    let n = bytes_value bytes 0 in
    (
      leading_zeros_small bytes (c32_loop (suc n) n []) (c32_loop_small (suc n) n [] tt),
      value_32-leading_zeros bytes (c32_loop (suc n) n [])
          ∙ value_32-c32_loop (suc n) n [] (omega arith),
    )
