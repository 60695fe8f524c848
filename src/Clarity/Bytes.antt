-- ===== src/Clarity/Bytes.antt =====
-- What the words of Clarity values hold.
use mailslot.Base.{
  ℕ, zero, suc, ◌+◌, ◌*◌, ◌/◌, ◌%◌, ◌<◌, List, [], ◌∷◌, ◌≡◌, ap, ◌∙◌, arith, length, All, ltb, ok,
  err, inl, inr, Bool-cases, ok_inj, ltb→lt, Failure,
}
use mailslot.Base.Int.{ℤ, pos, negsuc}
use mailslot.Clarity.Words.{bytes_value, low_bytes, u32be, two_128, as_uint_128, u128be}

-- 256 to a power.
pow_256 : ℕ → ℕ
pow_256 zero = 1
pow_256 (suc n) = pow_256 n * 256

-- The bytes of a number that they can hold give the number.
bytes_value-low_bytes :
    (count v : ℕ) (rest : List ℕ)
    → v < pow_256 count
    → bytes_value (low_bytes count v rest) 0 ≡ bytes_value rest v
unfolding bytes_value low_bytes pow_256
bytes_value-low_bytes zero v rest h = ap (bytes_value rest) (omega arith)
bytes_value-low_bytes (suc count) v rest h =
    bytes_value-low_bytes count (v / 256) (v % 256 ∷ rest) (omega arith)
    ∙ ap (bytes_value rest) (omega arith)

length-low_bytes :
    (count v : ℕ) (rest : List ℕ) → length (low_bytes count v rest) ≡ count + length rest
unfolding low_bytes
length-low_bytes zero v rest = omega arith
length-low_bytes (suc count) v rest =
    length-low_bytes count (v / 256) (v % 256 ∷ rest) ∙ omega arith

low_bytes_small :
    (count v : ℕ) (rest : List ℕ)
    → All (λ b. b < 256) rest
    → All (λ b. b < 256) (low_bytes count v rest)
unfolding low_bytes
low_bytes_small zero v rest h = h
low_bytes_small (suc count) v rest h =
    low_bytes_small count (v / 256) (v % 256 ∷ rest) (omega arith, h)

as_uint_128_bound : (n : ℤ) → as_uint_128 n < two_128
unfolding as_uint_128
as_uint_128_bound (pos n) = omega arith
as_uint_128_bound (negsuc n) = omega arith

-- A number of 128 bits is sixteen bytes, each less than 256, whose big-endian value is the number
-- modulo 2 ^ 128; a natural number below that is itself.
pub u128be_value :
    (n : ℤ)
    → (length (u128be n) ≡ 16)
      × All (λ b. b < 256) (u128be n)
      × (bytes_value (u128be n) 0 ≡ as_uint_128 n)
unfolding u128be bytes_value
u128be_value n = (
  length-low_bytes 16 (as_uint_128 n) [],
  low_bytes_small 16 (as_uint_128 n) [] tt,
  bytes_value-low_bytes 16 (as_uint_128 n) [] (unfold pow_256 in as_uint_128_bound n),
)

refused : {A B : Type 0} {e : Failure} {b : B} → err e ≡ ok b → A
refused h = cc

-- A length that is written is less than 2 ^ 32, and is four bytes, each less than 256, with that
-- big-endian value.
pub u32be_value :
    (n : ℕ) (bytes : List ℕ)
    → u32be n ≡ ok bytes
    → (n < 4294967296) × (length bytes ≡ 4) × All (λ b. b < 256) bytes × (bytes_value bytes 0 ≡ n)
unfolding u32be bytes_value
u32be_value n bytes h = elim (Bool-cases (ltb n 4294967296)) [
  | inl small ↦
      let same = ok_inj (rw small at h) in
      rw (← same) (
        ltb→lt n 4294967296 small,
        length-low_bytes 4 n [],
        low_bytes_small 4 n [] tt,
        bytes_value-low_bytes 4 n [] (unfold pow_256 in ltb→lt n 4294967296 small),
      )
  | inr large ↦ refused (rw large at h)
]
