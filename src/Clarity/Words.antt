-- ===== src/Clarity/Words.antt =====
-- Big-endian words: `u32be` and `u128be`.
use mailslot.Base.{
  ℕ, zero, suc, ◌+◌, ◌-◌, ◌*◌, ◌/◌, ◌%◌, List, [], ◌∷◌, ltb, Result, ok, err, thrown, if◌then◌else◌,
}
use mailslot.Base.Int.{ℤ, pos, negsuc}

-- The value of `n` bytes, each less than 256.
unfoldable pub bytes_value : List ℕ → ℕ → ℕ
bytes_value [] acc = acc
bytes_value (b ∷ bs) acc = bytes_value bs (acc * 256 + b)

-- The lowest `count` bytes of a number, the highest first, in front of others: the loop of `u128be`
-- from the last byte to the first.
unfoldable pub low_bytes : ℕ → ℕ → List ℕ → List ℕ
low_bytes zero v rest = rest
low_bytes (suc count) v rest = low_bytes count (v / 256) (v % 256 ∷ rest)

-- `writeUInt32BE`, which refuses a number that four bytes cannot hold.
unfoldable pub u32be : ℕ → Result (List ℕ)
unfolding low_bytes
u32be n = if ltb n 4294967296 then ok (low_bytes 4 n []) else err (thrown "ERR_OUT_OF_RANGE")

-- 2 ^ 128
abbrev pub two_128 : ℕ
two_128 = 340282366920938463463374607431768211456

-- `BigInt.asUintN(128, n)`
unfoldable pub as_uint_128 : ℤ → ℕ
as_uint_128 (pos n) = n % two_128
as_uint_128 (negsuc n) = two_128 - 1 - n % two_128

unfoldable pub u128be : ℤ → List ℕ
unfolding low_bytes as_uint_128
u128be n = low_bytes 16 (as_uint_128 n) []
