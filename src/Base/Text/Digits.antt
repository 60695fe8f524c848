-- ===== src/Base/Text/Digits.antt =====
-- Decimal texts: `/^\d+$/` and `parseInt(text, 10)`.
use Prim.Native.Char.{Char, code}
use Prim.Native.Nat.{ℕ, zero, suc, ◌/◌, ◌%◌, ◌<◌}
use Prim.Native.String.{String}
use mathlib.Core.Path.{◌≡◌, refl, ap, ◌∙◌}
use mathlib.Core.Logic.{inl, inr}
use mathlib.Core.Bool.{Bool, true, false, ◌&&◌}
use mathlib.Core.Option.{Option, none, some}
use native.Mathlib.Omega.{arith}
use mailslot.Base.Tests.{leb, eqb, ltb, if◌then◌else◌, Bool-cases}
use mailslot.Base.Text.Decimal.{is_space, digits, digit, print_digits, print_ℕ, digits-print_ℕ}
use mailslot.Base.Text.Hex.{trim_start}

abbrev is_decimal_digit : Char → Bool
is_decimal_digit c = leb b'0' (code c) && leb (code c) b'9'

-- `/^\d*$/`
unfoldable pub all_decimal : String → Bool
all_decimal String.[] = true
all_decimal (String.◌∷◌ c s) = is_decimal_digit c && all_decimal s

-- `/^\d+$/`
unfoldable pub is_decimal : String → Bool
unfolding all_decimal
is_decimal String.[] = false
is_decimal (String.◌∷◌ c s) = is_decimal_digit c && all_decimal s

-- The digits that a text begins with.
unfoldable pub decimal_prefix : String → String
decimal_prefix String.[] = ""
decimal_prefix (String.◌∷◌ c s) =
    let rest = decimal_prefix s in if is_decimal_digit c then String.◌∷◌ c rest else ""

-- `parseInt(text, 10)`, none for NaN and for a negative number.
unfoldable pub parse_int : String → Option ℕ
unfolding decimal_prefix
parse_int text = from_sign (trim_start text)
  where
    from_sign : String → Option ℕ
    from_sign String.[] = none
    from_sign (String.◌∷◌ c s) =
        if eqb (code c) b'+'
        then digits 10 (decimal_prefix s)
        else digits 10 (decimal_prefix (String.◌∷◌ c s))

both_true : (a b : Bool) → a && b ≡ true → (a ≡ true) × (b ≡ true)
both_true true b h = (refl, h)
both_true false b h = cc

decimal_prefix-all_decimal : (s : String) → all_decimal s ≡ true → decimal_prefix s ≡ s
unfolding all_decimal decimal_prefix
decimal_prefix-all_decimal String.[] h = refl
decimal_prefix-all_decimal (String.◌∷◌ c s) h =
    let (first, rest) = both_true (is_decimal_digit c) (all_decimal s) h in
    rw first (ap (String.◌∷◌ c) (decimal_prefix-all_decimal s rest))

is_decimal_digit-digit : (d : ℕ) → is_decimal_digit (digit d) ≡ true
is_decimal_digit-digit zero = refl
is_decimal_digit-digit (suc zero) = refl
is_decimal_digit-digit (suc (suc zero)) = refl
is_decimal_digit-digit (suc (suc (suc zero))) = refl
is_decimal_digit-digit (suc (suc (suc (suc zero)))) = refl
is_decimal_digit-digit (suc (suc (suc (suc (suc zero))))) = refl
is_decimal_digit-digit (suc (suc (suc (suc (suc (suc zero)))))) = refl
is_decimal_digit-digit (suc (suc (suc (suc (suc (suc (suc zero))))))) = refl
is_decimal_digit-digit (suc (suc (suc (suc (suc (suc (suc (suc zero)))))))) = refl
is_decimal_digit-digit (suc (suc (suc (suc (suc (suc (suc (suc (suc d))))))))) = refl

-- What is printed is digits, and at least one.
print_digits_decimal :
    (fuel n : ℕ) (rest : String)
    → n < fuel
    → all_decimal rest ≡ true
    → is_decimal (print_digits fuel n rest) ≡ true
unfolding is_decimal all_decimal print_digits
print_digits_decimal zero n rest h k = elim h [ ]
print_digits_decimal (suc fuel) n rest h k = elim (Bool-cases (ltb n 10)) [
  | inl small ↦ rw (small, is_decimal_digit-digit n) k
  | inr large ↦ rw large (
      print_digits_decimal fuel (n / 10) (String.◌∷◌ (digit (n % 10)) rest) (ground arith)
        (rw (is_decimal_digit-digit (n % 10)) k))
]

pub is_decimal-print_ℕ : (n : ℕ) → is_decimal (print_ℕ n) ≡ true
unfolding print_ℕ
is_decimal-print_ℕ n = print_digits_decimal (suc n) n "" (omega arith) (unfold all_decimal in refl)

not_space : (c : ℕ) → leb b'0' c && leb c b'9' ≡ true → is_space c ≡ false
not_space c h = ground arith

not_plus : (c : ℕ) → leb b'0' c && leb c b'9' ≡ true → eqb c b'+' ≡ false
not_plus c h = ground arith

parse_int-is_decimal : (s : String) → is_decimal s ≡ true → parse_int s ≡ digits 10 s
unfolding is_decimal parse_int trim_start decimal_prefix
parse_int-is_decimal String.[] h = cc
parse_int-is_decimal (String.◌∷◌ c s) h =
    let (first, rest) = both_true (is_decimal_digit c) (all_decimal s) h in
    rw (not_space (code c) first, not_plus (code c) first, first, decimal_prefix-all_decimal s rest)
      refl

-- `parseInt` reads back what `String` prints of a natural number.
pub parse_int-print_ℕ : (n : ℕ) → parse_int (print_ℕ n) ≡ some n
parse_int-print_ℕ n = parse_int-is_decimal (print_ℕ n) (is_decimal-print_ℕ n) ∙ digits-print_ℕ n
