-- ===== src/Base/Text/Decimal.antt =====
-- `BigInt(text)` and `n.toString()`.
use Prim.Native.Char.{Char, code}
use Prim.Native.Nat.{ℕ, zero, suc, ◌+◌, ◌-◌, ◌*◌, ◌/◌, ◌%◌, ◌<◌}
use Prim.Native.String.{String}
use mathlib.Core.Path.{◌≡◌, refl, ap, ◌∙◌}
use mathlib.Core.Logic.{inl, inr}
use mathlib.Core.Bool.{Bool, true, ◌&&◌, ◌||◌}
use mathlib.Core.Option
use mathlib.Core.Option.{Option, none, some}
use native.Mathlib.Omega.{arith}
use mailslot.Base.Tests.{ltb, leb, eqb, if◌then◌else◌, Bool-cases}
use mailslot.Base.Int.{ℤ, pos, negsuc, neg_ℕ}

-- White space, as `trim` and BigInt strip it.
abbrev pub is_space : ℕ → Bool
is_space c =
    (leb 9 c && leb c 13)
    || eqb c 32
    || eqb c 0xa0
    || eqb c 0x1680
    || (leb 0x2000 c && leb c 0x200a)
    || eqb c 0x2028
    || eqb c 0x2029
    || eqb c 0x202f
    || eqb c 0x205f
    || eqb c 0x3000
    || eqb c 0xfeff

-- The value of a digit in base 16 or less.
abbrev pub digit_value : ℕ → Option ℕ
digit_value c =
    if leb b'0' c && leb c b'9'
    then some (c - b'0')
    else if leb b'a' c && leb c b'f'
    then some (c - 87)
    else if leb b'A' c && leb c b'F'
    then some (c - 55)
    else none

-- The next value of the accumulator, if the character is a digit of the base.
abbrev pub shift_digit : ℕ → ℕ → ℕ → Option ℕ
shift_digit base acc c = elim (digit_value c) [
  | none ↦ none
  | some d ↦ if ltb d base then some (acc * base + d) else none
]

abbrev all_space : String → Bool
all_space String.[] = true
all_space (String.◌∷◌ c s) = is_space (code c) && all_space s

-- The digits of the base up to the end of the text; white space may follow.
pub digits_from : ℕ → ℕ → String → Option ℕ
digits_from base acc String.[] = some acc
digits_from base acc (String.◌∷◌ c s) = elim (shift_digit base acc (code c)) [
  | some acc' ↦ digits_from base acc' s
  | none ↦ if is_space (code c) && all_space s then some acc else none
]

-- At least one digit.
pub digits : ℕ → String → Option ℕ
unfolding digits_from
digits base String.[] = none
digits base (String.◌∷◌ c s) = elim (shift_digit base 0 (code c)) [
  | some acc ↦ digits_from base acc s
  | none ↦ none
]

-- After a leading zero: another base, or decimal digits.
after_zero : String → Option ℕ
unfolding digits digits_from
after_zero String.[] = some 0
after_zero (String.◌∷◌ c s) =
    if eqb (code c) b'x' || eqb (code c) b'X'
    then digits 16 s
    else if eqb (code c) b'o' || eqb (code c) b'O'
    then digits 8 s
    else if eqb (code c) b'b' || eqb (code c) b'B'
    then digits 2 s
    else digits_from 10 0 (String.◌∷◌ c s)

-- `BigInt(text)`, where `none` is a SyntaxError: white space around the literal, the empty text as
-- zero, a sign before a decimal literal only.
unfoldable pub big_int : String → Option ℤ
unfolding digits digits_from after_zero
big_int String.[] = some (pos 0)
big_int (String.◌∷◌ c s) =
    let rest = big_int s in
    if is_space (code c)
    then rest
    else if eqb (code c) b'-'
    then Option.map neg_ℕ (digits 10 s)
    else if eqb (code c) b'+'
    then Option.map pos (digits 10 s)
    else if eqb (code c) b'0'
    then Option.map pos (after_zero s)
    else Option.map pos (digits 10 (String.◌∷◌ c s))

-- One decimal digit as a character.
abbrev pub digit : ℕ → Char
digit zero = "0"
digit (suc zero) = "1"
digit (suc (suc zero)) = "2"
digit (suc (suc (suc zero))) = "3"
digit (suc (suc (suc (suc zero)))) = "4"
digit (suc (suc (suc (suc (suc zero))))) = "5"
digit (suc (suc (suc (suc (suc (suc zero)))))) = "6"
digit (suc (suc (suc (suc (suc (suc (suc zero))))))) = "7"
digit (suc (suc (suc (suc (suc (suc (suc (suc zero)))))))) = "8"
digit _ = "9"

-- The decimal digits of a number, in front of a text; the fuel is more than the number.
unfoldable pub print_digits : ℕ → ℕ → String → String
print_digits zero n rest = rest
print_digits (suc fuel) n rest =
    let longer = print_digits fuel (n / 10) (String.◌∷◌ (digit (n % 10)) rest) in
    if ltb n 10 then String.◌∷◌ (digit n) rest else longer

unfoldable pub print_ℕ : ℕ → String
unfolding print_digits
print_ℕ n = print_digits (suc n) n ""

-- `value.toString()` of a BigInt.
unfoldable pub to_text : ℤ → String
unfolding print_ℕ
to_text (pos n) = print_ℕ n
to_text (negsuc n) = String.◌∷◌ "-" (print_ℕ (suc n))

parse_tests :
    (big_int "0x10" ≡ some (pos 16))
    × (big_int " 007 " ≡ some (pos 7))
    × (big_int "-12" ≡ some (negsuc 11))
    × (big_int "1.5" ≡ none)
    × (big_int "" ≡ some (pos 0))
    × (big_int "0" ≡ some (pos 0))
    × (big_int "12 3" ≡ none)
    × (to_text (pos 1050) ≡ "1050")
    × (to_text (negsuc 11) ≡ "-12")
unfolding big_int to_text
parse_tests = (refl, refl, refl, refl, refl, refl, refl, refl, refl)

digits_from-digit :
    (acc d : ℕ) (rest : String)
    → d < 10
    → digits_from 10 acc (String.◌∷◌ (digit d) rest) ≡ digits_from 10 (acc * 10 + d) rest
unfolding digits_from
digits_from-digit acc zero rest h = refl
digits_from-digit acc (suc zero) rest h = refl
digits_from-digit acc (suc (suc zero)) rest h = refl
digits_from-digit acc (suc (suc (suc zero))) rest h = refl
digits_from-digit acc (suc (suc (suc (suc zero)))) rest h = refl
digits_from-digit acc (suc (suc (suc (suc (suc zero))))) rest h = refl
digits_from-digit acc (suc (suc (suc (suc (suc (suc zero)))))) rest h = refl
digits_from-digit acc (suc (suc (suc (suc (suc (suc (suc zero))))))) rest h = refl
digits_from-digit acc (suc (suc (suc (suc (suc (suc (suc (suc zero)))))))) rest h = refl
digits_from-digit acc (suc (suc (suc (suc (suc (suc (suc (suc (suc zero))))))))) rest h = refl
digits_from-digit acc (suc (suc (suc (suc (suc (suc (suc (suc (suc (suc d)))))))))) rest h =
    absurd (omega arith)

-- What is printed begins with a digit, zero only for zero, and the digits after it lead to the
-- number.
record Printed (n : ℕ) (rest text : String) : Type 0 where
  first : ℕ
  others : String
  shape : text ≡ String.◌∷◌ (digit first) others
  is_digit : first < 10
  zero_alone : first ≡ 0 → (n ≡ 0) × (others ≡ rest)
  value : digits_from 10 first others ≡ digits_from 10 n rest

print_digits-Printed :
    (fuel n : ℕ) (rest : String) → n < fuel → Printed n rest (print_digits fuel n rest)
unfolding print_digits
print_digits-Printed zero n rest h = elim h [ ]
print_digits-Printed (suc fuel) n rest h = elim (Bool-cases (ltb n 10)) [
  | inl small ↦ rw small (record {
    first = n;
    others = rest;
    shape = refl;
    is_digit = ground arith;
    zero_alone = λ e. (e, refl);
    value = refl;
  })
  | inr large ↦
      let p =
        print_digits-Printed fuel (n / 10) (String.◌∷◌ (digit (n % 10)) rest) (ground arith) in
      rw large (record {
        first = p.first;
        others = p.others;
        shape = p.shape;
        is_digit = p.is_digit;
        zero_alone = λ e. let z = (p.zero_alone e).0 in absurd (ground arith);
        value =
            p.value
            ∙ digits_from-digit (n / 10) (n % 10) rest (omega arith)
            ∙ ap (λ k. digits_from 10 k rest) (omega arith);
      })
]

digits-digit :
    (d : ℕ) (s : String) → d < 10 → digits 10 (String.◌∷◌ (digit d) s) ≡ digits_from 10 d s
unfolding digits
digits-digit zero s h = refl
digits-digit (suc zero) s h = refl
digits-digit (suc (suc zero)) s h = refl
digits-digit (suc (suc (suc zero))) s h = refl
digits-digit (suc (suc (suc (suc zero)))) s h = refl
digits-digit (suc (suc (suc (suc (suc zero))))) s h = refl
digits-digit (suc (suc (suc (suc (suc (suc zero)))))) s h = refl
digits-digit (suc (suc (suc (suc (suc (suc (suc zero))))))) s h = refl
digits-digit (suc (suc (suc (suc (suc (suc (suc (suc zero)))))))) s h = refl
digits-digit (suc (suc (suc (suc (suc (suc (suc (suc (suc zero))))))))) s h = refl
digits-digit (suc (suc (suc (suc (suc (suc (suc (suc (suc (suc d)))))))))) s h =
    absurd (omega arith)

big_int-digit :
    (d : ℕ) (s : String)
    → d < 10
    → (d ≡ 0 → s ≡ "")
    → big_int (String.◌∷◌ (digit d) s) ≡ Option.map pos (digits_from 10 d s)
unfolding big_int
big_int-digit zero s h e = rw (e refl)
big_int-digit (suc zero) s h e = refl
big_int-digit (suc (suc zero)) s h e = refl
big_int-digit (suc (suc (suc zero))) s h e = refl
big_int-digit (suc (suc (suc (suc zero)))) s h e = refl
big_int-digit (suc (suc (suc (suc (suc zero))))) s h e = refl
big_int-digit (suc (suc (suc (suc (suc (suc zero)))))) s h e = refl
big_int-digit (suc (suc (suc (suc (suc (suc (suc zero))))))) s h e = refl
big_int-digit (suc (suc (suc (suc (suc (suc (suc (suc zero)))))))) s h e = refl
big_int-digit (suc (suc (suc (suc (suc (suc (suc (suc (suc zero))))))))) s h e = refl
big_int-digit (suc (suc (suc (suc (suc (suc (suc (suc (suc (suc d)))))))))) s h e =
    absurd (omega arith)

digits_from-Printed :
    {n : ℕ} {text : String} (p : Printed n "" text) → digits_from 10 p.first p.others ≡ some n
unfolding digits_from
digits_from-Printed p = p.value

print_ℕ-Printed : (n : ℕ) → Printed n "" (print_ℕ n)
unfolding print_ℕ
print_ℕ-Printed n = print_digits-Printed (suc n) n "" (omega arith)

pub digits-print_ℕ : (n : ℕ) → digits 10 (print_ℕ n) ≡ some n
digits-print_ℕ n =
    let p = print_ℕ-Printed n in
    rw p.shape (digits-digit p.first p.others p.is_digit ∙ digits_from-Printed p)

-- BigInt reads back what `toString` prints.
pub big_int-print_ℕ : (n : ℕ) → big_int (print_ℕ n) ≡ some (pos n)
big_int-print_ℕ n =
    let p = print_ℕ-Printed n in
    rw p.shape (
      big_int-digit p.first p.others p.is_digit (λ e. (p.zero_alone e).1)
      ∙ ap (Option.map pos) (digits_from-Printed p))

pub big_int-to_text : (z : ℤ) → big_int (to_text z) ≡ some z
unfolding to_text
big_int-to_text (pos n) = big_int-print_ℕ n
big_int-to_text (negsuc n) = minus (print_ℕ (suc n)) (digits-print_ℕ (suc n))
  where
    minus : (s : String) → digits 10 s ≡ some (suc n) → big_int (String.◌∷◌ "-" s) ≡ some (negsuc n)
    minus s e = unfold big_int in rw e (ground arith)
