-- ===== src/Base/Text/Hex.antt =====
-- Hexadecimal texts, ASCII case, and trimming.
use Prim.Native.Char.{Char, code}
use Prim.Native.Nat.{ℕ, zero, suc}
use Prim.Native.String.{String}
use mathlib.Core.Bool.{Bool, true, false, ◌&&◌}
use mailslot.Base.Tests.{eqb, if◌then◌else◌, is_some}
use mailslot.Base.Text.Decimal.{digit_value, is_space}

-- `value.replace(/^0x/, '')`
unfoldable pub strip_0x : String → String
strip_0x (String.◌∷◌ c (String.◌∷◌ d s)) =
    if eqb (code c) b'0' && eqb (code d) b'x' then s else String.◌∷◌ c (String.◌∷◌ d s)
strip_0x s = s

-- Lower case of an ASCII letter in hexadecimal; other characters stay, since no other character
-- has a lower case among the hexadecimal digits.
abbrev lower_hex : Char → Char
lower_hex c =
    if eqb (code c) b'A'
    then "a"
    else if eqb (code c) b'B'
    then "b"
    else if eqb (code c) b'C'
    then "c"
    else if eqb (code c) b'D'
    then "d"
    else if eqb (code c) b'E'
    then "e"
    else if eqb (code c) b'F'
    then "f"
    else c

unfoldable pub lower : String → String
lower String.[] = String.[]
lower (String.◌∷◌ c s) = String.◌∷◌ (lower_hex c) (lower s)

-- Exactly `n` hexadecimal digits: `/^[0-9a-f]{n}$/` on a text in lower case.
unfoldable pub is_hex : ℕ → String → Bool
is_hex zero String.[] = true
is_hex zero (String.◌∷◌ c s) = false
is_hex (suc n) String.[] = false
is_hex (suc n) (String.◌∷◌ c s) = is_some (digit_value (code c)) && is_hex n s

-- White space taken off the front.
unfoldable pub trim_start : String → String
trim_start String.[] = String.[]
trim_start (String.◌∷◌ c s) =
    let rest = trim_start s in if is_space (code c) then rest else String.◌∷◌ c s

-- White space taken off the end.
unfoldable pub trim_end : String → String
trim_end String.[] = String.[]
trim_end (String.◌∷◌ c s) = keep c (trim_end s)
  where
    keep : Char → String → String
    keep d String.[] = if is_space (code d) then String.[] else String.◌∷◌ d String.[]
    keep d (String.◌∷◌ e r) = String.◌∷◌ d (String.◌∷◌ e r)

-- `text.trim()`
unfoldable pub trim : String → String
unfolding trim_start trim_end
trim s = trim_end (trim_start s)
