-- ===== src/Base/Text/Contracts.antt =====
-- Contract identifiers: `address.name`.
use Prim.Native.Char.{code}
use Prim.Native.Nat.{ℕ, zero, suc}
use Prim.Native.String.{String}
use mathlib.Core.Path.{◌≡◌, refl}
use mathlib.Core.Bool.{Bool, true, false, ◌&&◌, ◌||◌}
use mailslot.Base.Tests.{leb, eqb, if◌then◌else◌}

abbrev is_digit : ℕ → Bool
is_digit c = leb b'0' c && leb c b'9'

abbrev is_upper : ℕ → Bool
is_upper c = leb b'A' c && leb c b'Z'

abbrev is_letter : ℕ → Bool
is_letter c = is_upper c || (leb b'a' c && leb c b'z')

-- Up to `n` characters of `[a-zA-Z0-9-]`, to the end.
is_name_rest : ℕ → String → Bool
is_name_rest n String.[] = true
is_name_rest zero (String.◌∷◌ c s) = false
is_name_rest (suc n) (String.◌∷◌ c s) =
    (is_letter (code c) || is_digit (code c) || eqb (code c) b'-') && is_name_rest n s

is_name : String → Bool
unfolding is_name_rest
is_name String.[] = false
is_name (String.◌∷◌ c s) = is_letter (code c) && is_name_rest 39 s

-- Up to `n` characters of `[0-9A-Z]`, then a dot and a name.
is_address_rest : ℕ → String → Bool
unfolding is_name
is_address_rest n String.[] = false
is_address_rest zero (String.◌∷◌ c s) = eqb (code c) b'.' && is_name s
is_address_rest (suc n) (String.◌∷◌ c s) =
    let rest = is_address_rest n s in
    if eqb (code c) b'.' then is_name s else (is_digit (code c) || is_upper (code c)) && rest

-- `isContractPrincipal`: `/^S[A-Z][0-9A-Z]{1,39}\.[a-zA-Z][a-zA-Z0-9-]{0,39}$/`
unfoldable pub is_contract_principal : String → Bool
unfolding is_address_rest
is_contract_principal (String.◌∷◌ a (String.◌∷◌ b (String.◌∷◌ c s))) =
    eqb (code a) b'S'
    && is_upper (code b)
    && (is_digit (code c) || is_upper (code c))
    && is_address_rest 38 s
is_contract_principal s = false

-- `text.split('.')[0]`
unfoldable pub first_part : String → String
first_part String.[] = ""
first_part (String.◌∷◌ c s) = if eqb (code c) b'.' then "" else String.◌∷◌ c (first_part s)

-- `text.split('.')[1]`, the empty text where it is undefined: the callers treat the two alike.
unfoldable pub second_part : String → String
unfolding first_part
second_part String.[] = ""
second_part (String.◌∷◌ c s) =
    let rest = second_part s in if eqb (code c) b'.' then first_part s else rest

contract_tests :
    (is_contract_principal "ST1ABC.token-1" ≡ true)
    × (is_contract_principal "ST1ABC" ≡ false)
    × (is_contract_principal "ST1ABC.1token" ≡ false)
    × (first_part "a.b.c" ≡ "a")
    × (second_part "a.b.c" ≡ "b")
unfolding is_contract_principal first_part second_part
contract_tests = (refl, refl, refl, refl, refl)
