-- ===== src/Auth/Tests.antt =====
-- The theorems about the c32 encoding at a few bytes, and its text.
use mailslot.Base.{ok, ℕ, ◌<◌, List, [], ◌∷◌, ◌≡◌, refl, All}
use mailslot.Clarity.Words.{bytes_value}
use mailslot.Auth.Address.{c32_loop, c32_char, c32_digits, c32_text, c32encode, leading_zeros}
use mailslot.Auth.Digits.{value_32, c32_digits_value}

encodes : c32encode (0 ∷ 1 ∷ 66 ∷ []) ≡ ok "0A2"
unfolding c32encode c32_digits c32_text c32_char c32_loop leading_zeros bytes_value
encodes = refl

abbrev some_bytes : List ℕ
some_bytes = 0 ∷ 1 ∷ 66 ∷ []

c32_digits_value_example :
    All (λ d. d < 32) (c32_digits some_bytes)
    × (value_32 (c32_digits some_bytes) 0 ≡ bytes_value some_bytes 0)
c32_digits_value_example = c32_digits_value some_bytes
