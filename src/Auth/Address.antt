-- ===== src/Auth/Address.antt =====
-- `pubkeyToStxAddress`, `hash160ToStxAddress` and the c32check encoding.
use Prim.Native.Char.{Char}
use mailslot.Base.{
  ℕ, zero, suc, ◌/◌, ◌%◌, String, Bool, List, [], ◌∷◌, ◌++◌, take, eqb, if◌then◌else◌, Result, ok,
  err, thrown, ◌>>=◌,
}
use mailslot.Base.Text.{strip_0x}
use mailslot.Clarity.Words.{bytes_value}

-- The digests of Node's crypto, and `Buffer.from(text, 'hex')`.
pub record Digests : Type 0 where
  pub sha256 : List ℕ → List ℕ
  pub ripemd160 : List ℕ → List ℕ
  pub from_hex : String → List ℕ

-- `C32_CHARS[d]`
unfoldable pub c32_char : ℕ → Char
c32_char d = at d "0123456789ABCDEFGHJKMNPQRSTVWXYZ"
  where
    at : ℕ → String → Char
    at n String.[] = "0"
    at zero (String.◌∷◌ c s) = c
    at (suc n) (String.◌∷◌ c s) = at n s

-- The loop `while (n > 0n)`: the digits of a number in base 32, in front of others; the fuel is more
-- than the number.
unfoldable pub c32_loop : ℕ → ℕ → List ℕ → List ℕ
c32_loop zero n rest = rest
c32_loop (suc fuel) n rest =
    let more = c32_loop fuel (n / 32) (n % 32 ∷ rest) in if eqb n 0 then rest else more

-- A zero for each zero byte at the front.
unfoldable pub leading_zeros : List ℕ → List ℕ
leading_zeros [] = []
leading_zeros (b ∷ bytes) = let rest = leading_zeros bytes in if eqb b 0 then 0 ∷ rest else []

-- The digits of `c32encode` for the bytes that it does not refuse, the first digit first.
unfoldable pub c32_digits : List ℕ → List ℕ
unfolding c32_loop leading_zeros
c32_digits bytes = let n = bytes_value bytes 0 in leading_zeros bytes ++ c32_loop (suc n) n []

unfoldable pub c32_text : List ℕ → String
unfolding c32_char
c32_text [] = ""
c32_text (d ∷ ds) = String.◌∷◌ (c32_char d) (c32_text ds)

-- `c32encode`; of no bytes, `BigInt('0x')` throws.
unfoldable pub c32encode : List ℕ → Result String
unfolding c32_digits c32_text
c32encode [] = err (thrown "SyntaxError")
c32encode (b ∷ bytes) = ok (c32_text (c32_digits (b ∷ bytes)))

-- `c32checkEncode`
unfoldable pub c32check_encode : Digests → ℕ → List ℕ → Result String
unfolding c32encode c32_char
c32check_encode d version bytes = do
  let checksum = take 4 (d.sha256 (d.sha256 (version % 256 ∷ bytes)))
  encoded ← c32encode (bytes ++ checksum)
  ok (String.◌∷◌ "S" (String.◌∷◌ (c32_char (version % 32)) encoded))

-- `pubkeyToStxAddress`
unfoldable pub pubkey_to_stx_address : Digests → String → Bool → Result String
unfolding c32check_encode
pubkey_to_stx_address d pubkey_hex testnet =
    let hash160 = d.ripemd160 (d.sha256 (d.from_hex (strip_0x pubkey_hex))) in
    c32check_encode d (if testnet then 26 else 22) hash160

-- `hash160ToStxAddress`
unfoldable pub hash160_to_stx_address : Digests → String → ℕ → Result String
unfolding c32check_encode
hash160_to_stx_address d hash160_hex version = c32check_encode d version (d.from_hex hash160_hex)
