-- ===== src/Auth/Outside.antt =====
-- What authentication is given: its configuration, and the functions of Node.js that it calls.
use Prim.Native.Char.{code}
use mailslot.Base.{
  ℕ, String, Bool, true, false, List, Option, none, some, ◌==◌, ◌||◌, not, eqb, if◌then◌else◌,
}
use mailslot.Base.Int.{ℤ}
use mailslot.Base.Text.{trim}
use mailslot.Json.{Json, Value, null, bool, num, str, arr, obj}

-- The part of `Config` that authentication reads.
pub record AuthConfig : Type 0 where
  pub auth_audience : String
  pub reservoir_contract_id : String
  pub server_stx_address : String
  pub server_private_key : String
  pub chain_id : ℕ
  pub auth_timestamp_ttl_ms : ℕ
  pub inbox_session_ttl_ms : ℕ

-- Node's codecs and digests, and the two verifications of signatures.
pub record Node : Type 0 where
  -- `Buffer.from(text).toString('base64url')`, and back through UTF-8
  pub encode_text : String → String
  pub decode_text : String → String
  -- the same on bytes
  pub encode_bytes : List ℕ → String
  pub decode_bytes : String → List ℕ
  -- `Buffer.from(text, 'base64').toString('utf-8')`
  pub decode_base64 : String → String
  -- `JSON.parse`, none where it throws, and `JSON.stringify`
  pub parse : String → Option Json
  pub stringify : Json → String
  -- `Number(value)`, none for NaN; fractions of a millisecond are left out
  pub to_number : Json → Option ℤ
  -- SHA-256 of a text, and the HMAC with it of a text under a key
  pub sha256 : String → List ℕ
  pub hmac : List ℕ → String → List ℕ
  -- the addresses of a public key on the main and on the test network
  pub mainnet_address : String → String
  pub testnet_address : String → String
  -- `Buffer.from(text, 'hex')`
  pub from_hex : String → List ℕ
  -- ECDSA of a text in UTF-8 with the bytes of a signature and of a public key; false where it throws
  pub verify_ecdsa : String → List ℕ → List ℕ → Bool
  -- `sip018Verify`: domain, message, signature, address and chain
  pub verify_message : String → Json → String → String → ℕ → Bool

-- A text has a dot.
unfoldable pub has_dot : String → Bool
has_dot String.[] = false
has_dot (String.◌∷◌ c s) = eqb (code c) b'.' || has_dot s

-- `!!value`
unfoldable pub truthy : Value → Bool
truthy none = false
truthy (some null) = false
truthy (some (bool b)) = b
truthy (some (num t)) = not (t == "0")
truthy (some (str s)) = not (s == "")
truthy (some (arr _)) = true
truthy (some (obj _)) = true

-- A text that is not empty, or none: `!value || typeof value !== 'string'` tests that.
unfoldable pub text_of : Value → Option String
text_of (some (str s)) = if s == "" then none else some s
text_of _ = none

-- The first of the configured names that is not blank: `getAuthAudience`.
unfoldable pub get_auth_audience : AuthConfig → String
get_auth_audience c =
    if not (trim c.auth_audience == "")
    then trim c.auth_audience
    else if not (trim c.reservoir_contract_id == "")
    then trim c.reservoir_contract_id
    else if not (trim c.server_stx_address == "")
    then trim c.server_stx_address
    else "Mailslot"
