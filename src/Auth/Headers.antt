-- ===== src/Auth/Headers.antt =====
-- `verifyInboxAuth` and its two formats.
use mailslot.Base.{
  ℕ, String, Bool, true, false, Option, none, some, ◌==◌, ◌&&◌, ◌||◌, not, eqb, length,
  if◌then◌else◌, Result, ok, ◌>>=◌, ◌>>◌, or_reject, reject_if,
}
use mailslot.Base.Int.{ℤ, pos, ◌+ℤ◌, ltb_ℤ, eqb_ℤ}
use mailslot.Base.Text.{strip_0x}
use mailslot.Json.{Json, Value, null, str, property, text_or, as_text, is_nullish}
use mailslot.Auth.Outside.{AuthConfig, Node, truthy, text_of, get_auth_audience}

-- `AuthResult`: the payload and the key that has signed it.
pub record AuthResult : Type 0 where
  pub action : Value
  pub address : String
  pub message_id : Value
  pub pubkey_hex : String

-- `value?.name`
unfoldable pub optional_property : Value → String → Result Value
optional_property none name = ok none
optional_property (some null) name = ok none
optional_property (some v) name = property v name

-- `value === text`
unfoldable pub is_text : Value → String → Bool
is_text (some (str s)) t = s == t
is_text _ t = false

-- The age of a timestamp: neither comparison holds of NaN.
unfoldable pub check_fresh : AuthConfig → ℕ → Option ℤ → Result (Unit {0})
check_fresh c now none = ok tt
check_fresh c now (some timestamp) =
    reject_if
      (ltb_ℤ (pos now) timestamp || ltb_ℤ (timestamp +ℤ pos c.auth_timestamp_ttl_ms) (pos now)) 401
      "auth-expired"

-- The key's address on either network is the one that is claimed.
unfoldable pub is_address_of : Node → String → String → Bool
is_address_of n pubkey address =
    n.mainnet_address pubkey == address || n.testnet_address pubkey == address

-- `verifySecp256k1Signature`: 64 bytes of a signature, 33 of a key, and what ECDSA says of them.
unfoldable pub verify_secp256k1_signature : Node → String → String → String → Bool
verify_secp256k1_signature n message signature pubkey =
    eqb (length (n.from_hex (strip_0x signature))) 64
    && eqb (length (n.from_hex (strip_0x pubkey))) 33
    && n.verify_ecdsa message (n.from_hex (strip_0x signature)) (n.from_hex (strip_0x pubkey))

-- `(audience ?? '') === expected`
unfoldable pub is_audience : Value → String → Bool
is_audience none expected = "" == expected
is_audience (some null) expected = "" == expected
is_audience (some (str s)) expected = s == expected
is_audience (some _) expected = false

-- `Number(value)` of a value that is there.
unfoldable pub value_number : Node → Value → Option ℤ
value_number n none = none
value_number n (some v) = n.to_number v

-- The fields of a header of the first format that must be there.
pub record LegacyFields : Type 0 where
  pub pubkey : String
  pub payload : Json
  pub action : Value
  pub address : Value
  pub timestamp : Value
  pub signature : String

unfoldable pub read_legacy : Json → Result LegacyFields
unfolding optional_property
read_legacy parsed = do
  pubkey_value ← property parsed "pubkey"
  found ← property parsed "payload"
  signature_value ← property parsed "signature"
  pubkey ← or_reject (text_of pubkey_value) 401 "missing-pubkey"
  action ← optional_property found "action"
  address ← optional_property found "address"
  timestamp ← optional_property found "timestamp"
  payload ← or_reject found 401 "invalid-auth-payload"
  reject_if (not (truthy action && truthy address && truthy timestamp)) 401 "invalid-auth-payload"
  signature ← or_reject (text_of signature_value) 401 "missing-signature"
  ok (record {
    pubkey = pubkey;
    payload = payload;
    action = action;
    address = address;
    timestamp = timestamp;
    signature = signature;
  })

-- The checks on them.
unfoldable pub check_legacy : Node → AuthConfig → ℕ → LegacyFields → Result AuthResult
unfolding optional_property check_fresh is_address_of verify_secp256k1_signature is_audience
    value_number
check_legacy n c now f = do
  check_fresh c now (value_number n f.timestamp)
  audience ← optional_property (some f.payload) "audience"
  reject_if (not (is_audience audience (get_auth_audience c))) 401 "audience-mismatch"
  address ← or_reject (as_text f.address) 401 "address-mismatch"
  reject_if (not (is_address_of n f.pubkey address)) 401 "address-mismatch"
  reject_if (not (verify_secp256k1_signature n (n.stringify f.payload) f.signature f.pubkey)) 401
      "invalid-signature"
  message_id ← optional_property (some f.payload) "messageId"
  ok (record {
    action = f.action;
    address = address;
    message_id = message_id;
    pubkey_hex = f.pubkey;
  })

-- Format 1: a signature of the payload's JSON.
unfoldable pub verify_legacy_auth : Node → AuthConfig → ℕ → Json → Result AuthResult
unfolding read_legacy check_legacy
verify_legacy_auth n c now parsed = do f ← read_legacy parsed; check_legacy n c now f

-- `String(message.name?.value ?? fallback)`
unfoldable pub typed_text : String → Json → String → Result String
unfolding optional_property
typed_text fallback message name = do
  typed ← property message name
  value ← optional_property typed "value"
  ok (text_or fallback value)

-- `String(message.messageId.value)`, if it is there.
unfoldable pub typed_message_id : Json → Result Value
unfolding optional_property
typed_message_id message = do
  typed ← property message "messageId"
  value ← optional_property typed "value"
  ok (if is_nullish value then none else some (str (text_or "" value)))

-- `!timestamp` of a number.
unfoldable pub is_zero_or_nan : Option ℤ → Bool
is_zero_or_nan none = true
is_zero_or_nan (some t) = eqb_ℤ t (pos 0)

-- The fields of a header of the second format.
pub record WalletFields : Type 0 where
  pub pubkey : String
  pub message : Json
  pub signature : String
  pub action : String
  pub address : String
  pub timestamp : String
  pub message_id : Value
  pub audience : String

unfoldable pub read_message : String → Json → String → Result WalletFields
unfolding typed_text typed_message_id
read_message pubkey message signature = do
  action ← typed_text "" message "action"
  address ← typed_text "" message "address"
  timestamp ← typed_text "0" message "timestamp"
  message_id ← typed_message_id message
  audience ← typed_text "" message "audience"
  ok (record {
    pubkey = pubkey;
    message = message;
    signature = signature;
    action = action;
    address = address;
    timestamp = timestamp;
    message_id = message_id;
    audience = audience;
  })

-- The checks on them.
unfoldable pub check_wallet : Node → AuthConfig → ℕ → WalletFields → Result AuthResult
unfolding check_fresh is_address_of is_zero_or_nan
check_wallet n c now f = do
  let timestamp = n.to_number (str f.timestamp)
  reject_if (f.action == "" || f.address == "" || is_zero_or_nan timestamp || f.audience == "") 401
      "invalid-auth-payload"
  check_fresh c now timestamp
  reject_if (not (f.audience == get_auth_audience c)) 401 "audience-mismatch"
  reject_if (not (is_address_of n f.pubkey f.address)) 401 "address-mismatch"
  reject_if (not (n.verify_message "Mailslot" f.message f.signature f.address c.chain_id)) 401
      "invalid-signature"
  ok (record {
    action = some (str f.action);
    address = f.address;
    message_id = f.message_id;
    pubkey_hex = f.pubkey;
  })

-- Format 2: a signature of a typed message by a wallet.
unfoldable pub verify_wallet_auth : Node → AuthConfig → ℕ → Json → Result AuthResult
unfolding read_message check_wallet
verify_wallet_auth n c now parsed = do
  pubkey_value ← property parsed "pubkey"
  message_value ← property parsed "message"
  signature_value ← property parsed "signature"
  pubkey ← or_reject (text_of pubkey_value) 401 "missing-pubkey"
  message ← or_reject (if truthy message_value then message_value else none) 401 "missing-message"
  signature ← or_reject (text_of signature_value) 401 "missing-signature"
  f ← read_message pubkey message signature
  check_wallet n c now f

-- `verifyInboxAuth`
unfoldable pub verify_inbox_auth : Node → AuthConfig → ℕ → String → Result AuthResult
unfolding verify_legacy_auth verify_wallet_auth is_text
verify_inbox_auth n c now header = do
  parsed ← or_reject (n.parse (n.decode_base64 header)) 401 "invalid-auth-encoding"
  type_value ← property parsed "type"
  if is_text type_value "sip018"
      then verify_wallet_auth n c now parsed
      else verify_legacy_auth n c now parsed
