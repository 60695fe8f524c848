-- ===== src/Auth/Sessions.antt =====
-- `issueInboxSessionToken` and `verifyInboxSessionToken`.
use Prim.Native.String
use mailslot.Base.{
  ℕ, ◌+◌, String, Bool, true, false, List, [], ◌∷◌, Option, none, some, ◌==◌, ◌&&◌, ◌||◌, not, eqb,
  Result, ok, ◌>>=◌, ◌>>◌, or_reject, reject_if,
}
use mailslot.Base.Int.{ℤ, pos, ltb_ℤ}
use mailslot.Base.Text.{to_text, first_part, second_part}
use mailslot.Json.{Json, Value, num, str, obj, field, end, property}
use mailslot.Auth.Outside.{AuthConfig, Node, text_of}

-- `InboxSessionPayload`; `exp` is the number that the token has, none where it is not comparable.
pub record InboxSessionPayload : Type 0 where
  pub address : String
  pub exp : Option ℤ

pub record SessionToken : Type 0 where
  pub token : String
  pub expires_at : ℕ

unfoldable pub get_session_secret : Node → AuthConfig → List ℕ
get_session_secret n c = n.sha256 (
    String.◌++◌ "mailslot-session-v1|" (
      String.◌++◌ c.server_private_key (
        String.◌++◌ "|"
          (String.◌++◌ c.server_stx_address (String.◌++◌ "|" (to_text (pos c.chain_id)))))))

-- The payload of a session as a value of JSON.
abbrev pub session_payload : String → ℕ → Json
session_payload address exp =
    obj (field "address" (str address) (field "exp" (num (to_text (pos exp))) end))

unfoldable pub issue_inbox_session_token : Node → AuthConfig → ℕ → String → SessionToken
unfolding get_session_secret
issue_inbox_session_token n c now address =
    let exp = now + c.inbox_session_ttl_ms in
    let encoded = n.encode_text (n.stringify (session_payload address exp)) in
    let sig = n.hmac (get_session_secret n c) encoded in
    record { token = String.◌++◌ encoded (String.◌++◌ "." (n.encode_bytes sig)); expires_at = exp }

unfoldable pub equal_bytes : List ℕ → List ℕ → Bool
equal_bytes [] [] = true
equal_bytes (a ∷ rest) (b ∷ rest2) = eqb a b && equal_bytes rest rest2
equal_bytes _ _ = false

-- `typeof value === 'number'`
unfoldable pub number_of : Node → Value → Option (Option ℤ)
number_of n (some (num t)) = some (n.to_number (num t))
number_of n _ = none

-- `Date.now() > exp`
unfoldable pub is_expired : ℕ → Option ℤ → Bool
is_expired now none = false
is_expired now (some exp) = ltb_ℤ exp (pos now)

unfoldable pub verify_inbox_session_token :
    Node → AuthConfig → ℕ → String → Result InboxSessionPayload
unfolding get_session_secret equal_bytes number_of is_expired
verify_inbox_session_token n c now token = do
  let encoded = first_part token
  let sig = second_part token
  reject_if (encoded == "" || sig == "") 401 "invalid-session"
  reject_if (not (equal_bytes (n.decode_bytes sig) (n.hmac (get_session_secret n c) encoded))) 401
      "invalid-session"
  payload ← or_reject (n.parse (n.decode_text encoded)) 401 "invalid-session"
  address_value ← property payload "address"
  exp_value ← property payload "exp"
  address ← or_reject (text_of address_value) 401 "invalid-session"
  exp ← or_reject (number_of n exp_value) 401 "invalid-session"
  reject_if (is_expired now exp) 401 "session-expired"
  ok (record { address = address; exp = exp })
