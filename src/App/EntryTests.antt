-- ===== src/App/EntryTests.antt =====
-- The theorems about who is let in, at a header of a wallet, with concrete functions in place of
-- Node's.
use mailslot.Base.{String, true, false, [], ◌∷◌, none, some, ◌≡◌, refl, ok, ◌==◌, if◌then◌else◌}
use mailslot.Base.Int.{pos, ◌+ℤ◌}
use mailslot.Base.Text.{big_int, to_text, print_ℕ, trim, first_part}
use mailslot.Json.{Json, num, str, obj, field, end, property, lookup_field, text_or, json_text}
use mailslot.Store.Rows.{Store}
use mailslot.Auth.Outside.{AuthConfig, Node, has_dot, text_of, truthy, get_auth_audience}
use mailslot.Auth.Sessions.{
  session_payload, issue_inbox_session_token, verify_inbox_session_token, get_session_secret,
}
use mailslot.Auth.Headers.{
  AuthResult, is_text, optional_property, check_fresh, is_address_of, typed_text, typed_message_id,
  is_zero_or_nan, read_message, check_wallet, verify_wallet_auth, verify_inbox_auth,
}
use mailslot.Auth.Tokens.{
  IsCodec, IsSession, verify_inbox_session_token-issue_inbox_session_token,
  verify_inbox_session_token-IsSession,
}
use mailslot.Auth.Verified.{Authentic, verify_inbox_auth-Authentic}
use mailslot.App.Entry.{
  Credentials, Expected, granted, is_stacks_address, check_expected, check_admin, check_deployer,
  reservoir_admin_address, require_auth, require_admin_auth, session_result, enter_by_signature,
  is_other_message,
}
use mailslot.App.Access.{Granted, require_auth-Granted, require_admin_auth-admin}
use mailslot.App.Sessions.{session_reaches_all}

abbrev pub admin : String
admin = "SP00000000000000000000000000000000000000A"

abbrev pub config : AuthConfig
config = record {
  auth_audience = "";
  reservoir_contract_id = "SP00000000000000000000000000000000000000A.r";
  server_stx_address = "";
  server_private_key = "key";
  chain_id = 1;
  auth_timestamp_ttl_ms = 100;
  inbox_session_ttl_ms = 1000;
}

abbrev wallet_message : Json
wallet_message = obj (
    field "action" (obj (field "value" (str "admin-settings") end)) (
      field "address" (obj (field "value" (str admin) end)) (
        field "timestamp" (obj (field "value" (num "5") end)) (
          field "audience"
            (obj (field "value" (str "SP00000000000000000000000000000000000000A.r") end)) end))))

abbrev pub header_json : Json
header_json = obj (
    field "type" (str "sip018") (
      field "pubkey" (str "02")
        (field "message" wallet_message (field "signature" (str "signed") end))))

abbrev text_of_json : Json → String
text_of_json (num t) = t
text_of_json (str t) = t
text_of_json _ = ""

abbrev pub node : Node
node = record {
  encode_text = λ t. "p";
  decode_text = λ t. "session";
  encode_bytes = λ b. "m";
  decode_bytes = λ t. 1 ∷ [];
  decode_base64 = λ t. t;
  parse = λ t. if t == "session" then some (session_payload admin 1005) else some header_json;
  stringify = λ v. "session";
  to_number = λ v. big_int (text_of_json v);
  sha256 = λ t. 7 ∷ [];
  hmac = λ k t. 1 ∷ [];
  mainnet_address = λ k. admin;
  testnet_address = λ k. "";
  from_hex = λ t. [];
  verify_ecdsa = λ t s k. false;
  verify_message = λ d m s a chain. s == "signed";
}

reads_itself : IsCodec node (get_session_secret node config) admin 1005
unfolding has_dot big_int to_text print_ℕ
reads_itself = record {
  json = refl;
  number = refl;
  text = refl;
  bytes = refl;
  undotted_text = refl;
  undotted_bytes = refl;
  some_text = refl;
  some_bytes = refl;
}

verify_inbox_session_token-issue_inbox_session_token_example :
    verify_inbox_session_token node config 900 (issue_inbox_session_token node config 5 admin).token
    ≡ ok (record { address = admin; exp = some (pos 1005) })
verify_inbox_session_token-issue_inbox_session_token_example =
    verify_inbox_session_token-issue_inbox_session_token node config 5 900 admin reads_itself refl

verify_inbox_session_token-IsSession_example :
    IsSession node config 900
      (issue_inbox_session_token node config 5 admin).token
      (record { address = admin; exp = some (pos 1005) })
verify_inbox_session_token-IsSession_example =
    verify_inbox_session_token-IsSession node config 900
      (issue_inbox_session_token node config 5 admin).token
      (record { address = admin; exp = some (pos 1005) })
      (verify_inbox_session_token-issue_inbox_session_token node config 5 900 admin reads_itself
        refl)

abbrev pub signed_in : AuthResult
signed_in = record {
  action = some (str "admin-settings");
  address = admin;
  message_id = none;
  pubkey_hex = "02";
}

signs_in : verify_inbox_auth node config 50 "header" ≡ ok signed_in
unfolding verify_inbox_auth verify_wallet_auth read_message check_wallet property lookup_field
    text_of truthy typed_text typed_message_id optional_property text_or json_text is_text
    check_fresh is_address_of is_zero_or_nan get_auth_audience trim big_int ◌+ℤ◌
signs_in = refl

verify_inbox_auth-Authentic_example :
    (parsed : Json) × (node.parse "header" ≡ some parsed)
    × Authentic node config 50 parsed signed_in
verify_inbox_auth-Authentic_example =
    verify_inbox_auth-Authentic node config 50 "header" signed_in signs_in

administers : require_admin_auth node config 50 "header" ≡ granted signed_in
unfolding require_admin_auth verify_inbox_auth verify_wallet_auth read_message check_wallet property
    lookup_field text_of truthy typed_text typed_message_id optional_property text_or json_text
    is_text check_fresh is_address_of is_zero_or_nan get_auth_audience trim big_int ◌+ℤ◌ check_admin
    check_deployer reservoir_admin_address is_stacks_address first_part
administers = refl

require_admin_auth-admin_example :
    (verify_inbox_auth node config 50 "header" ≡ ok signed_in)
    × (is_text (some (str "admin-settings")) "admin-settings" ≡ true)
    × (reservoir_admin_address config ≡ some admin)
require_admin_auth-admin_example =
    require_admin_auth-admin node config 50 "header" signed_in administers

abbrev credentials : Credentials
credentials = record { session = ""; auth = "header" }

abbrev settings_route : Expected
settings_route = record { action = "admin-settings"; message_id = none }

abbrev store : Store
store = record { messages = []; settlements = []; public_keys = []; payment_infos = [] }

enters : (require_auth node config 50 credentials settings_route store).entry ≡ granted signed_in
unfolding require_auth enter_by_signature verify_inbox_auth verify_wallet_auth read_message
    check_wallet property lookup_field text_of truthy typed_text typed_message_id optional_property
    text_or json_text is_text check_fresh is_address_of is_zero_or_nan get_auth_audience trim
    big_int ◌+ℤ◌ check_expected is_other_message
enters = refl

require_auth-Granted_example :
    Granted node config 50 credentials settings_route store signed_in
      (require_auth node config 50 credentials settings_route store)
require_auth-Granted_example =
    require_auth-Granted node config 50 credentials settings_route store signed_in enters

abbrev later_config : AuthConfig
later_config = record config { inbox_session_ttl_ms = 955 }

reads_back : IsCodec node (get_session_secret node later_config) admin 1005
unfolding has_dot big_int to_text print_ℕ
reads_back = record {
  json = refl;
  number = refl;
  text = refl;
  bytes = refl;
  undotted_text = refl;
  undotted_bytes = refl;
  some_text = refl;
  some_bytes = refl;
}

signs_in_later : verify_inbox_auth node later_config 50 "header" ≡ ok signed_in
unfolding verify_inbox_auth verify_wallet_auth read_message check_wallet property lookup_field
    text_of truthy typed_text typed_message_id optional_property text_or json_text is_text
    check_fresh is_address_of is_zero_or_nan get_auth_audience trim big_int ◌+ℤ◌
signs_in_later = refl

session_reaches_all_example :
    ((require_auth node later_config 50 credentials
        (record { action = "get-inbox"; message_id = none })
        store).session
      ≡ some (issue_inbox_session_token node later_config 50 admin))
    × ((require_auth node later_config 900
          (record {
            session = (issue_inbox_session_token node later_config 50 admin).token;
            auth = "";
          })
          (record { action = "claim-message"; message_id = some "m1" })
          store).entry
        ≡ granted (
            session_result
              (record { action = "claim-message"; message_id = some "m1" })
              (record { address = admin; exp = some (pos 1005) })))
session_reaches_all_example =
    session_reaches_all node later_config 50 900 credentials
      (record { action = "get-inbox"; message_id = none })
      (record { action = "claim-message"; message_id = some "m1" }) store store signed_in reads_back
      refl refl signs_in_later refl refl
