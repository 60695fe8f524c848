-- ===== src/App/Entry.antt =====
-- Who may call: `requireAuth`, `requireAdminAuth` and `reservoirAdminAddress`.
use Prim.Native.Char.{code}
use Prim.Native.Nat.{ℕ, zero, suc}
use mailslot.Base.{
  String, Bool, true, false, Option, none, some, ◌==◌, ◌&&◌, ◌||◌, not, leb, eqb, if◌then◌else◌,
  Failure, service, thrown, ok, err,
}
use mailslot.Base.Text.{first_part}
use mailslot.Json.{Value, str}
use mailslot.Store.Rows.{Store}
use mailslot.Store.Methods.{save_public_key}
use mailslot.Auth.Outside.{Node, AuthConfig}
use mailslot.Auth.Sessions.{
  InboxSessionPayload, SessionToken, issue_inbox_session_token, verify_inbox_session_token,
}
use mailslot.Auth.Headers.{AuthResult, is_text, verify_inbox_auth}

-- The headers that tell who calls; an empty one is as absent.
pub record Credentials : Type 0 where
  pub session : String
  pub auth : String

-- What a route expects of a signed payload.
pub record Expected : Type 0 where
  pub action : String
  pub message_id : Option String

pub data Entry : Type 0 where
  refused : ℕ → String → Entry
  granted : AuthResult → Entry

-- The answer, the session token that the response carries, and the store.
pub record Access : Type 0 where
  pub entry : Entry
  pub session : Option SessionToken
  pub store : Store

unfoldable pub refusal : Failure → Entry
refusal (service status reason) = refused status reason
refusal (thrown message) = refused 500 "internal-error"

-- `expected.messageId != null && auth.payload.messageId !== expected.messageId`
unfoldable pub is_other_message : Option String → Value → Bool
is_other_message none actual = false
is_other_message (some id) actual = not (is_text actual id)

-- `messageId` of the payload that a session stands for.
unfoldable pub expected_id : Option String → Value
expected_id none = none
expected_id (some id) = some (str id)

-- A session stands for whatever the route expects.
unfoldable pub session_result : Expected → InboxSessionPayload → AuthResult
unfolding expected_id
session_result expected session = record {
  action = some (str expected.action);
  address = session.address;
  message_id = expected_id expected.message_id;
  pubkey_hex = "";
}

unfoldable pub enter_by_session : Node → AuthConfig → ℕ → String → Expected → Store → Access
unfolding session_result refusal
enter_by_session n c now token expected st = elim (verify_inbox_session_token n c now token) [
  | err e ↦ record { entry = refusal e; session = none; store = st }
  | ok session ↦ record {
    entry = granted (session_result expected session);
    session = some (issue_inbox_session_token n c now session.address);
    store = st;
  }
]

-- What a signed payload is let in for.
unfoldable pub check_expected : Expected → AuthResult → Entry
unfolding is_other_message
check_expected expected auth =
    if not (is_text auth.action expected.action)
    then refused 403 "auth-action-mismatch"
    else if is_other_message expected.message_id auth.message_id
    then refused 403 "auth-message-id-mismatch"
    else granted auth

-- The key is saved and the session issued before the payload's action is looked at.
unfoldable pub enter_by_signature : Node → AuthConfig → ℕ → String → Expected → Store → Access
unfolding check_expected refusal
enter_by_signature n c now header expected st = elim (verify_inbox_auth n c now header) [
  | err e ↦ record { entry = refusal e; session = none; store = st }
  | ok auth ↦ record {
    entry = check_expected expected auth;
    session = some (issue_inbox_session_token n c now auth.address);
    store = save_public_key auth.address auth.pubkey_hex now st;
  }
]

-- `requireAuth`
unfoldable pub require_auth : Node → AuthConfig → ℕ → Credentials → Expected → Store → Access
unfolding enter_by_session enter_by_signature
require_auth n c now credentials expected st =
    if not (credentials.session == "")
    then enter_by_session n c now credentials.session expected st
    else if credentials.auth == ""
    then record { entry = refused 401 "auth-required"; session = none; store = st }
    else enter_by_signature n c now credentials.auth expected st

is_upper_or_digit : ℕ → Bool
is_upper_or_digit c = (leb b'0' c && leb c b'9') || (leb b'A' c && leb c b'Z')

is_address_rest : ℕ → String → Bool
unfolding is_upper_or_digit
is_address_rest zero String.[] = true
is_address_rest zero (String.◌∷◌ c s) = false
is_address_rest (suc k) String.[] = false
is_address_rest (suc k) (String.◌∷◌ c s) = is_upper_or_digit (code c) && is_address_rest k s

-- `/^S[PT][0-9A-Z]{39}$/`
unfoldable pub is_stacks_address : String → Bool
unfolding is_address_rest
is_stacks_address (String.◌∷◌ a (String.◌∷◌ b s)) =
    eqb (code a) b'S' && (eqb (code b) b'P' || eqb (code b) b'T') && is_address_rest 39 s
is_stacks_address s = false

-- `reservoirAdminAddress`
unfoldable pub reservoir_admin_address : AuthConfig → Option String
reservoir_admin_address c =
    let address = first_part c.reservoir_contract_id in
    if is_stacks_address address then some address else none

-- `!adminAddress || auth.payload.address !== adminAddress` is refused.
unfoldable pub check_deployer : Option String → AuthResult → Entry
check_deployer none auth = refused 403 "admin-required"
check_deployer (some address) auth =
    if address == auth.address then granted auth else refused 403 "admin-required"

unfoldable pub check_admin : Option String → AuthResult → Entry
unfolding check_deployer
check_admin admin auth =
    if not (is_text auth.action "admin-settings")
    then refused 403 "auth-action-mismatch"
    else check_deployer admin auth

-- `requireAdminAuth`
unfoldable pub require_admin_auth : Node → AuthConfig → ℕ → String → Entry
unfolding reservoir_admin_address check_admin refusal
require_admin_auth n c now header =
    if header == "" then refused 401 "auth-required" else elim (verify_inbox_auth n c now header) [
      | err e ↦ refusal e
      | ok auth ↦ check_admin (reservoir_admin_address c) auth
    ]
