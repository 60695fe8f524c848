-- ===== src/App/Sessions.antt =====
-- How far a session reaches.
use mailslot.Base.{ℕ, ◌+◌, false, some, ◌≡◌, refl, ◌==◌, ok}
use mailslot.Base.Int.{pos, ltb_ℤ}
use mailslot.Store.Rows.{Store}
use mailslot.Auth.Outside.{Node, AuthConfig}
use mailslot.Auth.Sessions.{get_session_secret, issue_inbox_session_token}
use mailslot.Auth.Headers.{AuthResult, verify_inbox_auth}
use mailslot.Auth.Tokens.{
  IsCodec, verify_inbox_session_token-issue_inbox_session_token, issue_inbox_session_token-some,
}
use mailslot.App.Entry.{
  Credentials, Expected, granted, session_result, enter_by_session, enter_by_signature,
  require_auth,
}

-- A header that is authentic hands out a session of its address, whatever it is signed for and
-- whether or not the route lets it in; until it expires, that session alone is let in for every
-- action and every message.
pub session_reaches_all :
    (n : Node) (c : AuthConfig) (now later : ℕ) (credentials : Credentials)
    (first second : Expected) (st st' : Store) (auth : AuthResult)
    → IsCodec n (get_session_secret n c) auth.address (now + c.inbox_session_ttl_ms)
    → credentials.session ≡ ""
    → (credentials.auth == "") ≡ false
    → verify_inbox_auth n c now credentials.auth ≡ ok auth
    → (auth.address == "") ≡ false
    → ltb_ℤ (pos (now + c.inbox_session_ttl_ms)) (pos later) ≡ false
    → ((require_auth n c now credentials first st).session
        ≡ some (issue_inbox_session_token n c now auth.address))
      × ((require_auth n c later
            (record { session = (issue_inbox_session_token n c now auth.address).token; auth = "" })
            second
            st').entry
          ≡ granted (
              session_result second (record {
                address = auth.address;
                exp = some (pos (now + c.inbox_session_ttl_ms));
              })))
unfolding require_auth enter_by_session enter_by_signature
session_reaches_all n c now later credentials first second st st' auth codec none_yet given taken
      named in_time =
    (
      rw (none_yet, given, taken, enter_by_signature) refl,
      rw
          (
            issue_inbox_session_token-some n c now auth.address codec,
            verify_inbox_session_token-issue_inbox_session_token n c now later auth.address codec
                named,
            in_time,
            enter_by_session,
          )
          refl,
    )
