-- ===== src/App/Access.antt =====
-- Who is let in by `requireAuth` and `requireAdminAuth`, and with what.
use mailslot.Base.{
  ℕ, String, true, false, Option, none, some, ◌≡◌, sym, ap, ◌∙◌, ◌==◌, arith, eq_iff, inl, inr,
  Bool-cases, ok, Result-cases, Failure, service, thrown,
}
use mailslot.Store.Rows.{Store}
use mailslot.Store.Methods.{save_public_key}
use mailslot.Auth.Outside.{Node, AuthConfig}
use mailslot.Auth.Sessions.{
  InboxSessionPayload, issue_inbox_session_token, verify_inbox_session_token,
}
use mailslot.Auth.Headers.{AuthResult, is_text, verify_inbox_auth}
use mailslot.Auth.Tokens.{IsSession, verify_inbox_session_token-IsSession}
use mailslot.App.Entry.{
  Credentials, Expected, refused, granted, Access, refusal, is_other_message, session_result,
  check_expected, enter_by_session, enter_by_signature, require_auth, reservoir_admin_address,
  check_deployer, check_admin, require_admin_auth,
}

-- A call that is let in, by a session or by a signature for the very action and message.
pub data Granted (n : Node) (c : AuthConfig) (now : ℕ) (credentials : Credentials)
    (expected : Expected) (st : Store) (a : AuthResult) : Access → Type 0 where
  by_session :
      {session : InboxSessionPayload}
      → IsSession n c now credentials.session session
      → a ≡ session_result expected session
      → Granted n c now credentials expected st a (record {
        entry = granted a;
        session = some (issue_inbox_session_token n c now session.address);
        store = st;
      })
  by_signature :
      verify_inbox_auth n c now credentials.auth ≡ ok a
      → is_text a.action expected.action ≡ true
      → is_other_message expected.message_id a.message_id ≡ false
      → Granted n c now credentials expected st a (record {
        entry = granted a;
        session = some (issue_inbox_session_token n c now a.address);
        store = save_public_key a.address a.pubkey_hex now st;
      })

not_refused :
    {A : Type 0} {status : ℕ} {error : String} {a : AuthResult}
    → refused status error ≡ granted a
    → A
not_refused h = cc

granted_inj : {a b : AuthResult} → granted a ≡ granted b → a ≡ b
granted_inj h = cc

equal_texts : (a b : String) → (a == b) ≡ true → a ≡ b
equal_texts a b h = ground (arith, eq_iff a b)

refusal-refuses : {A : Type 0} (e : Failure) {a : AuthResult} → refusal e ≡ granted a → A
unfolding refusal
refusal-refuses (service status reason) h = not_refused h
refusal-refuses (thrown message) h = not_refused h

module _ (n : Node) (c : AuthConfig) (now : ℕ) where
  enter_by_session-Granted :
      (credentials : Credentials) (expected : Expected) (st : Store) (a : AuthResult)
      → (enter_by_session n c now credentials.session expected st).entry ≡ granted a
      → Granted n c now credentials expected st a
          (enter_by_session n c now credentials.session expected st)
  unfolding enter_by_session
  enter_by_session-Granted credentials expected st a h =
      elim (Result-cases (verify_inbox_session_token n c now credentials.session)) [
        | inl (e, failed) ↦ refusal-refuses e (rw (failed, enter_by_session) at h)
        | inr (session, taken) ↦
            let same = granted_inj (rw (taken, enter_by_session) at h) in
            rw (taken, same, enter_by_session)
              (by_session
                (verify_inbox_session_token-IsSession n c now credentials.session session taken)
                (sym same))
      ]

  -- What `check_expected` grants is what it was given.
  check_expected-granted :
      (expected : Expected) (auth a : AuthResult)
      → check_expected expected auth ≡ granted a
      → (auth ≡ a)
        × (is_text auth.action expected.action ≡ true)
        × (is_other_message expected.message_id auth.message_id ≡ false)
  unfolding check_expected
  check_expected-granted expected auth a h =
      elim (Bool-cases (is_text auth.action expected.action)) [
        | inr other ↦ not_refused (rw other at h)
        | inl same ↦ elim (Bool-cases (is_other_message expected.message_id auth.message_id)) [
          | inl different ↦ not_refused (rw (same, different) at h)
          | inr matched ↦ (granted_inj (rw (same, matched) at h), same, matched)
        ]
      ]

  enter_by_signature-Granted :
      (credentials : Credentials) (expected : Expected) (st : Store) (a : AuthResult)
      → (enter_by_signature n c now credentials.auth expected st).entry ≡ granted a
      → Granted n c now credentials expected st a
          (enter_by_signature n c now credentials.auth expected st)
  unfolding enter_by_signature
  enter_by_signature-Granted credentials expected st a h =
      elim (Result-cases (verify_inbox_auth n c now credentials.auth)) [
        | inl (e, failed) ↦ refusal-refuses e (rw (failed, enter_by_signature) at h)
        | inr (auth, taken) ↦
            let checked = rw (taken, enter_by_signature) at h in
            let (same, action, message) = check_expected-granted expected auth a checked in
            let kept = taken ∙ ap ok same in
            rw (kept, ap (check_expected expected) (sym same) ∙ checked, enter_by_signature)
              (by_signature kept
                (ap (λ (x : AuthResult). is_text x.action expected.action) (sym same) ∙ action)
                (ap (λ (x : AuthResult). is_other_message expected.message_id x.message_id)
                    (sym same)
                  ∙ message))
      ]

  -- Whoever is let in has a session that the server has issued, which stands for any action and
  -- message, or a header that is authentic and signed for the route's action and, where it has one,
  -- its message; only a header's key is saved, and a new session goes with the response.
  pub require_auth-Granted :
      (credentials : Credentials) (expected : Expected) (st : Store) (a : AuthResult)
      → (require_auth n c now credentials expected st).entry ≡ granted a
      → Granted n c now credentials expected st a (require_auth n c now credentials expected st)
  unfolding require_auth
  require_auth-Granted credentials expected st a h = elim (Bool-cases (credentials.session == "")) [
    | inr given ↦ rw given (enter_by_session-Granted credentials expected st a (rw given at h))
    | inl absent ↦ elim (Bool-cases (credentials.auth == "")) [
      | inl nothing ↦ not_refused (rw (absent, nothing) at h)
      | inr header ↦
          rw (absent, header)
            (enter_by_signature-Granted credentials expected st a (rw (absent, header) at h))
    ]
  ]

  check_deployer-granted :
      (admin : Option String) (auth a : AuthResult)
      → check_deployer admin auth ≡ granted a
      → (auth ≡ a) × (admin ≡ some a.address)
  unfolding check_deployer
  check_deployer-granted none auth a h = not_refused h
  check_deployer-granted (some address) auth a h = elim (Bool-cases (address == auth.address)) [
    | inr other ↦ not_refused (rw other at h)
    | inl deployer ↦
        let same = granted_inj (rw deployer at h) in
        (
          same,
          ap some
              (equal_texts address auth.address deployer ∙ ap (λ (x : AuthResult). x.address) same),
        )
  ]

  check_admin-granted :
      (admin : Option String) (auth a : AuthResult)
      → check_admin admin auth ≡ granted a
      → (auth ≡ a) × (is_text a.action "admin-settings" ≡ true) × (admin ≡ some a.address)
  unfolding check_admin
  check_admin-granted admin auth a h = elim (Bool-cases (is_text auth.action "admin-settings")) [
    | inr other ↦ not_refused (rw other at h)
    | inl settings ↦
        let (same, deployer) = check_deployer-granted admin auth a (rw settings at h) in
        (
          same,
          ap (λ (x : AuthResult). is_text x.action "admin-settings") (sym same) ∙ settings,
          deployer,
        )
  ]

  -- Only the deployer of the reservoir's contract is let in as the administrator, by a header that
  -- is authentic and signed for the settings.
  pub require_admin_auth-admin :
      (header : String) (a : AuthResult)
      → require_admin_auth n c now header ≡ granted a
      → (verify_inbox_auth n c now header ≡ ok a)
        × (is_text a.action "admin-settings" ≡ true)
        × (reservoir_admin_address c ≡ some a.address)
  unfolding require_admin_auth
  require_admin_auth-admin header a h = elim (Bool-cases (header == "")) [
    | inl absent ↦ not_refused (rw absent at h)
    | inr given ↦ elim (Result-cases (verify_inbox_auth n c now header)) [
      | inl (e, failed) ↦ refusal-refuses e (rw (given, failed) at h)
      | inr (auth, taken) ↦
          let (same, action, admin) =
            check_admin-granted (reservoir_admin_address c) auth a (rw (given, taken) at h) in
          (taken ∙ ap ok same, action, admin)
    ]
  ]
