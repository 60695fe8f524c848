-- ===== src/Auth/Verified.antt =====
-- What `verifyInboxAuth` has shown of a header that it takes, in either format.
use mailslot.Base.{
  ℕ, String, Bool, true, false, none, some, ◌≡◌, refl, sym, ap, ◌∙◌, ◌==◌, ◌||◌, ◌&&◌, not,
  if◌then◌else◌, arith, eq_iff, inl, inr, Bool-cases, ok, >>=-eq-ok, >>-eq-ok, reject_if-eq-ok,
  or_reject-eq-ok, ok_inj, or_reject,
}
use mailslot.Json.{Json, Value, str, property, as_text}
use mailslot.Reservoir.Verify.{true_of_not}
use mailslot.Auth.Tokens.{none_some}
use mailslot.Auth.Outside.{AuthConfig, Node, truthy, text_of, get_auth_audience}
use mailslot.Auth.Headers.{
  AuthResult, optional_property, is_text, check_fresh, is_address_of, verify_secp256k1_signature,
  is_audience, value_number, typed_text, typed_message_id, is_zero_or_nan, verify_legacy_auth,
  verify_wallet_auth, verify_inbox_auth, LegacyFields, read_legacy, check_legacy, WalletFields,
  read_message, check_wallet,
}

as_text_lem : (v : Value) (s : String) → as_text v ≡ some s → v ≡ some (str s)
unfolding as_text
as_text_lem (some (str t)) s h = cc
as_text_lem none s h = cc
as_text_lem (some _) s h = cc

-- What stands in a payload under a name.
abbrev pub Names : Json → String → Value → Type 0
Names payload name v = optional_property (some payload) name ≡ ok v

-- A signed payload of the first format.
record IsRead (parsed : Json) (f : LegacyFields) : Type 0 where
  carries : property parsed "payload" ≡ ok (some f.payload)
  action : Names f.payload "action" f.action
  address : Names f.payload "address" f.address
  timestamp : Names f.payload "timestamp" f.timestamp

found_payload :
    {found : Value} {payload : Json} {v : Value} (name : String)
    → found ≡ some payload
    → optional_property found name ≡ ok v
    → Names payload name v
found_payload name there e = ap (λ x. optional_property x name) (sym there) ∙ e

read_legacy-IsRead :
    (parsed : Json) {f : LegacyFields} → read_legacy parsed ≡ ok f → IsRead parsed f
unfolding read_legacy
read_legacy-IsRead parsed h =
    let (pubkey_value, _, h1) = >>=-eq-ok (property parsed "pubkey") _ h in
    let (found, e2, h2) = >>=-eq-ok (property parsed "payload") _ h1 in
    let (signature_value, _, h3) = >>=-eq-ok (property parsed "signature") _ h2 in
    let (pubkey, _, h4) = >>=-eq-ok (or_reject (text_of pubkey_value) 401 "missing-pubkey") _ h3 in
    let (action, e5, h5) = >>=-eq-ok (optional_property found "action") _ h4 in
    let (address, e6, h6) = >>=-eq-ok (optional_property found "address") _ h5 in
    let (timestamp, e7, h7) = >>=-eq-ok (optional_property found "timestamp") _ h6 in
    let (payload, e8, h8) = >>=-eq-ok (or_reject found 401 "invalid-auth-payload") _ h7 in
    let (_, h9) =
      reject_if-eq-ok (not (truthy action && truthy address && truthy timestamp)) 401
        "invalid-auth-payload" _ h8 in
    let (signature, _, h10) =
      >>=-eq-ok (or_reject (text_of signature_value) 401 "missing-signature") _ h9 in
    let there = or_reject-eq-ok found _ _ e8 in
    rw (← ok_inj h10) (record {
      carries = e2 ∙ ap ok there;
      action = found_payload "action" there e5;
      address = found_payload "address" there e6;
      timestamp = found_payload "timestamp" there e7;
    })

-- The payload of a header in the first format: what it says, and that its key has signed it.
pub record IsLegacy (n : Node) (c : AuthConfig) (now : ℕ) (payload : Json) (a : AuthResult)
    : Type 0 where
  pub timestamp : Value
  pub audience : Value
  pub signature : String
  pub action_named : Names payload "action" a.action
  pub address_named : Names payload "address" (some (str a.address))
  pub message_named : Names payload "messageId" a.message_id
  pub time_named : Names payload "timestamp" timestamp
  pub audience_named : Names payload "audience" audience
  pub fresh : check_fresh c now (value_number n timestamp) ≡ ok tt
  pub for_server : is_audience audience (get_auth_audience c) ≡ true
  pub owned : is_address_of n a.pubkey_hex a.address ≡ true
  pub signed : verify_secp256k1_signature n (n.stringify payload) signature a.pubkey_hex ≡ true

check_legacy-IsLegacy :
    (n : Node) (c : AuthConfig) (now : ℕ) (parsed : Json) (f : LegacyFields) {a : AuthResult}
    → IsRead parsed f
    → check_legacy n c now f ≡ ok a
    → IsLegacy n c now f.payload a
unfolding check_legacy
check_legacy-IsLegacy n c now parsed f read h =
    let (e1, h1) = >>-eq-ok (check_fresh c now (value_number n f.timestamp)) _ h in
    let (audience, e2, h2) = >>=-eq-ok (optional_property (some f.payload) "audience") _ h1 in
    let (c3, h3) =
      reject_if-eq-ok (not (is_audience audience (get_auth_audience c))) 401 "audience-mismatch" _
        h2 in
    let (address, e4, h4) = >>=-eq-ok (or_reject (as_text f.address) 401 "address-mismatch") _ h3 in
    let (c5, h5) =
      reject_if-eq-ok (not (is_address_of n f.pubkey address)) 401 "address-mismatch" _ h4 in
    let (c6, h6) =
      reject_if-eq-ok
        (not (verify_secp256k1_signature n (n.stringify f.payload) f.signature f.pubkey)) 401
        "invalid-signature" _ h5 in
    let (message_id, e7, h7) = >>=-eq-ok (optional_property (some f.payload) "messageId") _ h6 in
    let text = as_text_lem f.address address (or_reject-eq-ok _ _ _ e4) in
    rw (← ok_inj h7) (record {
      timestamp = f.timestamp;
      audience = audience;
      signature = f.signature;
      action_named = read.action;
      address_named = read.address ∙ ap ok text;
      message_named = e7;
      time_named = read.timestamp;
      audience_named = e2;
      fresh = e1;
      for_server = true_of_not _ c3;
      owned = true_of_not _ c5;
      signed = true_of_not _ c6;
    })

-- The typed message of a header in the second format.
pub record IsWallet (n : Node) (c : AuthConfig) (now : ℕ) (message : Json) (a : AuthResult)
    : Type 0 where
  pub action : String
  pub timestamp : String
  pub signature : String
  pub action_kept : a.action ≡ some (str action)
  pub action_named : typed_text "" message "action" ≡ ok action
  pub address_named : typed_text "" message "address" ≡ ok a.address
  pub message_named : typed_message_id message ≡ ok a.message_id
  pub time_named : typed_text "0" message "timestamp" ≡ ok timestamp
  pub audience_named : typed_text "" message "audience" ≡ ok (get_auth_audience c)
  pub timed : is_zero_or_nan (n.to_number (str timestamp)) ≡ false
  pub fresh : check_fresh c now (n.to_number (str timestamp)) ≡ ok tt
  pub owned : is_address_of n a.pubkey_hex a.address ≡ true
  pub signed : n.verify_message "Mailslot" message signature a.address c.chain_id ≡ true

-- The fields of a typed message.
record IsTyped (f : WalletFields) : Type 0 where
  action : typed_text "" f.message "action" ≡ ok f.action
  address : typed_text "" f.message "address" ≡ ok f.address
  timestamp : typed_text "0" f.message "timestamp" ≡ ok f.timestamp
  message_id : typed_message_id f.message ≡ ok f.message_id
  audience : typed_text "" f.message "audience" ≡ ok f.audience

read_message-IsTyped :
    (pubkey : String) (message : Json) (signature : String) {f : WalletFields}
    → read_message pubkey message signature ≡ ok f
    → IsTyped f × (f.message ≡ message)
unfolding read_message
read_message-IsTyped pubkey message signature h =
    let (action, e1, h1) = >>=-eq-ok (typed_text "" message "action") _ h in
    let (address, e2, h2) = >>=-eq-ok (typed_text "" message "address") _ h1 in
    let (timestamp, e3, h3) = >>=-eq-ok (typed_text "0" message "timestamp") _ h2 in
    let (message_id, e4, h4) = >>=-eq-ok (typed_message_id message) _ h3 in
    let (audience, e5, h5) = >>=-eq-ok (typed_text "" message "audience") _ h4 in
    rw (← ok_inj h5)
      (record { action = e1; address = e2; timestamp = e3; message_id = e4; audience = e5 }, refl)

tail_false : (a b d e : Bool) → a || b || d || e ≡ false → d ≡ false
tail_false a b d e h = ground arith

equal_texts : (a b : String) → (a == b) ≡ true → a ≡ b
equal_texts a b h = ground (arith, eq_iff a b)

check_wallet-IsWallet :
    (n : Node) (c : AuthConfig) (now : ℕ) (f : WalletFields) {a : AuthResult}
    → IsTyped f
    → check_wallet n c now f ≡ ok a
    → IsWallet n c now f.message a
unfolding check_wallet
check_wallet-IsWallet n c now f typed h =
    let timestamp = n.to_number (str f.timestamp) in
    let (c1, h1) =
      reject_if-eq-ok
        (f.action == "" || f.address == "" || is_zero_or_nan timestamp || f.audience == "") 401
        "invalid-auth-payload" _ h in
    let (e2, h2) = >>-eq-ok (check_fresh c now timestamp) _ h1 in
    let (c3, h3) =
      reject_if-eq-ok (not (f.audience == get_auth_audience c)) 401 "audience-mismatch" _ h2 in
    let (c4, h4) =
      reject_if-eq-ok (not (is_address_of n f.pubkey f.address)) 401 "address-mismatch" _ h3 in
    let (c5, h5) =
      reject_if-eq-ok (not (n.verify_message "Mailslot" f.message f.signature f.address c.chain_id))
        401 "invalid-signature" _ h4 in
    rw (← ok_inj h5) (record {
      action = f.action;
      timestamp = f.timestamp;
      signature = f.signature;
      action_kept = refl;
      action_named = typed.action;
      address_named = typed.address;
      message_named = typed.message_id;
      time_named = typed.timestamp;
      audience_named = typed.audience ∙ ap ok (equal_texts _ _ (true_of_not _ c3));
      timed = tail_false (f.action == "") (f.address == "") _ (f.audience == "") c1;
      fresh = e2;
      owned = true_of_not _ c4;
      signed = true_of_not _ c5;
    })

-- The claim of a header that is taken: the payload or the message of its format.
pub data Authentic (n : Node) (c : AuthConfig) (now : ℕ) (parsed : Json) (a : AuthResult)
    : Type 0 where
  legacy :
      (payload : Json)
      → property parsed "payload" ≡ ok (some payload)
      → IsLegacy n c now payload a
      → Authentic n c now parsed a
  wallet :
      (message : Json)
      → property parsed "message" ≡ ok (some message)
      → IsWallet n c now message a
      → Authentic n c now parsed a

some_of_truthy : (v : Value) {m : Json} → (if truthy v then v else none) ≡ some m → v ≡ some m
some_of_truthy v h = elim (Bool-cases (truthy v)) [
  | inl there ↦ rw there at h
  | inr absent ↦ none_some (rw absent at h)
]

verify_legacy_auth-Authentic :
    (n : Node) (c : AuthConfig) (now : ℕ) (parsed : Json) {a : AuthResult}
    → verify_legacy_auth n c now parsed ≡ ok a
    → Authentic n c now parsed a
unfolding verify_legacy_auth
verify_legacy_auth-Authentic n c now parsed h =
    let (f, e1, h1) = >>=-eq-ok (read_legacy parsed) _ h in
    let read = read_legacy-IsRead parsed e1 in
    legacy f.payload read.carries (check_legacy-IsLegacy n c now parsed f read h1)

verify_wallet_auth-Authentic :
    (n : Node) (c : AuthConfig) (now : ℕ) (parsed : Json) {a : AuthResult}
    → verify_wallet_auth n c now parsed ≡ ok a
    → Authentic n c now parsed a
unfolding verify_wallet_auth
verify_wallet_auth-Authentic n c now parsed {a} h =
    let (pubkey_value, _, h1) = >>=-eq-ok (property parsed "pubkey") _ h in
    let (found, e2, h2) = >>=-eq-ok (property parsed "message") _ h1 in
    let (signature_value, _, h3) = >>=-eq-ok (property parsed "signature") _ h2 in
    let (pubkey, _, h4) = >>=-eq-ok (or_reject (text_of pubkey_value) 401 "missing-pubkey") _ h3 in
    let (message, e5, h5) =
      >>=-eq-ok (or_reject (if truthy found then found else none) 401 "missing-message") _ h4 in
    let (signature, _, h6) =
      >>=-eq-ok (or_reject (text_of signature_value) 401 "missing-signature") _ h5 in
    let (f, e7, h7) = >>=-eq-ok (read_message pubkey message signature) _ h6 in
    let (typed, same) = read_message-IsTyped pubkey message signature e7 in
    let there = some_of_truthy found (or_reject-eq-ok _ _ _ e5) in
    wallet f.message (e2 ∙ ap ok (there ∙ ap some (sym same)))
      (check_wallet-IsWallet n c now f typed h7)

-- A header that is taken is JSON with a payload or a typed message which names the address, the
-- action and the message id that are returned and this server as its audience, whose timestamp is
-- fresh or not a number, whose key has that address on one of the networks, and which is signed.
pub verify_inbox_auth-Authentic :
    (n : Node) (c : AuthConfig) (now : ℕ) (header : String) (a : AuthResult)
    → verify_inbox_auth n c now header ≡ ok a
    → (parsed : Json) × (n.parse (n.decode_base64 header) ≡ some parsed)
      × Authentic n c now parsed a
unfolding verify_inbox_auth
verify_inbox_auth-Authentic n c now header a h =
    let (parsed, e1, h1) =
      >>=-eq-ok (or_reject (n.parse (n.decode_base64 header)) 401 "invalid-auth-encoding") _ h in
    let (type_value, _, h2) = >>=-eq-ok (property parsed "type") _ h1 in
    (
      parsed,
      or_reject-eq-ok _ _ _ e1,
      elim (Bool-cases (is_text type_value "sip018")) [
        | inl typed ↦ verify_wallet_auth-Authentic n c now parsed (rw typed at h2)
        | inr untyped ↦ verify_legacy_auth-Authentic n c now parsed (rw untyped at h2)
      ],
    )
