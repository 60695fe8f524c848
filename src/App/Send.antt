-- ===== src/App/Send.antt =====
-- `handleSend`.
use Prim.Native.Char.{code}
use mailslot.Base.{
  ◌+◌, ◌*◌, String, Bool, true, false, Option, none, some, ◌==◌, ◌&&◌, ◌||◌, not, ltb, leb, eqb,
  if◌then◌else◌, is_none,
}
use mailslot.Base.Text.{lower, is_hex}
use mailslot.Json.{Json, Value, num, arr, obj, property, as_text, is_nullish}
use mailslot.Types.{
  StoredMessage, PendingPayment, EncryptedMail, DeferredReason, no_recipient_tap,
  insufficient_recipient_liquidity, ready, deferred,
}
use mailslot.Store.Methods.{
  save_message, save_public_key, count_pending_from_sender, count_pending_to_recipient,
  count_deferred_from_sender, count_deferred_to_recipient, count_deferred_global,
}
use mailslot.Reservoir.Payments.{
  VerifiedPayment, verify_incoming_payment, create_outgoing_payment, tracked_tap,
}
use mailslot.Reservoir.Proof.{text_else}
use mailslot.App.Context.{
  Server, Database, Handler, Response, sent, accepted_deferred, payment_required, ◌>>=◌, ◌>>◌,
  respond, pure, respond_if, or_respond, get_store, lift, with_tables, with_tables_unhandled,
  with_store, change_store, run_handler,
}

-- `POST /messages/:to`: the payment header, and the body unless it is too large.
pub record SendRequest : Type 0 where
  pub recipient : String
  pub payment_header : Option String
  pub body : Option String

-- `/^0[23][0-9a-f]{64}$/i`
unfoldable pub is_public_key : String → Bool
is_public_key (String.◌∷◌ a (String.◌∷◌ b s)) =
    eqb (code a) b'0' && (eqb (code b) b'2' || eqb (code b) b'3') && is_hex 64 (lower s)
is_public_key s = false

-- `!value || typeof value !== 'object'`
abbrev is_object_like : Value → Bool
is_object_like (some (obj _)) = true
is_object_like (some (arr _)) = true
is_object_like _ = false

abbrev is_one : Value → Bool
is_one (some (num t)) = t == "1"
is_one _ = false

-- The result of `createOutgoingPayment`, null where no contract is configured.
unfoldable pub outgoing_payment :
    Server → String → VerifiedPayment → Handler (Option PendingPayment)
outgoing_payment sv recipient v =
    if sv.config.contract_id == ""
    then pure none
    else with_tables_unhandled (
        create_outgoing_payment sv.platform sv.signer sv.config sv.settings sv.world v.hashed_secret
          v.incoming_amount recipient sv.config.contract_id)

-- A public key that is sent along is the sender's, and is saved.
unfoldable pub register_key : Server → String → String → Handler (Unit {0})
unfolding is_public_key
register_key sv sender key = do
  respond_if (not (is_public_key key)) 400 "invalid-from-public-key"
  let normalized = lower key
  respond_if
      (not (sv.mainnet_address normalized == sender)
        && not (sv.testnet_address normalized == sender))
      400 "sender-public-key-mismatch"
  change_store (save_public_key sender normalized sv.world.now)

-- `body.from` and `body.fromPublicKey`: the sender is the one that the payment authenticates.
unfoldable pub check_sender : Server → VerifiedPayment → Json → Handler (Unit {0})
unfolding register_key
check_sender sv v body = do
  from_value ← lift (property body "from")
  let sender = text_else "" (as_text from_value)
  respond_if (sender == "") 400 "from-required"
  respond_if (not (sender == v.sender_address)) 400 "sender-mismatch"
  key_value ← lift (property body "fromPublicKey")
  if is_nullish key_value
      then pure tt
      else register_key sv sender (text_else "" (as_text key_value))

-- The encrypted payload of the body, version 1 and within the size.
unfoldable pub check_payload : Server → Json → Handler EncryptedMail
check_payload sv body = do
  payload ← lift (property body "encryptedPayload")
  respond_if (not (is_object_like payload)) 400 "encrypted-payload-required"
  enc ← or_respond payload 400 "encrypted-payload-required"
  version ← lift (property enc "v")
  epk ← lift (property enc "epk")
  iv ← lift (property enc "iv")
  cipher ← lift (property enc "data")
  respond_if (not (is_one version)) 400 "invalid-encrypted-payload"
  epk_text ← or_respond (as_text epk) 400 "invalid-encrypted-payload"
  iv_text ← or_respond (as_text iv) 400 "invalid-encrypted-payload"
  cipher_text ← or_respond (as_text cipher) 400 "invalid-encrypted-payload"
  -- `Buffer.byteLength(data, 'hex') / 2 > config.maxEncryptedBytes`
  respond_if (ltb (2 * sv.max_encrypted_bytes) (sv.hex_byte_length cipher_text)) 413
      "payload-too-large"
  pure (record { epk = epk_text; iv = iv_text; cipher = cipher_text })

-- The caps on unclaimed messages.
unfoldable pub check_pending_caps : Server → String → String → Handler (Unit {0})
check_pending_caps sv sender recipient = do
  st ← get_store
  respond_if
      (leb sv.settings.max_pending_per_sender (count_pending_from_sender sender recipient st)) 429
      "too-many-pending"
  respond_if (leb sv.settings.max_pending_per_recipient (count_pending_to_recipient recipient st))
      429 "recipient-inbox-full"

-- The caps on deferred messages.
unfoldable pub check_deferred_caps : Server → String → String → Handler (Unit {0})
check_deferred_caps sv sender recipient = do
  st ← get_store
  respond_if
      (leb sv.settings.max_deferred_per_sender (count_deferred_from_sender sender recipient st)) 429
      "too-many-deferred-from-sender"
  respond_if (leb sv.settings.max_deferred_per_recipient (count_deferred_to_recipient recipient st))
      429 "too-many-deferred-for-recipient"
  respond_if (leb sv.settings.max_deferred_global (count_deferred_global st)) 429
      "deferred-queue-full"

-- `determineDeferredReason`
unfoldable pub determine_deferred_reason : Server → String → Handler DeferredReason
determine_deferred_reason sv recipient db =
    (do
      tap ← lift (tracked_tap sv.platform sv.signer sv.config recipient db.tables)
      pure (if is_none tap then no_recipient_tap else insufficient_recipient_liquidity))
      db

-- The message that a payment has bought, ready where it carries an outgoing payment or none is
-- needed.
abbrev pub ready_message :
    Server
    → SendRequest
    → String
    → VerifiedPayment
    → EncryptedMail
    → Option PendingPayment
    → StoredMessage
ready_message sv req raw v mail payment = record {
  id = sv.new_id;
  sender = v.sender_address;
  recipient = req.recipient;
  sent_at = sv.world.now;
  amount = v.incoming_amount;
  fee = sv.settings.min_fee_sats;
  payment_id = raw;
  hashed_secret = v.hashed_secret;
  encrypted_payload = mail;
  pending_payment = payment;
  delivery_state = ready;
  deferred_reason = none;
  deferred_until = none;
  previewed_at = none;
  cancelled_at = none;
  claimed = false;
  claimed_at = none;
  payment_settled = false;
}

abbrev pub deferred_message :
    Server → SendRequest → String → VerifiedPayment → EncryptedMail → DeferredReason → StoredMessage
deferred_message sv req raw v mail reason = record (ready_message sv req raw v mail none) {
  delivery_state = deferred;
  deferred_reason = some reason;
  deferred_until = some (sv.world.now + sv.settings.deferred_message_ttl_ms);
}

-- The branch that defers a message, within the caps.
unfoldable pub defer_message :
    Server → SendRequest → String → VerifiedPayment → EncryptedMail → Handler Response
unfolding check_deferred_caps determine_deferred_reason
defer_message sv req raw v mail = do
  check_deferred_caps sv v.sender_address req.recipient
  reason ← determine_deferred_reason sv req.recipient
  with_store (save_message (deferred_message sv req raw v mail reason))
  pure (accepted_deferred sv.new_id reason)

-- The branch that stores a message that is ready.
unfoldable pub keep_message :
    Server
    → SendRequest
    → String
    → VerifiedPayment
    → EncryptedMail
    → Option PendingPayment
    → Handler Response
keep_message sv req raw v mail payment = do
  with_store (save_message (ready_message sv req raw v mail payment))
  pure (sent sv.new_id)

-- Once the message is checked: it is stored with an outgoing payment, or deferred.
unfoldable pub store_message :
    Server → SendRequest → String → VerifiedPayment → EncryptedMail → Handler Response
unfolding outgoing_payment defer_message keep_message
store_message sv req raw v mail = do
  payment ← outgoing_payment sv req.recipient v
  if not (sv.config.contract_id == "") && is_none payment
      then defer_message sv req raw v mail
      else keep_message sv req raw v mail payment

-- What follows the payment: the body, the sender, the payload, the caps and the store.
unfoldable pub accept_message : Server → SendRequest → String → VerifiedPayment → Handler Response
unfolding check_sender check_payload check_pending_caps store_message
accept_message sv req raw v = do
  text ← or_respond req.body 413 "body-too-large"
  body ← or_respond (sv.platform.decode text) 400 "invalid-json"
  check_sender sv v body
  mail ← check_payload sv body
  check_pending_caps sv v.sender_address req.recipient
  store_message sv req raw v mail

unfoldable pub send : Server → SendRequest → Handler Response
unfolding accept_message
send sv req = elim req.payment_header [
  | none ↦ respond (payment_required sv.settings.message_price_sats sv.config.server_address)
  | some raw ↦ do
    v ←
        with_tables
          (verify_incoming_payment sv.platform sv.signer sv.config sv.settings sv.world raw)
    accept_message sv req raw v
]

unfoldable pub handle_send : Server → SendRequest → Database → Response × Database
unfolding send
handle_send sv req = run_handler (send sv req)
