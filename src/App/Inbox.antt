-- ===== src/App/Inbox.antt =====
-- The handlers of an authenticated inbox, and cancelling: `handleGetInbox`, `handlePreview`,
-- `handleGetMessage`, `handleCancelMessage` and `handleClaim`, from the authenticated address on.
use mailslot.Base.{
  String, Bool, true, false, List, [], ◌∷◌, Option, none, some, ◌==◌, ◌||◌, not, if◌then◌else◌,
  Result, ok, err, Failure, thrown,
}
use mailslot.Base.Int.{pos}
use mailslot.Crypto.{verify_secret_hash}
use mailslot.Json.{property, as_text}
use mailslot.Types.{StoredMessage, MailMessage, PendingPayment, DeliveryState, previewed, cancelled}
use mailslot.Store.Rows.{Store, is_open, is_settled}
use mailslot.Store.Methods.{
  InboxQuery, get_inbox, get_message, get_message_for_sender, mark_message_previewed, claim_message,
  get_claimed_message, cancel_message_by_sender, record_settlement, activate_deferred_message,
  get_deferred_messages, expire_deferred_messages,
}
use mailslot.Reservoir.Payments.{create_outgoing_payment, record_completed_incoming_payment}
use mailslot.Reservoir.Cancel.{cancel_message}
use mailslot.Reservoir.Proof.{text_else}
use mailslot.App.Context.{
  Server, Database, Handler, Response, failed, listed, previewed_message, claimed_message,
  stored_message, cancelled_message, done, next, failure_response, ◌>>=◌, ◌>>◌, pure, respond_if,
  or_respond, get_store, lift, with_tables_unhandled, change_store, run_handler,
}

-- The loop of `activateDeferredMessages` stops at the first message that gets no payment.
unfoldable pub activate_each : Server → String → List StoredMessage → Handler (Unit {0})
activate_each sv addr [] = pure tt
activate_each sv addr (m ∷ ms) =
    let rest = activate_each sv addr ms in
    (do
      payment ← with_tables_unhandled (
          create_outgoing_payment sv.platform sv.signer sv.config sv.settings sv.world
            m.hashed_secret m.amount addr sv.config.contract_id)
      elim payment [
        | none ↦ pure tt
        | some pending ↦ change_store (activate_deferred_message m.id addr pending) >> rest
      ])

-- `activateDeferredMessages`
unfoldable pub activate_deferred_messages : Server → String → Handler (Unit {0})
unfolding activate_each
activate_deferred_messages sv addr = if sv.config.contract_id == "" then pure tt else do
  change_store (λ st. (expire_deferred_messages sv.world.now st).1)
  st ← get_store
  activate_each sv addr
      (get_deferred_messages addr sv.world.now (pos sv.settings.max_pending_per_recipient) st)

-- `handleGetInbox`
unfoldable pub handle_get_inbox : Server → String → InboxQuery → Database → Response × Database
unfolding activate_deferred_messages
handle_get_inbox sv addr query = run_handler (do
  activate_deferred_messages sv addr
  st ← get_store
  pure (listed (get_inbox addr query sv.world.now st)))

-- The checks that a preview and a claim make of the stored message.
unfoldable pub check_claimable : StoredMessage → Handler PendingPayment
check_claimable m = do
  respond_if m.claimed 409 "already-claimed"
  respond_if (not (is_open m.delivery_state)) 409 "message-not-ready"
  or_respond m.pending_payment 409 "message-not-ready"

preview_found : Option StoredMessage × Store → Handler StoredMessage
preview_found (none, st) db = (done (failed 404 "not-found"), record db { store = st })
preview_found (some m, st) db = (next m, record db { store = st })

-- `handlePreview`: the message is marked before it is checked.
unfoldable pub handle_preview : Server → String → String → Database → Response × Database
unfolding preview_found check_claimable
handle_preview sv addr id = run_handler (do
  st ← get_store
  m ← preview_found (mark_message_previewed id addr sv.world.now st)
  pending ← check_claimable m
  pure (previewed_message m pending))

-- `handleGetMessage`
unfoldable pub handle_get_message : String → String → Database → Response × Database
handle_get_message addr id = run_handler (do
  st ← get_store
  mail ← or_respond (get_claimed_message id addr st) 404 "not-found"
  pure (stored_message mail))

refund_message : Server → StoredMessage → Handler (Unit {0})
refund_message sv m db =
    let (r, t) =
      cancel_message sv.platform sv.signer sv.config sv.world
        (record {
          payment_proof = m.payment_id;
          sender_addr = m.sender;
          recipient_addr = m.recipient;
          incoming_amount = m.amount;
          fee = m.fee;
          recipient_pending_payment = m.pending_payment;
        })
        db.tables in
    lift r (record db { tables = t })

abbrev is_previewed : DeliveryState → Bool
is_previewed previewed = true
is_previewed _ = false

abbrev is_cancelled : DeliveryState → Bool
is_cancelled cancelled = true
is_cancelled _ = false

-- `handleCancelMessage`: the refund first, then the mark.
unfoldable pub handle_cancel_message : Server → String → String → Database → Response × Database
unfolding refund_message preview_found
handle_cancel_message sv sender id = run_handler (do
  st ← get_store
  m ← or_respond (get_message_for_sender id sender st) 404 "not-found"
  respond_if (m.claimed || is_settled m.delivery_state) 409 "already-claimed"
  respond_if (is_previewed m.delivery_state) 409 "already-previewed"
  respond_if (is_cancelled m.delivery_state) 409 "already-cancelled"
  refund_message sv m
  st' ← get_store
  marked ← preview_found (cancel_message_by_sender id sender sv.world.now st')
  pure (cancelled_message id marked.delivery_state))

-- The errors of `claimMessage` that have a response of their own.
abbrev pub claim_failure : Failure → Response
claim_failure (thrown message) =
    if message == "message-not-found"
    then failed 404 "not-found"
    else if message == "already-claimed"
    then failed 409 "already-claimed"
    else failed 500 "internal-error"
claim_failure e = failure_response e

unfoldable pub claim_found : Result (MailMessage × Store) → Handler MailMessage
claim_found (ok (mail, st)) db = (next mail, record db { store = st })
claim_found (err e) db = (done (claim_failure e), db)

unfoldable pub complete_payment : Server → StoredMessage → String → Handler (Unit {0})
complete_payment sv m secret db =
    elim (record_completed_incoming_payment sv.platform sv.signer sv.config sv.world m.payment_id
      secret db.tables) [
        | ok t ↦ (next tt, record db { tables = t })
        | err e ↦ (done (failed 500 "internal-error"), db)
      ]

-- The end of `handleClaim`: the settlement, the completed payment, and the response.
unfoldable pub finish_claim :
    Server → String → StoredMessage → String → MailMessage → Handler Response
unfolding complete_payment
finish_claim sv addr m secret mail = do
  change_store (
      record_settlement (record {
        message_id = m.id;
        payment_id = m.payment_id;
        recipient_addr = addr;
        hashed_secret = m.hashed_secret;
        secret = secret;
        pending_payment = m.pending_payment;
        settled_at = sv.world.now;
      }))
  complete_payment sv m secret
  pure (claimed_message mail m.pending_payment)

-- The check of the secret against a claimable message, and the claim in the store.
unfoldable pub take_claim : Server → String → String → String → StoredMessage → Handler Response
unfolding claim_found finish_claim
take_claim sv addr id secret m = do
  respond_if (not (verify_secret_hash sv.sha256 secret m.hashed_secret)) 400 "invalid-secret"
  st ← get_store
  mail ← claim_found (claim_message id addr sv.world.now st)
  finish_claim sv addr m secret mail

-- The claim of a message with the secret of the body.
unfoldable pub claim_with : Server → String → String → String → Handler Response
unfolding check_claimable take_claim
claim_with sv addr id secret = do
  respond_if (secret == "") 400 "secret-required"
  st ← get_store
  m ← or_respond (get_message id addr st) 404 "not-found"
  pending ← check_claimable m
  take_claim sv addr id secret m

-- `handleClaim`: `body` is none where it is too large.
unfoldable pub handle_claim :
    Server → String → String → Option String → Database → Response × Database
unfolding claim_with
handle_claim sv addr id body = run_handler (do
  text ← or_respond body 413 "body-too-large"
  json ← or_respond (sv.platform.decode text) 400 "invalid-json"
  secret_value ← lift (property json "secret")
  claim_with sv addr id (text_else "" (as_text secret_value)))
