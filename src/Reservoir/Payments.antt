-- ===== src/Reservoir/Payments.antt =====
-- `verifyIncomingPayment`, `recordCompletedIncomingPayment` and `createOutgoingPayment`.
mod Checks
unfoldable pub use Checks.*
use mailslot.Base.{
  String, Option, none, some, ◌==◌, ◌&&◌, ◌||◌, not, if◌then◌else◌, Result, ok, ◌>>=◌, ◌>>◌,
  or_throw, or_reject, reject_if,
}
use mailslot.Base.Int.{ℤ, pos, ◌+ℤ◌, ◌-ℤ◌, ltb_ℤ, leb_ℤ, eqb_ℤ}
use mailslot.Base.Text.{big_int, to_text}
use mailslot.Json.{property, as_text}
use mailslot.Types.{PipeKey, PendingPayment, RuntimeSettings}
use mailslot.Transfer.{TransferState, Signer, build_transfer_message, sip018_sign, sip018_verify}
use mailslot.Reservoir.Tables.{
  Platform, Config, Tables, TapState, World, OnChainPipe, PipeUpdateMeta, no_meta,
  get_latest_pipe_state, get_latest_pipe_state_for_principals, upsert_pending_state, upsert_pipe,
  delete_pending_states_at_or_below_nonce,
}
use mailslot.Reservoir.Proof.{
  ParsedProof, text_else, non_empty, decode_proof, parse_proof, parse_incoming_payment_proof,
  canonical_pipe_principals, normalize_hex32,
}

module _ (p : Platform) (s : Signer) (c : Config) where
  -- The amount by which a proof raises the server's balance.
  unfoldable pub incoming_amount : World → ParsedProof → Figures → Tables → Result ℤ
  incoming_amount w f figures t = do
    existing ← get_latest_pipe_state p f.pipe_id t
    elim existing [
      | some state ↦ tracked_amount state figures
      | none ↦ do
        o ← or_reject (w.on_chain f.actor f.pipe_key) 402 "no-tap"
        first_amount c f.pipe_key o figures
    ]

  -- `verifyIncomingPayment` up to the record of the payment. The tables are read once; while the
  -- signature is verified other calls may run.
  unfoldable pub check_incoming_payment :
      RuntimeSettings → World → String → Tables → Result CheckedPayment
  unfolding check_addressing read_figures incoming_amount
  check_incoming_payment settings w raw t = do
    reject_if (c.server_private_key == "") 503 "payment-verification-disabled"
    json ← decode_proof p raw
    f ← parse_proof p c json
    reject_if
        (not (f.pipe_key.principal_1 == c.server_address)
          && not (f.pipe_key.principal_2 == c.server_address))
        402 "pipe-mismatch"
    for_principal ← property json "forPrincipal"
    with_principal ← property json "withPrincipal"
    let sender = text_else "" (as_text with_principal)
    hashed_secret ← check_addressing c f (text_else "" (as_text for_principal)) sender
    figures ← read_figures f
    amount ← incoming_amount w f figures t
    price ← or_throw (big_int settings.message_price_sats) "SyntaxError"
    reject_if (ltb_ℤ amount price) 402 "payment-too-low"
    reject_if
        (not (
          sip018_verify s f.contract_id (build_transfer_message (claimed_state c f))
            (text_else "" f.their_signature) f.actor c.chain_id))
        402 "invalid-signature"
    ok (record { proof = f; hashed_secret = hashed_secret; sender = sender; amount = amount })

  -- The record of a checked payment: a pending state until the secret is revealed.
  unfoldable pub record_incoming_payment :
      World → CheckedPayment → Tables → VerifiedPayment × Tables
  record_incoming_payment w a t = (
    record {
      hashed_secret = a.hashed_secret;
      incoming_amount = to_text a.amount;
      sender_address = a.sender;
    },
    upsert_pending_state a.proof.pipe_id a.proof.contract_id a.proof.pipe_key a.proof.my_balance
        a.proof.their_balance a.proof.nonce
        (record no_meta {
          action = some a.proof.action;
          actor = some a.proof.actor;
          hashed_secret = some a.hashed_secret;
          valid_after = a.proof.valid_after;
          counterparty_signature = some (text_else "" a.proof.their_signature);
        })
        w.sql_now t,
  )

  -- `verifyIncomingPayment` with no other call in between.
  unfoldable pub verify_incoming_payment :
      RuntimeSettings → World → String → Tables → Result (VerifiedPayment × Tables)
  unfolding check_incoming_payment record_incoming_payment
  verify_incoming_payment settings w raw t = do
    a ← check_incoming_payment settings w raw t
    ok (record_incoming_payment w a t)

  -- `recordCompletedIncomingPayment`: the proof's state becomes the enforceable one, and the
  -- optimistic states up to its nonce go.
  unfoldable pub record_completed_incoming_payment :
      World → String → String → Tables → Result Tables
  record_completed_incoming_payment w raw secret t = do
    f ← parse_incoming_payment_proof p c raw
    ok (
        delete_pending_states_at_or_below_nonce p f.pipe_id f.nonce (
          upsert_pipe f.pipe_id f.contract_id f.pipe_key f.my_balance f.their_balance f.nonce
            (record no_meta {
              action = some f.action;
              actor = non_empty f.actor;
              hashed_secret = f.hashed_secret;
              valid_after = f.valid_after;
              counterparty_signature = f.their_signature;
              enforceable_secret = some secret;
            })
            w.sql_now t))

  -- The payment and the recorded state, once the recipient's pipe is found.
  unfoldable pub forward_payment :
      World
      → String
      → String
      → String
      → ℤ
      → TapState
      → Tables
      → Result (Option PendingPayment × Tables)
  forward_payment w contract_id hashed_secret recipient amount tap t = do
    current ← or_throw (big_int tap.server_balance) "SyntaxError"
    if ltb_ℤ current amount then ok (none, t) else do
      theirs ← or_throw (big_int tap.counterparty_balance) "SyntaxError"
      nonce ← or_throw (big_int tap.nonce) "SyntaxError"
      let next_server = to_text (current -ℤ amount)
      let next_recipient = to_text (theirs +ℤ amount)
      let next_nonce = to_text (nonce +ℤ pos 1)
      let state =
          outgoing_state c tap.pipe_key recipient next_recipient next_server next_nonce
            (some hashed_secret)
      ok
          (elim (sip018_sign s contract_id (build_transfer_message state) c.server_private_key
            c.chain_id) [
              | none ↦ (none, t)
              | some signature ↦ (
                some (record {
                  state_proof = record {
                    contract_id = contract_id;
                    pipe_key = tap.pipe_key;
                    for_principal = recipient;
                    with_principal = c.server_address;
                    signer_address = c.signer_address;
                    my_balance = next_recipient;
                    their_balance = next_server;
                    nonce = next_nonce;
                    action = "1";
                    actor = c.server_address;
                    hashed_secret = hashed_secret;
                    their_signature = signature;
                  };
                  amount = to_text amount;
                  hashed_secret = hashed_secret;
                }),
                upsert_pending_state tap.pipe_id contract_id tap.pipe_key next_server next_recipient
                    next_nonce (outgoing_meta c (some hashed_secret) signature) w.sql_now t,
              )
            ])

  -- `createOutgoingPayment`: null where nothing is left after the fee, or no pipe to the recipient
  -- has the balance, or signing fails.
  unfoldable pub create_outgoing_payment :
      RuntimeSettings
      → World
      → String
      → String
      → String
      → String
      → Tables
      → Result (Option PendingPayment × Tables)
  unfolding forward_payment
  create_outgoing_payment settings w hashed_secret incoming recipient contract_id t = do
    reject_if (not (c.contract_id == "") && not (contract_id == c.contract_id)) 402 "wrong-contract"
    secret ← normalize_hex32 hashed_secret
    received ← or_throw (big_int incoming) "SyntaxError"
    fee ← or_throw (big_int settings.min_fee_sats) "SyntaxError"
    let amount = received -ℤ fee
    if leb_ℤ amount (pos 0) then ok (none, t) else do
      (first, second) ← canonical_pipe_principals p c.server_address recipient
      tap ← get_latest_pipe_state_for_principals p contract_id first second t
      elim tap [
        | none ↦ ok (none, t)
        | some state ↦ forward_payment w contract_id secret recipient amount state t
      ]

  -- The state that `getTrackedTapState` finds, null where there is none.
  unfoldable pub tracked_tap : String → Tables → Result (Option TapState)
  tracked_tap counterparty t = if c.contract_id == "" then ok none else do
    (first, second) ← canonical_pipe_principals p c.server_address counterparty
    get_latest_pipe_state_for_principals p c.contract_id first second t
