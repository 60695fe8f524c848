-- ===== src/Reservoir/Cancel.antt =====
-- `cancelMessage`: the refund of a sender, and the reversal of the payment to the recipient. What
-- was written before a failure stays written, so the tables come back beside the result.
use mailslot.Base.{
  String, Option, none, if◌then◌else◌, is_none, Result, ok, err, ◌>>=◌, or_throw, or_reject,
  reject_if, ◌>>◌,
}
use mailslot.Base.Int.{ℤ, pos, ◌+ℤ◌, ◌-ℤ◌, ltb_ℤ, leb_ℤ}
use mailslot.Base.Text.{big_int, to_text}
use mailslot.Types.{PipeKey, PendingPayment}
use mailslot.Transfer.{Signer, build_transfer_message, sip018_sign}
use mailslot.Reservoir.Tables.{
  Platform, Config, Tables, World, build_pipe_id, get_latest_pipe_state,
  get_latest_pipe_state_for_principals, upsert_pending_state,
}
use mailslot.Reservoir.Proof.{ParsedProof, parse_incoming_payment_proof, canonical_pipe_principals}
use mailslot.Reservoir.Payments.{outgoing_state, outgoing_meta}

-- The arguments of `cancelMessage`.
pub record Cancellation : Type 0 where
  pub payment_proof : String
  pub sender_addr : String
  pub recipient_addr : String
  pub incoming_amount : String
  pub fee : String
  pub recipient_pending_payment : Option PendingPayment

module _ (p : Platform) (s : Signer) (c : Config) where
  -- The next state of a tap: the server's balance becomes `server` and the counterparty's `theirs`.
  unfoldable pub sign_next_state :
      World → String → String → PipeKey → String → ℤ → ℤ → ℤ → Tables → Result Tables
  sign_next_state w pipe_id contract_id key counterparty server theirs nonce t = do
    let next_server = to_text server
    let next_theirs = to_text theirs
    let next_nonce = to_text (nonce +ℤ pos 1)
    signature ←
        or_throw
          (sip018_sign s contract_id
            (build_transfer_message
              (outgoing_state c key counterparty next_theirs next_server next_nonce none))
            c.server_private_key c.chain_id)
          "signing failed"
    ok (
        upsert_pending_state pipe_id contract_id key next_server next_theirs next_nonce
          (outgoing_meta c none signature) w.sql_now t)

  -- The refund to the sender.
  unfoldable pub refund_sender : World → Cancellation → ParsedProof → ℤ → Tables → Result Tables
  unfolding sign_next_state
  refund_sender w args f refund t = do
    latest ← get_latest_pipe_state p f.pipe_id t
    tap ← or_reject latest 404 "sender-pipe-not-found"
    server ← or_throw (big_int tap.server_balance) "SyntaxError"
    theirs ← or_throw (big_int tap.counterparty_balance) "SyntaxError"
    reject_if (ltb_ℤ server refund) 409 "refund-insufficient-balance"
    nonce ← or_throw (big_int tap.nonce) "SyntaxError"
    sign_next_state w f.pipe_id f.contract_id f.pipe_key args.sender_addr (server -ℤ refund)
        (theirs +ℤ refund) nonce t

  -- The reversal of the payment that the recipient was offered.
  unfoldable pub reverse_recipient : World → Cancellation → ParsedProof → ℤ → Tables → Result Tables
  unfolding sign_next_state
  reverse_recipient w args f refund t = do
    (first, second) ← canonical_pipe_principals p c.server_address args.recipient_addr
    latest ← get_latest_pipe_state_for_principals p f.contract_id first second t
    tap ← or_reject latest 404 "recipient-pipe-not-found"
    server ← or_throw (big_int tap.server_balance) "SyntaxError"
    theirs ← or_throw (big_int tap.counterparty_balance) "SyntaxError"
    reject_if (ltb_ℤ theirs refund) 409 "recipient-reversal-insufficient"
    nonce ← or_throw (big_int tap.nonce) "SyntaxError"
    sign_next_state w (build_pipe_id f.contract_id tap.pipe_key) f.contract_id tap.pipe_key
        args.recipient_addr (server +ℤ refund) (theirs -ℤ refund) nonce t

  -- What the refund is: the payment less the fee.
  unfoldable pub refund_amount : Cancellation → Result (ParsedProof × ℤ)
  refund_amount args = do
    f ← parse_incoming_payment_proof p c args.payment_proof
    incoming ← or_throw (big_int args.incoming_amount) "SyntaxError"
    fee ← or_throw (big_int args.fee) "SyntaxError"
    ok (f, incoming -ℤ fee)

  abbrev pub settle_refund : Tables → Result Tables → Result (Unit {0}) × Tables
  settle_refund t (ok t') = (ok tt, t')
  settle_refund t (err e) = (err e, t)

  unfoldable pub cancel_message : World → Cancellation → Tables → Result (Unit {0}) × Tables
  unfolding refund_amount refund_sender reverse_recipient
  cancel_message w args t = elim (refund_amount args) [
    | err e ↦ (err e, t)
    | ok (f, refund) ↦
        if leb_ℤ refund (pos 0) then (ok tt, t) else elim (refund_sender w args f refund t) [
          | err e ↦ (err e, t)
          | ok refunded ↦
              if is_none args.recipient_pending_payment
              then (ok tt, refunded)
              else settle_refund refunded (reverse_recipient w args f refund refunded)
        ]
  ]
