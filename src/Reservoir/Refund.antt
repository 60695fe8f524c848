-- ===== src/Reservoir/Refund.antt =====
-- `cancelMessage`: what each of its ends leaves in the tables.
use mailslot.Base.{
  String, true, false, none, some, ◌≡◌, refl, ap, ◌∙◌, find, is_none, Bool-cases, inl, inr, Result,
  ok, err, Failure, Result-cases, >>=-eq-ok, ok_inj, reject_if-eq-ok, or_throw-eq-ok,
  or_reject-eq-ok, or_throw, or_reject,
}
use mailslot.Base.Int.{ℤ, pos, ◌+ℤ◌, ◌-ℤ◌, ◌≤ℤ◌, ◌<ℤ◌, leb_ℤ, ltb_ℤ}
use mailslot.Base.Text.{big_int, to_text, big_int-to_text}
use mailslot.Types.{PipeKey}
use mailslot.Transfer.{Signer, sip018_sign, build_transfer_message}
use mailslot.Reservoir.Tables.{
  Platform, Config, Tables, TapState, World, PendingRow, upsert_pending_state,
  get_latest_pipe_state, get_latest_pipe_state_for_principals, build_pipe_id,
}
use mailslot.Reservoir.Proof.{ParsedProof, canonical_pipe_principals}
use mailslot.Reservoir.Payments.{outgoing_state}
use mailslot.Reservoir.Cancel.{
  Cancellation, sign_next_state, refund_sender, reverse_recipient, refund_amount, cancel_message,
}
use mailslot.Reservoir.Verify.{Reads, le_of_leb_ℤ, le_of_ltb_ℤ, lt_of_leb_ℤ}
use mailslot.Reservoir.Accept.{is_row, find-put_pending}

-- The pending row of a pipe after a step to a balance of the server, one of the counterparty and a
-- nonce; the enforceable states are as before.
pub record IsSigned (pipe_id : String) (server theirs nonce : ℤ) (t t' : Tables) : Type 0 where
  pub row : PendingRow
  pub located : find (is_row pipe_id (to_text nonce)) t'.pending ≡ some row
  pub server_row : big_int row.server_balance ≡ some server
  pub theirs_row : big_int row.counterparty_balance ≡ some theirs
  pub enforceable : t'.pipes ≡ t.pipes

module _ (p : Platform) (s : Signer) (c : Config) (w : World) where
  sign_next_state-IsSigned :
      (pipe_id contract_id : String) (key : PipeKey) (counterparty : String)
      (server theirs nonce : ℤ) (t : Tables) {t' : Tables}
      → sign_next_state p s c w pipe_id contract_id key counterparty server theirs nonce t ≡ ok t'
      → IsSigned pipe_id server theirs (nonce +ℤ pos 1) t t'
  unfolding sign_next_state upsert_pending_state
  sign_next_state-IsSigned pipe_id contract_id key counterparty server theirs nonce t {t'} h =
      let (signature, _, h1) =
        >>=-eq-ok
          (or_throw
            (sip018_sign s contract_id
              (build_transfer_message (
                outgoing_state c key counterparty (to_text theirs) (to_text server)
                  (to_text (nonce +ℤ pos 1)) none))
              c.server_private_key c.chain_id)
            "signing failed")
          _ h in
      rw (← ok_inj h1) (record {
        row = record {
          pipe_id = pipe_id;
          nonce = to_text (nonce +ℤ pos 1);
          contract_id = contract_id;
          pipe_key = key;
          server_balance = to_text server;
          counterparty_balance = to_text theirs;
          action = some "1";
          actor = some c.server_address;
          hashed_secret = none;
          valid_after = none;
          server_signature = some signature;
          counterparty_signature = none;
          updated_at = w.sql_now;
        };
        located = find-put_pending _ t.pending;
        server_row = big_int-to_text server;
        theirs_row = big_int-to_text theirs;
        enforceable = refl;
      })

  -- A refund moves its amount from the server to the sender, from the latest state of the pipe.
  pub record IsRefunded (f : ParsedProof) (refund : ℤ) (t t' : Tables) : Type 0 where
    pub tap : TapState
    pub latest : get_latest_pipe_state p f.pipe_id t ≡ ok (some tap)
    pub server : ℤ
    pub theirs : ℤ
    pub nonce : ℤ
    pub reads : Reads tap server theirs nonce
    pub covered : refund ≤ℤ server
    pub signed : IsSigned f.pipe_id (server -ℤ refund) (theirs +ℤ refund) (nonce +ℤ pos 1) t t'

  refund_sender-IsRefunded :
      (args : Cancellation) (f : ParsedProof) (refund : ℤ) (t : Tables) {t' : Tables}
      → refund_sender p s c w args f refund t ≡ ok t'
      → IsRefunded f refund t t'
  unfolding refund_sender
  refund_sender-IsRefunded args f refund t {t'} h =
      let (latest, e1, h1) = >>=-eq-ok (get_latest_pipe_state p f.pipe_id t) _ h in
      let (tap, e2, h2) = >>=-eq-ok (or_reject latest 404 "sender-pipe-not-found") _ h1 in
      let (server, e3, h3) = >>=-eq-ok (or_throw (big_int tap.server_balance) "SyntaxError") _ h2 in
      let (theirs, e4, h4) =
        >>=-eq-ok (or_throw (big_int tap.counterparty_balance) "SyntaxError") _ h3 in
      let (c5, h5) = reject_if-eq-ok (ltb_ℤ server refund) 409 "refund-insufficient-balance" _ h4 in
      let (nonce, e6, h6) = >>=-eq-ok (or_throw (big_int tap.nonce) "SyntaxError") _ h5 in
      record {
        tap = tap;
        latest = e1 ∙ ap ok (or_reject-eq-ok latest _ _ e2);
        server = server;
        theirs = theirs;
        nonce = nonce;
        reads = record {
          server_reads = or_throw-eq-ok _ _ e3;
          theirs_reads = or_throw-eq-ok _ _ e4;
          nonce_reads = or_throw-eq-ok _ _ e6;
        };
        covered = le_of_ltb_ℤ server refund c5;
        signed =
            sign_next_state-IsSigned f.pipe_id f.contract_id f.pipe_key args.sender_addr
              (server -ℤ refund) (theirs +ℤ refund) nonce t h6;
      }

  -- A reversal moves the same amount back from the recipient to the server.
  pub record IsReversed (args : Cancellation) (f : ParsedProof) (refund : ℤ) (t t' : Tables)
      : Type 0 where
    pub first : String
    pub second : String
    pub sides :
        canonical_pipe_principals p c.server_address args.recipient_addr ≡ ok (first, second)
    pub tap : TapState
    pub latest : get_latest_pipe_state_for_principals p f.contract_id first second t ≡ ok (some tap)
    pub server : ℤ
    pub theirs : ℤ
    pub nonce : ℤ
    pub reads : Reads tap server theirs nonce
    pub covered : refund ≤ℤ theirs
    pub signed :
        IsSigned
          (build_pipe_id f.contract_id tap.pipe_key)
          (server +ℤ refund)
          (theirs -ℤ refund)
          (nonce +ℤ pos 1)
          t
          t'

  reverse_recipient-IsReversed :
      (args : Cancellation) (f : ParsedProof) (refund : ℤ) (t : Tables) {t' : Tables}
      → reverse_recipient p s c w args f refund t ≡ ok t'
      → IsReversed args f refund t t'
  unfolding reverse_recipient
  reverse_recipient-IsReversed args f refund t {t'} h =
      let ((first, second), e0, h0) =
        >>=-eq-ok (canonical_pipe_principals p c.server_address args.recipient_addr) _ h in
      let (latest, e1, h1) =
        >>=-eq-ok (get_latest_pipe_state_for_principals p f.contract_id first second t) _ h0 in
      let (tap, e2, h2) = >>=-eq-ok (or_reject latest 404 "recipient-pipe-not-found") _ h1 in
      let (server, e3, h3) = >>=-eq-ok (or_throw (big_int tap.server_balance) "SyntaxError") _ h2 in
      let (theirs, e4, h4) =
        >>=-eq-ok (or_throw (big_int tap.counterparty_balance) "SyntaxError") _ h3 in
      let (c5, h5) =
        reject_if-eq-ok (ltb_ℤ theirs refund) 409 "recipient-reversal-insufficient" _ h4 in
      let (nonce, e6, h6) = >>=-eq-ok (or_throw (big_int tap.nonce) "SyntaxError") _ h5 in
      record {
        first = first;
        second = second;
        sides = e0;
        tap = tap;
        latest = e1 ∙ ap ok (or_reject-eq-ok latest _ _ e2);
        server = server;
        theirs = theirs;
        nonce = nonce;
        reads = record {
          server_reads = or_throw-eq-ok _ _ e3;
          theirs_reads = or_throw-eq-ok _ _ e4;
          nonce_reads = or_throw-eq-ok _ _ e6;
        };
        covered = le_of_ltb_ℤ theirs refund c5;
        signed =
            sign_next_state-IsSigned (build_pipe_id f.contract_id tap.pipe_key) f.contract_id
              tap.pipe_key args.recipient_addr (server +ℤ refund) (theirs -ℤ refund) nonce t h6;
      }

  -- The ends of a cancellation.
  pub data Cancels (args : Cancellation) (t : Tables) : Result (Unit {0}) × Tables → Type 0 where
    unread : (e : Failure) → refund_amount p s c args ≡ err e → Cancels args t (err e, t)
    nothing :
        (f : ParsedProof) (refund : ℤ)
        → refund_amount p s c args ≡ ok (f, refund)
        → refund ≤ℤ pos 0
        → Cancels args t (ok tt, t)
    refused :
        (f : ParsedProof) (refund : ℤ) (e : Failure)
        → refund_amount p s c args ≡ ok (f, refund)
        → pos 0 <ℤ refund
        → Cancels args t (err e, t)
    refunded :
        (f : ParsedProof) (refund : ℤ) (t' : Tables)
        → refund_amount p s c args ≡ ok (f, refund)
        → pos 0 <ℤ refund
        → IsRefunded f refund t t'
        → is_none args.recipient_pending_payment ≡ true
        → Cancels args t (ok tt, t')
    half :
        (f : ParsedProof) (refund : ℤ) (e : Failure) (t' : Tables)
        → refund_amount p s c args ≡ ok (f, refund)
        → pos 0 <ℤ refund
        → IsRefunded f refund t t'
        → is_none args.recipient_pending_payment ≡ false
        → reverse_recipient p s c w args f refund t' ≡ err e
        → Cancels args t (err e, t')
    whole :
        (f : ParsedProof) (refund : ℤ) (t' t'' : Tables)
        → refund_amount p s c args ≡ ok (f, refund)
        → pos 0 <ℤ refund
        → IsRefunded f refund t t'
        → is_none args.recipient_pending_payment ≡ false
        → IsReversed args f refund t' t''
        → Cancels args t (ok tt, t'')

  -- A cancellation fails or has nothing to refund, with the tables as they were; or it moves the
  -- refund, which is positive and within the server's balance, from the server to the sender; and
  -- where the recipient was offered a payment, it also moves the same amount back from the
  -- recipient, or it fails with the refund to the sender left recorded.
  pub cancel_message-Cancels :
      (args : Cancellation) (t : Tables) → Cancels args t (cancel_message p s c w args t)
  unfolding cancel_message
  cancel_message-Cancels args t = elim (Result-cases (refund_amount p s c args)) [
    | inl (e, bad) ↦ rw (bad, cancel_message) (unread e bad)
    | inr ((f, refund), known) ↦ elim (Bool-cases (leb_ℤ refund (pos 0))) [
      | inl used_up ↦
          rw (known, used_up, cancel_message)
            (nothing f refund known (le_of_leb_ℤ refund (pos 0) used_up))
      | inr left ↦
          let more = lt_of_leb_ℤ refund (pos 0) left in
          elim (Result-cases (refund_sender p s c w args f refund t)) [
            | inl (e, bad) ↦ rw (known, left, bad, cancel_message) (refused f refund e known more)
            | inr (t', paid) ↦
                let sent = refund_sender-IsRefunded args f refund t paid in
                elim (Bool-cases (is_none args.recipient_pending_payment)) [
                  | inl alone ↦
                      rw (known, left, paid, alone, cancel_message)
                        (refunded f refund t' known more sent alone)
                  | inr offered ↦ elim (Result-cases (reverse_recipient p s c w args f refund t')) [
                    | inl (e, bad) ↦
                        rw (known, left, paid, offered, bad, cancel_message)
                          (half f refund e t' known more sent offered bad)
                    | inr (t'', back) ↦
                        rw (known, left, paid, offered, back, cancel_message)
                          (whole f refund t' t'' known more sent offered
                            (reverse_recipient-IsReversed args f refund t' back))
                  ]
                ]
          ]
    ]
  ]
