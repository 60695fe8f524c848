-- ===== src/Reservoir/Outgoing.antt =====
-- `createOutgoingPayment`: what is offered to a recipient.
use mailslot.Base.{
  String, Option, none, some, ◌≡◌, refl, ap, ◌∙◌, ◌==◌, ◌&&◌, not, find, Bool-cases, Option-cases,
  inl, inr, ok, >>=-eq-ok, ok_inj, reject_if-eq-ok, or_throw-eq-ok, or_throw,
}
use mailslot.Base.Int.{ℤ, pos, ◌+ℤ◌, ◌-ℤ◌, ◌≤ℤ◌, ◌<ℤ◌, leb_ℤ, ltb_ℤ}
use mailslot.Base.Text.{big_int, to_text, big_int-to_text}
use mailslot.Types.{PendingPayment, RuntimeSettings}
use mailslot.Transfer.{Signer, sip018_sign, build_transfer_message}
use mailslot.Reservoir.Tables.{
  Platform, Config, Tables, TapState, World, PendingRow, upsert_pending_state,
  get_latest_pipe_state_for_principals,
}
use mailslot.Reservoir.Proof.{canonical_pipe_principals, normalize_hex32}
use mailslot.Reservoir.Payments.{forward_payment, create_outgoing_payment, outgoing_state}
use mailslot.Reservoir.Verify.{Reads, le_of_ltb_ℤ, lt_of_leb_ℤ}
use mailslot.Reservoir.Accept.{is_row, find-put_pending}

-- A payment takes its amount from the server's balance of the tap and adds it to the recipient's,
-- under the next nonce; the new state is the pending row of the tap's pipe and that nonce.
pub record IsForwarded (tap : TapState) (amount : ℤ) (t t' : Tables) (m : PendingPayment)
    : Type 0 where
  pub server : ℤ
  pub theirs : ℤ
  pub nonce : ℤ
  pub reads : Reads tap server theirs nonce
  pub covered : amount ≤ℤ server
  pub offered : big_int m.amount ≡ some amount
  pub kept : big_int m.state_proof.their_balance ≡ some (server -ℤ amount)
  pub gained : big_int m.state_proof.my_balance ≡ some (theirs +ℤ amount)
  pub next : big_int m.state_proof.nonce ≡ some (nonce +ℤ pos 1)
  pub row : PendingRow
  pub located : find (is_row tap.pipe_id m.state_proof.nonce) t'.pending ≡ some row
  pub server_row : row.server_balance ≡ m.state_proof.their_balance
  pub theirs_row : row.counterparty_balance ≡ m.state_proof.my_balance
  pub enforceable : t'.pipes ≡ t.pipes

-- A payment, or nothing and the tables as they were.
pub data Forwards (tap : TapState) (amount : ℤ) (t : Tables)
    : Option PendingPayment × Tables → Type 0 where
  kept : Forwards tap amount t (none, t)
  moved :
      {t' : Tables} {m : PendingPayment}
      → IsForwarded tap amount t t' m
      → Forwards tap amount t (some m, t')

module _ (p : Platform) (s : Signer) (c : Config) (w : World) where
  forward_payment-Forwards :
      (contract_id hashed_secret recipient : String) (amount : ℤ) (tap : TapState) (t : Tables)
      {x : Option PendingPayment × Tables}
      → forward_payment p s c w contract_id hashed_secret recipient amount tap t ≡ ok x
      → Forwards tap amount t x
  unfolding forward_payment upsert_pending_state
  forward_payment-Forwards contract_id hashed_secret recipient amount tap t {x} h =
      let (server, e1, h1) = >>=-eq-ok (or_throw (big_int tap.server_balance) "SyntaxError") _ h in
      elim (Bool-cases (ltb_ℤ server amount)) [
        | inl short ↦ rw (← ok_inj (rw short at h1)) kept
        | inr enough ↦
            let h2 = rw enough at h1 in
            let (theirs, e3, h3) =
              >>=-eq-ok (or_throw (big_int tap.counterparty_balance) "SyntaxError") _ h2 in
            let (nonce, e4, h4) = >>=-eq-ok (or_throw (big_int tap.nonce) "SyntaxError") _ h3 in
            let state =
              outgoing_state c tap.pipe_key recipient (to_text (theirs +ℤ amount))
                (to_text (server -ℤ amount)) (to_text (nonce +ℤ pos 1)) (some hashed_secret) in
            elim (Option-cases (
              sip018_sign s contract_id (build_transfer_message state) c.server_private_key
                c.chain_id)) [
                  | inl unsigned ↦ rw (← ok_inj (rw unsigned at h4)) kept
                  | inr (signature, signed) ↦ rw (← ok_inj (rw signed at h4)) (
                      moved (record {
                        server = server;
                        theirs = theirs;
                        nonce = nonce;
                        reads = record {
                          server_reads = or_throw-eq-ok _ _ e1;
                          theirs_reads = or_throw-eq-ok _ _ e3;
                          nonce_reads = or_throw-eq-ok _ _ e4;
                        };
                        covered = le_of_ltb_ℤ server amount enough;
                        offered = big_int-to_text amount;
                        kept = big_int-to_text (server -ℤ amount);
                        gained = big_int-to_text (theirs +ℤ amount);
                        next = big_int-to_text (nonce +ℤ pos 1);
                        row = record {
                          pipe_id = tap.pipe_id;
                          nonce = to_text (nonce +ℤ pos 1);
                          contract_id = contract_id;
                          pipe_key = tap.pipe_key;
                          server_balance = to_text (server -ℤ amount);
                          counterparty_balance = to_text (theirs +ℤ amount);
                          action = some "1";
                          actor = some c.server_address;
                          hashed_secret = some hashed_secret;
                          valid_after = none;
                          server_signature = some signature;
                          counterparty_signature = none;
                          updated_at = w.sql_now;
                        };
                        located = find-put_pending _ t.pending;
                        server_row = refl;
                        theirs_row = refl;
                        enforceable = refl;
                      }))
                ]
      ]

  -- A payment offers what was received less the fee, from the latest state of the recipient's pipe.
  pub record IsOffered (settings : RuntimeSettings) (incoming recipient contract_id : String)
      (t t' : Tables) (m : PendingPayment) : Type 0 where
    pub received : ℤ
    pub fee : ℤ
    pub received_reads : big_int incoming ≡ some received
    pub fee_reads : big_int settings.min_fee_sats ≡ some fee
    pub positive : pos 0 <ℤ (received -ℤ fee)
    pub first : String
    pub second : String
    pub sides : canonical_pipe_principals p c.server_address recipient ≡ ok (first, second)
    pub tap : TapState
    pub latest : get_latest_pipe_state_for_principals p contract_id first second t ≡ ok (some tap)
    pub forwarded : IsForwarded tap (received -ℤ fee) t t' m

  pub data Offers (settings : RuntimeSettings) (incoming recipient contract_id : String)
      (t : Tables) : Option PendingPayment × Tables → Type 0 where
    nothing : Offers settings incoming recipient contract_id t (none, t)
    payment :
        {t' : Tables} {m : PendingPayment}
        → IsOffered settings incoming recipient contract_id t t' m
        → Offers settings incoming recipient contract_id t (some m, t')

  offered :
      {settings : RuntimeSettings} {incoming recipient contract_id : String} {t : Tables}
      {tap : TapState} {amount : ℤ} {x : Option PendingPayment × Tables}
      → ((t' : Tables) (m : PendingPayment)
          → IsForwarded tap amount t t' m
          → IsOffered settings incoming recipient contract_id t t' m)
      → Forwards tap amount t x
      → Offers settings incoming recipient contract_id t x
  offered offer kept = nothing
  offered offer (moved done) = payment (offer _ _ done)

  -- Where an outgoing payment is created, its amount is the incoming one less the fee, is positive
  -- and no more than the server's balance of the recipient's latest tap state; the new state moves
  -- exactly that amount to the recipient under the next nonce and is recorded as a pending state.
  -- Where none is created, the tables are as before.
  pub create_outgoing_payment-Offers :
      (settings : RuntimeSettings) (hashed_secret incoming recipient contract_id : String)
      (t : Tables) (x : Option PendingPayment × Tables)
      → create_outgoing_payment p s c settings w hashed_secret incoming recipient contract_id t
        ≡ ok x
      → Offers settings incoming recipient contract_id t x
  unfolding create_outgoing_payment
  create_outgoing_payment-Offers settings hashed_secret incoming recipient contract_id t x h =
      let (_, h1) =
        reject_if-eq-ok (not (c.contract_id == "") && not (contract_id == c.contract_id)) 402
          "wrong-contract" _ h in
      let (secret, _, h2) = >>=-eq-ok (normalize_hex32 hashed_secret) _ h1 in
      let (received, e3, h3) = >>=-eq-ok (or_throw (big_int incoming) "SyntaxError") _ h2 in
      let (fee, e4, h4) = >>=-eq-ok (or_throw (big_int settings.min_fee_sats) "SyntaxError") _ h3 in
      elim (Bool-cases (leb_ℤ (received -ℤ fee) (pos 0))) [
        | inl used_up ↦ rw (← ok_inj (rw used_up at h4)) nothing
        | inr left ↦
            let h5 = rw left at h4 in
            let ((first, second), e6, h6) =
              >>=-eq-ok (canonical_pipe_principals p c.server_address recipient) _ h5 in
            let (latest, e7, h7) =
              >>=-eq-ok (get_latest_pipe_state_for_principals p contract_id first second t) _ h6 in
            elim (Option-cases latest) [
              | inl absent ↦ rw (← ok_inj (rw absent at h7)) nothing
              | inr (tap, found) ↦
                  offered
                    (λ t' m done. record {
                      received = received;
                      fee = fee;
                      received_reads = or_throw-eq-ok _ _ e3;
                      fee_reads = or_throw-eq-ok _ _ e4;
                      positive = lt_of_leb_ℤ (received -ℤ fee) (pos 0) left;
                      first = first;
                      second = second;
                      sides = e6;
                      tap = tap;
                      latest = e7 ∙ ap ok found;
                      forwarded = done;
                    })
                    (forward_payment-Forwards contract_id secret recipient (received -ℤ fee) tap t
                      (rw found at h7))
            ]
      ]
