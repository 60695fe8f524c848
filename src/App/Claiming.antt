-- ===== src/App/Claiming.antt =====
-- `handleClaim`: what a successful claim has checked, and what it leaves.
use mailslot.Base.{
  String, true, false, List, [], ◌∷◌, Option, some, ◌≡◌, refl, sym, ap, ◌∙◌, ◌==◌, not, eq_refl,
  is_some, find, Bool-cases, Option-cases, Result-cases, inl, inr, Result, ok, err, Failure, thrown,
  service,
}
use mailslot.Crypto.{verify_secret_hash}
use mailslot.Json.{Json, Value, property, as_text}
use mailslot.Types.{StoredMessage, MailMessage, PendingPayment, SettlementRecord}
use mailslot.Store.Rows.{Store, is_open}
use mailslot.Store.Methods.{
  get_message, claim_message, upsert_settlement, record_settlement, get_settlement,
}
use mailslot.Reservoir.Tables.{Tables}
use mailslot.Reservoir.Proof.{text_else}
use mailslot.Reservoir.Payments.{record_completed_incoming_payment}
use mailslot.Reservoir.Verify.{true_of_not}
use mailslot.App.Context.{
  Server, Database, Handler, Response, failed, claimed_message, done, ◌>>=◌, ◌>>◌, or_respond, lift,
  pure, run_handler,
}
use mailslot.App.Inbox.{
  check_claimable, claim_failure, claim_found, complete_payment, finish_claim, take_claim,
  claim_with, handle_claim,
}
use mailslot.App.Replies.{
  is_success, not_failed, respond_if-success, or_respond-success, lift-success, run-next, run-done,
}

claim_failure-fails : (e : Failure) → is_success (claim_failure e) ≡ false
claim_failure-fails (thrown message) = elim (Bool-cases (message == "message-not-found")) [
  | inl absent ↦ rw absent refl
  | inr other ↦ elim (Bool-cases (message == "already-claimed")) [
    | inl again ↦ rw (other, again) refl
    | inr unknown ↦ rw (other, unknown) refl
  ]
]
claim_failure-fails (service status reason) = refl

module _ {r : Response} {db' : Database} (success : is_success r ≡ true) where
  check_claimable-success :
      (m : StoredMessage) (k : PendingPayment → Handler Response) (db : Database)
      → run_handler (check_claimable m >>= k) db ≡ (r, db')
      → (pending : PendingPayment) × (m.claimed ≡ false)
        × (is_open m.delivery_state ≡ true)
        × (m.pending_payment ≡ some pending)
        × (run_handler (k pending) db ≡ (r, db'))
  unfolding check_claimable
  check_claimable-success m k db h = elim (Bool-cases m.claimed) [
    | inl again ↦ stopped "already-claimed" (rw again refl)
    | inr fresh ↦ elim (Bool-cases (is_open m.delivery_state)) [
      | inl opened ↦ elim (Option-cases m.pending_payment) [
        | inl unpaid ↦ stopped "message-not-ready" (rw (fresh, opened, unpaid) refl)
        | inr (pending, paid) ↦ (
          pending,
          fresh,
          opened,
          paid,
          sym (run-next (check_claimable m) k db db pending (rw (fresh, opened, paid) refl)) ∙ h,
        )
      ]
      | inr closed ↦ stopped "message-not-ready" (rw (fresh, closed) refl)
    ]
  ]
    where
      stopped :
          {X : Type 0} (error : String) → check_claimable m db ≡ (done (failed 409 error), db) → X
      stopped error e = absurd (
          not_failed success (failed 409 error) db refl
            (sym (run-done (check_claimable m) k db db (failed 409 error) e) ∙ h))

  claim_found-success :
      (o : Result (MailMessage × Store)) (k : MailMessage → Handler Response) (db : Database)
      → run_handler (claim_found o >>= k) db ≡ (r, db')
      → (mail : MailMessage) × (st : Store) × (o ≡ ok (mail, st))
        × (run_handler (k mail) (record db { store = st }) ≡ (r, db'))
  unfolding claim_found
  claim_found-success (ok (mail, st)) k db h = (mail, st, refl, h)
  claim_found-success (err e) k db h =
      absurd (not_failed success (claim_failure e) db (claim_failure-fails e) h)

  complete_payment-success :
      (sv : Server) (m : StoredMessage) (secret : String) (k : Handler Response) (db : Database)
      → run_handler (complete_payment sv m secret >> k) db ≡ (r, db')
      → (t : Tables) × (record_completed_incoming_payment sv.platform sv.signer sv.config sv.world
            m.payment_id secret db.tables
          ≡ ok t)
        × (run_handler k (record db { tables = t }) ≡ (r, db'))
  unfolding complete_payment
  complete_payment-success sv m secret k db h =
      let call =
        record_completed_incoming_payment sv.platform sv.signer sv.config sv.world m.payment_id
          secret db.tables in
      elim (Result-cases call) [
        | inl (e, bad) ↦
            let stops =
              run-done (complete_payment sv m secret) (λ _. k) db db (failed 500 "internal-error")
                (rw (bad, complete_payment) refl) in
            absurd (not_failed success (failed 500 "internal-error") db refl (sym stops ∙ h))
        | inr (t, through) ↦ (
          t,
          through,
          sym (
                run-next (complete_payment sv m secret) (λ _. k) db (record db { tables = t }) tt
                  (rw (through, complete_payment) refl))
              ∙ h,
        )
      ]

get-record_settlement :
    (s : SettlementRecord) (st : Store)
    → get_settlement s.message_id (record_settlement s st) ≡ some s
unfolding get_settlement record_settlement upsert_settlement
get-record_settlement s st = found st.settlements
  where
    found :
        (ss : List SettlementRecord)
        → find (λ (x : SettlementRecord). x.message_id == s.message_id) (upsert_settlement s ss)
          ≡ some s
    found [] = rw eq_refl refl
    found (old ∷ ss) = elim (Bool-cases (old.message_id == s.message_id)) [
      | inl same ↦ rw (same, eq_refl) refl
      | inr other ↦ rw (other, other) (found ss)
    ]

-- What a claim that returns a mail and a payment has found and left.
pub record IsClaimed (sv : Server) (addr id secret : String) (mail : MailMessage)
    (payment : Option PendingPayment) (db db' : Database) : Type 0 where
  pub row : StoredMessage
  pub located : get_message id addr db.store ≡ some row
  pub unclaimed : row.claimed ≡ false
  pub ready : is_open row.delivery_state ≡ true
  pub opens : verify_secret_hash sv.sha256 secret row.hashed_secret ≡ true
  pub offered : row.pending_payment ≡ payment
  pub paid : is_some payment ≡ true
  pub claimed_store : Store
  pub taken : claim_message id addr sv.world.now db.store ≡ ok (mail, claimed_store)
  pub messages : db'.store.messages ≡ claimed_store.messages
  pub settlement : SettlementRecord
  pub settled : get_settlement row.id db'.store ≡ some settlement
  pub revealed : settlement.secret ≡ secret
  pub completed :
      record_completed_incoming_payment sv.platform sv.signer sv.config sv.world row.payment_id
        secret db.tables
      ≡ ok db'.tables

module _ (sv : Server) (addr id : String) (db db' : Database) (mail : MailMessage)
    (payment : Option PendingPayment) where
  finish_claim-settles :
      (m : StoredMessage) (secret : String) (mail' : MailMessage) (d : Database)
      → run_handler (finish_claim sv addr m secret mail') d ≡ (claimed_message mail payment, db')
      → (mail' ≡ mail)
        × (m.pending_payment ≡ payment)
        × (db'.store.messages ≡ d.store.messages)
        × (settlement : SettlementRecord) × (get_settlement m.id db'.store ≡ some settlement)
        × (settlement.secret ≡ secret)
        × (record_completed_incoming_payment sv.platform sv.signer sv.config sv.world m.payment_id
              secret d.tables
            ≡ ok db'.tables)
  unfolding finish_claim record_settlement
  finish_claim-settles m secret mail' d h =
      let settlement : SettlementRecord = record {
        message_id = m.id;
        payment_id = m.payment_id;
        recipient_addr = addr;
        hashed_secret = m.hashed_secret;
        secret = secret;
        pending_payment = m.pending_payment;
        settled_at = sv.world.now;
      } in
      let st = record_settlement settlement d.store in
      let (t, completed, e) =
        complete_payment-success refl sv m secret (pure (claimed_message mail' m.pending_payment))
          (record d { store = st }) h in
      let answer = ap (λ (x : Response × Database). x.0) e in
      let final : record { store = st; tables = t } ≡ db' =
        ap (λ (x : Response × Database). x.1) e in
      (
        cc answer,
        cc answer,
        ap (λ (x : Database). x.store.messages) (sym final),
        settlement,
        rw (← final) (get-record_settlement settlement d.store),
        refl,
        completed ∙ ap (λ (x : Database). ok x.tables) final,
      )

  take_claim-IsClaimed :
      (m : StoredMessage) (secret : String)
      → get_message id addr db.store ≡ some m
      → m.claimed ≡ false
      → is_open m.delivery_state ≡ true
      → is_some m.pending_payment ≡ true
      → run_handler (take_claim sv addr id secret m) db ≡ (claimed_message mail payment, db')
      → IsClaimed sv addr id secret mail payment db db'
  unfolding take_claim
  take_claim-IsClaimed m secret found fresh opened paid h =
      let (wrong, h1) =
        respond_if-success refl (not (verify_secret_hash sv.sha256 secret m.hashed_secret)) 400
          "invalid-secret"
          (claim_found (claim_message id addr sv.world.now db.store) >>= λ mail'.
            finish_claim sv addr m secret mail')
          db h in
      let (mail', st, taken, h2) =
        claim_found-success refl (claim_message id addr sv.world.now db.store)
          (λ mail'. finish_claim sv addr m secret mail') db h1 in
      let (mailed, offered, kept, settlement, settled, revealed, completed) =
        finish_claim-settles m secret mail' (record db { store = st }) h2 in
      record {
        row = m;
        located = found;
        unclaimed = fresh;
        ready = opened;
        opens = true_of_not _ wrong;
        offered = offered;
        paid = rw (← offered) paid;
        claimed_store = st;
        taken = taken ∙ ap (λ (x : MailMessage). ok (x, st)) mailed;
        messages = kept;
        settlement = settlement;
        settled = settled;
        revealed = revealed;
        completed = completed;
      }

  -- A claim that is answered with a mail and a payment has found the recipient's message unclaimed,
  -- ready or previewed, and with that payment; the secret of the body opens the message's lock. The
  -- store has claimed the message and holds its settlement with the secret, and the payment of the
  -- sender is completed with the secret in the reservoir's tables.
  pub handle_claim-IsClaimed :
      (body : Option String)
      → handle_claim sv addr id body db ≡ (claimed_message mail payment, db')
      → (text : String) × (json : Json) × (value : Value) × (body ≡ some text)
        × (sv.platform.decode text ≡ some json)
        × (property json "secret" ≡ ok value)
        × IsClaimed sv addr id (text_else "" (as_text value)) mail payment db db'
  unfolding handle_claim claim_with
  handle_claim-IsClaimed body h =
      let claims : Json → Handler Response = λ json.
        lift (property json "secret") >>= λ v. claim_with sv addr id (text_else "" (as_text v)) in
      let (text, sent, h1) =
        or_respond-success refl body 413 "body-too-large"
          (λ text. or_respond (sv.platform.decode text) 400 "invalid-json" >>= claims) db h in
      let (json, decoded, h2) =
        or_respond-success refl (sv.platform.decode text) 400 "invalid-json" claims db h1 in
      let (value, read, h3) =
        lift-success refl (property json "secret")
          (λ v. claim_with sv addr id (text_else "" (as_text v))) db h2 in
      let secret = text_else "" (as_text value) in
      let checks : StoredMessage → Handler Response =
        λ m. check_claimable m >>= λ _. take_claim sv addr id secret m in
      let (_, h4) =
        respond_if-success refl (secret == "") 400 "secret-required"
          (or_respond (get_message id addr db.store) 404 "not-found" >>= checks) db h3 in
      let (m, found, h5) =
        or_respond-success refl (get_message id addr db.store) 404 "not-found" checks db h4 in
      let (pending, fresh, opened, paid, h6) =
        check_claimable-success refl m (λ _. take_claim sv addr id secret m) db h5 in
      (
        text,
        json,
        value,
        sent,
        decoded,
        read,
        take_claim-IsClaimed m secret found fresh opened (rw paid refl) h6,
      )
