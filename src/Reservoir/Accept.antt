-- ===== src/Reservoir/Accept.antt =====
-- `verifyIncomingPayment`: what a success establishes of the proof and of the tables.
use mailslot.Base.{
  arith, ℕ, String, Bool, true, false, Option, none, some, ◌≡◌, refl, sym, ap, ◌∙◌, ◌==◌, ◌&&◌,
  ◌||◌, not, if◌then◌else◌, List, [], ◌∷◌, find, find-and, Bool-cases, eq_iff, eq_refl, inl, inr,
  Result, ok, err, >>=-eq-ok, ok_inj, reject_if-eq-ok, or_reject-eq-ok, or_throw-eq-ok, or_reject,
  or_throw,
}
use mailslot.Base.Int.{ℤ, ◌≤ℤ◌, ltb_ℤ}
use mailslot.Base.Text.{big_int, to_text}
use mailslot.Json.{Json, Value, property, as_text}
use mailslot.Types.{RuntimeSettings}
use mailslot.Transfer.{Signer, build_transfer_message, sip018_verify}
use mailslot.Reservoir.Tables.{
  Platform, Config, Tables, TapState, World, OnChainPipe, PendingRow, get_latest_pipe_state,
  put_pending, upsert_pending_state,
}
use mailslot.Reservoir.Proof.{ParsedProof, text_else, decode_proof, parse_proof}
use mailslot.Reservoir.Payments.{
  VerifiedPayment, CheckedPayment, Figures, check_addressing, read_figures, tracked_amount,
  first_amount, claimed_state, incoming_amount, check_incoming_payment, record_incoming_payment,
  verify_incoming_payment,
}
use mailslot.Reservoir.Verify.{
  Continues, Starts, IsAddressed, IsRead, check_addressing-IsAddressed, read_figures-IsRead,
  tracked_amount-Continues, first_amount-Starts, true_of_not, one_holds, le_of_ltb_ℤ,
}

-- The state that a proof builds on: the tracked one, or the contract's where none is tracked.
pub data Builds (p : Platform) (c : Config) (w : World) (f : ParsedProof) (figures : Figures)
    (amount : ℤ) (t : Tables) : Type 0 where
  on_tracked :
      (tap : TapState)
      → get_latest_pipe_state p f.pipe_id t ≡ ok (some tap)
      → Continues tap amount figures
      → Builds p c w f figures amount t
  on_contract :
      (o : OnChainPipe)
      → get_latest_pipe_state p f.pipe_id t ≡ ok none
      → w.on_chain f.actor f.pipe_key ≡ some o
      → Starts c f.pipe_key o amount figures
      → Builds p c w f figures amount t

incoming_amount-Builds :
    (p : Platform) (s : Signer) (c : Config) (w : World) (f : ParsedProof) (figures : Figures)
    (t : Tables) {amount : ℤ}
    → incoming_amount p s c w f figures t ≡ ok amount
    → Builds p c w f figures amount t
unfolding incoming_amount
incoming_amount-Builds p s c w f figures t {amount} h =
    let (latest, e, h1) = >>=-eq-ok (get_latest_pipe_state p f.pipe_id t) _ h in
    by_latest latest e h1
  where
    by_latest :
        (latest : Option TapState)
        → get_latest_pipe_state p f.pipe_id t ≡ ok latest
        → (elim latest [
          | some state ↦ tracked_amount state figures
          | none ↦
              mailslot.Base.◌>>=◌
                (or_reject (w.on_chain f.actor f.pipe_key) 402 "no-tap")
                (λ o. first_amount c f.pipe_key o figures)
        ])
          ≡ ok amount
        → Builds p c w f figures amount t
    by_latest none e h1 =
        let (o, e2, h2) = >>=-eq-ok (or_reject (w.on_chain f.actor f.pipe_key) 402 "no-tap") _ h1 in
        on_contract o e (or_reject-eq-ok _ _ _ e2) (first_amount-Starts c f.pipe_key o figures h2)
    by_latest (some tap) e h1 = on_tracked tap e (tracked_amount-Continues tap figures h1)

-- The payment that the checks let through, from the header that it is read from.
pub record IsChecked (p : Platform) (s : Signer) (c : Config) (settings : RuntimeSettings)
    (w : World) (raw : String) (t : Tables) (a : CheckedPayment) : Type 0 where
  pub json : Json
  pub decoded : decode_proof p raw ≡ ok json
  pub parsed : parse_proof p c json ≡ ok a.proof
  pub for_principal : Value
  pub for_read : property json "forPrincipal" ≡ ok for_principal
  pub in_pipe :
      a.proof.pipe_key.principal_1 == c.server_address
        || a.proof.pipe_key.principal_2 == c.server_address
      ≡ true
  pub addressed :
      IsAddressed c a.proof a.hashed_secret (text_else "" (as_text for_principal)) a.sender
  pub figures : Figures
  pub read : IsRead a.proof figures
  pub builds : Builds p c w a.proof figures a.amount t
  pub price : ℤ
  pub priced : big_int settings.message_price_sats ≡ some price
  pub covers : price ≤ℤ a.amount
  pub signed :
      sip018_verify s a.proof.contract_id
        (build_transfer_message (claimed_state c a.proof))
        (text_else "" a.proof.their_signature)
        a.proof.actor
        c.chain_id
      ≡ true

pub check_incoming_payment-IsChecked :
    (p : Platform) (s : Signer) (c : Config) (settings : RuntimeSettings) (w : World) (raw : String)
    (t : Tables) {a : CheckedPayment}
    → check_incoming_payment p s c settings w raw t ≡ ok a
    → IsChecked p s c settings w raw t a
unfolding check_incoming_payment
check_incoming_payment-IsChecked p s c settings w raw t {a} h =
    let (_, h1) =
      reject_if-eq-ok (c.server_private_key == "") 503 "payment-verification-disabled" _ h in
    let (json, e2, h2) = >>=-eq-ok (decode_proof p raw) _ h1 in
    let (f, e3, h3) = >>=-eq-ok (parse_proof p c json) _ h2 in
    let (c4, h4) =
      reject_if-eq-ok
        (not (f.pipe_key.principal_1 == c.server_address)
          && not (f.pipe_key.principal_2 == c.server_address))
        402 "pipe-mismatch" _ h3 in
    let (for_principal, e5, h5) = >>=-eq-ok (property json "forPrincipal") _ h4 in
    let (with_principal, _, h6) = >>=-eq-ok (property json "withPrincipal") _ h5 in
    let sender = text_else "" (as_text with_principal) in
    let (secret, e7, h7) =
      >>=-eq-ok (check_addressing c f (text_else "" (as_text for_principal)) sender) _ h6 in
    let (figures, e8, h8) = >>=-eq-ok (read_figures f) _ h7 in
    let (amount, e9, h9) = >>=-eq-ok (incoming_amount p s c w f figures t) _ h8 in
    let (price, e10, h10) =
      >>=-eq-ok (or_throw (big_int settings.message_price_sats) "SyntaxError") _ h9 in
    let (c11, h11) = reject_if-eq-ok (ltb_ℤ amount price) 402 "payment-too-low" _ h10 in
    let (c12, h12) =
      reject_if-eq-ok
        (not (
          sip018_verify s f.contract_id (build_transfer_message (claimed_state c f))
            (text_else "" f.their_signature) f.actor c.chain_id))
        402 "invalid-signature" _ h11 in
    let same = ok_inj (sym h12) in
    rw same (record {
      json = json;
      decoded = e2;
      parsed = e3;
      for_principal = for_principal;
      for_read = e5;
      in_pipe = one_holds _ _ c4;
      addressed = check_addressing-IsAddressed c f (text_else "" (as_text for_principal)) sender e7;
      figures = figures;
      read = read_figures-IsRead f e8;
      builds = incoming_amount-Builds p s c w f figures t e9;
      price = price;
      priced = or_throw-eq-ok _ _ e10;
      covers = le_of_ltb_ℤ amount price c11;
      signed = true_of_not _ c12;
    })

-- The pending row of a pipe and a nonce's text, of which there is one.
abbrev pub is_row : String → String → PendingRow → Bool
is_row pipe_id nonce r = r.pipe_id == pipe_id && r.nonce == nonce

pub find-put_pending :
    (r : PendingRow) (rows : List PendingRow)
    → find (is_row r.pipe_id r.nonce) (put_pending r rows) ≡ some r
unfolding put_pending
find-put_pending r [] = rw (eq_refl, eq_refl) refl
find-put_pending r (old ∷ rows) = elim (Bool-cases (is_row r.pipe_id r.nonce old)) [
  | inl same ↦ rw (same, eq_refl, eq_refl) refl
  | inr other ↦ rw (other, other) (find-put_pending r rows)
]

-- The row that an accepted payment leaves.
pub record IsRecorded (a : CheckedPayment) (t t' : Tables) : Type 0 where
  pub row : PendingRow
  pub located : find (is_row a.proof.pipe_id a.proof.nonce) t'.pending ≡ some row
  pub server : row.server_balance ≡ a.proof.my_balance
  pub sender : row.counterparty_balance ≡ a.proof.their_balance
  pub locked : row.hashed_secret ≡ some a.hashed_secret
  pub signature : row.counterparty_signature ≡ some (text_else "" a.proof.their_signature)
  pub enforceable : t'.pipes ≡ t.pipes

record_incoming_payment-IsRecorded :
    (p : Platform) (s : Signer) (c : Config) (w : World) (a : CheckedPayment) (t : Tables)
    → IsRecorded a t (record_incoming_payment p s c w a t).1
unfolding record_incoming_payment upsert_pending_state
record_incoming_payment-IsRecorded p s c w a t = record {
  row = record {
    pipe_id = a.proof.pipe_id;
    nonce = a.proof.nonce;
    contract_id = a.proof.contract_id;
    pipe_key = a.proof.pipe_key;
    server_balance = a.proof.my_balance;
    counterparty_balance = a.proof.their_balance;
    action = some a.proof.action;
    actor = some a.proof.actor;
    hashed_secret = some a.hashed_secret;
    valid_after = a.proof.valid_after;
    server_signature = none;
    counterparty_signature = some (text_else "" a.proof.their_signature);
    updated_at = w.sql_now;
  };
  located = find-put_pending _ t.pending;
  server = refl;
  sender = refl;
  locked = refl;
  signature = refl;
  enforceable = refl;
}

-- A payment is accepted only where its proof names the server as its `forPrincipal`, is locked by the
-- hash that it returns, its balances are not negative, it continues the state that the tables or else the
-- contract hold for the pipe (with the next, or a later, nonce, the same total, and a server's
-- balance that is larger by the amount returned), the amount covers the price, and the actor's
-- signature verifies; the sender returned is the actor. The proof's state is then the pending row
-- of its pipe and nonce, and the enforceable states are as before.
pub verify_incoming_payment-IsChecked :
    (p : Platform) (s : Signer) (c : Config) (settings : RuntimeSettings) (w : World) (raw : String)
    (t t' : Tables) (v : VerifiedPayment)
    → verify_incoming_payment p s c settings w raw t ≡ ok (v, t')
    → (a : CheckedPayment) × IsChecked p s c settings w raw t a
      × IsRecorded a t t'
      × (v.hashed_secret ≡ a.hashed_secret)
      × (v.incoming_amount ≡ to_text a.amount)
      × (v.sender_address ≡ a.proof.actor)
unfolding verify_incoming_payment record_incoming_payment
verify_incoming_payment-IsChecked p s c settings w raw t t' v h =
    let (a, e, h1) = >>=-eq-ok (check_incoming_payment p s c settings w raw t) _ h in
    let checked = check_incoming_payment-IsChecked p s c settings w raw t e in
    let done = ok_inj h1 in
    let paid : (record_incoming_payment p s c w a t).0 ≡ v =
      ap (λ (x : VerifiedPayment × Tables). x.0) done in
    let next : (record_incoming_payment p s c w a t).1 ≡ t' =
      ap (λ (x : VerifiedPayment × Tables). x.1) done in
    (
      a,
      checked,
      rw (← next) (record_incoming_payment-IsRecorded p s c w a t),
      sym (ap (λ (x : VerifiedPayment). x.hashed_secret) paid),
      sym (ap (λ (x : VerifiedPayment). x.incoming_amount) paid),
      sym (ap (λ (x : VerifiedPayment). x.sender_address) paid)
          ∙ (eq_iff a.sender a.proof.actor).0 checked.addressed.by_actor,
    )
