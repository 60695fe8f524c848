-- ===== src/Reservoir/Liquidity/Disputed.antt =====
-- What a dispute that is broadcast carries.
use mailslot.Base.{
  String, false, Option, none, some, ◌≡◌, refl, sym, ap, ◌∙◌, not, ◌==◌, ◌||◌, if◌then◌else◌,
  or_else, arith, eq_iff, Result, ok, >>=-eq-ok, reject_if-eq-ok, or_reject-eq-ok, or_throw-eq-ok,
  ok_inj, or_reject, or_throw,
}
use mailslot.Base.Int.{ℤ}
use mailslot.Base.Text.{big_int, first_part, second_part}
use mailslot.Reservoir.Tables.{Platform, Config, Tables, PipeRow}
use mailslot.Reservoir.Liquidity.Disputes.{
  DisputeCall, Dispute, present, optional_number, get_enforceable_pipe_row_for_counterparty,
  dispute_call, submit_dispute_for_counterparty,
}

-- A number that a row may have: absent, or the integer of its text.
pub data IsOptional (text : Option String) (number : Option ℤ) : Type 0 where
  absent : text ≡ none → number ≡ none → IsOptional text number
  read :
      (t : String) (n : ℤ)
      → text ≡ some t
      → big_int t ≡ some n
      → number ≡ some n
      → IsOptional text number

optional_number-IsOptional :
    (text : Option String) {number : Option ℤ}
    → optional_number text ≡ ok number
    → IsOptional text number
unfolding optional_number
optional_number-IsOptional none h = absent refl (ok_inj (sym h))
optional_number-IsOptional (some t) h =
    let (n, e1, h1) = >>=-eq-ok (or_throw (big_int t) "SyntaxError") _ h in
    read t n refl (or_throw-eq-ok _ _ e1) (ok_inj (sym h1))

-- A call carries the enforceable row: both signatures, its numbers, its actor, which is the server
-- where the row has none, and the counterparty asked for.
pub record Carries (c : Config) (counterparty : String) (row : PipeRow) (call : DisputeCall)
    : Type 0 where
  pub other : call.counterparty ≡ counterparty
  pub mine : present row.last_server_signature ≡ some call.server_signature
  pub theirs : present row.last_counterparty_signature ≡ some call.counterparty_signature
  pub server_balance : big_int row.server_balance ≡ some call.server_balance
  pub counterparty_balance : big_int row.counterparty_balance ≡ some call.counterparty_balance
  pub nonce : big_int row.nonce ≡ some call.nonce
  pub action : big_int (or_else row.last_action "1") ≡ some call.action
  pub secret : call.secret ≡ present row.enforceable_secret
  pub actor : call.actor ≡ or_else row.last_actor c.server_address
  pub valid_after : IsOptional (present row.last_valid_after) call.valid_after
  pub server : call.server ≡ c.server_address
  pub contract_address : call.contract_address ≡ first_part c.contract_id
  pub contract_name : call.contract_name ≡ second_part c.contract_id
  pub token : call.token ≡ present row.pipe_key.token

same_other :
    (other counterparty : String)
    → (other == "" || not (other == counterparty)) ≡ false
    → other ≡ counterparty
same_other other counterparty h = ground (arith, eq_iff other counterparty)

dispute_call-Carries :
    (p : Platform) (c : Config) (counterparty : String) (row : PipeRow) {call : DisputeCall}
    → dispute_call p c counterparty row ≡ ok call
    → Carries c counterparty row call
unfolding dispute_call
dispute_call-Carries p c counterparty row h =
    let other =
      if row.pipe_key.principal_1 == c.server_address
      then row.pipe_key.principal_2
      else row.pipe_key.principal_1 in
    let (c1, h1) =
      reject_if-eq-ok (other == "" || not (other == counterparty)) 400 "invalid-pipe-state" _ h in
    let (mine, e2, h2) =
      >>=-eq-ok (or_reject (present row.last_server_signature) 409 "missing-dispute-signatures") _
        h1 in
    let (theirs, e3, h3) =
      >>=-eq-ok
        (or_reject (present row.last_counterparty_signature) 409 "missing-dispute-signatures") _
        h2 in
    let (_, h4) =
      reject_if-eq-ok (first_part c.contract_id == "" || second_part c.contract_id == "") 503
        "stackflow-contract-missing" _ h3 in
    let (valid_after, e5, h5) = >>=-eq-ok (optional_number (present row.last_valid_after)) _ h4 in
    let (server, e6, h6) = >>=-eq-ok (or_throw (big_int row.server_balance) "SyntaxError") _ h5 in
    let (balance, e7, h7) =
      >>=-eq-ok (or_throw (big_int row.counterparty_balance) "SyntaxError") _ h6 in
    let (nonce, e8, h8) = >>=-eq-ok (or_throw (big_int row.nonce) "SyntaxError") _ h7 in
    let (action, e9, h9) =
      >>=-eq-ok (or_throw (big_int (or_else row.last_action "1")) "SyntaxError") _ h8 in
    rw (← ok_inj h9) (record {
      other = same_other other counterparty c1;
      mine = or_reject-eq-ok _ _ _ e2;
      theirs = or_reject-eq-ok _ _ _ e3;
      server_balance = or_throw-eq-ok _ _ e6;
      counterparty_balance = or_throw-eq-ok _ _ e7;
      nonce = or_throw-eq-ok _ _ e8;
      action = or_throw-eq-ok _ _ e9;
      secret = refl;
      actor = refl;
      valid_after = optional_number-IsOptional _ e5;
      server = refl;
      contract_address = refl;
      contract_name = refl;
      token = refl;
    })

-- The dispute that was broadcast, from the enforceable row of the tap.
pub record IsDisputed (p : Platform) (c : Config) (broadcast : DisputeCall → Result (Option String))
    (counterparty : String) (t : Tables) (d : Dispute) : Type 0 where
  pub row : PipeRow
  pub call : DisputeCall
  pub found : get_enforceable_pipe_row_for_counterparty p c counterparty t ≡ ok (some row)
  pub carries : Carries c counterparty row call
  pub sent : broadcast call ≡ ok (some d.txid)
  pub of_row : d.nonce ≡ row.nonce
  pub of_pipe : d.pipe_id ≡ row.pipe_id

-- A dispute succeeds only where the tap has an enforceable row with both signatures; what is
-- broadcast then carries that row's signatures, balances, nonce, action, actor, secret,
-- valid-after and token to the contract, against the counterparty asked for, and the answer has the transaction's id with the row's nonce and
-- pipe.
pub submit_dispute-IsDisputed :
    (p : Platform) (c : Config) (broadcast : DisputeCall → Result (Option String))
    (counterparty : String) (t : Tables) (d : Dispute)
    → submit_dispute_for_counterparty p c broadcast counterparty t ≡ ok d
    → IsDisputed p c broadcast counterparty t d
unfolding submit_dispute_for_counterparty
submit_dispute-IsDisputed p c broadcast counterparty t d h =
    let (_, h1) = reject_if-eq-ok (c.server_private_key == "") 503 "reservoir-key-missing" _ h in
    let (_, h2) = reject_if-eq-ok (c.contract_id == "") 503 "stackflow-contract-missing" _ h1 in
    let (found, e3, h3) =
      >>=-eq-ok (get_enforceable_pipe_row_for_counterparty p c counterparty t) _ h2 in
    let (row, e4, h4) = >>=-eq-ok (or_reject found 404 "no-enforceable-pipe-state") _ h3 in
    let (call, e5, h5) = >>=-eq-ok (dispute_call p c counterparty row) _ h4 in
    let (sent, e6, h6) = >>=-eq-ok (broadcast call) _ h5 in
    let (txid, e7, h7) = >>=-eq-ok (or_reject sent 502 "dispute-broadcast-failed") _ h6 in
    rw (← ok_inj h7) (record {
      row = row;
      call = call;
      found = e3 ∙ ap ok (or_reject-eq-ok found _ _ e4);
      carries = dispute_call-Carries p c counterparty row e5;
      sent = e6 ∙ ap ok (or_reject-eq-ok sent _ _ e7);
      of_row = refl;
      of_pipe = refl;
    })
