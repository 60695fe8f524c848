-- ===== src/Reservoir/Liquidity/Disputes.antt =====
-- `submitDisputeForCounterparty`: the call of the contract that it broadcasts.
use mailslot.Base.{
  String, Option, none, some, ◌==◌, ◌||◌, not, if◌then◌else◌, or_else, Result, ok, ◌>>=◌, ◌>>◌,
  or_throw, or_reject, reject_if,
}
use mailslot.Base.Int.{ℤ}
use mailslot.Base.Text.{big_int, first_part, second_part}
use mailslot.Reservoir.Tables.{
  Platform, Config, Tables, PipeRow, get_latest_pipe_row_for_principals,
}
use mailslot.Reservoir.Proof.{canonical_pipe_principals, non_empty}

-- The arguments of `dispute-closure-for`, before they are made Clarity values.
pub record DisputeCall : Type 0 where
  pub contract_address : String
  pub contract_name : String
  pub server : String
  pub token : Option String
  pub counterparty : String
  pub server_balance : ℤ
  pub counterparty_balance : ℤ
  pub server_signature : String
  pub counterparty_signature : String
  pub nonce : ℤ
  pub action : ℤ
  pub actor : String
  pub secret : Option String
  pub valid_after : Option ℤ

-- What a dispute is answered with.
pub record Dispute : Type 0 where
  pub txid : String
  pub nonce : String
  pub pipe_id : String

-- An empty text counts as absent.
unfoldable pub present : Option String → Option String
present none = none
present (some t) = non_empty t

-- A number that may be absent.
unfoldable pub optional_number : Option String → Result (Option ℤ)
optional_number none = ok none
optional_number (some t) = do n ← or_throw (big_int t) "SyntaxError"; ok (some n)

module _ (p : Platform) (c : Config) where
  -- `getEnforceablePipeRowForCounterparty`
  unfoldable pub get_enforceable_pipe_row_for_counterparty :
      String → Tables → Result (Option PipeRow)
  get_enforceable_pipe_row_for_counterparty counterparty t =
      if c.contract_id == "" then ok none else do
        (first, second) ← canonical_pipe_principals p c.server_address counterparty
        ok (get_latest_pipe_row_for_principals p c.contract_id first second t)

  -- The call from a row whose counterparty has been asked for.
  unfoldable pub dispute_call : String → PipeRow → Result DisputeCall
  unfolding present optional_number
  dispute_call counterparty row = do
    let other =
        if row.pipe_key.principal_1 == c.server_address
        then row.pipe_key.principal_2
        else row.pipe_key.principal_1
    reject_if (other == "" || not (other == counterparty)) 400 "invalid-pipe-state"
    mine ← or_reject (present row.last_server_signature) 409 "missing-dispute-signatures"
    theirs ← or_reject (present row.last_counterparty_signature) 409 "missing-dispute-signatures"
    reject_if (first_part c.contract_id == "" || second_part c.contract_id == "") 503
        "stackflow-contract-missing"
    valid_after ← optional_number (present row.last_valid_after)
    server ← or_throw (big_int row.server_balance) "SyntaxError"
    counterparty_balance ← or_throw (big_int row.counterparty_balance) "SyntaxError"
    nonce ← or_throw (big_int row.nonce) "SyntaxError"
    action ← or_throw (big_int (or_else row.last_action "1")) "SyntaxError"
    ok (record {
      contract_address = first_part c.contract_id;
      contract_name = second_part c.contract_id;
      server = c.server_address;
      token = present row.pipe_key.token;
      counterparty = other;
      server_balance = server;
      counterparty_balance = counterparty_balance;
      server_signature = mine;
      counterparty_signature = theirs;
      nonce = nonce;
      action = action;
      actor = or_else row.last_actor c.server_address;
      secret = present row.enforceable_secret;
      valid_after = valid_after;
    })

  -- `broadcast` makes the transaction and sends it: the txid, or none where the node gives a reason.
  unfoldable pub submit_dispute_for_counterparty :
      (DisputeCall → Result (Option String)) → String → Tables → Result Dispute
  unfolding get_enforceable_pipe_row_for_counterparty dispute_call
  submit_dispute_for_counterparty broadcast counterparty t = do
    reject_if (c.server_private_key == "") 503 "reservoir-key-missing"
    reject_if (c.contract_id == "") 503 "stackflow-contract-missing"
    found ← get_enforceable_pipe_row_for_counterparty counterparty t
    row ← or_reject found 404 "no-enforceable-pipe-state"
    call ← dispute_call counterparty row
    sent ← broadcast call
    txid ← or_reject sent 502 "dispute-broadcast-failed"
    ok (record { txid = txid; nonce = row.nonce; pipe_id = row.pipe_id })
