-- ===== src/Reservoir/Payments/Checks.antt =====
-- The parts of `verifyIncomingPayment` and `createOutgoingPayment`: the checks of a proof, one group
-- after the other, and the states that are claimed and signed.
use mailslot.Base.{
  String, Option, none, some, ◌==◌, ◌&&◌, ◌||◌, not, if◌then◌else◌, Result, ok, ◌>>=◌, ◌>>◌,
  or_throw, or_reject, reject_if,
}
use mailslot.Base.Int.{ℤ, pos, ◌+ℤ◌, ◌-ℤ◌, ltb_ℤ, leb_ℤ, eqb_ℤ}
use mailslot.Base.Text.{big_int}
use mailslot.Types.{PipeKey}
use mailslot.Transfer.{TransferState}
use mailslot.Reservoir.Tables.{Config, TapState, OnChainPipe, PipeUpdateMeta, no_meta}
use mailslot.Reservoir.Proof.{ParsedProof, text_else}

-- `VerifiedPayment`
pub record VerifiedPayment : Type 0 where
  pub hashed_secret : String
  pub incoming_amount : String
  pub sender_address : String

-- What the checks of a proof establish, before it is recorded.
pub record CheckedPayment : Type 0 where
  pub proof : ParsedProof
  pub hashed_secret : String
  pub sender : String
  pub amount : ℤ

-- The numbers of a proof.
pub record Figures : Type 0 where
  pub server : ℤ
  pub sender : ℤ
  pub nonce : ℤ

-- `balance1 + pending1` of the one side and of the other.
abbrev pub side_1 : OnChainPipe → ℤ
side_1 o = o.balance_1 +ℤ o.pending_1

abbrev pub side_2 : OnChainPipe → ℤ
side_2 o = o.balance_2 +ℤ o.pending_2

-- The checks on the texts of a proof against the service's configuration.
unfoldable pub check_addressing : Config → ParsedProof → String → String → Result String
check_addressing c f for_principal with_principal = do
  reject_if (f.contract_id == "") 400 "missing-contract-id"
  reject_if (not (c.contract_id == "") && not (f.contract_id == c.contract_id)) 402 "wrong-contract"
  reject_if (not (f.action == "1")) 402 "invalid-action"
  hashed_secret ← or_reject f.hashed_secret 400 "missing-hashed-secret"
  reject_if (with_principal == "") 400 "missing-with-principal"
  reject_if (f.actor == "") 400 "missing-actor"
  reject_if (text_else "" f.their_signature == "") 400 "missing-signature"
  reject_if (not (with_principal == f.actor)) 402 "actor-mismatch"
  reject_if (f.actor == c.server_address) 402 "invalid-actor"
  reject_if (not (f.actor == f.pipe_key.principal_1) && not (f.actor == f.pipe_key.principal_2)) 402
      "actor-not-in-pipe"
  reject_if (not (for_principal == c.server_address)) 402 "wrong-recipient"
  ok hashed_secret

-- The balances and the nonce of a proof as integers, in their ranges.
unfoldable pub read_figures : ParsedProof → Result Figures
read_figures f = do
  server ← or_reject (big_int f.my_balance) 400 "invalid-balances"
  sender ← or_reject (big_int f.their_balance) 400 "invalid-balances"
  nonce ← or_reject (big_int f.nonce) 400 "invalid-balances"
  reject_if (ltb_ℤ server (pos 0) || ltb_ℤ sender (pos 0)) 400 "invalid-balances"
  reject_if (ltb_ℤ nonce (pos 1)) 402 "invalid-nonce"
  ok (record { server = server; sender = sender; nonce = nonce })

-- The amount of a proof against the state that the service tracks.
unfoldable pub tracked_amount : TapState → Figures → Result ℤ
tracked_amount existing f = do
  server ← or_throw (big_int existing.server_balance) "SyntaxError"
  sender ← or_throw (big_int existing.counterparty_balance) "SyntaxError"
  nonce ← or_throw (big_int existing.nonce) "SyntaxError"
  reject_if (not (eqb_ℤ f.nonce (nonce +ℤ pos 1))) 402 "invalid-nonce"
  reject_if (not (eqb_ℤ (f.server +ℤ f.sender) (server +ℤ sender))) 402 "invalid-total-balance"
  reject_if (leb_ℤ f.server server) 402 "balance-not-increased"
  ok (f.server -ℤ server)

-- The amount of a first proof against the contract's state of the pipe.
unfoldable pub first_amount : Config → PipeKey → OnChainPipe → Figures → Result ℤ
first_amount c key o f = do
  let server_is_principal_1 = key.principal_1 == c.server_address
  let server = if server_is_principal_1 then side_1 o else side_2 o
  let sender = if server_is_principal_1 then side_2 o else side_1 o
  reject_if (leb_ℤ f.nonce o.nonce) 402 "invalid-nonce"
  reject_if (not (eqb_ℤ (f.server +ℤ f.sender) (server +ℤ sender))) 402 "invalid-total-balance"
  reject_if (leb_ℤ f.server server) 402 "balance-not-increased"
  ok (f.server -ℤ server)

-- The state that a proof claims, from the server's side.
abbrev pub claimed_state : Config → ParsedProof → TransferState
claimed_state c f = record {
  pipe_key = f.pipe_key;
  for_principal = c.server_address;
  my_balance = f.my_balance;
  their_balance = f.their_balance;
  nonce = f.nonce;
  action = f.action;
  actor = f.actor;
  hashed_secret = f.hashed_secret;
  valid_after = f.valid_after;
}

module _ (c : Config) where
  -- A state that the server moves to and signs, from the counterparty's side.
  abbrev pub outgoing_state :
      PipeKey → String → String → String → String → Option String → TransferState
  outgoing_state key counterparty theirs mine nonce hashed_secret = record {
    pipe_key = key;
    for_principal = counterparty;
    my_balance = theirs;
    their_balance = mine;
    nonce = nonce;
    action = "1";
    actor = c.server_address;
    hashed_secret = hashed_secret;
    valid_after = none;
  }

  abbrev pub outgoing_meta : Option String → String → PipeUpdateMeta
  outgoing_meta hashed_secret signature = record no_meta {
    action = some "1";
    actor = some c.server_address;
    hashed_secret = hashed_secret;
    server_signature = some signature;
  }
