-- ===== src/Reservoir/Tables/Rows.antt =====
-- The rows of the reservoir's tables, and what the code calls outside of itself: SQLite's CAST and
-- LIKE, the serialization of principals, and the decoding of JSON.
use Prim.Native.String
use mailslot.Base.{ℕ, String, Bool, List, Option, none, some, Result}
use mailslot.Base.Int.{ℤ}
use mailslot.Json.{Json}
use mailslot.Types.{PipeKey}

pub record Platform : Type 0 where
  -- `CAST(text AS INTEGER)`
  pub cast_integer : String → ℤ
  -- `text LIKE pattern`, the pattern first
  pub like : String → String → Bool
  -- `serializeCVBytes(principalCV(text))`; `none` where it throws
  pub serialize_principal : String → Option (List ℕ)
  -- `JSON.parse(Buffer.from(text, 'base64url').toString('utf-8'))`; `none` where it throws
  pub decode_base64url : String → Option Json
  -- `JSON.parse(text)`
  pub decode : String → Option Json

-- The configuration of the service.
pub record Config : Type 0 where
  pub server_address : String
  pub signer_address : String
  pub reservoir_contract_id : String
  pub server_private_key : String
  pub contract_id : String
  pub chain_id : ℕ

-- `reservoir_pipes`: the latest enforceable state of each pipe.
pub record PipeRow : Type 0 where
  pub pipe_id : String
  pub contract_id : String
  pub pipe_key : PipeKey
  pub server_balance : String
  pub counterparty_balance : String
  pub nonce : String
  pub last_action : Option String
  pub last_actor : Option String
  pub last_hashed_secret : Option String
  pub last_valid_after : Option String
  pub last_server_signature : Option String
  pub last_counterparty_signature : Option String
  pub enforceable_secret : Option String
  pub updated_at : ℕ

-- `reservoir_pending_states`: optimistic states, one for each pipe and nonce.
pub record PendingRow : Type 0 where
  pub pipe_id : String
  pub nonce : String
  pub contract_id : String
  pub pipe_key : PipeKey
  pub server_balance : String
  pub counterparty_balance : String
  pub action : Option String
  pub actor : Option String
  pub hashed_secret : Option String
  pub valid_after : Option String
  pub server_signature : Option String
  pub counterparty_signature : Option String
  pub updated_at : ℕ

-- `reservoir_refreshes`
pub record Refresh : Type 0 where
  pub borrower : String
  pub last_refreshed_at : ℕ

pub record Tables : Type 0 where
  pub pipes : List PipeRow
  pub pending : List PendingRow
  pub refreshes : List Refresh

-- `PipeUpdateMeta`
pub record PipeUpdateMeta : Type 0 where
  pub action : Option String
  pub actor : Option String
  pub hashed_secret : Option String
  pub valid_after : Option String
  pub server_signature : Option String
  pub counterparty_signature : Option String
  pub enforceable_secret : Option String

-- What the code reads of a row of either table.
pub record TapState : Type 0 where
  pub pipe_id : String
  pub contract_id : String
  pub pipe_key : PipeKey
  pub server_balance : String
  pub counterparty_balance : String
  pub nonce : String
  pub updated_at : ℕ

abbrev pub of_pipe : PipeRow → TapState
of_pipe r = record {
  pipe_id = r.pipe_id;
  contract_id = r.contract_id;
  pipe_key = r.pipe_key;
  server_balance = r.server_balance;
  counterparty_balance = r.counterparty_balance;
  nonce = r.nonce;
  updated_at = r.updated_at;
}

abbrev pub of_pending : PendingRow → TapState
of_pending r = record {
  pipe_id = r.pipe_id;
  contract_id = r.contract_id;
  pipe_key = r.pipe_key;
  server_balance = r.server_balance;
  counterparty_balance = r.counterparty_balance;
  nonce = r.nonce;
  updated_at = r.updated_at;
}

-- `${contractId}|${token ?? 'stx'}|${principal-1}|${principal-2}`
token_part : Option String → String
token_part none = "stx"
token_part (some t) = t

unfoldable pub principals_suffix : String → String → String
principals_suffix principal_1 principal_2 =
    String.◌++◌ "|" (String.◌++◌ principal_1 (String.◌++◌ "|" principal_2))

unfoldable pub build_pipe_id : String → PipeKey → String
unfolding token_part principals_suffix
build_pipe_id contract_id key = String.◌++◌ contract_id (
    String.◌++◌ "|"
      (String.◌++◌ (token_part key.token) (principals_suffix key.principal_1 key.principal_2)))

-- `OnChainPipeState` and `PendingLeg`: the contract's view of a pipe.
pub record PendingLeg : Type 0 where
  pub amount : ℤ
  pub burn_height : Option ℤ

pub record OnChainPipe : Type 0 where
  pub balance_1 : ℤ
  pub balance_2 : ℤ
  pub pending_1 : ℤ
  pub pending_2 : ℤ
  pub pending_leg_1 : PendingLeg
  pub pending_leg_2 : PendingLeg
  pub nonce : ℤ

-- What a call reads of the world: the pipe that the contract reports for an actor and a key, the
-- burn block height, the reservoir's fee for an amount, `Date.now()` and SQLite's clock.
pub record World : Type 0 where
  pub on_chain : String → PipeKey → Option OnChainPipe
  pub burn_height : Option ℤ
  pub borrow_fee : ℤ → Result ℤ
  pub now : ℕ
  pub sql_now : ℕ
