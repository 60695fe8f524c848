-- ===== src/Reservoir/Liquidity/Snapshots.antt =====
-- The state of a tap as the chain and as the tables have it.
use mailslot.Base.{
  String, Bool, true, false, Option, none, some, ◌==◌, ◌&&◌, ◌||◌, not, if◌then◌else◌, Result, ok,
  err, service, ◌>>=◌, ◌>>◌, or_throw, or_reject, reject_if,
}
use mailslot.Base.Int.{ℤ, pos, ltb_ℤ, leb_ℤ}
use mailslot.Base.Text.{big_int, to_text, trim, is_contract_principal}
use mailslot.Types.{PipeKey}
use mailslot.Transfer.{TransferState, Signer, build_transfer_message, sip018_sign, sip018_verify}
use mailslot.Reservoir.Tables.{
  Platform, Config, Tables, World, PendingLeg, build_pipe_id, get_latest_pending_pipe_row,
  get_latest_pipe_state_for_principals,
}
use mailslot.Reservoir.Proof.{canonical_pipe_principals}
use mailslot.Reservoir.Payments.{side_1, side_2}

-- A snapshot of a tap, the server's balance being the reservoir's.
pub record Snapshot : Type 0 where
  pub pipe_id : String
  pub pipe_key : PipeKey
  pub server : ℤ
  pub counterparty : ℤ
  pub nonce : ℤ
  pub has_unmatured_pending : Bool

-- `args.token == null || args.token.trim() === '' ? null : args.token.trim()`
unfoldable pub normalize_token : Option String → Option String
normalize_token none = none
normalize_token (some t) = if trim t == "" then none else some (trim t)

-- The token of a request, if it is null or a contract.
unfoldable pub check_token : Option String → Result (Option String)
unfolding normalize_token
check_token raw = elim (normalize_token raw) [
  | none ↦ ok none
  | some t ↦ if is_contract_principal t then ok (some t) else err (service 400 "invalid-token")
]

-- The burn height that a leg waits for has come.
unfoldable pub has_matured : Option ℤ → PendingLeg → Bool
has_matured none leg = false
has_matured (some height) leg = elim leg.burn_height [ none ↦ false | some due ↦ leb_ℤ due height ]

-- `isPendingActive`
unfoldable pub is_pending_active : Option ℤ → PendingLeg → Bool
unfolding has_matured
is_pending_active height leg = not (leb_ℤ leg.amount (pos 0)) && not (has_matured height leg)

-- The tracked state must be of the token that is asked for.
unfoldable pub same_token : Option String → Option String → Bool
same_token none none = true
same_token (some a) (some b) = a == b
same_token _ _ = false

module _ (p : Platform) (c : Config) where
  -- `getCurrentOnChainTapSnapshot`
  unfoldable pub get_current_on_chain_tap_snapshot :
      World → String → Option String → Result Snapshot
  unfolding is_pending_active
  get_current_on_chain_tap_snapshot w counterparty token = do
    (first, second) ← canonical_pipe_principals p c.server_address counterparty
    let key : PipeKey = record { principal_1 = first; principal_2 = second; token = token }
    o ← or_reject (w.on_chain counterparty key) 404 "no-tap"
    let server_is_principal_1 = first == c.server_address
    ok (record {
      pipe_id = build_pipe_id c.contract_id key;
      pipe_key = key;
      server = if server_is_principal_1 then side_1 o else side_2 o;
      counterparty = if server_is_principal_1 then side_2 o else side_1 o;
      nonce = o.nonce;
      has_unmatured_pending =
          is_pending_active w.burn_height o.pending_leg_1
          || is_pending_active w.burn_height o.pending_leg_2;
    })

  -- `getCurrentTrackedTapSnapshot`; the tables know of no deposits on the chain.
  unfoldable pub get_current_tracked_tap_snapshot :
      String → Option String → Tables → Result Snapshot
  unfolding same_token
  get_current_tracked_tap_snapshot counterparty token t = do
    reject_if (c.contract_id == "") 503 "stackflow-contract-missing"
    (first, second) ← canonical_pipe_principals p c.server_address counterparty
    latest ← get_latest_pipe_state_for_principals p c.contract_id first second t
    tap ← or_reject latest 404 "no-tap"
    reject_if (not (same_token tap.pipe_key.token token)) 409 "tap-token-mismatch"
    server ← or_throw (big_int tap.server_balance) "SyntaxError"
    theirs ← or_throw (big_int tap.counterparty_balance) "SyntaxError"
    nonce ← or_throw (big_int tap.nonce) "SyntaxError"
    ok (record {
      pipe_id = tap.pipe_id;
      pipe_key = tap.pipe_key;
      server = server;
      counterparty = theirs;
      nonce = nonce;
      has_unmatured_pending = false;
    })

  -- `assertNoOptimisticPendingStates`
  unfoldable pub assert_no_optimistic_pending_states : String → ℤ → Tables → Result (Unit {0})
  assert_no_optimistic_pending_states pipe_id enforceable_nonce t =
      elim (get_latest_pending_pipe_row p pipe_id t) [
        | none ↦ ok tt
        | some latest ↦ do
          nonce ← or_throw (big_int latest.nonce) "SyntaxError"
          reject_if (ltb_ℤ enforceable_nonce nonce) 409 "tap-has-pending-states"
      ]

-- The key, the contract and the reservoir that an operation on liquidity needs.
unfoldable pub check_configured : Config → Result (Unit {0})
check_configured c = do
  reject_if (c.server_private_key == "") 503 "reservoir-key-missing"
  reject_if (c.contract_id == "") 503 "stackflow-contract-missing"
  reject_if (c.reservoir_contract_id == "") 503 "reservoir-contract-missing"

-- A state of a tap whose liquidity changes, as `for_principal` sees it.
abbrev pub liquidity_state : PipeKey → String → ℤ → ℤ → ℤ → String → TransferState
liquidity_state key for_principal mine theirs nonce actor = record {
  pipe_key = key;
  for_principal = for_principal;
  my_balance = to_text mine;
  their_balance = to_text theirs;
  nonce = to_text nonce;
  action = "2";
  actor = actor;
  hashed_secret = none;
  valid_after = none;
}

module _ (s : Signer) (c : Config) where
  -- The user has signed the state.
  unfoldable pub check_user_signature : String → String → TransferState → String → Result (Unit {0})
  check_user_signature user signature state reason =
      reject_if
        (not
          (sip018_verify s c.contract_id (build_transfer_message state) signature user c.chain_id))
        401 reason

  -- The reservoir signs the same state as it sees it.
  unfoldable pub sign_as_reservoir : TransferState → Result String
  sign_as_reservoir state =
      or_throw
        (sip018_sign s c.contract_id (build_transfer_message state) c.server_private_key c.chain_id)
        "signing failed"
