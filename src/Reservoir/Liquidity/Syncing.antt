-- ===== src/Reservoir/Liquidity/Syncing.antt =====
-- `syncTapState` and `getTrackedTapState`.
use mailslot.Base.{
  String, Option, none, some, ◌==◌, ◌&&◌, not, if◌then◌else◌, Result, ok, ◌>>=◌, ◌>>◌, reject_if,
}
use mailslot.Base.Int.{ℤ, pos, ◌+ℤ◌, leb_ℤ}
use mailslot.Base.Text.{to_text}
use mailslot.Transfer.{Signer}
use mailslot.Reservoir.Tables.{
  Platform, Config, Tables, World, TapState, PendingLeg, OnChainPipe, upsert_pipe, no_meta,
  delete_pending_states_at_or_below_nonce,
}
use mailslot.Reservoir.Payments.{tracked_tap}
use mailslot.Reservoir.Liquidity.Snapshots.{
  Snapshot, check_token, has_matured, get_current_on_chain_tap_snapshot,
}

-- The arguments of `syncTapState`.
pub record SyncArgs : Type 0 where
  pub counterparty : String
  pub token : Option String
  pub user_balance : String
  pub reservoir_balance : String
  pub nonce : String
  pub action : Option String
  pub actor : Option String
  pub counterparty_signature : Option String
  pub server_signature : Option String

-- What is synced is what the chain has, text for text.
unfoldable pub check_sync : Snapshot → SyncArgs → Result (Unit {0})
check_sync now args = do
  reject_if
      (not (
        to_text now.counterparty == args.user_balance
        && to_text now.server == args.reservoir_balance))
      409 "tap-sync-balance-mismatch"
  reject_if (not (to_text now.nonce == args.nonce)) 409 "tap-sync-nonce-mismatch"

-- The balances of a tap: what the tables have, and what the chain has settled and keeps pending.
pub record TapBalances : Type 0 where
  pub tap : TapState
  pub settled_server_balance : Option String
  pub settled_counterparty_balance : Option String
  pub pending_server_balance : Option String
  pub pending_counterparty_balance : Option String

-- `matureAmount`: what a leg adds to the settled balance, and what stays pending.
unfoldable pub mature_amount : Option ℤ → PendingLeg → ℤ × ℤ
unfolding has_matured
mature_amount height leg =
    if leb_ℤ leg.amount (pos 0)
    then (pos 0, pos 0)
    else if has_matured height leg
    then (leg.amount, pos 0)
    else (pos 0, leg.amount)

-- The balances of a side, settled and pending.
unfoldable pub side_balances : Option ℤ → ℤ → PendingLeg → ℤ × ℤ
unfolding mature_amount
side_balances height balance leg =
    let (settled, pending) = mature_amount height leg in (balance +ℤ settled, pending)

unfoldable pub tap_balances : Config → Option ℤ → TapState → Option OnChainPipe → TapBalances
unfolding side_balances
tap_balances c height tap none = record {
  tap = tap;
  settled_server_balance = none;
  settled_counterparty_balance = none;
  pending_server_balance = none;
  pending_counterparty_balance = none;
}
tap_balances c height tap (some o) =
    let server_is_principal_1 = tap.pipe_key.principal_1 == c.server_address in
    let one = side_balances height o.balance_1 o.pending_leg_1 in
    let two = side_balances height o.balance_2 o.pending_leg_2 in
    let server = if server_is_principal_1 then one else two in
    let theirs = if server_is_principal_1 then two else one in
    record {
      tap = tap;
      settled_server_balance = some (to_text server.0);
      settled_counterparty_balance = some (to_text theirs.0);
      pending_server_balance = some (to_text server.1);
      pending_counterparty_balance = some (to_text theirs.1);
    }

module _ (p : Platform) (s : Signer) (c : Config) where
  unfoldable pub sync_tap_state : World → SyncArgs → Tables → Result Tables
  unfolding check_sync
  sync_tap_state w args t = do
    token ← check_token args.token
    now ← get_current_on_chain_tap_snapshot p c w args.counterparty token
    check_sync now args
    ok (
        delete_pending_states_at_or_below_nonce p now.pipe_id args.nonce (
          upsert_pipe now.pipe_id c.contract_id now.pipe_key args.reservoir_balance
            args.user_balance args.nonce
            (record no_meta {
              action = args.action;
              actor = args.actor;
              server_signature = args.server_signature;
              counterparty_signature = args.counterparty_signature;
            })
            w.sql_now t))

  -- `getTrackedTapState`; the burn height is asked for only where the chain has the pipe.
  unfoldable pub get_tracked_tap_state : World → String → Tables → Result (Option TapBalances)
  unfolding tap_balances
  get_tracked_tap_state w counterparty t = do
    tap ← tracked_tap p s c counterparty t
    elim tap [
      | none ↦ ok none
      | some state ↦
          ok (some (tap_balances c w.burn_height state (w.on_chain counterparty state.pipe_key)))
    ]
