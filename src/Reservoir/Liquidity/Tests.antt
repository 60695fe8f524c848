-- ===== src/Reservoir/Liquidity/Tests.antt =====
-- The theorems about the liquidity of taps at a tap of alice's, with the concrete functions of
-- Reservoir/Tests.
use mailslot.Base.{true, [], ◌∷◌, none, some, ◌≡◌, ◌≢◌, refl, ok, arith}
use mailslot.Base.Int.{pos, ◌+ℤ◌, ◌-ℤ◌, ◌*ℤ◌}
use mailslot.Base.Text.{big_int, to_text, first_part, second_part}
use mailslot.Base.Text.{print_ℕ, trim}
use mailslot.Transfer.{build_transfer_message, message_values, sip018_sign, sip018_verify}
use mailslot.Reservoir.Tables.{
  Platform, Config, Tables, PipeRow, build_pipe_id, principals_suffix, first_by,
  get_latest_pending_pipe_row, choose_latest_row, get_latest_pipe_row_for_principals,
  get_latest_pending_pipe_row_for_principals, get_latest_pipe_state_for_principals,
  get_last_refresh_at, record_refresh_at, upsert_pipe, no_meta,
  delete_pending_states_at_or_below_nonce, TapState,
}
use mailslot.Reservoir.Proof.{canonical_pipe_principals, compare_bytes}
use mailslot.Reservoir.Tests.{
  platform, signer, config, settings, world, pipe_key, empty, on_chain_pipe,
}
use mailslot.Reservoir.Liquidity.Snapshots.{
  normalize_token, check_token, check_configured, check_user_signature, sign_as_reservoir,
  same_token, get_current_tracked_tap_snapshot, get_current_on_chain_tap_snapshot,
  assert_no_optimistic_pending_states, is_pending_active, has_matured,
}
use mailslot.Reservoir.Liquidity.Opening.{
  OpeningArgs, OpeningFigures, BorrowOffer, read_opening, provided_fee, check_provided_fee,
  check_opening, fetch_borrow_fee_from_reservoir, opening_key, record_opening,
  create_tap_with_borrowed_liquidity_params,
}
use mailslot.Reservoir.Liquidity.Funding.{
  FundingArgs, read_funding, check_funding, create_add_funds_params,
}
use mailslot.Reservoir.Liquidity.Borrowing.{
  BorrowingArgs, read_borrowing, target_receive_liquidity, check_borrowing, is_cooling, check_fee,
  create_borrow_liquidity_params,
}
use mailslot.Reservoir.Liquidity.Syncing.{SyncArgs, check_sync, sync_tap_state, tap_balances}
use mailslot.Reservoir.Liquidity.Disputes.{
  Dispute, present, optional_number, get_enforceable_pipe_row_for_counterparty, dispute_call,
  submit_dispute_for_counterparty,
}
use mailslot.Reservoir.Liquidity.Disputed.{IsDisputed, submit_dispute-IsDisputed}
use mailslot.Reservoir.Liquidity.Opened.{IsOpened, create_tap-IsOpened}
use mailslot.Reservoir.Liquidity.Funded.{IsFunded, create_add_funds_params-IsFunded}
use mailslot.Reservoir.Liquidity.Refreshed.{
  IsBorrowed, create_borrow_liquidity_params-IsBorrowed, borrow_cooldown,
}
use mailslot.Reservoir.Liquidity.Synced.{
  IsSynced, sync_tap_state-IsSynced, IsShared, tap_balances-IsShared,
}

abbrev contracts : Config
contracts = record config { reservoir_contract_id = "server.r" }

abbrev offer : BorrowOffer
offer = record { borrow_fee = "0"; reservoir_signature = "signed by server" }

abbrev opening : OpeningArgs
opening = record {
  borrower = "alice";
  token = none;
  tap_amount = "1000";
  tap_nonce = "0";
  borrow_amount = "200";
  borrow_fee = none;
  my_balance = "1000";
  reservoir_balance = "200";
  borrow_nonce = "1";
  my_signature = "signed by alice";
}

abbrev figures : OpeningFigures
figures = record {
  tap_amount = pos 1000;
  tap_nonce = pos 0;
  borrow_amount = pos 200;
  mine = pos 1000;
  reservoir = pos 200;
  borrow_nonce = pos 1;
}

abbrev opened : Tables
opened =
    record_opening platform signer contracts world opening figures
      (record { principal_1 = "alice"; principal_2 = "server.r"; token = none }) "signed by server"
      empty

opens :
    create_tap_with_borrowed_liquidity_params platform signer contracts world opening empty
    ≡ ok (offer, opened)
unfolding create_tap_with_borrowed_liquidity_params check_configured read_opening check_opening
    check_provided_fee provided_fee check_token normalize_token opening_key
    canonical_pipe_principals compare_bytes check_user_signature sip018_verify sip018_sign
    build_transfer_message message_values sign_as_reservoir fetch_borrow_fee_from_reservoir
    first_part second_part big_int to_text print_ℕ
opens = refl

create_tap-IsOpened_example : IsOpened platform signer contracts opening empty opened
create_tap-IsOpened_example =
    create_tap-IsOpened platform signer contracts world opening empty opened offer opens

abbrev taps : Tables
taps = record empty {
  pipes =
      record {
        pipe_id = "flow|stx|alice|server";
        contract_id = "flow";
        pipe_key = pipe_key;
        server_balance = "50";
        counterparty_balance = "950";
        nonce = "1";
        last_action = none;
        last_actor = none;
        last_hashed_secret = none;
        last_valid_after = none;
        last_server_signature = none;
        last_counterparty_signature = none;
        enforceable_secret = none;
        updated_at = 1;
      }
      ∷ [];
}

abbrev borrowing : BorrowingArgs
borrowing = record {
  borrower = "alice";
  token = none;
  borrow_amount = "150";
  borrow_fee = some "3";
  my_balance = "950";
  reservoir_balance = "200";
  borrow_nonce = "2";
  my_signature = "signed by alice";
}

abbrev borrowed : Tables
borrowed = record_refresh_at "alice" 1 taps

borrows :
    create_borrow_liquidity_params platform signer contracts settings world borrowing taps
    ≡ ok (offer, borrowed)
unfolding create_borrow_liquidity_params check_configured check_token normalize_token read_borrowing
    get_current_tracked_tap_snapshot same_token canonical_pipe_principals compare_bytes
    get_latest_pipe_state_for_principals get_latest_pipe_row_for_principals
    get_latest_pending_pipe_row_for_principals choose_latest_row principals_suffix first_by
    target_receive_liquidity check_borrowing is_cooling get_last_refresh_at provided_fee
    fetch_borrow_fee_from_reservoir first_part second_part check_fee check_user_signature
    sip018_verify sip018_sign build_transfer_message message_values sign_as_reservoir big_int
    to_text print_ℕ trim ◌+ℤ◌ ◌-ℤ◌ ◌*ℤ◌
borrows = refl

create_borrow_liquidity_params-IsBorrowed_example :
    IsBorrowed platform signer contracts settings world borrowing taps borrowed
create_borrow_liquidity_params-IsBorrowed_example =
    create_borrow_liquidity_params-IsBorrowed platform signer contracts settings world borrowing
      taps borrows

borrow_cooldown_example :
    create_borrow_liquidity_params platform signer contracts settings
      (record world { now = 900 })
      borrowing
      borrowed
    ≢ ok (offer, empty)
borrow_cooldown_example =
    borrow_cooldown platform signer contracts settings world (record world { now = 900 }) borrowing
      borrowing taps borrowed borrowed empty offer offer borrows refl refl (omega arith)
      (omega arith)

abbrev funding : FundingArgs
funding = record {
  user = "alice";
  token = none;
  amount = "5";
  my_balance = "1005";
  reservoir_balance = "0";
  nonce = "1";
  my_signature = "signed by alice";
}

funds : create_add_funds_params platform signer contracts world funding taps ≡ ok "signed by server"
unfolding create_add_funds_params check_configured check_token normalize_token read_funding
    get_current_on_chain_tap_snapshot is_pending_active has_matured canonical_pipe_principals
    compare_bytes build_pipe_id principals_suffix assert_no_optimistic_pending_states
    get_latest_pending_pipe_row first_by check_funding check_user_signature sip018_verify
    sip018_sign build_transfer_message message_values sign_as_reservoir big_int to_text print_ℕ ◌+ℤ◌
funds = refl

create_add_funds_params-IsFunded_example :
    IsFunded platform signer contracts world funding taps "signed by server"
create_add_funds_params-IsFunded_example =
    create_add_funds_params-IsFunded platform signer contracts world funding taps "signed by server"
      funds

abbrev sync : SyncArgs
sync = record {
  counterparty = "alice";
  token = none;
  user_balance = "1000";
  reservoir_balance = "0";
  nonce = "0";
  action = some "1";
  actor = none;
  counterparty_signature = none;
  server_signature = none;
}

abbrev synced : Tables
synced = delete_pending_states_at_or_below_nonce platform "flow|stx|alice|server" "0" (
    upsert_pipe "flow|stx|alice|server" "flow" pipe_key "0" "1000" "0"
      (record no_meta { action = some "1" }) 1 taps)

syncs : sync_tap_state platform signer contracts world sync taps ≡ ok synced
unfolding sync_tap_state check_token normalize_token get_current_on_chain_tap_snapshot
    is_pending_active has_matured canonical_pipe_principals compare_bytes build_pipe_id
    principals_suffix check_sync to_text print_ℕ ◌+ℤ◌
syncs = refl

sync_tap_state-IsSynced_example : IsSynced platform contracts world sync synced
sync_tap_state-IsSynced_example =
    sync_tap_state-IsSynced platform signer contracts world sync taps synced syncs

abbrev tracked : TapState
tracked = record {
  pipe_id = "flow|stx|alice|server";
  contract_id = "flow";
  pipe_key = pipe_key;
  server_balance = "50";
  counterparty_balance = "950";
  nonce = "1";
  updated_at = 1;
}

tap_balances-IsShared_example :
    IsShared on_chain_pipe (tap_balances contracts (some (pos 7)) tracked (some on_chain_pipe))
tap_balances-IsShared_example =
    tap_balances-IsShared contracts (some (pos 7)) tracked on_chain_pipe (omega arith) (omega arith)

abbrev disputed_row : PipeRow
disputed_row = record {
  pipe_id = "flow.v1|stx|alice|server";
  contract_id = "flow.v1";
  pipe_key = pipe_key;
  server_balance = "50";
  counterparty_balance = "950";
  nonce = "1";
  last_action = none;
  last_actor = none;
  last_hashed_secret = none;
  last_valid_after = none;
  last_server_signature = some "signed by server";
  last_counterparty_signature = some "signed by alice";
  enforceable_secret = none;
  updated_at = 1;
}

abbrev dispute : Dispute
dispute = record { txid = "0xab"; nonce = "1"; pipe_id = "flow.v1|stx|alice|server" }

abbrev any_principals : Platform
any_principals = record platform { like = λ pattern text. true }

disputes :
    submit_dispute_for_counterparty any_principals
      (record config { contract_id = "flow.v1" })
      (λ call. ok (some "0xab"))
      "alice"
      (record empty { pipes = disputed_row ∷ [] })
    ≡ ok dispute
unfolding submit_dispute_for_counterparty get_enforceable_pipe_row_for_counterparty dispute_call
    canonical_pipe_principals compare_bytes get_latest_pipe_row_for_principals principals_suffix
    first_by present optional_number first_part second_part big_int
disputes = refl

submit_dispute-IsDisputed_example :
    IsDisputed any_principals
      (record config { contract_id = "flow.v1" })
      (λ call. ok (some "0xab"))
      "alice"
      (record empty { pipes = disputed_row ∷ [] })
      dispute
submit_dispute-IsDisputed_example =
    submit_dispute-IsDisputed any_principals (record config { contract_id = "flow.v1" })
      (λ call. ok (some "0xab")) "alice" (record empty { pipes = disputed_row ∷ [] }) dispute
      disputes
