-- ===== src/App/TapTests.antt =====
-- The theorems about the handlers of taps at a sync of alice's and at the terms of bob's.
use mailslot.Base.{arith, [], ◌∷◌, some, ◌≡◌, refl, ok}
use mailslot.Base.Int.{pos, ◌+ℤ◌}
use mailslot.Base.Text.{big_int, to_text, print_ℕ, is_decimal}
use mailslot.Json.{Json, str, obj, field, end, property, lookup_field, text_or, json_text, as_text}
use mailslot.Reservoir.Tables.{
  Platform, Tables, build_pipe_id, principals_suffix, upsert_pipe, no_meta,
  delete_pending_states_at_or_below_nonce,
}
use mailslot.Reservoir.Proof.{canonical_pipe_principals, compare_bytes}
use mailslot.Reservoir.Tests.{platform, signer, config, settings, world, pipe_key, empty}
use mailslot.Reservoir.Liquidity.Snapshots.{
  normalize_token, check_token, get_current_on_chain_tap_snapshot, is_pending_active, has_matured,
}
use mailslot.Reservoir.Liquidity.Syncing.{SyncArgs, check_sync, sync_tap_state}
use mailslot.Reservoir.Liquidity.Synced.{IsSynced}
use mailslot.Store.Rows.{Store}
use mailslot.Store.Methods.{get_public_key}
use mailslot.Settings.Stored.{IsValid}
use mailslot.App.Taps.{
  synced, parse_body, text_field, string_field, optional_field, token_of, token_field, read_sync,
  handle_tap_sync_state,
}
use mailslot.App.Syncs.{handle_tap_sync_state-IsSynced}
use mailslot.App.PaymentInfo.{
  PaymentTerms, IsShared, registered_key, handle_payment_info, handle_payment_info-IsShared,
}

abbrev sync_body : Json
sync_body = obj (
    field "user" (str "alice") (
      field "myBalance" (str "1000")
        (field "reservoirBalance" (str "0") (field "nonce" (str "0") end))))

abbrev reads_sync : Platform
reads_sync = record platform { decode = λ t. some sync_body }

abbrev after : Tables
after =
    delete_pending_states_at_or_below_nonce reads_sync "flow|stx|alice|server" "0"
      (upsert_pipe "flow|stx|alice|server" "flow" pipe_key "0" "1000" "0" no_meta 1 empty)

syncs :
    handle_tap_sync_state reads_sync signer config world "alice" (some "body") empty
    ≡ ok (synced, after)
unfolding handle_tap_sync_state parse_body text_field string_field optional_field token_of
    token_field read_sync property lookup_field text_or json_text as_text sync_tap_state check_token
    normalize_token get_current_on_chain_tap_snapshot is_pending_active has_matured
    canonical_pipe_principals compare_bytes build_pipe_id principals_suffix check_sync to_text
    print_ℕ ◌+ℤ◌
syncs = refl

handle_tap_sync_state-IsSynced_example :
    (fields : Json) × (args : SyncArgs) × (parse_body reads_sync (some "body") ≡ ok fields)
    × (read_sync reads_sync signer config fields "alice" ≡ ok args)
    × IsSynced reads_sync config world args after
handle_tap_sync_state-IsSynced_example =
    handle_tap_sync_state-IsSynced reads_sync signer config world "alice" (some "body") empty after
      synced syncs

abbrev store : Store
store = record {
  messages = [];
  settlements = [];
  public_keys = record { stx_address = "bob"; pubkey_hex = "02"; updated_at = 1 } ∷ [];
  payment_infos = [];
}

settings_hold : IsValid settings
unfolding is_decimal big_int
settings_hold = record {
  price = pos 100;
  fee = pos 10;
  price_digits = refl;
  fee_digits = refl;
  borrow_digits = refl;
  price_reads = refl;
  fee_reads = refl;
  covered = omega arith;
}

bob_registered : registered_key "bob" store ≡ some "02"
unfolding registered_key get_public_key
bob_registered = refl

handle_payment_info-IsShared_example :
    (terms : PaymentTerms) × (handle_payment_info settings "server" "bob" store ≡ ok terms)
    × IsShared settings "server" "bob" "02" terms
handle_payment_info-IsShared_example =
    handle_payment_info-IsShared settings "server" "bob" "02" store settings_hold bob_registered
