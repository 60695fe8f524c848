-- ===== src/App/AdminTests.antt =====
-- The theorems about the administration at a new price, and about the webhook at a tap.
use mailslot.Base.{
  String, true, false, List, [], ◌∷◌, Option, none, some, ◌≡◌, refl, ok, Result, ◌==◌,
  if◌then◌else◌,
}
use mailslot.Base.Int.{◌+ℤ◌}
use mailslot.Base.Text.{
  big_int, to_text, print_ℕ, trim, is_decimal, parse_int, trim_start, decimal_prefix, first_part,
  second_part,
}
use mailslot.Json.{str, obj, field, end, property, lookup_field, text_or, json_text, as_text}
use mailslot.Types.{RuntimeSettings}
use mailslot.Reservoir.Tables.{
  Platform, Config, Tables, PipeRow, get_latest_pipe_row_for_principals, principals_suffix,
  first_by,
}
use mailslot.Reservoir.Proof.{canonical_pipe_principals, compare_bytes}
use mailslot.Reservoir.Tests.{settings, platform, empty}
use mailslot.Reservoir.Tests
use mailslot.Reservoir.Liquidity.Disputes.{
  DisputeCall, Dispute, present, optional_number, get_enforceable_pipe_row_for_counterparty,
  dispute_call, submit_dispute_for_counterparty,
}
use mailslot.Reservoir.Liquidity.Disputed.{IsDisputed}
use mailslot.Auth.Outside.{Node, truthy, text_of, get_auth_audience}
use mailslot.Auth.Headers.{
  AuthResult, is_text, optional_property, check_fresh, is_address_of, typed_text, typed_message_id,
  is_zero_or_nan, read_message, check_wallet, verify_wallet_auth, verify_inbox_auth,
}
use mailslot.Settings.Table.{
  SettingRow, setting_values, init, init_rows, insert_or_ignore, stored, stored_number,
  get_settings,
}
use mailslot.Settings.Update.{
  patched, uint_string, positive_int, check_fee_covered, validate_counts, validate_runtime_settings,
  put_settings, update_settings,
}
use mailslot.Settings.Tests.{numbers}
use mailslot.App.Entry.{
  is_stacks_address, check_admin, check_deployer, reservoir_admin_address, require_admin_auth,
}
use mailslot.App.EntryTests.{admin, config, header_json, node}
use mailslot.App.Administration.{
  text_setting, number_value, number_setting, read_patch, or_invalid_settings, update_by_admin,
  handle_update_admin_settings,
}
use mailslot.App.Administered.{IsUpdate, handle_update_admin_settings-IsUpdate}
use mailslot.App.Webhook.{
  after_prefix, bearer_token, webhook_token, address_of, first_of, extract_webhook_counterparty,
  webhook_payload, handle_dispute_webhook, handle_dispute_webhook-IsDisputed,
}

abbrev reads_body : Node
reads_body = record node {
  parse = λ t.
      some (if t == "body" then obj (field "messagePriceSats" (str "150") end) else header_json);
}

abbrev dear : RuntimeSettings
dear = record settings { message_price_sats = "150" }

abbrev rows : List SettingRow
rows = init numbers settings 1 []

abbrev updated : List SettingRow
updated = put_settings (setting_values numbers dear) 50 rows

updates :
    handle_update_admin_settings reads_body config numbers settings 50 "header" (some "body") rows
    ≡ ok (dear, updated)
unfolding handle_update_admin_settings update_by_admin read_patch text_setting number_value
    number_setting or_invalid_settings require_admin_auth verify_inbox_auth verify_wallet_auth
    read_message check_wallet property lookup_field text_of truthy typed_text typed_message_id
    optional_property text_or json_text is_text check_fresh is_address_of is_zero_or_nan
    get_auth_audience trim big_int ◌+ℤ◌ check_admin check_deployer reservoir_admin_address
    is_stacks_address first_part update_settings patched uint_string positive_int check_fee_covered
    validate_counts validate_runtime_settings get_settings stored stored_number init init_rows
    insert_or_ignore setting_values is_decimal to_text print_ℕ parse_int trim_start decimal_prefix
updates = refl

handle_update_admin_settings-IsUpdate_example :
    (auth : AuthResult) × (verify_inbox_auth reads_body config 50 "header" ≡ ok auth)
    × (is_text auth.action "admin-settings" ≡ true)
    × (reservoir_admin_address config ≡ some auth.address)
    × IsUpdate reads_body numbers settings 50 (some "body") rows updated dear
handle_update_admin_settings-IsUpdate_example =
    handle_update_admin_settings-IsUpdate reads_body config numbers settings dear 50 "header"
      (some "body") rows updated updates

abbrev reads_hook : Platform
reads_hook = record platform {
  decode = λ t. some (obj (field "wallet" (str admin) end));
  like = λ pattern text. true;
}

abbrev contracts : Config
contracts = record Tests.config { contract_id = "flow.v1" }

abbrev row : PipeRow
row = record {
  pipe_id = "flow.v1|stx|server|a";
  contract_id = "flow.v1";
  pipe_key = record { principal_1 = "server"; principal_2 = admin; token = none };
  server_balance = "50";
  counterparty_balance = "950";
  nonce = "1";
  last_action = none;
  last_actor = none;
  last_hashed_secret = none;
  last_valid_after = none;
  last_server_signature = some "signed by server";
  last_counterparty_signature = some "signed by the user";
  enforceable_secret = none;
  updated_at = 1;
}

abbrev taps : Tables
taps = record empty { pipes = row ∷ [] }

abbrev dispute : Dispute
dispute = record { txid = "0xab"; nonce = "1"; pipe_id = "flow.v1|stx|server|a" }

abbrev broadcast : DisputeCall → Result (Option String)
broadcast call = ok (some "0xab")

hooks :
    handle_dispute_webhook reads_hook contracts broadcast "t" none
      (some "Bearer t ")
      (some "body")
      taps
    ≡ ok (admin, dispute)
unfolding handle_dispute_webhook webhook_payload webhook_token bearer_token after_prefix trim
    address_of first_of extract_webhook_counterparty property lookup_field as_text is_stacks_address
    submit_dispute_for_counterparty get_enforceable_pipe_row_for_counterparty dispute_call
    canonical_pipe_principals compare_bytes get_latest_pipe_row_for_principals principals_suffix
    first_by present optional_number first_part second_part big_int
hooks = refl

handle_dispute_webhook-IsDisputed_example :
    (("t" == "") ≡ false)
    × (webhook_token none (some "Bearer t ") ≡ "t")
    × IsDisputed reads_hook contracts broadcast admin taps dispute
handle_dispute_webhook-IsDisputed_example =
    handle_dispute_webhook-IsDisputed reads_hook contracts broadcast "t" none (some "Bearer t ")
      (some "body") taps admin dispute hooks
