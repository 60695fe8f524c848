-- ===== src/App/Administration.antt =====
-- `handleUpdateAdminSettings`.
use mailslot.Base.{
  ℕ, String, List, Option, none, some, if◌then◌else◌, Result, ok, err, service, ◌>>=◌, or_reject,
}
use mailslot.Json.{null, Json, Value, property, text_or, is_nullish}
use mailslot.Types.{RuntimeSettings}
use mailslot.Auth.Outside.{Node, AuthConfig}
use mailslot.Settings.Table.{SettingRow, Number, Numbers}
use mailslot.Settings.Update.{SettingsPatch, update_settings}
use mailslot.App.Entry.{refused, granted, require_admin_auth}

-- `String(value)` and `Number(value)` of a value that is there.
unfoldable pub text_setting : Json → String → Result (Option String)
text_setting parsed name = do
  v ← property parsed name
  ok (if is_nullish v then none else some (text_or "" v))

unfoldable pub number_value : Node → Value → Option Number
number_value n none = none
number_value n (some null) = none
number_value n (some v) = some (n.to_number v)

unfoldable pub number_setting : Node → Json → String → Result (Option Number)
unfolding number_value
number_setting n parsed name = do v ← property parsed name; ok (number_value n v)

-- The patch of a body.
unfoldable pub read_patch : Node → Json → Result SettingsPatch
unfolding text_setting number_setting
read_patch n parsed = do
  price ← text_setting parsed "messagePriceSats"
  fee ← text_setting parsed "minFeeSats"
  pending_sender ← number_setting n parsed "maxPendingPerSender"
  pending_recipient ← number_setting n parsed "maxPendingPerRecipient"
  deferred_sender ← number_setting n parsed "maxDeferredPerSender"
  deferred_recipient ← number_setting n parsed "maxDeferredPerRecipient"
  deferred_global ← number_setting n parsed "maxDeferredGlobal"
  ttl ← number_setting n parsed "deferredMessageTtlMs"
  borrow ← text_setting parsed "maxBorrowPerTap"
  multiplier ← number_setting n parsed "receiveCapacityMultiplier"
  cooldown ← number_setting n parsed "refreshCapacityCooldownMs"
  ok (record {
    message_price_sats = price;
    min_fee_sats = fee;
    max_pending_per_sender = pending_sender;
    max_pending_per_recipient = pending_recipient;
    max_deferred_per_sender = deferred_sender;
    max_deferred_per_recipient = deferred_recipient;
    max_deferred_global = deferred_global;
    deferred_message_ttl_ms = ttl;
    max_borrow_per_tap = borrow;
    receive_capacity_multiplier = multiplier;
    refresh_capacity_cooldown_ms = cooldown;
  })

-- Whatever error `update` throws is a 400.
unfoldable pub or_invalid_settings :
    Result (RuntimeSettings × List SettingRow) → Result (RuntimeSettings × List SettingRow)
or_invalid_settings (ok r) = ok r
or_invalid_settings (err e) = err (service 400 "invalid-runtime-settings")

-- The update by an administrator.
unfoldable pub update_by_admin :
    Node
    → Numbers
    → RuntimeSettings
    → ℕ
    → Option String
    → List SettingRow
    → Result (RuntimeSettings × List SettingRow)
unfolding read_patch or_invalid_settings
update_by_admin n num defaults now body rows = do
  text ← or_reject body 413 "body-too-large"
  parsed ← or_reject (n.parse text) 400 "invalid-json"
  patch ← read_patch n parsed
  or_invalid_settings (update_settings num defaults patch now rows)

unfoldable pub handle_update_admin_settings :
    Node
    → AuthConfig
    → Numbers
    → RuntimeSettings
    → ℕ
    → String
    → Option String
    → List SettingRow
    → Result (RuntimeSettings × List SettingRow)
unfolding update_by_admin
handle_update_admin_settings n c num defaults now header body rows =
    elim (require_admin_auth n c now header) [
      | refused status reason ↦ err (service status reason)
      | granted auth ↦ update_by_admin n num defaults now body rows
    ]
