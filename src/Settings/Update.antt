-- ===== src/Settings/Update.antt =====
-- `validateRuntimeSettings` and `RuntimeSettingsStore.update`.
use Prim.Native.String
use mailslot.Base.{
  ℕ, String, List, [], ◌∷◌, Option, some, ◌==◌, if◌then◌else◌, or_else, Result, ok, err, thrown,
  ◌>>=◌, ◌>>◌, or_throw,
}
use mailslot.Base.Int.{pos, ltb_ℤ}
use mailslot.Base.Text.{big_int, is_decimal}
use mailslot.Types.{RuntimeSettings}
use mailslot.Settings.Table.{
  SettingRow, Number, Numbers, ReadSettings, setting_values, get_settings,
}

-- `Partial<RuntimeSettings>`: what the administrator asks for.
pub record SettingsPatch : Type 0 where
  pub message_price_sats : Option String
  pub min_fee_sats : Option String
  pub max_pending_per_sender : Option Number
  pub max_pending_per_recipient : Option Number
  pub max_deferred_per_sender : Option Number
  pub max_deferred_per_recipient : Option Number
  pub max_deferred_global : Option Number
  pub deferred_message_ttl_ms : Option Number
  pub max_borrow_per_tap : Option String
  pub receive_capacity_multiplier : Option Number
  pub refresh_capacity_cooldown_ms : Option Number

-- `{ ...current, ...patch }`
unfoldable pub patched : ReadSettings → SettingsPatch → ReadSettings
patched s p = record {
  message_price_sats = or_else p.message_price_sats s.message_price_sats;
  min_fee_sats = or_else p.min_fee_sats s.min_fee_sats;
  max_pending_per_sender = or_else p.max_pending_per_sender s.max_pending_per_sender;
  max_pending_per_recipient = or_else p.max_pending_per_recipient s.max_pending_per_recipient;
  max_deferred_per_sender = or_else p.max_deferred_per_sender s.max_deferred_per_sender;
  max_deferred_per_recipient = or_else p.max_deferred_per_recipient s.max_deferred_per_recipient;
  max_deferred_global = or_else p.max_deferred_global s.max_deferred_global;
  deferred_message_ttl_ms = or_else p.deferred_message_ttl_ms s.deferred_message_ttl_ms;
  max_borrow_per_tap = or_else p.max_borrow_per_tap s.max_borrow_per_tap;
  receive_capacity_multiplier = or_else p.receive_capacity_multiplier s.receive_capacity_multiplier;
  refresh_capacity_cooldown_ms =
      or_else p.refresh_capacity_cooldown_ms s.refresh_capacity_cooldown_ms;
}

-- `uintString`
unfoldable pub uint_string : String → String → Result String
uint_string value key =
    if is_decimal value
    then ok value
    else err (thrown (String.◌++◌ key " must be a non-negative integer string"))

-- `positiveInt`, which takes zero.
unfoldable pub positive_int : Number → String → Result ℕ
positive_int (some (pos n)) key = ok n
positive_int _ key = err (thrown (String.◌++◌ key " must be a non-negative integer"))

-- The fee is not above the price.
unfoldable pub check_fee_covered : String → String → Result (Unit {0})
check_fee_covered fee price = do
  f ← or_throw (big_int fee) "SyntaxError"
  p ← or_throw (big_int price) "SyntaxError"
  if ltb_ℤ p f
      then err (thrown "minFeeSats must be less than or equal to messagePriceSats")
      else ok tt

-- The counts and times that are checked last.
unfoldable pub validate_counts :
    ReadSettings → String → String → String → ℕ → Result RuntimeSettings
unfolding positive_int
validate_counts input price fee borrow multiplier = do
  pending_sender ← positive_int input.max_pending_per_sender "maxPendingPerSender"
  pending_recipient ← positive_int input.max_pending_per_recipient "maxPendingPerRecipient"
  deferred_sender ← positive_int input.max_deferred_per_sender "maxDeferredPerSender"
  deferred_recipient ← positive_int input.max_deferred_per_recipient "maxDeferredPerRecipient"
  deferred_global ← positive_int input.max_deferred_global "maxDeferredGlobal"
  ttl ← positive_int input.deferred_message_ttl_ms "deferredMessageTtlMs"
  cooldown ← positive_int input.refresh_capacity_cooldown_ms "refreshCapacityCooldownMs"
  ok (record {
    message_price_sats = price;
    min_fee_sats = fee;
    max_pending_per_sender = pending_sender;
    max_pending_per_recipient = pending_recipient;
    max_deferred_per_sender = deferred_sender;
    max_deferred_per_recipient = deferred_recipient;
    max_deferred_global = deferred_global;
    deferred_message_ttl_ms = ttl;
    max_borrow_per_tap = borrow;
    receive_capacity_multiplier = multiplier;
    refresh_capacity_cooldown_ms = cooldown;
  })

-- `validateRuntimeSettings`
unfoldable pub validate_runtime_settings : ReadSettings → Result RuntimeSettings
unfolding uint_string positive_int check_fee_covered validate_counts
validate_runtime_settings input = do
  price ← uint_string input.message_price_sats "messagePriceSats"
  fee ← uint_string input.min_fee_sats "minFeeSats"
  borrow ← uint_string input.max_borrow_per_tap "maxBorrowPerTap"
  multiplier ← positive_int input.receive_capacity_multiplier "receiveCapacityMultiplier"
  check_fee_covered fee price
  validate_counts input price fee borrow multiplier

-- `INSERT … ON CONFLICT(key) DO UPDATE`
unfoldable pub put_setting : String → String → ℕ → List SettingRow → List SettingRow
put_setting key value now [] = record { key = key; value = value; updated_at = now } ∷ []
put_setting key value now (row ∷ rows) =
    if row.key == key
    then record { key = key; value = value; updated_at = now } ∷ rows
    else row ∷ put_setting key value now rows

unfoldable pub put_settings : List (String × String) → ℕ → List SettingRow → List SettingRow
unfolding put_setting
put_settings [] now rows = rows
put_settings ((key, value) ∷ rest) now rows = put_settings rest now (put_setting key value now rows)

-- `update`
unfoldable pub update_settings :
    Numbers
    → RuntimeSettings
    → SettingsPatch
    → ℕ
    → List SettingRow
    → Result (RuntimeSettings × List SettingRow)
unfolding patched validate_runtime_settings put_settings
update_settings num defaults patch now rows = do
  next ← validate_runtime_settings (patched (get_settings num defaults rows) patch)
  ok (next, put_settings (setting_values num next) now rows)
