-- ===== src/Settings/Table.antt =====
-- The table `runtime_settings`, and `RuntimeSettingsStore.get`.
use mailslot.Base.{ℕ, String, List, [], ◌∷◌, Option, none, some, ◌==◌, if◌then◌else◌, or_else}
use mailslot.Base.Int.{ℤ, pos}
use mailslot.Base.Text.{parse_int}
use mailslot.Types.{RuntimeSettings}

pub record SettingRow : Type 0 where
  pub key : String
  pub value : String
  pub updated_at : ℕ

-- A number of JavaScript: an integer, or none for NaN, an infinity and a fraction.
abbrev pub Number : Type 0
Number = Option ℤ

-- What JavaScript makes of a number that is an integer and not negative.
pub record Numbers : Type 0 where
  -- `String(n)`: its digits; from 2^53 on some may be zeros instead, from 10^21 on with an exponent
  pub print : ℕ → String
  -- the number that `parseInt` rounds these digits to
  pub nearest : ℕ → Number

-- `RuntimeSettings` as they are read or asked for, their numbers not checked.
pub record ReadSettings : Type 0 where
  pub message_price_sats : String
  pub min_fee_sats : String
  pub max_pending_per_sender : Number
  pub max_pending_per_recipient : Number
  pub max_deferred_per_sender : Number
  pub max_deferred_per_recipient : Number
  pub max_deferred_global : Number
  pub deferred_message_ttl_ms : Number
  pub max_borrow_per_tap : String
  pub receive_capacity_multiplier : Number
  pub refresh_capacity_cooldown_ms : Number

-- Settings whose numbers are natural numbers, as they are read.
unfoldable pub exact : RuntimeSettings → ReadSettings
exact s = record {
  message_price_sats = s.message_price_sats;
  min_fee_sats = s.min_fee_sats;
  max_pending_per_sender = some (pos s.max_pending_per_sender);
  max_pending_per_recipient = some (pos s.max_pending_per_recipient);
  max_deferred_per_sender = some (pos s.max_deferred_per_sender);
  max_deferred_per_recipient = some (pos s.max_deferred_per_recipient);
  max_deferred_global = some (pos s.max_deferred_global);
  deferred_message_ttl_ms = some (pos s.deferred_message_ttl_ms);
  max_borrow_per_tap = s.max_borrow_per_tap;
  receive_capacity_multiplier = some (pos s.receive_capacity_multiplier);
  refresh_capacity_cooldown_ms = some (pos s.refresh_capacity_cooldown_ms);
}

-- Each of `RUNTIME_SETTING_KEYS` with `String(settings[key])`.
unfoldable pub setting_values : Numbers → RuntimeSettings → List (String × String)
setting_values num s =
    ("messagePriceSats", s.message_price_sats)
    ∷ ("minFeeSats", s.min_fee_sats)
    ∷ ("maxPendingPerSender", num.print s.max_pending_per_sender)
    ∷ ("maxPendingPerRecipient", num.print s.max_pending_per_recipient)
    ∷ ("maxDeferredPerSender", num.print s.max_deferred_per_sender)
    ∷ ("maxDeferredPerRecipient", num.print s.max_deferred_per_recipient)
    ∷ ("maxDeferredGlobal", num.print s.max_deferred_global)
    ∷ ("deferredMessageTtlMs", num.print s.deferred_message_ttl_ms)
    ∷ ("maxBorrowPerTap", s.max_borrow_per_tap)
    ∷ ("receiveCapacityMultiplier", num.print s.receive_capacity_multiplier)
    ∷ ("refreshCapacityCooldownMs", num.print s.refresh_capacity_cooldown_ms)
    ∷ []

-- `INSERT OR IGNORE`
unfoldable pub insert_or_ignore : String → String → ℕ → List SettingRow → List SettingRow
insert_or_ignore key value now [] = record { key = key; value = value; updated_at = now } ∷ []
insert_or_ignore key value now (row ∷ rows) =
    if row.key == key then row ∷ rows else row ∷ insert_or_ignore key value now rows

-- `init`: a setting that has no row gets its default.
unfoldable pub init_rows : List (String × String) → ℕ → List SettingRow → List SettingRow
unfolding insert_or_ignore
init_rows [] now rows = rows
init_rows ((key, value) ∷ rest) now rows = init_rows rest now (insert_or_ignore key value now rows)

unfoldable pub init : Numbers → RuntimeSettings → ℕ → List SettingRow → List SettingRow
unfolding init_rows setting_values
init num defaults now rows = init_rows (setting_values num defaults) now rows

-- The value of a key.
unfoldable pub stored : String → List SettingRow → Option String
stored key [] = none
stored key (row ∷ rows) = if row.key == key then some row.value else stored key rows

-- `parseInt(raw ?? String(default), 10)`; a negative number is not stored, and counts as NaN.
unfoldable pub stored_number : Numbers → String → ℕ → List SettingRow → Number
unfolding stored
stored_number num key default rows =
    elim (parse_int (or_else (stored key rows) (num.print default))) [
      | none ↦ none
      | some n ↦ num.nearest n
    ]

-- `get`
unfoldable pub get_settings : Numbers → RuntimeSettings → List SettingRow → ReadSettings
unfolding stored stored_number
get_settings num d rows = record {
  message_price_sats = or_else (stored "messagePriceSats" rows) d.message_price_sats;
  min_fee_sats = or_else (stored "minFeeSats" rows) d.min_fee_sats;
  max_pending_per_sender = stored_number num "maxPendingPerSender" d.max_pending_per_sender rows;
  max_pending_per_recipient =
      stored_number num "maxPendingPerRecipient" d.max_pending_per_recipient rows;
  max_deferred_per_sender = stored_number num "maxDeferredPerSender" d.max_deferred_per_sender rows;
  max_deferred_per_recipient =
      stored_number num "maxDeferredPerRecipient" d.max_deferred_per_recipient rows;
  max_deferred_global = stored_number num "maxDeferredGlobal" d.max_deferred_global rows;
  deferred_message_ttl_ms = stored_number num "deferredMessageTtlMs" d.deferred_message_ttl_ms rows;
  max_borrow_per_tap = or_else (stored "maxBorrowPerTap" rows) d.max_borrow_per_tap;
  receive_capacity_multiplier =
      stored_number num "receiveCapacityMultiplier" d.receive_capacity_multiplier rows;
  refresh_capacity_cooldown_ms =
      stored_number num "refreshCapacityCooldownMs" d.refresh_capacity_cooldown_ms rows;
}
