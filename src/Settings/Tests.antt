-- ===== src/Settings/Tests.antt =====
-- The theorem about an update at a new price.
use mailslot.Base.{List, arith, [], none, some, ◌≡◌, refl, ok}
use mailslot.Base.Int.{pos}
use mailslot.Base.Text.{
  big_int, is_decimal, to_text, print_ℕ, parse_int, trim_start, decimal_prefix,
}
use mailslot.Types.{RuntimeSettings}
use mailslot.Reservoir.Tests.{settings}
use mailslot.Settings.Table.{
  SettingRow, Numbers, exact, setting_values, init, init_rows, insert_or_ignore, stored,
  stored_number, get_settings,
}
use mailslot.Settings.Update.{
  SettingsPatch, patched, uint_string, positive_int, check_fee_covered, validate_counts,
  validate_runtime_settings, put_settings, update_settings,
}
use mailslot.Settings.Stored.{IsValid}
use mailslot.Settings.Updated.{IsNumbers, IsSmall, update_settings-IsValid}

-- Numbers that are printed by their digits and read as they are.
abbrev pub numbers : Numbers
numbers = record { print = λ n. to_text (pos n); nearest = λ n. some (pos n) }

abbrev dearer : SettingsPatch
dearer = record {
  message_price_sats = some "150";
  min_fee_sats = none;
  max_pending_per_sender = some (some (pos 0));
  max_pending_per_recipient = none;
  max_deferred_per_sender = none;
  max_deferred_per_recipient = none;
  max_deferred_global = none;
  deferred_message_ttl_ms = none;
  max_borrow_per_tap = none;
  receive_capacity_multiplier = none;
  refresh_capacity_cooldown_ms = none;
}

abbrev dear : RuntimeSettings
dear = record settings { message_price_sats = "150"; max_pending_per_sender = 0 }

abbrev rows : List SettingRow
rows = init numbers settings 1 []

abbrev updated : List SettingRow
updated = put_settings (setting_values numbers dear) 2 rows

updates : update_settings numbers settings dearer 2 rows ≡ ok (dear, updated)
unfolding update_settings patched uint_string positive_int check_fee_covered validate_counts
    validate_runtime_settings get_settings stored stored_number init init_rows insert_or_ignore
    setting_values big_int is_decimal to_text print_ℕ parse_int trim_start decimal_prefix
updates = refl

numbers-IsNumbers : IsNumbers numbers
numbers-IsNumbers = record { digits = λ n small. refl; read = λ n small. refl }

dear-IsSmall : IsSmall dear
dear-IsSmall = record {
  pending_sender = omega arith;
  pending_recipient = omega arith;
  deferred_sender = omega arith;
  deferred_recipient = omega arith;
  deferred_global = omega arith;
  ttl = omega arith;
  multiplier = omega arith;
  cooldown = omega arith;
}

update_settings-IsValid_example :
    (exact dear ≡ patched (get_settings numbers settings rows) dearer)
    × (get_settings numbers settings updated ≡ exact dear)
    × IsValid dear
update_settings-IsValid_example =
    update_settings-IsValid numbers settings dearer 2 rows updated dear numbers-IsNumbers
      dear-IsSmall updates
