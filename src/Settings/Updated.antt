-- ===== src/Settings/Updated.antt =====
-- An update of the settings is read back.
use mailslot.Base.{
  ℕ, ◌<◌, String, List, some, ◌≡◌, sym, ap, ◌∙◌, or_else, inl, inr, Bool-cases, ok, >>=-eq-ok,
  >>-eq-ok, ok_inj, or_throw-eq-ok, or_throw,
}
use mailslot.Base.Int.{ℤ, pos, ltb_ℤ, ◌≤ℤ◌}
use mailslot.Base.Text.{big_int, is_decimal, to_text, parse_int-print_ℕ}
use mailslot.Types.{RuntimeSettings}
use mailslot.Reservoir.Verify.{le_of_ltb_ℤ}
use mailslot.Settings.Table.{
  SettingRow, Numbers, ReadSettings, exact, setting_values, stored, stored_number, get_settings,
}
use mailslot.Settings.Update.{
  SettingsPatch, patched, uint_string, positive_int, check_fee_covered, validate_runtime_settings,
  put_settings, update_settings,
}
use mailslot.Settings.Stored.{
  IsValid, uint_string_lem, positive_int_lem, validate_counts-exact, stored-put_settings,
  last_value, failed,
}

-- The fee and the price of a check that passes.
check_fee_covered-covers :
    (fee price : String)
    → check_fee_covered fee price ≡ ok tt
    → (f : ℤ) × (p : ℤ) × (big_int fee ≡ some f) × (big_int price ≡ some p) × (f ≤ℤ p)
unfolding check_fee_covered
check_fee_covered-covers fee price h =
    let (f, e1, h1) = >>=-eq-ok (or_throw (big_int fee) "SyntaxError") _ h in
    let (p, e2, h2) = >>=-eq-ok (or_throw (big_int price) "SyntaxError") _ h1 in
    (
      f,
      p,
      or_throw-eq-ok _ _ e1,
      or_throw-eq-ok _ _ e2,
      elim (Bool-cases (ltb_ℤ p f)) [
        | inl above ↦ failed (rw above at h2)
        | inr covered ↦ le_of_ltb_ℤ p f covered
      ],
    )

-- The texts and the multiplier that the counts are checked with are those of the settings.
record KeepsTexts (price fee borrow : String) (next : RuntimeSettings) : Type 0 where
  price_kept : next.message_price_sats ≡ price
  fee_kept : next.min_fee_sats ≡ fee
  borrow_kept : next.max_borrow_per_tap ≡ borrow

exact_texts :
    {next : RuntimeSettings} {input : ReadSettings}
    → exact next ≡ input
    → KeepsTexts input.message_price_sats input.min_fee_sats input.max_borrow_per_tap next
unfolding exact
exact_texts h = record {
  price_kept = ap (λ (x : ReadSettings). x.message_price_sats) h;
  fee_kept = ap (λ (x : ReadSettings). x.min_fee_sats) h;
  borrow_kept = ap (λ (x : ReadSettings). x.max_borrow_per_tap) h;
}

validate_runtime_settings-IsValid :
    (input : ReadSettings) {next : RuntimeSettings}
    → validate_runtime_settings input ≡ ok next
    → (exact next ≡ input) × IsValid next
unfolding validate_runtime_settings
validate_runtime_settings-IsValid input h =
    let (price, e1, h1) = >>=-eq-ok (uint_string input.message_price_sats "messagePriceSats") _ h in
    let (fee, e2, h2) = >>=-eq-ok (uint_string input.min_fee_sats "minFeeSats") _ h1 in
    let (borrow, e3, h3) =
      >>=-eq-ok (uint_string input.max_borrow_per_tap "maxBorrowPerTap") _ h2 in
    let (multiplier, e4, h4) =
      >>=-eq-ok (positive_int input.receive_capacity_multiplier "receiveCapacityMultiplier") _ h3 in
    let (e5, h5) = >>-eq-ok (check_fee_covered fee price) _ h4 in
    let (same1, digits1) = uint_string_lem input.message_price_sats "messagePriceSats" e1 in
    let (same2, digits2) = uint_string_lem input.min_fee_sats "minFeeSats" e2 in
    let (same3, digits3) = uint_string_lem input.max_borrow_per_tap "maxBorrowPerTap" e3 in
    let (f, p, fee_reads, price_reads, covered) = check_fee_covered-covers fee price e5 in
    let whole = validate_counts-exact input price fee borrow multiplier h5 in
    let texts = exact_texts whole in
    (
      whole ∙ (λ i. record input {
        message_price_sats = sym same1 i;
        min_fee_sats = sym same2 i;
        max_borrow_per_tap = sym same3 i;
        receive_capacity_multiplier =
            positive_int_lem input.receive_capacity_multiplier "receiveCapacityMultiplier" e4 i;
      }),
      record {
        price = p;
        fee = f;
        price_digits = ap is_decimal (texts.price_kept ∙ sym same1) ∙ digits1;
        fee_digits = ap is_decimal (texts.fee_kept ∙ sym same2) ∙ digits2;
        borrow_digits = ap is_decimal (texts.borrow_kept ∙ sym same3) ∙ digits3;
        price_reads = ap big_int texts.price_kept ∙ price_reads;
        fee_reads = ap big_int texts.fee_kept ∙ fee_reads;
        covered = covered;
      },
    )

-- 2 ^ 53
abbrev pub two_53 : ℕ
two_53 = 9007199254740992

-- Integers below 2 ^ 53 are printed by their digits, and digits of such a number are read as it is.
pub record IsNumbers (num : Numbers) : Type 0 where
  pub digits : (n : ℕ) → n < two_53 → num.print n ≡ to_text (pos n)
  pub read : (n : ℕ) → n < two_53 → num.nearest n ≡ some (pos n)

-- Every count of the settings is below 2 ^ 53.
pub record IsSmall (s : RuntimeSettings) : Type 0 where
  pub pending_sender : s.max_pending_per_sender < two_53
  pub pending_recipient : s.max_pending_per_recipient < two_53
  pub deferred_sender : s.max_deferred_per_sender < two_53
  pub deferred_recipient : s.max_deferred_per_recipient < two_53
  pub deferred_global : s.max_deferred_global < two_53
  pub ttl : s.deferred_message_ttl_ms < two_53
  pub multiplier : s.receive_capacity_multiplier < two_53
  pub cooldown : s.refresh_capacity_cooldown_ms < two_53

module _ (num : Numbers) where
  stored_number_lem :
      (key : String) (default n : ℕ) (rows : List SettingRow)
      → IsNumbers num
      → n < two_53
      → stored key rows ≡ some (num.print n)
      → stored_number num key default rows ≡ some (pos n)
  unfolding stored_number to_text
  stored_number_lem key default n rows laws small e =
      rw (e, laws.digits n small, parse_int-print_ℕ n, stored_number) (laws.read n small)

  -- What is put in the table is read back, whatever was there.
  get_settings-put_settings :
      (defaults next : RuntimeSettings) (now : ℕ) (rows : List SettingRow)
      → IsNumbers num
      → IsSmall next
      → get_settings num defaults (put_settings (setting_values num next) now rows) ≡ exact next
  unfolding get_settings exact setting_values last_value
  get_settings-put_settings defaults next now rows laws small =
      let rows' = put_settings (setting_values num next) now rows in
      let found = λ (key : String). stored-put_settings key (setting_values num next) now rows in
      let back =
        λ (key : String) (default n : ℕ) (below : n < two_53)
            (e : stored key rows' ≡ some (num.print n)).
          stored_number_lem key default n rows' laws below e in
      λ i. record {
        message_price_sats = or_else (found "messagePriceSats" i) defaults.message_price_sats;
        min_fee_sats = or_else (found "minFeeSats" i) defaults.min_fee_sats;
        max_pending_per_sender =
            back "maxPendingPerSender" defaults.max_pending_per_sender _ small.pending_sender
              (found "maxPendingPerSender") i;
        max_pending_per_recipient =
            back "maxPendingPerRecipient" defaults.max_pending_per_recipient _
              small.pending_recipient (found "maxPendingPerRecipient") i;
        max_deferred_per_sender =
            back "maxDeferredPerSender" defaults.max_deferred_per_sender _ small.deferred_sender
              (found "maxDeferredPerSender") i;
        max_deferred_per_recipient =
            back "maxDeferredPerRecipient" defaults.max_deferred_per_recipient _
              small.deferred_recipient (found "maxDeferredPerRecipient") i;
        max_deferred_global =
            back "maxDeferredGlobal" defaults.max_deferred_global _ small.deferred_global
              (found "maxDeferredGlobal") i;
        deferred_message_ttl_ms =
            back "deferredMessageTtlMs" defaults.deferred_message_ttl_ms _ small.ttl
              (found "deferredMessageTtlMs") i;
        max_borrow_per_tap = or_else (found "maxBorrowPerTap" i) defaults.max_borrow_per_tap;
        receive_capacity_multiplier =
            back "receiveCapacityMultiplier" defaults.receive_capacity_multiplier _ small.multiplier
              (found "receiveCapacityMultiplier") i;
        refresh_capacity_cooldown_ms =
            back "refreshCapacityCooldownMs" defaults.refresh_capacity_cooldown_ms _ small.cooldown
              (found "refreshCapacityCooldownMs") i;
      }

  -- What an update makes of the table: the settings with the patch laid over them, printed.
  pub update_settings-puts :
      (defaults : RuntimeSettings) (patch : SettingsPatch) (now : ℕ) (rows rows' : List SettingRow)
      (next : RuntimeSettings)
      → update_settings num defaults patch now rows ≡ ok (next, rows')
      → (exact next ≡ patched (get_settings num defaults rows) patch)
        × (rows' ≡ put_settings (setting_values num next) now rows)
        × IsValid next
  unfolding update_settings
  update_settings-puts defaults patch now rows rows' next h =
      let (found, e1, h1) =
        >>=-eq-ok (validate_runtime_settings (patched (get_settings num defaults rows) patch)) _
          h in
      let (same, valid) = validate_runtime_settings-IsValid _ e1 in
      let result = ok_inj h1 in
      let first = ap (λ (r : RuntimeSettings × List SettingRow). r.0) result in
      (
        ap exact (sym first) ∙ same,
        sym (ap (λ (r : RuntimeSettings × List SettingRow). r.1) result)
            ∙ ap (λ x. put_settings (setting_values num x) now rows) first,
        rw first at valid,
      )

  -- An update that succeeds returns the settings with the patch laid over them, which are valid, and
  -- where every count of them is below 2 ^ 53 they are read back afterwards, whatever the table held
  -- before.
  pub update_settings-IsValid :
      (defaults : RuntimeSettings) (patch : SettingsPatch) (now : ℕ) (rows rows' : List SettingRow)
      (next : RuntimeSettings)
      → IsNumbers num
      → IsSmall next
      → update_settings num defaults patch now rows ≡ ok (next, rows')
      → (exact next ≡ patched (get_settings num defaults rows) patch)
        × (get_settings num defaults rows' ≡ exact next)
        × IsValid next
  update_settings-IsValid defaults patch now rows rows' next laws small h =
      let (same, put, valid) = update_settings-puts defaults patch now rows rows' next h in
      (
        same,
        ap (get_settings num defaults) put
            ∙ get_settings-put_settings defaults next now rows laws small,
        valid,
      )
