-- ===== src/App/Patched.antt =====
-- What a body asks of the settings, and where it is read.
use mailslot.Base.{
  String, true, false, Option, none, some, ◌≡◌, refl, sym, inl, inr, Bool-cases, ok, >>=-eq-ok,
  ok_inj,
}
use mailslot.Json.{Json, Value, null, bool, num, str, arr, obj, property, text_or, is_nullish}
use mailslot.Auth.Outside.{Node}
use mailslot.Settings.Table.{Number}
use mailslot.Settings.Update.{SettingsPatch}
use mailslot.App.Administration.{text_setting, number_value, number_setting, read_patch}

-- A text that a body may have under a name: left as it is where the body has none or null, or what
-- `String` makes of the body's value.
pub data IsTextSetting (parsed : Json) (name : String) (asked : Option String) : Type 0 where
  kept :
      (v : Value)
      → property parsed name ≡ ok v
      → is_nullish v ≡ true
      → asked ≡ none
      → IsTextSetting parsed name asked
  changed :
      (v : Value)
      → property parsed name ≡ ok v
      → is_nullish v ≡ false
      → asked ≡ some (text_or "" v)
      → IsTextSetting parsed name asked

text_setting-IsTextSetting :
    (parsed : Json) (name : String) {asked : Option String}
    → text_setting parsed name ≡ ok asked
    → IsTextSetting parsed name asked
unfolding text_setting
text_setting-IsTextSetting parsed name h =
    let (v, e1, h1) = >>=-eq-ok (property parsed name) _ h in
    elim (Bool-cases (is_nullish v)) [
      | inl nothing ↦ kept v e1 nothing (ok_inj (sym (rw nothing at h1)))
      | inr there ↦ changed v e1 there (ok_inj (sym (rw there at h1)))
    ]

-- The same of a number, which `Number` makes of the body's value.
pub data IsNumberSetting (n : Node) (parsed : Json) (name : String) (asked : Option Number)
    : Type 0 where
  kept_number :
      (v : Value)
      → property parsed name ≡ ok v
      → is_nullish v ≡ true
      → asked ≡ none
      → IsNumberSetting n parsed name asked
  changed_number :
      (json : Json)
      → property parsed name ≡ ok (some json)
      → is_nullish (some json) ≡ false
      → asked ≡ some (n.to_number json)
      → IsNumberSetting n parsed name asked

number_setting-IsNumberSetting :
    (n : Node) (parsed : Json) (name : String) {asked : Option Number}
    → number_setting n parsed name ≡ ok asked
    → IsNumberSetting n parsed name asked
unfolding number_setting number_value
number_setting-IsNumberSetting n parsed name {asked} h =
    let (v, e1, h1) = >>=-eq-ok (property parsed name) _ h in by_value v e1 (ok_inj (sym h1))
  where
    by_value :
        (v : Value)
        → property parsed name ≡ ok v
        → asked ≡ number_value n v
        → IsNumberSetting n parsed name asked
    by_value none e h = kept_number none e refl h
    by_value (some null) e h = kept_number (some null) e refl h
    by_value (some (bool b)) e h = changed_number (bool b) e refl h
    by_value (some (num t)) e h = changed_number (num t) e refl h
    by_value (some (str t)) e h = changed_number (str t) e refl h
    by_value (some (arr vs)) e h = changed_number (arr vs) e refl h
    by_value (some (obj fs)) e h = changed_number (obj fs) e refl h

-- Each setting is asked for under its own name.
pub record IsPatch (n : Node) (parsed : Json) (patch : SettingsPatch) : Type 0 where
  pub message_price_sats : IsTextSetting parsed "messagePriceSats" patch.message_price_sats
  pub min_fee_sats : IsTextSetting parsed "minFeeSats" patch.min_fee_sats
  pub max_pending_per_sender :
      IsNumberSetting n parsed "maxPendingPerSender" patch.max_pending_per_sender
  pub max_pending_per_recipient :
      IsNumberSetting n parsed "maxPendingPerRecipient" patch.max_pending_per_recipient
  pub max_deferred_per_sender :
      IsNumberSetting n parsed "maxDeferredPerSender" patch.max_deferred_per_sender
  pub max_deferred_per_recipient :
      IsNumberSetting n parsed "maxDeferredPerRecipient" patch.max_deferred_per_recipient
  pub max_deferred_global : IsNumberSetting n parsed "maxDeferredGlobal" patch.max_deferred_global
  pub deferred_message_ttl_ms :
      IsNumberSetting n parsed "deferredMessageTtlMs" patch.deferred_message_ttl_ms
  pub max_borrow_per_tap : IsTextSetting parsed "maxBorrowPerTap" patch.max_borrow_per_tap
  pub receive_capacity_multiplier :
      IsNumberSetting n parsed "receiveCapacityMultiplier" patch.receive_capacity_multiplier
  pub refresh_capacity_cooldown_ms :
      IsNumberSetting n parsed "refreshCapacityCooldownMs" patch.refresh_capacity_cooldown_ms

pub read_patch-IsPatch :
    (n : Node) (parsed : Json) {patch : SettingsPatch}
    → read_patch n parsed ≡ ok patch
    → IsPatch n parsed patch
unfolding read_patch
read_patch-IsPatch n parsed h =
    let (_, e1, h1) = >>=-eq-ok (text_setting parsed "messagePriceSats") _ h in
    let (_, e2, h2) = >>=-eq-ok (text_setting parsed "minFeeSats") _ h1 in
    let (_, e3, h3) = >>=-eq-ok (number_setting n parsed "maxPendingPerSender") _ h2 in
    let (_, e4, h4) = >>=-eq-ok (number_setting n parsed "maxPendingPerRecipient") _ h3 in
    let (_, e5, h5) = >>=-eq-ok (number_setting n parsed "maxDeferredPerSender") _ h4 in
    let (_, e6, h6) = >>=-eq-ok (number_setting n parsed "maxDeferredPerRecipient") _ h5 in
    let (_, e7, h7) = >>=-eq-ok (number_setting n parsed "maxDeferredGlobal") _ h6 in
    let (_, e8, h8) = >>=-eq-ok (number_setting n parsed "deferredMessageTtlMs") _ h7 in
    let (_, e9, h9) = >>=-eq-ok (text_setting parsed "maxBorrowPerTap") _ h8 in
    let (_, e10, h10) = >>=-eq-ok (number_setting n parsed "receiveCapacityMultiplier") _ h9 in
    let (_, e11, h11) = >>=-eq-ok (number_setting n parsed "refreshCapacityCooldownMs") _ h10 in
    rw (← ok_inj h11) (record {
      message_price_sats = text_setting-IsTextSetting parsed "messagePriceSats" e1;
      min_fee_sats = text_setting-IsTextSetting parsed "minFeeSats" e2;
      max_pending_per_sender = number_setting-IsNumberSetting n parsed "maxPendingPerSender" e3;
      max_pending_per_recipient =
          number_setting-IsNumberSetting n parsed "maxPendingPerRecipient" e4;
      max_deferred_per_sender = number_setting-IsNumberSetting n parsed "maxDeferredPerSender" e5;
      max_deferred_per_recipient =
          number_setting-IsNumberSetting n parsed "maxDeferredPerRecipient" e6;
      max_deferred_global = number_setting-IsNumberSetting n parsed "maxDeferredGlobal" e7;
      deferred_message_ttl_ms = number_setting-IsNumberSetting n parsed "deferredMessageTtlMs" e8;
      max_borrow_per_tap = text_setting-IsTextSetting parsed "maxBorrowPerTap" e9;
      receive_capacity_multiplier =
          number_setting-IsNumberSetting n parsed "receiveCapacityMultiplier" e10;
      refresh_capacity_cooldown_ms =
          number_setting-IsNumberSetting n parsed "refreshCapacityCooldownMs" e11;
    })
