-- ===== src/App/Administered.antt =====
-- What the update of the settings by an administrator has checked, read and written.
use mailslot.Base.{
  ℕ, String, true, List, Option, some, ◌≡◌, refl, Result, ok, err, service, or_reject,
  or_reject-eq-ok, >>=-eq-ok,
}
use mailslot.Json.{Json}
use mailslot.Types.{RuntimeSettings}
use mailslot.Auth.Outside.{Node, AuthConfig}
use mailslot.Auth.Headers.{AuthResult, is_text, verify_inbox_auth}
use mailslot.Settings.Table.{SettingRow, Numbers, exact, setting_values, get_settings}
use mailslot.Settings.Update.{SettingsPatch, patched, put_settings}
use mailslot.Settings.Stored.{IsValid}
use mailslot.Settings.Updated.{update_settings-puts}
use mailslot.App.Administration.{
  or_invalid_settings, read_patch, update_by_admin, handle_update_admin_settings,
}
use mailslot.App.Patched.{IsPatch, read_patch-IsPatch}
use mailslot.App.Entry.{Entry, refused, granted, reservoir_admin_address, require_admin_auth}
use mailslot.App.Access.{require_admin_auth-admin}

or_invalid_settings-ok :
    (r : Result (RuntimeSettings × List SettingRow)) {made : RuntimeSettings × List SettingRow}
    → or_invalid_settings r ≡ ok made
    → r ≡ ok made
unfolding or_invalid_settings
or_invalid_settings-ok (ok r) h = h
or_invalid_settings-ok (err e) h = cc

-- What an update by an administrator has read, and what it writes.
pub record IsUpdate (n : Node) (num : Numbers) (defaults : RuntimeSettings) (now : ℕ)
    (body : Option String) (rows rows' : List SettingRow) (next : RuntimeSettings) : Type 0 where
  pub text : String
  pub sent : body ≡ some text
  pub parsed : Json
  pub of_text : n.parse text ≡ some parsed
  pub patch : SettingsPatch
  pub asked : IsPatch n parsed patch
  pub laid_over : exact next ≡ patched (get_settings num defaults rows) patch
  pub written : rows' ≡ put_settings (setting_values num next) now rows
  pub valid : IsValid next

update_by_admin-IsUpdate :
    (n : Node) (num : Numbers) (defaults next : RuntimeSettings) (now : ℕ) (body : Option String)
    (rows rows' : List SettingRow)
    → update_by_admin n num defaults now body rows ≡ ok (next, rows')
    → IsUpdate n num defaults now body rows rows' next
unfolding update_by_admin
update_by_admin-IsUpdate n num defaults next now body rows rows' h =
    let (text, e1, h1) = >>=-eq-ok (or_reject body 413 "body-too-large") _ h in
    let (parsed, e2, h2) = >>=-eq-ok (or_reject (n.parse text) 400 "invalid-json") _ h1 in
    let (patch, e3, h3) = >>=-eq-ok (read_patch n parsed) _ h2 in
    let updated = or_invalid_settings-ok _ h3 in
    let (same, put, valid) = update_settings-puts num defaults patch now rows rows' next updated in
    record {
      text = text;
      sent = or_reject-eq-ok body _ _ e1;
      parsed = parsed;
      of_text = or_reject-eq-ok (n.parse text) _ _ e2;
      patch = patch;
      asked = read_patch-IsPatch n parsed e3;
      laid_over = same;
      written = put;
      valid = valid;
    }

-- The entry of a request, with what the update makes of it.
by_entry :
    (e : Entry) (r : Result (RuntimeSettings × List SettingRow))
    {made : RuntimeSettings × List SettingRow}
    → elim e as (λ _. Result (RuntimeSettings × List SettingRow)) [
      | refused status reason ↦ err (service status reason)
      | granted auth ↦ r
    ]
      ≡ ok made
    → (auth : AuthResult) × (e ≡ granted auth) × (r ≡ ok made)
by_entry (refused status reason) r h = cc
by_entry (granted auth) r h = (auth, refl, h)

-- The settings change only by a request of the reservoir's deployer, authentic and signed for the
-- settings; those that are answered are the ones read before with what the body has under their
-- names laid over them, they are valid, and each is put in the table as it is printed.
pub handle_update_admin_settings-IsUpdate :
    (n : Node) (c : AuthConfig) (num : Numbers) (defaults next : RuntimeSettings) (now : ℕ)
    (header : String) (body : Option String) (rows rows' : List SettingRow)
    → handle_update_admin_settings n c num defaults now header body rows ≡ ok (next, rows')
    → (auth : AuthResult) × (verify_inbox_auth n c now header ≡ ok auth)
      × (is_text auth.action "admin-settings" ≡ true)
      × (reservoir_admin_address c ≡ some auth.address)
      × IsUpdate n num defaults now body rows rows' next
unfolding handle_update_admin_settings
handle_update_admin_settings-IsUpdate n c num defaults next now header body rows rows' h =
    let (auth, entered, updated) =
      by_entry (require_admin_auth n c now header) (update_by_admin n num defaults now body rows)
        h in
    let (verified, action, admin) = require_admin_auth-admin n c now header auth entered in
    (
      auth,
      verified,
      action,
      admin,
      update_by_admin-IsUpdate n num defaults next now body rows rows' updated,
    )
