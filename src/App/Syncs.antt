-- ===== src/App/Syncs.antt =====
-- Whose tap a sync changes.
use mailslot.Base.{
  String, false, Option, ◌≡◌, sym, ap, ◌∙◌, ◌==◌, ◌||◌, not, arith, eq_iff, ok, >>=-eq-ok,
  reject_if-eq-ok, ok_inj,
}
use mailslot.Json.{Json}
use mailslot.Transfer.{Signer}
use mailslot.Reservoir.Tables.{Platform, Config, Tables, World}
use mailslot.Reservoir.Liquidity.Syncing.{SyncArgs, sync_tap_state}
use mailslot.Reservoir.Liquidity.Synced.{IsSynced, sync_tap_state-IsSynced}
use mailslot.App.Taps.{TapReply, parse_body, text_field, read_sync, handle_tap_sync_state}

same_user : (user address : String) → (user == "" || not (user == address)) ≡ false → user ≡ address
same_user user address h = ground (arith, eq_iff user address)

-- A sync that is answered with success is of the address that is let in: its tap is then as the chain
-- has it, and the request is read for that address.
pub handle_tap_sync_state-IsSynced :
    (p : Platform) (s : Signer) (c : Config) (w : World) (address : String) (body : Option String)
    (t t' : Tables) (reply : TapReply)
    → handle_tap_sync_state p s c w address body t ≡ ok (reply, t')
    → (fields : Json) × (args : SyncArgs) × (parse_body p body ≡ ok fields)
      × (read_sync p s c fields address ≡ ok args)
      × IsSynced p c w args t'
unfolding handle_tap_sync_state
handle_tap_sync_state-IsSynced p s c w address body t t' reply h =
    let (fields, e1, h1) = >>=-eq-ok (parse_body p body) _ h in
    let (user, _, h2) = >>=-eq-ok (text_field fields "user") _ h1 in
    let (c3, h3) =
      reject_if-eq-ok (user == "" || not (user == address)) 403 "auth-address-mismatch" _ h2 in
    let (args, e4, h4) = >>=-eq-ok (read_sync p s c fields user) _ h3 in
    let (written, e5, h5) = >>=-eq-ok (sync_tap_state p s c w args t) _ h4 in
    let tables = ap (λ (r : TapReply × Tables). r.1) (ok_inj h5) in
    (
      fields,
      args,
      e1,
      ap (read_sync p s c fields) (sym (same_user user address c3)) ∙ e4,
      sync_tap_state-IsSynced p s c w args t t' (e5 ∙ ap ok tables),
    )
