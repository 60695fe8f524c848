-- ===== src/Reservoir/Liquidity/Synced.antt =====
-- What a synced tap is afterwards, and that the balances of a tap lose nothing.
use mailslot.Base.{
  String, Bool, true, Option, none, some, ◌≡◌, refl, sym, ap, ◌∙◌, not, ◌&&◌, ◌==◌, All, eq_iff,
  arith, inl, inr, Bool-cases, ok, >>=-eq-ok, >>-eq-ok, reject_if-eq-ok, reject_if-ok, ok_inj,
}
use mailslot.Base.Int.{ℤ, pos, ◌+ℤ◌, ◌≤ℤ◌, leb_ℤ, int_laws}
use mailslot.Base.Text.{to_text}
use mailslot.Transfer.{Signer}
use mailslot.Reservoir.Tables.{
  Platform, Config, Tables, World, PipeRow, PendingRow, PendingLeg, OnChainPipe, TapState,
  get_pipe_row, upsert_pipe, delete_pending_states_at_or_below_nonce,
}
use mailslot.Reservoir.Verify.{true_of_not, le_of_leb_ℤ}
use mailslot.Reservoir.Complete.{put_pipe-IsWritten, select-All}
use mailslot.Reservoir.Liquidity.Snapshots.{
  Snapshot, check_token, get_current_on_chain_tap_snapshot, has_matured,
}
use mailslot.Reservoir.Liquidity.Syncing.{
  SyncArgs, check_sync, sync_tap_state, side_balances, mature_amount, TapBalances, tap_balances,
}

-- The texts of a request are the chain's numbers.
pub record Agrees (now : Snapshot) (args : SyncArgs) : Type 0 where
  pub theirs : to_text now.counterparty ≡ args.user_balance
  pub server : to_text now.server ≡ args.reservoir_balance
  pub nonce : to_text now.nonce ≡ args.nonce

equal_texts : (a b : String) → (a == b) ≡ true → a ≡ b
equal_texts a b h = ground (arith, eq_iff a b)

both_left : (a b : Bool) → a && b ≡ true → a ≡ true
both_left a b h = ground arith

both_right : (a b : Bool) → a && b ≡ true → b ≡ true
both_right a b h = ground arith

check_sync-Agrees :
    (now : Snapshot) (args : SyncArgs) → check_sync now args ≡ ok tt → Agrees now args
unfolding check_sync
check_sync-Agrees now args h =
    let (c1, h1) = reject_if-eq-ok _ 409 "tap-sync-balance-mismatch" _ h in
    let c2 = reject_if-ok _ 409 "tap-sync-nonce-mismatch" h1 in
    let both = true_of_not _ c1 in
    record {
      theirs = equal_texts (to_text now.counterparty) args.user_balance (both_left _ _ both);
      server = equal_texts (to_text now.server) args.reservoir_balance (both_right _ _ both);
      nonce = equal_texts (to_text now.nonce) args.nonce (true_of_not _ c2);
    }

-- The request is what the chain has, the enforceable row too, and no pending state up to its nonce is left.
pub record IsSynced (p : Platform) (c : Config) (w : World) (args : SyncArgs) (t' : Tables)
    : Type 0 where
  pub token : Option String
  pub now : Snapshot
  pub asked_for : check_token args.token ≡ ok token
  pub on_chain : get_current_on_chain_tap_snapshot p c w args.counterparty token ≡ ok now
  pub agrees : Agrees now args
  pub row : PipeRow
  pub located : get_pipe_row p now.pipe_id t' ≡ some row
  pub server : row.server_balance ≡ to_text now.server
  pub theirs : row.counterparty_balance ≡ to_text now.counterparty
  pub nonce : row.nonce ≡ to_text now.nonce
  pub cleared :
      All
        (λ (r : PendingRow).
          not
            (r.pipe_id == now.pipe_id && leb_ℤ (p.cast_integer r.nonce) (p.cast_integer args.nonce))
          ≡ true)
        t'.pending

-- The row that a sync puts.
abbrev synced_row : Config → World → Snapshot → SyncArgs → PipeRow
synced_row c w now args = record {
  pipe_id = now.pipe_id;
  contract_id = c.contract_id;
  pipe_key = now.pipe_key;
  server_balance = args.reservoir_balance;
  counterparty_balance = args.user_balance;
  nonce = args.nonce;
  last_action = args.action;
  last_actor = args.actor;
  last_hashed_secret = none;
  last_valid_after = none;
  last_server_signature = args.server_signature;
  last_counterparty_signature = args.counterparty_signature;
  enforceable_secret = none;
  updated_at = w.sql_now;
}

-- A sync succeeds only where the request has the chain's balances and nonce; then the enforceable
-- row of the pipe has them, and no pending state of the pipe up to that nonce is left.
pub sync_tap_state-IsSynced :
    (p : Platform) (s : Signer) (c : Config) (w : World) (args : SyncArgs) (t t' : Tables)
    → sync_tap_state p s c w args t ≡ ok t'
    → IsSynced p c w args t'
unfolding sync_tap_state upsert_pipe delete_pending_states_at_or_below_nonce get_pipe_row
sync_tap_state-IsSynced p s c w args t t' h =
    let (token, e1, h1) = >>=-eq-ok (check_token args.token) _ h in
    let (now, e2, h2) =
      >>=-eq-ok (get_current_on_chain_tap_snapshot p c w args.counterparty token) _ h1 in
    let (e3, h3) = >>-eq-ok (check_sync now args) _ h2 in
    let same = check_sync-Agrees now args e3 in
    let (row, put) = put_pipe-IsWritten (synced_row c w now args) t.pipes in
    rw (← ok_inj h3) (record {
      token = token;
      now = now;
      asked_for = e1;
      on_chain = e2;
      agrees = same;
      row = row;
      located = put.located;
      server = put.server ∙ sym same.server;
      theirs = put.theirs ∙ sym same.theirs;
      nonce = put.nonce ∙ sym same.nonce;
      cleared = select-All _ t.pending;
    })

zero_total : (a b : ℤ) → pos 0 ≤ℤ b → b ≤ℤ pos 0 → (a +ℤ pos 0) +ℤ pos 0 ≡ a +ℤ b
zero_total a b h k = grind int_laws

add_zero : (a : ℤ) → a +ℤ pos 0 ≡ a
add_zero a = grind int_laws

-- What a side has, settled and pending together, is its balance and its leg's amount.
side_balances_total :
    (height : Option ℤ) (balance : ℤ) (leg : PendingLeg)
    → pos 0 ≤ℤ leg.amount
    → (side_balances height balance leg).0 +ℤ (side_balances height balance leg).1
      ≡ balance +ℤ leg.amount
unfolding side_balances mature_amount has_matured
side_balances_total height balance leg h = elim (Bool-cases (leb_ℤ leg.amount (pos 0))) [
  | inl nothing ↦
      rw nothing (zero_total balance leg.amount h (le_of_leb_ℤ leg.amount (pos 0) nothing))
  | inr some_amount ↦ elim (Bool-cases (has_matured height leg)) [
    | inl due ↦ rw (some_amount, due) (add_zero (balance +ℤ leg.amount))
    | inr early ↦ rw (some_amount, early) (ap (λ x. x +ℤ leg.amount) (add_zero balance))
  ]
]

-- The balances of a tap, as integers whose texts are answered, and their total.
pub record IsShared (o : OnChainPipe) (b : TapBalances) : Type 0 where
  pub server : ℤ
  pub theirs : ℤ
  pub server_later : ℤ
  pub theirs_later : ℤ
  pub server_settled : b.settled_server_balance ≡ some (to_text server)
  pub theirs_settled : b.settled_counterparty_balance ≡ some (to_text theirs)
  pub server_pending : b.pending_server_balance ≡ some (to_text server_later)
  pub theirs_pending : b.pending_counterparty_balance ≡ some (to_text theirs_later)
  pub total :
      (server +ℤ server_later) +ℤ (theirs +ℤ theirs_later)
      ≡ (o.balance_1 +ℤ o.pending_leg_1.amount) +ℤ (o.balance_2 +ℤ o.pending_leg_2.amount)

add_swap : (a b : ℤ) → a +ℤ b ≡ b +ℤ a
add_swap a b = grind int_laws

-- The balances that are shown of a tap on the chain, settled and pending, of both sides, add up to
-- the chain's balances and legs, whichever side the server is and whatever has matured; no leg is
-- negative.
pub tap_balances-IsShared :
    (c : Config) (height : Option ℤ) (tap : TapState) (o : OnChainPipe)
    → pos 0 ≤ℤ o.pending_leg_1.amount
    → pos 0 ≤ℤ o.pending_leg_2.amount
    → IsShared o (tap_balances c height tap (some o))
unfolding tap_balances
tap_balances-IsShared c height tap o h1 h2 =
    let one = side_balances height o.balance_1 o.pending_leg_1 in
    let two = side_balances height o.balance_2 o.pending_leg_2 in
    let both =
      ap (λ x. x +ℤ (two.0 +ℤ two.1)) (side_balances_total height o.balance_1 o.pending_leg_1 h1)
      ∙ ap (λ x. (o.balance_1 +ℤ o.pending_leg_1.amount) +ℤ x)
          (side_balances_total height o.balance_2 o.pending_leg_2 h2) in
    elim (Bool-cases (tap.pipe_key.principal_1 == c.server_address)) [
      | inl first ↦ rw first (record {
        server = one.0;
        theirs = two.0;
        server_later = one.1;
        theirs_later = two.1;
        server_settled = refl;
        theirs_settled = refl;
        server_pending = refl;
        theirs_pending = refl;
        total = both;
      })
      | inr second ↦ rw second (record {
        server = two.0;
        theirs = one.0;
        server_later = two.1;
        theirs_later = one.1;
        server_settled = refl;
        theirs_settled = refl;
        server_pending = refl;
        theirs_pending = refl;
        total = add_swap (two.0 +ℤ two.1) (one.0 +ℤ one.1) ∙ both;
      })
    ]
