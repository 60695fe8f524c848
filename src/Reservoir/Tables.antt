-- ===== src/Reservoir/Tables.antt =====
-- The queries and updates of the reservoir's tables. Balances and nonces are texts, as they are
-- stored.
mod Rows
unfoldable pub use Rows.*
use mailslot.Base.{
  ℕ, zero, suc, String, Bool, true, false, List, [], ◌∷◌, Option, none, some, ◌==◌, ◌&&◌, ◌||◌, not,
  ltb, leb, eqb, if◌then◌else◌, find, select, coalesce, Result, ok, err, ◌>>=◌, or_throw,
}
use mailslot.Base.Int.{ℤ, ltb_ℤ, leb_ℤ, eqb_ℤ}
use mailslot.Base.Text.{big_int}
use mailslot.Json.{Json}
use mailslot.Types.{PipeKey}
use Prim.Native.String

-- The first of the rows that no other precedes, in one pass: ORDER BY … LIMIT 1.
unfoldable pub first_by {ℓ} : {A : Type ℓ} → (A → A → Bool) → List A → Option A
first_by before [] = none
first_by before (r ∷ rs) = elim (first_by before rs) [
  | none ↦ some r
  | some best ↦ some (if before best r then best else r)
]

-- ORDER BY updated_at DESC
abbrev pub newer_pipe : PipeRow → PipeRow → Bool
newer_pipe a b = ltb b.updated_at a.updated_at

module _ (p : Platform) where
  -- ORDER BY CAST(nonce AS INTEGER) DESC, updated_at DESC
  abbrev pub later_pending : PendingRow → PendingRow → Bool
  later_pending a b =
      ltb_ℤ (p.cast_integer b.nonce) (p.cast_integer a.nonce)
      || (eqb_ℤ (p.cast_integer a.nonce) (p.cast_integer b.nonce) && ltb b.updated_at a.updated_at)

  unfoldable pub get_pipe_row : String → Tables → Option PipeRow
  get_pipe_row pipe_id t = find (λ (r : PipeRow). r.pipe_id == pipe_id) t.pipes

  unfoldable pub get_latest_pending_pipe_row : String → Tables → Option PendingRow
  get_latest_pending_pipe_row pipe_id t =
      first_by later_pending (select (λ (r : PendingRow). r.pipe_id == pipe_id) t.pending)

  unfoldable pub get_latest_pipe_row_for_principals :
      String → String → String → Tables → Option PipeRow
  get_latest_pipe_row_for_principals contract_id principal_1 principal_2 t = first_by newer_pipe (
      select
        (λ (r : PipeRow).
          r.contract_id == contract_id
          && p.like (String.◌++◌ "%" (principals_suffix principal_1 principal_2)) r.pipe_id)
        t.pipes)

  unfoldable pub get_latest_pending_pipe_row_for_principals :
      String → String → String → Tables → Option PendingRow
  get_latest_pending_pipe_row_for_principals contract_id principal_1 principal_2 t =
      first_by later_pending (
        select
          (λ (r : PendingRow).
            r.contract_id == contract_id
            && p.like (String.◌++◌ "%" (principals_suffix principal_1 principal_2)) r.pipe_id)
          t.pending)

  -- `chooseLatestRow`: the later nonce, and the pending row of two with the same.
  unfoldable pub choose_latest_row : Option PipeRow → Option PendingRow → Result (Option TapState)
  choose_latest_row none none = ok none
  choose_latest_row none (some pending) = ok (some (of_pending pending))
  choose_latest_row (some enforceable) none = ok (some (of_pipe enforceable))
  choose_latest_row (some enforceable) (some pending) = do
    en ← or_throw (big_int enforceable.nonce) "SyntaxError"
    pn ← or_throw (big_int pending.nonce) "SyntaxError"
    ok (
        some (
          if ltb_ℤ en pn
          then of_pending pending
          else if ltb_ℤ pn en
          then of_pipe enforceable
          else if leb enforceable.updated_at pending.updated_at
          then of_pending pending
          else of_pipe enforceable))

  unfoldable pub get_latest_pipe_state : String → Tables → Result (Option TapState)
  unfolding choose_latest_row get_pipe_row get_latest_pending_pipe_row
  get_latest_pipe_state pipe_id t =
      choose_latest_row (get_pipe_row pipe_id t) (get_latest_pending_pipe_row pipe_id t)

  unfoldable pub get_latest_pipe_state_for_principals :
      String → String → String → Tables → Result (Option TapState)
  get_latest_pipe_state_for_principals contract_id principal_1 principal_2 t =
      choose_latest_row (get_latest_pipe_row_for_principals contract_id principal_1 principal_2 t)
        (get_latest_pending_pipe_row_for_principals contract_id principal_1 principal_2 t)

  -- `deletePendingStatesAtOrBelowNonce`
  unfoldable pub delete_pending_states_at_or_below_nonce : String → String → Tables → Tables
  delete_pending_states_at_or_below_nonce pipe_id nonce t = record t {
    pending =
        select
          (λ (r : PendingRow).
            not (r.pipe_id == pipe_id && leb_ℤ (p.cast_integer r.nonce) (p.cast_integer nonce)))
          t.pending;
  }

-- The row that a conflict on `pipe_id` leaves: the contract and the key stay, and what the update
-- leaves out keeps its value.
abbrev pub merged_pipe : PipeRow → PipeRow → PipeRow
merged_pipe excluded old = record {
  pipe_id = old.pipe_id;
  contract_id = old.contract_id;
  pipe_key = old.pipe_key;
  server_balance = excluded.server_balance;
  counterparty_balance = excluded.counterparty_balance;
  nonce = excluded.nonce;
  last_action = coalesce excluded.last_action old.last_action;
  last_actor = coalesce excluded.last_actor old.last_actor;
  last_hashed_secret = coalesce excluded.last_hashed_secret old.last_hashed_secret;
  last_valid_after = coalesce excluded.last_valid_after old.last_valid_after;
  last_server_signature = coalesce excluded.last_server_signature old.last_server_signature;
  last_counterparty_signature =
      coalesce excluded.last_counterparty_signature old.last_counterparty_signature;
  enforceable_secret = coalesce excluded.enforceable_secret old.enforceable_secret;
  updated_at = excluded.updated_at;
}

unfoldable pub put_pipe : PipeRow → List PipeRow → List PipeRow
put_pipe r [] = r ∷ []
put_pipe r (old ∷ rows) =
    if old.pipe_id == r.pipe_id then merged_pipe r old ∷ rows else old ∷ put_pipe r rows

-- `upsertPipe`
unfoldable pub upsert_pipe :
    String → String → PipeKey → String → String → String → PipeUpdateMeta → ℕ → Tables → Tables
unfolding put_pipe
upsert_pipe pipe_id contract_id key server counterparty nonce meta now t = record t {
  pipes =
      put_pipe
        (record {
          pipe_id = pipe_id;
          contract_id = contract_id;
          pipe_key = key;
          server_balance = server;
          counterparty_balance = counterparty;
          nonce = nonce;
          last_action = meta.action;
          last_actor = meta.actor;
          last_hashed_secret = meta.hashed_secret;
          last_valid_after = meta.valid_after;
          last_server_signature = meta.server_signature;
          last_counterparty_signature = meta.counterparty_signature;
          enforceable_secret = meta.enforceable_secret;
          updated_at = now;
        })
        t.pipes;
}

-- A conflict on the pipe and the nonce's text replaces the row.
unfoldable pub put_pending : PendingRow → List PendingRow → List PendingRow
put_pending r [] = r ∷ []
put_pending r (old ∷ rows) =
    if old.pipe_id == r.pipe_id && old.nonce == r.nonce then r ∷ rows else old ∷ put_pending r rows

-- `upsertPendingState`
unfoldable pub upsert_pending_state :
    String → String → PipeKey → String → String → String → PipeUpdateMeta → ℕ → Tables → Tables
upsert_pending_state pipe_id contract_id key server counterparty nonce meta now t = record t {
  pending =
      put_pending
        (record {
          pipe_id = pipe_id;
          nonce = nonce;
          contract_id = contract_id;
          pipe_key = key;
          server_balance = server;
          counterparty_balance = counterparty;
          action = meta.action;
          actor = meta.actor;
          hashed_secret = meta.hashed_secret;
          valid_after = meta.valid_after;
          server_signature = meta.server_signature;
          counterparty_signature = meta.counterparty_signature;
          updated_at = now;
        })
        t.pending;
}

abbrev pub no_meta : PipeUpdateMeta
no_meta = record {
  action = none;
  actor = none;
  hashed_secret = none;
  valid_after = none;
  server_signature = none;
  counterparty_signature = none;
  enforceable_secret = none;
}

-- `getLastRefreshAt`
unfoldable pub get_last_refresh_at : String → Tables → Option ℕ
get_last_refresh_at borrower t = elim (find (λ (r : Refresh). r.borrower == borrower) t.refreshes) [
  | none ↦ none
  | some r ↦ some r.last_refreshed_at
]

unfoldable pub put_refresh : Refresh → List Refresh → List Refresh
put_refresh r [] = r ∷ []
put_refresh r (old ∷ rows) =
    if old.borrower == r.borrower then r ∷ rows else old ∷ put_refresh r rows

-- `recordRefreshAt`
unfoldable pub record_refresh_at : String → ℕ → Tables → Tables
unfolding put_refresh
record_refresh_at borrower at t = record t {
  refreshes = put_refresh (record { borrower = borrower; last_refreshed_at = at }) t.refreshes;
}
