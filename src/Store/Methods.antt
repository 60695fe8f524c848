-- ===== src/Store/Methods.antt =====
-- The methods of `SqliteMessageStore`.
use mailslot.Base.{
  ℕ, ◌+◌, String, Bool, true, false, List, [], ◌∷◌, ◌++◌, map, Option, none, some, ◌&&◌, ◌||◌, not,
  ◌==◌, ltb, if◌then◌else◌, length, select, find, any, update, or_else, coalesce, Result, ok, err,
  thrown,
}
use mailslot.Base.Int.{ℤ, pos, leb_ℤ}
use mailslot.Types.{
  StoredMessage, MailMessage, InboxEntry, PendingPayment, SettlementRecord, ready, previewed,
  settled, cancelled,
}
use mailslot.Store.Rows.{
  Store, PublicKey, PaymentInfo, is_open, is_ready, is_deferred, is_settled, is_listed,
  is_final_for_sender, is_to, is_from, is_pending, is_waiting, is_live, is_expired, newest_first,
  oldest_first, limited, row_to_mail, row_to_entry,
}

-- The fields of `InboxQuery`.
pub record InboxQuery : Type 0 where
  pub limit : Option ℤ
  pub before : Option ℕ
  pub include_claimed : Bool

-- `savePublicKey`: an upsert by address.
upsert_key : PublicKey → List PublicKey → List PublicKey
upsert_key k [] = k ∷ []
upsert_key k (j ∷ ks) = if j.stx_address == k.stx_address then k ∷ ks else j ∷ upsert_key k ks

unfoldable pub save_public_key : String → String → ℕ → Store → Store
unfolding upsert_key
save_public_key addr pubkey_hex now st = record st {
  public_keys =
      upsert_key (record { stx_address = addr; pubkey_hex = pubkey_hex; updated_at = now })
        st.public_keys;
}

unfoldable pub get_public_key : String → Store → Option String
get_public_key addr st = elim (find (λ (k : PublicKey). k.stx_address == addr) st.public_keys) [
  | none ↦ none
  | some k ↦ some k.pubkey_hex
]

-- `savePendingPaymentInfo`; the primary key is the payment's id.
unfoldable pub save_pending_payment_info : PaymentInfo → Store → Result Store
save_pending_payment_info info st =
    if any (λ (i : PaymentInfo). i.payment_id == info.payment_id) st.payment_infos
    then err (thrown "UNIQUE constraint failed: pending_payment_info.payment_id")
    else ok (record st { payment_infos = st.payment_infos ++ info ∷ [] })

-- `consumePendingPaymentInfo`: a row that is found is deleted, and is returned unless it expired.
unfoldable pub consume_pending_payment_info : String → ℕ → Store → Option PaymentInfo × Store
consume_pending_payment_info payment_id now st =
    elim (find (λ (i : PaymentInfo). i.payment_id == payment_id) st.payment_infos) [
      | none ↦ (none, st)
      | some row ↦
          let rest = record st {
            payment_infos =
                select (λ (i : PaymentInfo). not (i.payment_id == payment_id)) st.payment_infos;
          } in
          (if ltb row.expires_at now then none else some row, rest)
    ]

-- The row that `saveMessage` inserts: whatever the argument says, the message is unclaimed and its
-- payment is not settled.
abbrev pub inserted_row : StoredMessage → StoredMessage
inserted_row m = record m { claimed = false; claimed_at = none; payment_settled = false }

unfoldable pub save_message : StoredMessage → Store → Result Store
save_message msg st =
    if any (λ (m : StoredMessage). m.id == msg.id) st.messages
    then err (thrown "UNIQUE constraint failed: messages.id")
    else ok (record st { messages = st.messages ++ inserted_row msg ∷ [] })

-- The rows of an inbox before the limit, newest first.
unfoldable pub inbox_rows : String → InboxQuery → ℕ → Store → List StoredMessage
inbox_rows addr query now st =
    let before = or_else query.before (now + 1000) in
    newest_first (
      select
        (λ (m : StoredMessage).
          m.recipient == addr
          && (ltb m.sent_at before
              && (if query.include_claimed then is_listed m.delivery_state else is_pending m)))
        st.messages)

-- `Math.min(query.limit ?? 50, 100)`
abbrev pub inbox_limit : InboxQuery → ℤ
inbox_limit query =
    let asked = or_else query.limit (pos 50) in if leb_ℤ asked (pos 100) then asked else pos 100

unfoldable pub get_inbox : String → InboxQuery → ℕ → Store → List InboxEntry
unfolding inbox_rows
get_inbox addr query now st =
    map row_to_entry (limited (inbox_limit query) (inbox_rows addr query now st))

unfoldable pub get_message : String → String → Store → Option StoredMessage
get_message id addr st = find (is_to id addr) st.messages

unfoldable pub get_message_for_sender : String → String → Store → Option StoredMessage
get_message_for_sender id addr st = find (is_from id addr) st.messages

abbrev pub preview_row : ℕ → StoredMessage → StoredMessage
preview_row at m = record m {
  delivery_state = previewed;
  previewed_at = coalesce m.previewed_at (some at);
}

-- `markMessagePreviewed`
unfoldable pub mark_message_previewed : String → String → ℕ → Store → Option StoredMessage × Store
mark_message_previewed id addr at st = elim (find (is_to id addr) st.messages) [
  | none ↦ (none, st)
  | some row ↦
      if is_ready row.delivery_state
      then (
        some (preview_row at row),
        record st { messages = update (is_to id addr) (preview_row at) st.messages },
      )
      else (some row, st)
]

abbrev pub claim_row : ℕ → StoredMessage → StoredMessage
claim_row now m = record m {
  claimed = true;
  claimed_at = some now;
  payment_settled = true;
  delivery_state = settled;
}

-- `claimMessage`: the UPDATE goes by the id alone.
unfoldable pub claim_message : String → String → ℕ → Store → Result (MailMessage × Store)
claim_message id addr now st = elim (find (is_to id addr) st.messages) [
  | none ↦ err (thrown "message-not-found")
  | some row ↦
      if row.claimed
      then err (thrown "already-claimed")
      else if is_open row.delivery_state
      then ok (
        row_to_mail row,
        record st {
          messages = update (λ (m : StoredMessage). m.id == id) (claim_row now) st.messages;
        },
      )
      else err (thrown "message-not-claimable")
]

unfoldable pub get_claimed_message : String → String → Store → Option MailMessage
get_claimed_message id addr st =
    elim (find (λ m. is_to id addr m && is_settled m.delivery_state) st.messages) [
      | none ↦ none
      | some row ↦ some (row_to_mail row)
    ]

unfoldable pub mark_payment_settled : String → Store → Store
mark_payment_settled payment_id st = record st {
  messages =
      update (λ (m : StoredMessage). m.payment_id == payment_id)
        (λ m. record m { payment_settled = true }) st.messages;
}

abbrev pub cancel_row : ℕ → StoredMessage → StoredMessage
cancel_row at m = record m {
  delivery_state = cancelled;
  cancelled_at = some at;
  pending_payment = none;
}

-- `cancelMessageBySender`: the row comes back as it is where it can no longer be cancelled.
unfoldable pub cancel_message_by_sender : String → String → ℕ → Store → Option StoredMessage × Store
cancel_message_by_sender id addr at st = elim (find (is_from id addr) st.messages) [
  | none ↦ (none, st)
  | some row ↦ if row.claimed || is_final_for_sender row.delivery_state then (some row, st) else (
    some (cancel_row at row),
    record st { messages = update (is_from id addr) (cancel_row at) st.messages },
  )
]

-- `recordSettlement`: an upsert by the message's id.
unfoldable pub upsert_settlement : SettlementRecord → List SettlementRecord → List SettlementRecord
upsert_settlement r [] = r ∷ []
upsert_settlement r (s ∷ ss) =
    if s.message_id == r.message_id then r ∷ ss else s ∷ upsert_settlement r ss

unfoldable pub record_settlement : SettlementRecord → Store → Store
unfolding upsert_settlement
record_settlement r st = record st { settlements = upsert_settlement r st.settlements }

unfoldable pub get_settlement : String → Store → Option SettlementRecord
get_settlement id st = find (λ (s : SettlementRecord). s.message_id == id) st.settlements

abbrev pub activate_row : PendingPayment → StoredMessage → StoredMessage
activate_row payment m = record m {
  pending_payment = some payment;
  delivery_state = ready;
  deferred_reason = none;
  deferred_until = none;
}

-- `activateDeferredMessage`
unfoldable pub activate_deferred_message : String → String → PendingPayment → Store → Store
activate_deferred_message id addr payment st = record st {
  messages =
      update (λ m. is_to id addr m && is_deferred m.delivery_state) (activate_row payment)
        st.messages;
}

-- `getDeferredMessagesForRecipient`
unfoldable pub get_deferred_messages : String → ℕ → ℤ → Store → List StoredMessage
get_deferred_messages addr now limit st = limited limit (
    oldest_first (
      select
        (λ (m : StoredMessage).
          m.recipient == addr && (is_waiting m && is_live now m.deferred_until))
        st.messages))

abbrev pub is_overdue : ℕ → StoredMessage → Bool
is_overdue now m = is_waiting m && is_expired now m.deferred_until

-- `expireDeferredMessages`: the number of rows deleted, and the rest.
unfoldable pub expire_deferred_messages : ℕ → Store → ℕ × Store
expire_deferred_messages now st = (
  length (select (is_overdue now) st.messages),
  record st { messages = select (λ m. not (is_overdue now m)) st.messages },
)

-- `SELECT COUNT(*) FROM messages WHERE …`
abbrev pub count_messages : (StoredMessage → Bool) → Store → ℕ
count_messages p st = length (select p st.messages)

unfoldable pub count_pending_from_sender : String → String → Store → ℕ
count_pending_from_sender sender addr =
    count_messages (λ m. m.sender == sender && (m.recipient == addr && is_pending m))

unfoldable pub count_pending_to_recipient : String → Store → ℕ
count_pending_to_recipient addr = count_messages (λ m. m.recipient == addr && is_pending m)

unfoldable pub count_deferred_from_sender : String → String → Store → ℕ
count_deferred_from_sender sender addr =
    count_messages (λ m. m.sender == sender && (m.recipient == addr && is_waiting m))

unfoldable pub count_deferred_to_recipient : String → Store → ℕ
count_deferred_to_recipient addr = count_messages (λ m. m.recipient == addr && is_waiting m)

unfoldable pub count_deferred_global : Store → ℕ
count_deferred_global = count_messages is_waiting
