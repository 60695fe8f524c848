-- ===== src/Store/Rows.antt =====
-- The tables of store.ts and the queries on them: selection, ORDER BY, LIMIT.
use mailslot.Base.{
  ℕ, String, Bool, true, false, List, [], ◌∷◌, Option, none, some, ◌&&◌, ◌||◌, ◌==◌, ltb, leb, not,
  if◌then◌else◌, take,
}
use mailslot.Base.Int.{ℤ, pos, negsuc}
use mailslot.Types.{
  StoredMessage, MailMessage, InboxEntry, SettlementRecord, DeliveryState, ready, previewed,
  deferred, settled, cancelled,
}

-- A row of `public_keys`.
pub record PublicKey : Type 0 where
  pub stx_address : String
  pub pubkey_hex : String
  pub updated_at : ℕ

-- A row of `pending_payment_info`.
pub record PaymentInfo : Type 0 where
  pub payment_id : String
  pub hashed_secret : String
  pub secret : String
  pub recipient_addr : String
  pub amount : String
  pub fee : String
  pub expires_at : ℕ

pub record Store : Type 0 where
  pub messages : List StoredMessage
  pub settlements : List SettlementRecord
  pub public_keys : List PublicKey
  pub payment_infos : List PaymentInfo

-- `delivery_state IN ('ready', 'previewed')`
abbrev pub is_open : DeliveryState → Bool
is_open ready = true
is_open previewed = true
is_open _ = false

abbrev pub is_ready : DeliveryState → Bool
is_ready ready = true
is_ready _ = false

abbrev pub is_deferred : DeliveryState → Bool
is_deferred deferred = true
is_deferred _ = false

abbrev pub is_settled : DeliveryState → Bool
is_settled settled = true
is_settled _ = false

-- `delivery_state IN ('ready', 'previewed', 'settled')`
abbrev pub is_listed : DeliveryState → Bool
is_listed s = is_open s || is_settled s

-- The states in which a sender's cancellation changes nothing.
abbrev pub is_final_for_sender : DeliveryState → Bool
is_final_for_sender previewed = true
is_final_for_sender settled = true
is_final_for_sender cancelled = true
is_final_for_sender _ = false

-- `id = ? AND to_addr = ?`, `id = ? AND from_addr = ?`
abbrev pub is_to : String → String → StoredMessage → Bool
is_to id addr m = m.id == id && m.recipient == addr

abbrev pub is_from : String → String → StoredMessage → Bool
is_from id addr m = m.id == id && m.sender == addr

-- `claimed = 0 AND delivery_state IN ('ready', 'previewed')`
abbrev pub is_pending : StoredMessage → Bool
is_pending m = not m.claimed && is_open m.delivery_state

-- `claimed = 0 AND delivery_state = 'deferred'`
abbrev pub is_waiting : StoredMessage → Bool
is_waiting m = not m.claimed && is_deferred m.delivery_state

-- `deferred_until IS NULL OR deferred_until >= ?`
abbrev pub is_live : ℕ → Option ℕ → Bool
is_live now none = true
is_live now (some until) = leb now until

-- `deferred_until IS NOT NULL AND deferred_until < ?`
abbrev pub is_expired : ℕ → Option ℕ → Bool
is_expired now none = false
is_expired now (some until) = ltb until now

-- ORDER BY sent_at DESC; rows of one time keep their order.
unfoldable pub insert_newest : StoredMessage → List StoredMessage → List StoredMessage
insert_newest m [] = m ∷ []
insert_newest m (n ∷ ms) =
    let rest = insert_newest m ms in if ltb m.sent_at n.sent_at then n ∷ rest else m ∷ n ∷ ms

unfoldable pub newest_first : List StoredMessage → List StoredMessage
unfolding insert_newest
newest_first [] = []
newest_first (m ∷ ms) = insert_newest m (newest_first ms)

-- ORDER BY sent_at ASC; rows of one time keep their order.
unfoldable pub insert_oldest : StoredMessage → List StoredMessage → List StoredMessage
insert_oldest m [] = m ∷ []
insert_oldest m (n ∷ ms) =
    let rest = insert_oldest m ms in if ltb n.sent_at m.sent_at then n ∷ rest else m ∷ n ∷ ms

unfoldable pub oldest_first : List StoredMessage → List StoredMessage
unfolding insert_oldest
oldest_first [] = []
oldest_first (m ∷ ms) = insert_oldest m (oldest_first ms)

-- LIMIT; a negative limit is no limit.
abbrev pub limited {ℓ} : {A : Type ℓ} → ℤ → List A → List A
limited (pos n) rows = take n rows
limited (negsuc _) rows = rows

-- `rowToMail`
abbrev pub row_to_mail : StoredMessage → MailMessage
row_to_mail m = record {
  id = m.id;
  sender = m.sender;
  recipient = m.recipient;
  sent_at = m.sent_at;
  amount = m.amount;
  fee = m.fee;
  payment_id = m.payment_id;
  encrypted_payload = m.encrypted_payload;
}

abbrev pub row_to_entry : StoredMessage → InboxEntry
row_to_entry m = record {
  id = m.id;
  sender = m.sender;
  sent_at = m.sent_at;
  amount = m.amount;
  claimed = m.claimed;
}
