-- ===== src/Store/Events.antt =====
-- The calls that change the table of messages, as events, and how one row may change.
use mailslot.Base.{
  ℕ, String, Bool, true, false, List, [], ◌∷◌, ◌≡◌, ◌==◌, ◌||◌, any, Result, ok, err, is_some,
  is_none, not,
}
use mailslot.Types.{
  StoredMessage, PendingPayment, MailMessage, DeliveryState, ready, previewed, deferred, cancelled,
}
use mailslot.Store.Rows.{Store, is_final_for_sender, is_pending, is_waiting, is_settled}
use mailslot.Store.Methods.{
  inserted_row, save_message, preview_row, mark_message_previewed, claim_row, claim_message,
  mark_payment_settled, cancel_row, cancel_message_by_sender, activate_row,
  activate_deferred_message, expire_deferred_messages,
}

-- One call of a method that writes to `messages`, with its arguments.
pub data Event : Type 0 where
  saves : StoredMessage → Event
  previews : String → String → ℕ → Event
  claims : String → String → ℕ → Event
  settles_payment : String → Event
  cancels : String → String → ℕ → Event
  activates : String → String → PendingPayment → Event
  expires : ℕ → Event

-- What a call leaves behind; one that throws leaves the tables as they were.
abbrev pub after {ℓ} : {A : Type ℓ} → Store → (A → Store) → Result A → Store
after st f (ok a) = f a
after st f (err _) = st

unfoldable pub apply : Event → Store → Store
apply (saves m) st = after st (λ s. s) (save_message m st)
apply (previews id addr at) st = (mark_message_previewed id addr at st).1
apply (claims id addr now) st =
    after st (λ (p : MailMessage × Store). p.1) (claim_message id addr now st)
apply (settles_payment payment_id) st = mark_payment_settled payment_id st
apply (cancels id addr at) st = (cancel_message_by_sender id addr at st).1
apply (activates id addr payment) st = activate_deferred_message id addr payment st
apply (expires now) st = (expire_deferred_messages now st).1

unfoldable pub run : List Event → Store → Store
unfolding apply
run [] st = st
run (e ∷ es) st = run es (apply e st)

-- The states whose rows hold no outgoing payment.
abbrev pub holds_no_payment : DeliveryState → Bool
holds_no_payment deferred = true
holds_no_payment cancelled = true
holds_no_payment _ = false

abbrev pub is_previewed : DeliveryState → Bool
is_previewed previewed = true
is_previewed _ = false

-- What holds of every row: claimed is the same as settled and as having a time of claim, a claimed
-- row's payment is settled, a deferred or cancelled row holds no outgoing payment, and a previewed
-- one has a time of preview.
pub record IsSound (m : StoredMessage) : Type 0 where
  pub claimed_settled : m.claimed ≡ is_settled m.delivery_state
  pub claimed_dated : m.claimed ≡ is_some m.claimed_at
  pub claimed_paid : not m.claimed || m.payment_settled ≡ true
  pub unpaid : not (holds_no_payment m.delivery_state) || is_none m.pending_payment ≡ true
  pub seen : not (is_previewed m.delivery_state) || is_some m.previewed_at ≡ true

-- How one row may change in one call.
pub data Step : StoredMessage → StoredMessage → Type 0 where
  stays : (m : StoredMessage) → Step m m
  is_previewed_at :
      (m : StoredMessage) (at : ℕ) → m.delivery_state ≡ ready → Step m (preview_row at m)
  is_claimed_at : (m : StoredMessage) (now : ℕ) → is_pending m ≡ true → Step m (claim_row now m)
  is_paid : (m : StoredMessage) → Step m (record m { payment_settled = true })
  is_cancelled_at :
      (m : StoredMessage) (at : ℕ)
      → (m.claimed || is_final_for_sender m.delivery_state) ≡ false
      → Step m (cancel_row at m)
  is_activated :
      (m : StoredMessage) (payment : PendingPayment)
      → m.delivery_state ≡ deferred
      → Step m (activate_row payment m)

-- How the table may change in one call: each row by a step, where a waiting row may vanish and the
-- row of a save may be added at the end.
pub data Evolves (e : Event) : List StoredMessage → List StoredMessage → Type 0 where
  nil : Evolves e [] []
  keeps :
      {m n : StoredMessage} {ms ns : List StoredMessage}
      → Step m n
      → Evolves e ms ns
      → Evolves e (m ∷ ms) (n ∷ ns)
  drops :
      {m : StoredMessage} {ms ns : List StoredMessage}
      → is_waiting m ≡ true
      → Evolves e ms ns
      → Evolves e (m ∷ ms) ns
  adds : (m : StoredMessage) → e ≡ saves m → Evolves e [] (inserted_row m ∷ [])

-- No two rows have the same id: the primary key.
abbrev pub IsUnique : List StoredMessage → Type 0
IsUnique [] = Unit
IsUnique (m ∷ ms) = (any (λ (n : StoredMessage). n.id == m.id) ms ≡ false) × IsUnique ms
