-- ===== src/Store/Evolution.antt =====
-- Every call on the table of messages is an evolution of its rows.
use mailslot.Base.{
  ℕ, String, Bool, true, false, List, [], ◌∷◌, ◌++◌, none, some, ◌≡◌, refl, sym, ◌==◌, ◌&&◌, ◌||◌,
  eq_iff, any, find, update, select, arith, Bool-cases, Option-cases, inl, inr,
}
use mailslot.Types.{StoredMessage}
use mailslot.Store.Rows.{Store, is_ready, is_to, is_from, is_open, is_final_for_sender, is_waiting}
use mailslot.Store.Methods.{
  inserted_row, save_message, mark_message_previewed, preview_row, claim_message, claim_row,
  mark_payment_settled, cancel_message_by_sender, cancel_row, activate_deferred_message,
  expire_deferred_messages,
}
use mailslot.Store.Events.{
  Event, saves, previews, claims, settles_payment, cancels, activates, expires, after, apply, Step,
  stays, is_previewed_at, is_claimed_at, is_paid, is_cancelled_at, is_activated, Evolves, nil,
  keeps, drops, adds, IsUnique,
}

abbrev pub Absent : String → List StoredMessage → Type 0
Absent id ms = any (λ (n : StoredMessage). n.id == id) ms ≡ false

Evolves-refl : {e : Event} (ms : List StoredMessage) → Evolves e ms ms
Evolves-refl [] = nil
Evolves-refl (m ∷ ms) = keeps (stays m) (Evolves-refl ms)

Evolves-append :
    (ms : List StoredMessage) (m : StoredMessage) → Evolves (saves m) ms (ms ++ inserted_row m ∷ [])
Evolves-append [] m = adds m refl
Evolves-append (n ∷ ms) m = keeps (stays n) (Evolves-append ms m)

Evolves-select :
    {e : Event} (p : StoredMessage → Bool) (ms : List StoredMessage)
    → ((m : StoredMessage) → p m ≡ false → is_waiting m ≡ true)
    → Evolves e ms (select p ms)
Evolves-select p [] h = nil
Evolves-select p (m ∷ ms) h = elim (Bool-cases (p m)) [
  | inl kept ↦ rw kept (keeps (stays m) (Evolves-select p ms h))
  | inr gone ↦ rw gone (drops (h m gone) (Evolves-select p ms h))
]

Evolves-update :
    {e : Event} (q : StoredMessage → Bool) (f : StoredMessage → StoredMessage)
    (ms : List StoredMessage)
    → ((m : StoredMessage) → q m ≡ true → Step m (f m))
    → Evolves e ms (update q f ms)
Evolves-update q f [] h = nil
Evolves-update q f (m ∷ ms) h = elim (Bool-cases (q m)) [
  | inl hit ↦ rw hit (keeps (h m hit) (Evolves-update q f ms h))
  | inr miss ↦ rw miss (keeps (stays m) (Evolves-update q f ms h))
]

module _ (id : String) (q : StoredMessage → Bool)
    (only : (m : StoredMessage) → q m ≡ true → (m.id == id) ≡ true) where
  update-Absent :
      (f : StoredMessage → StoredMessage) (ms : List StoredMessage)
      → Absent id ms
      → update q f ms ≡ ms
  update-Absent f [] h = refl
  update-Absent f (m ∷ ms) h = ground (arith, only m, update-Absent f ms)

  pub find-Absent : (ms : List StoredMessage) → Absent id ms → find q ms ≡ none
  find-Absent [] h = refl
  find-Absent (m ∷ ms) h = ground (arith, only m, find-Absent ms)

-- An update by id reaches the row that was found, and no other.
module _ (id : String) (p q : StoredMessage → Bool) (f : StoredMessage → StoredMessage)
    (narrow : (m : StoredMessage) → p m ≡ true → q m ≡ true)
    (only : (m : StoredMessage) → q m ≡ true → (m.id == id) ≡ true) where
  Evolves-update_found :
      {ev : Event} (ms : List StoredMessage) (r : StoredMessage)
      → IsUnique ms
      → find p ms ≡ some r
      → Step r (f r)
      → Evolves ev ms (update q f ms)
  Evolves-update_found [] r u e s = nil
  Evolves-update_found (m ∷ ms) r (alone, u) e s = elim (Bool-cases (q m)) [
    | inl hit ↦
        let absent : Absent id ms = rw (sym ((eq_iff m.id id).0 (only m hit))) alone in
        let unmoved = update-Absent id q only f ms absent in
        let same : m ≡ r =
          ground (arith, find-Absent id p (λ n h. only n (narrow n h)) ms absent) in
        rw (hit, unmoved) (keeps (rw same s) (Evolves-refl ms))
    | inr miss ↦
        rw miss (keeps (stays m) (Evolves-update_found ms r u (ground (arith, narrow m)) s))
  ]

and_left : (a b : Bool) → (a && b) ≡ true → a ≡ true
and_left a b h = ground arith

and_right : (a b : Bool) → (a && b) ≡ true → b ≡ true
and_right a b h = ground arith

module _ (st : Store) (u : IsUnique st.messages) where
  save_message-Evolves :
      (m : StoredMessage) → Evolves (saves m) st.messages (apply (saves m) st).messages
  unfolding apply save_message
  save_message-Evolves m =
      elim (Bool-cases (any (λ (n : StoredMessage). n.id == m.id) st.messages)) [
        | inl taken ↦ rw taken (Evolves-refl st.messages)
        | inr free ↦ rw free (Evolves-append st.messages m)
      ]

  mark_message_previewed-Evolves :
      (id addr : String) (at : ℕ)
      → Evolves (previews id addr at) st.messages (apply (previews id addr at) st).messages
  unfolding apply mark_message_previewed
  mark_message_previewed-Evolves id addr at =
      elim (Option-cases (find (is_to id addr) st.messages)) [
        | inl none_found ↦ rw (none_found, apply, mark_message_previewed) (Evolves-refl st.messages)
        | inr (r, found) ↦ elim (Bool-cases (is_ready r.delivery_state)) [
          | inl fresh ↦
              rw (found, fresh, apply, mark_message_previewed)
                (Evolves-update_found id (is_to id addr) (is_to id addr) (preview_row at) (λ m h. h)
                  (λ m h. and_left (m.id == id) _ h) st.messages r u found
                  (is_previewed_at r at (ground arith)))
          | inr stale ↦ rw (found, stale, apply, mark_message_previewed) (Evolves-refl st.messages)
        ]
      ]

  claim_message-Evolves :
      (id addr : String) (now : ℕ)
      → Evolves (claims id addr now) st.messages (apply (claims id addr now) st).messages
  unfolding apply claim_message
  claim_message-Evolves id addr now = elim (Option-cases (find (is_to id addr) st.messages)) [
    | inl none_found ↦ rw (none_found, apply, claim_message, after) (Evolves-refl st.messages)
    | inr (r, found) ↦ elim (Bool-cases r.claimed) [
      | inl old ↦ rw (found, old, apply, claim_message, after) (Evolves-refl st.messages)
      | inr fresh ↦ elim (Bool-cases (is_open r.delivery_state)) [
        | inl is_there ↦
            rw (found, fresh, is_there, apply, claim_message, after)
              (Evolves-update_found id (is_to id addr) (λ m. m.id == id) (claim_row now)
                (λ m h. and_left (m.id == id) _ h) (λ m h. h) st.messages r u found
                (is_claimed_at r now (ground arith)))
        | inr shut ↦ rw (found, fresh, shut, apply, claim_message, after) (Evolves-refl st.messages)
      ]
    ]
  ]

  cancel_message_by_sender-Evolves :
      (id addr : String) (at : ℕ)
      → Evolves (cancels id addr at) st.messages (apply (cancels id addr at) st).messages
  unfolding apply cancel_message_by_sender
  cancel_message_by_sender-Evolves id addr at =
      elim (Option-cases (find (is_from id addr) st.messages)) [
        | inl none_found ↦
            rw (none_found, apply, cancel_message_by_sender) (Evolves-refl st.messages)
        | inr (r, found) ↦ elim (Bool-cases (r.claimed || is_final_for_sender r.delivery_state)) [
          | inl late ↦ rw (found, late, apply, cancel_message_by_sender) (Evolves-refl st.messages)
          | inr early ↦
              rw (found, early, apply, cancel_message_by_sender)
                (Evolves-update_found id (is_from id addr) (is_from id addr) (cancel_row at)
                  (λ m h. h) (λ m h. and_left (m.id == id) _ h) st.messages r u found
                  (is_cancelled_at r at early))
        ]
      ]

  -- Each call evolves the table.
  pub apply-Evolves : (e : Event) → Evolves e st.messages (apply e st).messages
  unfolding apply mark_payment_settled activate_deferred_message expire_deferred_messages
  apply-Evolves (saves m) = save_message-Evolves m
  apply-Evolves (previews id addr at) = mark_message_previewed-Evolves id addr at
  apply-Evolves (claims id addr now) = claim_message-Evolves id addr now
  apply-Evolves (settles_payment payment_id) = Evolves-update _ _ st.messages (λ m h. is_paid m)
  apply-Evolves (cancels id addr at) = cancel_message_by_sender-Evolves id addr at
  apply-Evolves (activates id addr payment) =
      Evolves-update _ _ st.messages
        (λ m h. is_activated m payment (let d = and_right (is_to id addr m) _ h in ground arith))
  apply-Evolves (expires now) = Evolves-select _ st.messages (λ m h. ground arith)
