-- ===== src/Store/Finality.antt =====
-- A claimed or cancelled message stays so: at most one claim of a message ever succeeds.
use mailslot.Base.{
  ℕ, String, Bool, true, false, List, [], ◌∷◌, ◌++◌, none, some, ◌≡◌, refl, sym, ◌∙◌, ap, ◌==◌,
  eq_iff, if◌then◌else◌, any, find, update, select, ok, arith, Bool-cases, Option-cases, inl, inr,
}
use mailslot.Types.{StoredMessage, MailMessage, DeliveryState, settled, cancelled}
use mailslot.Store.Rows.{Store, is_to, is_from, is_pending, is_waiting, row_to_mail}
use mailslot.Store.Methods.{
  inserted_row, claim_message, claim_row, cancel_message_by_sender, mark_message_previewed,
  preview_row, cancel_row, save_message, mark_payment_settled, activate_deferred_message,
  expire_deferred_messages,
}
use mailslot.Store.Events.{
  Event, saves, previews, claims, settles_payment, cancels, activates, expires, apply, run, Step,
  stays, is_previewed_at, is_claimed_at, is_paid, is_cancelled_at, is_activated, Evolves, nil,
  keeps, drops, adds, IsUnique,
}
use mailslot.Store.Evolution.{apply-Evolves, Absent, find-Absent}

abbrev pub by_id : String → StoredMessage → Bool
by_id id m = m.id == id

any-update :
    (id : String) (q : StoredMessage → Bool) (f : StoredMessage → StoredMessage)
    (ms : List StoredMessage)
    → ((m : StoredMessage) → (f m).id ≡ m.id)
    → any (by_id id) (update q f ms) ≡ any (by_id id) ms
any-update id q f [] h = refl
any-update id q f (m ∷ ms) h = elim (Bool-cases (q m)) [
  | inl hit ↦ rw (hit, h m, any-update id q f ms h)
  | inr miss ↦ rw (miss, any-update id q f ms h)
]

pub IsUnique-update :
    (q : StoredMessage → Bool) (f : StoredMessage → StoredMessage) (ms : List StoredMessage)
    → ((m : StoredMessage) → (f m).id ≡ m.id)
    → IsUnique ms
    → IsUnique (update q f ms)
IsUnique-update q f [] h u = tt
IsUnique-update q f (m ∷ ms) h (alone, u) = elim (Bool-cases (q m)) [
  | inl hit ↦ rw hit (rw (h m, any-update m.id q f ms h) alone, IsUnique-update q f ms h u)
  | inr miss ↦ rw miss (rw (any-update m.id q f ms h) alone, IsUnique-update q f ms h u)
]

any-select :
    (id : String) (p : StoredMessage → Bool) (ms : List StoredMessage)
    → any (by_id id) ms ≡ false
    → any (by_id id) (select p ms) ≡ false
any-select id p [] h = refl
any-select id p (m ∷ ms) h = ground (arith, any-select id p ms)

IsUnique-select :
    (p : StoredMessage → Bool) (ms : List StoredMessage) → IsUnique ms → IsUnique (select p ms)
IsUnique-select p [] u = tt
IsUnique-select p (m ∷ ms) (alone, u) = elim (Bool-cases (p m)) [
  | inl kept ↦ rw kept (any-select m.id p ms alone, IsUnique-select p ms u)
  | inr gone ↦ rw gone (IsUnique-select p ms u)
]

any-append :
    (id : String) (m : StoredMessage) (ms : List StoredMessage)
    → any (by_id id) ms ≡ false
    → (m.id == id) ≡ false
    → any (by_id id) (ms ++ m ∷ []) ≡ false
any-append id m [] h e = rw e
any-append id m (n ∷ ms) h e = ground (arith, any-append id m ms)

IsUnique-append :
    (m : StoredMessage) (ms : List StoredMessage)
    → any (by_id m.id) ms ≡ false
    → IsUnique ms
    → IsUnique (ms ++ m ∷ [])
IsUnique-append m [] h u = (refl, tt)
IsUnique-append m (n ∷ ms) h (alone, u) = (
  any-append n.id m ms alone (ground (arith, eq_iff n.id m.id, eq_iff m.id n.id)),
  IsUnique-append m ms (ground arith) u,
)

-- Every call keeps the ids distinct.
pub apply-IsUnique :
    (e : Event) (st : Store) → IsUnique st.messages → IsUnique (apply e st).messages
unfolding apply save_message mark_message_previewed claim_message mark_payment_settled
    cancel_message_by_sender activate_deferred_message expire_deferred_messages
apply-IsUnique (saves m) st u = elim (Bool-cases (any (by_id m.id) st.messages)) [
  | inl taken ↦ rw taken u
  | inr free ↦ rw free (IsUnique-append (inserted_row m) st.messages free u)
]
apply-IsUnique (previews id addr at) st u =
    ground (arith, IsUnique-update (is_to id addr) (preview_row at) st.messages (λ m. refl) u)
apply-IsUnique (claims id addr now) st u =
    ground (arith, IsUnique-update (by_id id) (claim_row now) st.messages (λ m. refl) u)
apply-IsUnique (settles_payment payment_id) st u = IsUnique-update _ _ st.messages (λ m. refl) u
apply-IsUnique (cancels id addr at) st u =
    ground (arith, IsUnique-update (is_from id addr) (cancel_row at) st.messages (λ m. refl) u)
apply-IsUnique (activates id addr payment) st u = IsUnique-update _ _ st.messages (λ m. refl) u
apply-IsUnique (expires now) st u = IsUnique-select _ st.messages u

Step-id : {m n : StoredMessage} → Step m n → n.id ≡ m.id
Step-id (stays m) = refl
Step-id (is_previewed_at m at h) = refl
Step-id (is_claimed_at m now h) = refl
Step-id (is_paid m) = refl
Step-id (is_cancelled_at m at h) = refl
Step-id (is_activated m payment h) = refl

-- A row that does not wait survives every evolution, changed by one step.
find-Evolves :
    {ev : Event} (id : String) {ms ns : List StoredMessage} (r : StoredMessage)
    → Evolves ev ms ns
    → find (by_id id) ms ≡ some r
    → is_waiting r ≡ false
    → (r' : StoredMessage) × (find (by_id id) ns ≡ some r') × Step r r'
find-Evolves id r nil e w = cc
find-Evolves id r (keeps {m} {n} s evs) e w = elim (Bool-cases (m.id == id)) [
  | inl hit ↦ (n, rw (Step-id s, hit), let same : m ≡ r = ground arith in rw same at s)
  | inr miss ↦
      let (r', found, s') = find-Evolves id r evs (ground arith) w in
      (r', rw (Step-id s, miss) found, s')
]
find-Evolves id r (drops {m} waits evs) e w = elim (Bool-cases (m.id == id)) [
  | inl hit ↦
      absurd (let same : m ≡ r = ground arith in cc (sym w ∙ sym (ap is_waiting same) ∙ waits))
  | inr miss ↦ find-Evolves id r evs (ground arith) w
]
find-Evolves id r (adds m is_save) e w = cc

-- The states that nothing leads out of.
abbrev pub is_over : DeliveryState → Bool
is_over settled = true
is_over cancelled = true
is_over _ = false

-- The same row, but for the mark that its payment is settled.
abbrev pub SameRow : StoredMessage → StoredMessage → Type 0
SameRow r r' = r' ≡ record r { payment_settled = r'.payment_settled }

Step-SameRow : {r r' : StoredMessage} → Step r r' → is_over r.delivery_state ≡ true → SameRow r r'
Step-SameRow (stays m) h = refl
Step-SameRow (is_previewed_at m at p) h = cc (ap is_over p)
Step-SameRow (is_claimed_at m now p) h = ground arith
Step-SameRow (is_paid m) h = refl
Step-SameRow (is_cancelled_at m at p) h = ground arith
Step-SameRow (is_activated m payment p) h = cc (ap is_over p)

pub run-IsUnique :
    (es : List Event) (st : Store) → IsUnique st.messages → IsUnique (run es st).messages
unfolding run
run-IsUnique [] st u = u
run-IsUnique (e ∷ es) st u = run-IsUnique es (apply e st) (apply-IsUnique e st u)

SameRow-trans : (r q r' : StoredMessage) → SameRow r q → SameRow q r' → SameRow r r'
SameRow-trans r q r' h k =
    k
    ∙ ap {A = StoredMessage} {B = StoredMessage}
        (λ m. record m { payment_settled = r'.payment_settled }) h

not-waiting_of_over : (r : StoredMessage) → is_over r.delivery_state ≡ true → is_waiting r ≡ false
not-waiting_of_over r h = ground arith

pub run-SameRow :
    (id : String) (r : StoredMessage) (es : List Event) (st : Store)
    → IsUnique st.messages
    → find (by_id id) st.messages ≡ some r
    → is_over r.delivery_state ≡ true
    → (r' : StoredMessage) × (find (by_id id) (run es st).messages ≡ some r') × SameRow r r'
unfolding run
run-SameRow id r [] st u found over = (r, found, refl)
run-SameRow id r (e ∷ es) st u found over =
    let (q, found', s) =
      find-Evolves id r (apply-Evolves st u e) found (not-waiting_of_over r over) in
    let same = Step-SameRow s over in
    let (r', last, same') =
      run-SameRow id q es (apply e st) (apply-IsUnique e st u) found'
        (cc (ap (λ (m : StoredMessage). m.delivery_state) same)) in
    (r', last, SameRow-trans r q r' same same')

any_of_find :
    (p : StoredMessage → Bool) (id : String) (ms : List StoredMessage) (r : StoredMessage)
    → ((m : StoredMessage) → p m ≡ true → by_id id m ≡ true)
    → find p ms ≡ some r
    → any (by_id id) ms ≡ true
any_of_find p id [] r h e = cc
any_of_find p id (m ∷ ms) r h e = ground (arith, h m, any_of_find p id ms r h)

Absent-of :
    (m : StoredMessage) (id : String) (ms : List StoredMessage)
    → (m.id == id) ≡ true
    → any (by_id m.id) ms ≡ false
    → Absent id ms
Absent-of m id ms hit alone = rw (sym ((eq_iff m.id id).0 hit)) alone

-- The row that a narrower search by id finds is the row of that id.
pub find-by_id :
    (p : StoredMessage → Bool) (id : String) (ms : List StoredMessage) (r : StoredMessage)
    → ((m : StoredMessage) → p m ≡ true → by_id id m ≡ true)
    → IsUnique ms
    → find p ms ≡ some r
    → find (by_id id) ms ≡ some r
find-by_id p id [] r h u e = e
find-by_id p id (m ∷ ms) r h (alone, u) e = elim (Bool-cases (p m)) [
  | inl hit ↦ rw (h m hit) (rw hit at e)
  | inr miss ↦
      let rest : find p ms ≡ some r = rw miss at e in
      elim (Bool-cases (m.id == id)) [
        | inl mine ↦
            let absent = Absent-of m id ms mine alone in
            cc (sym absent ∙ any_of_find p id ms r h rest)
        | inr other ↦ rw other (find-by_id p id ms r h u rest)
      ]
]

-- A search by id and address, from the row of that id.
pub find-is_to :
    (id addr : String) (ms : List StoredMessage) (r : StoredMessage)
    → IsUnique ms
    → find (by_id id) ms ≡ some r
    → find (is_to id addr) ms ≡ (if r.recipient == addr then some r else none)
find-is_to id addr [] r u e = cc
find-is_to id addr (m ∷ ms) r (alone, u) e = elim (Bool-cases (m.id == id)) [
  | inl hit ↦
      let same : m ≡ r = ground arith in
      let gone =
        find-Absent id (is_to id addr) (λ n h. ground arith) ms (Absent-of m id ms hit alone) in
      rw (← same, hit, gone)
  | inr miss ↦ rw miss (find-is_to id addr ms r u (rw miss at e))
]

-- The row that an update by a narrower search has changed is the row of its id.
pub find-update :
    (q : StoredMessage → Bool) (f : StoredMessage → StoredMessage) (id : String)
    (ms : List StoredMessage) (r : StoredMessage)
    → ((m : StoredMessage) → q m ≡ true → by_id id m ≡ true)
    → ((m : StoredMessage) → (f m).id ≡ m.id)
    → IsUnique ms
    → find q ms ≡ some r
    → find (by_id id) (update q f ms) ≡ some (f r)
find-update q f id [] r h k u e = cc
find-update q f id (m ∷ ms) r h k (alone, u) e = elim (Bool-cases (q m)) [
  | inl hit ↦
      let same : m ≡ r = ground arith in
      let mine : ((f m).id == id) ≡ true = rw (k m) (h m hit) in
      rw (hit, mine) (ap (λ x. some (f x)) same)
  | inr miss ↦
      let rest : find q ms ≡ some r = rw miss at e in
      elim (Bool-cases (m.id == id)) [
        | inl mine ↦
            let absent = Absent-of m id ms mine alone in
            cc (sym absent ∙ any_of_find q id ms r h rest)
        | inr other ↦ rw (miss, other) (find-update q f id ms r h k u rest)
      ]
]

module _ (id addr : String) (now : ℕ) (st : Store) where
  pub claimed_row :
      (mail : MailMessage) (st' : Store)
      → claim_message id addr now st ≡ ok (mail, st')
      → (r : StoredMessage) × (find (is_to id addr) st.messages ≡ some r)
        × (is_pending r ≡ true)
        × (row_to_mail r ≡ mail)
        × (st' ≡ record st { messages = update (by_id id) (claim_row now) st.messages })
  unfolding claim_message
  claimed_row mail st' e = elim (Option-cases (find (is_to id addr) st.messages)) [
    | inl gone ↦ ground arith
    | inr (r, found) ↦ (r, found, ground arith, ground arith, ground arith)
  ]
