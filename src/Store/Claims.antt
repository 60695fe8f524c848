-- ===== src/Store/Claims.antt =====
-- Claiming and cancelling: each excludes the other, and neither happens twice.
use mailslot.Base.{
  ℕ, String, Bool, true, List, [], ◌∷◌, Option, none, some, ◌≡◌, ◌≢◌, refl, sym, ◌∙◌, ap, ◌||◌,
  eq_iff, eq_refl, find-and, find, ok, err, thrown, arith, Bool-cases, Option-cases, inl, inr,
}
use mailslot.Base.Text.{eq-false_of_ne}
use mailslot.Types.{StoredMessage, MailMessage, settled, cancelled}
use mailslot.Store.Rows.{Store, is_to, is_from, is_final_for_sender, is_settled, row_to_mail}
use mailslot.Store.Methods.{
  claim_message, claim_row, cancel_message_by_sender, cancel_row, get_claimed_message,
}
use mailslot.Store.Events.{Event, run, IsUnique}
use mailslot.Store.Finality.{
  by_id, run-SameRow, is_over, find-is_to, find-by_id, IsUnique-update, run-IsUnique, claimed_row,
  find-update,
}

is_to_id : (id addr : String) (m : StoredMessage) → is_to id addr m ≡ true → by_id id m ≡ true
is_to_id id addr m h = ground arith

is_from_id : (id addr : String) (m : StoredMessage) → is_from id addr m ≡ true → by_id id m ≡ true
is_from_id id addr m h = ground arith

find_holds :
    (p : StoredMessage → Bool) (ms : List StoredMessage) (r : StoredMessage)
    → find p ms ≡ some r
    → p r ≡ true
find_holds p [] r e = cc
find_holds p (m ∷ ms) r e = elim (Bool-cases (p m)) [
  | inl hit ↦ let same : m ≡ r = ground arith in rw (← same) hit
  | inr miss ↦ find_holds p ms r (rw miss at e)
]

-- What a claim leaves: the row of the id is the claimed one, in a table of distinct ids.
record Claimed (id addr : String) (mail : MailMessage) (st : Store) : Type 0 where
  row : StoredMessage
  located : find (by_id id) st.messages ≡ some row
  unique : IsUnique st.messages
  state : row.delivery_state ≡ settled
  marked : row.claimed ≡ true
  recipient : row.recipient ≡ addr
  same_mail : row_to_mail row ≡ mail

claim-Claimed :
    (id addr : String) (now : ℕ) (st st' : Store) (mail : MailMessage)
    → IsUnique st.messages
    → claim_message id addr now st ≡ ok (mail, st')
    → Claimed id addr mail st'
claim-Claimed id addr now st st' mail u e =
    let (r, found, pending, mailed, next) = claimed_row id addr now st mail st' e in
    let mine = find-by_id (is_to id addr) id st.messages r (is_to_id id addr) u found in
    record {
      row = claim_row now r;
      located =
          rw next
            (find-update (by_id id) (claim_row now) id st.messages r (λ m h. h) (λ m. refl) u mine);
      unique = rw next (IsUnique-update (by_id id) (claim_row now) st.messages (λ m. refl) u);
      state = refl;
      marked = refl;
      recipient =
          (eq_iff r.recipient addr).0
            (let holds = find_holds (is_to id addr) st.messages r found in ground arith);
      same_mail = mailed;
    }

run-Claimed :
    (id addr : String) (mail : MailMessage) (es : List Event) (st : Store)
    → Claimed id addr mail st
    → Claimed id addr mail (run es st)
run-Claimed id addr mail es st c =
    let (r', located', same) = run-SameRow id c.row es st c.unique c.located (ap is_over c.state) in
    record {
      row = r';
      located = located';
      unique = run-IsUnique es st c.unique;
      state = ap (λ (m : StoredMessage). m.delivery_state) same ∙ c.state;
      marked = ap (λ (m : StoredMessage). m.claimed) same ∙ c.marked;
      recipient = ap (λ (m : StoredMessage). m.recipient) same ∙ c.recipient;
      same_mail = ap row_to_mail same ∙ c.same_mail;
    }

module _ (id addr : String) (mail : MailMessage) (now : ℕ) (st : Store)
    (c : Claimed id addr mail st) where
  own_row : find (is_to id addr) st.messages ≡ some c.row
  own_row = find-is_to id addr st.messages c.row c.unique c.located ∙ rw (c.recipient, eq_refl)

  claim-after_Claimed : claim_message id addr now st ≡ err (thrown "already-claimed")
  unfolding claim_message
  claim-after_Claimed = rw (own_row, c.marked, claim_message)

  claim_by_other :
      (other : String)
      → other ≢ addr
      → claim_message id other now st ≡ err (thrown "message-not-found")
  unfolding claim_message
  claim_by_other other ne =
      let elsewhere = eq-false_of_ne c.row.recipient other (λ e. ne (sym e ∙ c.recipient)) in
      let nowhere : find (is_to id other) st.messages ≡ none =
        find-is_to id other st.messages c.row c.unique c.located ∙ rw elsewhere in
      rw (nowhere, claim_message)

  get-after_Claimed : get_claimed_message id addr st ≡ some mail
  unfolding get_claimed_message
  get-after_Claimed =
      let settled_row =
        find-and (is_to id addr) (λ m. is_settled m.delivery_state) st.messages c.row own_row
          (ap is_settled c.state) in
      rw (settled_row, get_claimed_message) (ap some c.same_mail)

-- After a claim has succeeded, whatever calls follow, a claim of the message by the same recipient
-- fails with already-claimed, a claim by anybody else with message-not-found, and the recipient
-- still reads the mail that the claim returned.
pub claim_once :
    (id addr other : String) (now later : ℕ) (st st' : Store) (mail : MailMessage) (es : List Event)
    → IsUnique st.messages
    → claim_message id addr now st ≡ ok (mail, st')
    → other ≢ addr
    → (claim_message id addr later (run es st') ≡ err (thrown "already-claimed"))
      × (claim_message id other later (run es st') ≡ err (thrown "message-not-found"))
      × (get_claimed_message id addr (run es st') ≡ some mail)
claim_once id addr other now later st st' mail es u e ne =
    let c = run-Claimed id addr mail es st' (claim-Claimed id addr now st st' mail u e) in
    (
      claim-after_Claimed id addr mail later (run es st') c,
      claim_by_other id addr mail later (run es st') c other ne,
      get-after_Claimed id addr mail later (run es st') c,
    )

-- What a cancellation leaves, whether it was made now or before.
cancelled_row :
    (id sender : String) (at : ℕ) (st st' : Store) (r : StoredMessage)
    → IsUnique st.messages
    → cancel_message_by_sender id sender at st ≡ (some r, st')
    → r.delivery_state ≡ cancelled
    → IsUnique st'.messages × (find (by_id id) st'.messages ≡ some r)
unfolding cancel_message_by_sender
cancelled_row id sender at st st' r u e over =
    elim (Option-cases (find (is_from id sender) st.messages)) [
      | inl gone ↦
          let e' = rw (gone, cancel_message_by_sender) at e in
          cc (ap (λ (p : Option StoredMessage × Store). p.0) e')
      | inr (m, found) ↦ elim (Bool-cases (m.claimed || is_final_for_sender m.delivery_state)) [
        | inl late ↦
            let e' = rw (found, late, cancel_message_by_sender) at e in
            let same : m ≡ r = cc (ap (λ (p : Option StoredMessage × Store). p.0) e') in
            let kept : st ≡ st' = ap (λ (p : Option StoredMessage × Store). p.1) e' in
            rw (← kept, ← same)
              (u, find-by_id (is_from id sender) id st.messages m (is_from_id id sender) u found)
        | inr early ↦
            let e' = rw (found, early, cancel_message_by_sender) at e in
            let same : cancel_row at m ≡ r =
              cc (ap (λ (p : Option StoredMessage × Store). p.0) e') in
            let next = ap (λ (p : Option StoredMessage × Store). p.1) e' in
            rw (← next, ← same)
              (
                IsUnique-update (is_from id sender) (cancel_row at) st.messages (λ m. refl) u,
                find-update (is_from id sender) (cancel_row at) id st.messages m
                    (is_from_id id sender) (λ m. refl) u found,
              )
      ]
    ]

-- After the sender has cancelled a message, whatever calls follow, no claim of it succeeds.
pub cancelled_never_claimed :
    (id sender addr : String) (at now : ℕ) (st st' : Store) (r : StoredMessage) (es : List Event)
    → IsUnique st.messages
    → cancel_message_by_sender id sender at st ≡ (some r, st')
    → r.delivery_state ≡ cancelled
    → (p : MailMessage × Store) → claim_message id addr now (run es st') ≢ ok p
cancelled_never_claimed id sender addr at now st st' r es u e over (mail, last) claimed =
    let (u', located) = cancelled_row id sender at st st' r u e over in
    let (r', located', same) = run-SameRow id r es st' u' located (ap is_over over) in
    let (q, found, pending, _, _) = claimed_row id addr now (run es st') mail last claimed in
    let mine =
      find-by_id (is_to id addr) id (run es st').messages q (is_to_id id addr)
        (run-IsUnique es st' u') found in
    let one : q ≡ r' = cc (sym mine ∙ located') in
    let state : q.delivery_state ≡ cancelled =
      ap (λ (m : StoredMessage). m.delivery_state) one
      ∙ (ap (λ (m : StoredMessage). m.delivery_state) same ∙ over) in
    ground arith
