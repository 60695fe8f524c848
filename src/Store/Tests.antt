-- ===== src/Store/Tests.antt =====
-- The theorems about the store at a table of three messages.
use mailslot.Base.{
  String, true, false, List, [], ◌∷◌, none, some, ◌≡◌, ◌≢◌, refl, ℕ, ok, err, thrown, length, arith,
  eq_iff, ◌==◌,
}
use mailslot.Base.Int.{pos, negsuc}
use mailslot.Types.{StoredMessage, DeliveryState, ready, previewed, deferred}
use mailslot.Store.Rows.{Store, row_to_mail}
use mailslot.Store.Methods.{
  InboxQuery, claim_message, claim_row, cancel_message_by_sender, cancel_row, get_claimed_message,
  get_inbox, count_pending_to_recipient,
}
use mailslot.Store.Events.{Event, claims, cancels, previews, saves, run, IsUnique, IsSound}
use mailslot.Store.Claims.{claim_once, cancelled_never_claimed}
use mailslot.Store.Invariant.{IsWellFormed, run-IsWellFormed}
use mailslot.Store.Inbox.{IsListing, get_inbox-IsVisible, get_inbox_negative_limit}

abbrev message : String → ℕ → DeliveryState → StoredMessage
message id sent_at state = record {
  id = id;
  sender = "alice";
  recipient = "bob";
  sent_at = sent_at;
  amount = "100";
  fee = "10";
  payment_id = id;
  hashed_secret = "h";
  encrypted_payload = record { epk = "e"; iv = "i"; cipher = "c" };
  pending_payment = none;
  delivery_state = state;
  deferred_reason = none;
  deferred_until = none;
  previewed_at = some 3;
  cancelled_at = none;
  claimed = false;
  claimed_at = none;
  payment_settled = false;
}

abbrev first : StoredMessage
first = message "m1" 1 ready

abbrev second : StoredMessage
second = message "m2" 2 previewed

abbrev waiting : StoredMessage
waiting = message "m3" 3 deferred

abbrev three : Store
three = record {
  messages = first ∷ second ∷ waiting ∷ [];
  settlements = [];
  public_keys = [];
  payment_infos = [];
}

abbrev after_claim : Store
after_claim = record three { messages = claim_row 7 first ∷ second ∷ waiting ∷ [] }

abbrev after_cancel : Store
after_cancel = record three { messages = cancel_row 7 first ∷ second ∷ waiting ∷ [] }

abbrev later_calls : List Event
later_calls = cancels "m1" "alice" 8 ∷ previews "m1" "bob" 9 ∷ claims "m1" "bob" 10 ∷ []

distinct : IsUnique three.messages
distinct = (refl, (refl, (refl, tt)))

carol_ne_bob : ◌≢◌ {A = String} "carol" "bob"
carol_ne_bob e = let h : ("carol" == "bob") ≡ true = (eq_iff "carol" "bob").1 e in cc

claims_first : claim_message "m1" "bob" 7 three ≡ ok (row_to_mail first, after_claim)
unfolding claim_message
claims_first = refl

cancels_first :
    cancel_message_by_sender "m1" "alice" 7 three ≡ (some (cancel_row 7 first), after_cancel)
unfolding cancel_message_by_sender
cancels_first = refl

claim_once_example :
    (claim_message "m1" "bob" 20 (run later_calls after_claim) ≡ err (thrown "already-claimed"))
    × (claim_message "m1" "carol" 20 (run later_calls after_claim)
        ≡ err (thrown "message-not-found"))
    × (get_claimed_message "m1" "bob" (run later_calls after_claim) ≡ some (row_to_mail first))
claim_once_example =
    claim_once "m1" "bob" "carol" 7 20 three after_claim (row_to_mail first) later_calls distinct
      claims_first carol_ne_bob

cancelled_never_claimed_example :
    claim_message "m1" "bob" 20 (run later_calls after_cancel) ≢ ok (row_to_mail first, after_claim)
cancelled_never_claimed_example =
    cancelled_never_claimed "m1" "alice" "bob" 7 20 three after_cancel (cancel_row 7 first)
      later_calls distinct cancels_first refl (row_to_mail first, after_claim)

first-IsSound : IsSound first
first-IsSound = record {
  claimed_settled = refl;
  claimed_dated = refl;
  claimed_paid = refl;
  unpaid = refl;
  seen = refl;
}

second-IsSound : IsSound second
second-IsSound = record {
  claimed_settled = refl;
  claimed_dated = refl;
  claimed_paid = refl;
  unpaid = refl;
  seen = refl;
}

waiting-IsSound : IsSound waiting
waiting-IsSound = record {
  claimed_settled = refl;
  claimed_dated = refl;
  claimed_paid = refl;
  unpaid = refl;
  seen = refl;
}

abbrev fourth : StoredMessage
fourth = message "m4" 4 ready

fourth-IsSound : IsSound fourth
fourth-IsSound = record {
  claimed_settled = refl;
  claimed_dated = refl;
  claimed_paid = refl;
  unpaid = refl;
  seen = refl;
}

abbrev calls : List Event
calls = saves fourth ∷ claims "m1" "bob" 5 ∷ later_calls

run-IsWellFormed_example : IsWellFormed (run calls three)
run-IsWellFormed_example =
    run-IsWellFormed calls three (fourth-IsSound, (tt, (tt, (tt, (tt, tt)))))
      (record {
        unique = distinct;
        sound = (first-IsSound, (second-IsSound, (waiting-IsSound, tt)));
      })

abbrev all_of_them : InboxQuery
all_of_them = record { limit = some (negsuc 0); before = none; include_claimed = false }

abbrev two_of_them : InboxQuery
two_of_them = record { limit = some (pos 2); before = none; include_claimed = false }

get_inbox-IsVisible_example :
    IsListing "bob" two_of_them 9 three 2 (get_inbox "bob" two_of_them 9 three)
get_inbox-IsVisible_example = get_inbox-IsVisible "bob" two_of_them 9 three 2 refl

get_inbox_negative_limit_example :
    length (get_inbox "bob" all_of_them 9 three) ≡ count_pending_to_recipient "bob" three
get_inbox_negative_limit_example =
    get_inbox_negative_limit "bob" all_of_them 9 three 0 refl refl
      (omega arith, (omega arith, (omega arith, tt)))
