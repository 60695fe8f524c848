-- ===== src/Store/Inbox.antt =====
-- Listing an inbox: which messages it shows, in which order, and how many.
use native.Mathlib.Nat.{le_trans}
use mathlib.Core.List.{Perm, perm_middle}
use mathlib.Core.List.Perm
use mailslot.Base.{
  ℕ, zero, suc, ◌≢◌, eq_iff, ◌+◌, ◌≤◌, ◌<◌, String, Bool, true, false, List, [], ◌∷◌, ◌++◌, some,
  ◌≡◌, refl, ◌&&◌, ◌||◌, ◌⊎◌, not, ltb, arith, All, map, length, select, take, or_else, Bool-cases,
  inl, inr, length-take, ◌∙◌, lt→ltb, ap, ◌==◌, if◌then◌else◌,
}
use mailslot.Base.Int.{pos, negsuc, leb_ℤ}
use mailslot.Types.{
  StoredMessage, InboxEntry, DeliveryState, ready, previewed, deferred, settled, cancelled,
}
use mailslot.Store.Rows.{Store, newest_first, is_pending, is_listed, row_to_entry}
use mailslot.Store.Methods.{
  InboxQuery, inbox_rows, inbox_limit, get_inbox, count_pending_to_recipient,
}
use mailslot.Store.Newest.{
  IsNewestFirst, newest_first-IsNewestFirst, newest_first-All, newest_first-perm,
  length-newest_first,
}

-- What an inbox may show: the recipient's own messages sent before the query's time, none that is
-- deferred or cancelled, and where the query does not ask for claimed ones, pending ones only.
pub record IsVisible (addr : String) (query : InboxQuery) (now : ℕ) (m : StoredMessage)
    : Type 0 where
  pub own : m.recipient ≡ addr
  pub sent : m.sent_at < or_else query.before (now + 1000)
  pub not_deferred : m.delivery_state ≢ deferred
  pub not_cancelled : m.delivery_state ≢ cancelled
  pub pending : query.include_claimed || is_pending m ≡ true

select-All :
    (P : StoredMessage → Type 0) (p : StoredMessage → Bool) (ms : List StoredMessage)
    → ((m : StoredMessage) → p m ≡ true → P m)
    → All P (select p ms)
select-All P p [] h = tt
select-All P p (m ∷ ms) h = elim (Bool-cases (p m)) [
  | inl kept ↦ rw kept (h m kept, select-All P p ms h)
  | inr gone ↦ rw gone (select-All P p ms h)
]

-- The rows that pass a test and the others are all the rows.
select-perm :
    (p : StoredMessage → Bool) (ms : List StoredMessage)
    → Perm (select p ms ++ select (λ m. not (p m)) ms) ms
select-perm p [] = Perm.rfl
select-perm p (m ∷ ms) = elim (Bool-cases (p m)) [
  | inl kept ↦ rw kept (Perm.cons m (select-perm p ms))
  | inr gone ↦ rw gone (
      Perm.trans (perm_middle (select p ms) (select (λ k. not (p k)) ms))
        (Perm.cons m (select-perm p ms)))
]

-- What is left of a list behind its first rows.
abbrev drop : ℕ → List StoredMessage → List StoredMessage
drop zero ms = ms
drop (suc n) [] = []
drop (suc n) (m ∷ ms) = drop n ms

append-take-drop : (n : ℕ) (ms : List StoredMessage) → take n ms ++ drop n ms ≡ ms
append-take-drop zero ms = refl
append-take-drop (suc n) [] = refl
append-take-drop (suc n) (m ∷ ms) = ap (λ k. m ∷ k) (append-take-drop n ms)

-- Either nothing is left, or as many rows are taken as may be.
drop-take : (n : ℕ) (ms : List StoredMessage) → (drop n ms ≡ []) ⊎ (length (take n ms) ≡ n)
drop-take zero ms = inr refl
drop-take (suc n) [] = inl refl
drop-take (suc n) (m ∷ ms) = elim (drop-take n ms) [
  | inl done ↦ inl done
  | inr full ↦ inr (ap suc full)
]

-- The limit of a query that asks for `n` rows: the less of `n` and 100.
inbox_limit-min :
    (query : InboxQuery) (n : ℕ)
    → or_else query.limit (pos 50) ≡ pos n
    → (k : ℕ) × (inbox_limit query ≡ pos k) × (k ≤ 100) × (k ≤ n) × ((k ≡ 100) ⊎ (k ≡ n))
inbox_limit-min query n e = elim (Bool-cases (leb_ℤ (pos n) (pos 100))) [
  | inl small ↦ (n, rw (e, small) refl, ground arith, omega arith, inr refl)
  | inr large ↦ (100, rw (e, large) refl, omega arith, ground arith, inl refl)
]

-- A listing of `n` rows at most. Of all the messages of the store, the visible ones are shown, newest
-- first, up to the limit; the rest of them are no newer than those shown, and the others are not
-- visible.
pub record IsListing (addr : String) (query : InboxQuery) (now : ℕ) (st : Store) (n : ℕ)
    (entries : List InboxEntry) : Type 0 where
  pub rows : List StoredMessage
  pub rest : List StoredMessage
  pub others : List StoredMessage
  pub shown : entries ≡ map row_to_entry rows
  pub whole : Perm ((rows ++ rest) ++ others) st.messages
  pub visible : All (IsVisible addr query now) (rows ++ rest)
  pub hidden : All (λ m. ¬ IsVisible addr query now m) others
  pub newest : IsNewestFirst (rows ++ rest)
  pub capped : length rows ≤ 100
  pub bounded : length rows ≤ n
  pub full : (rest ≡ []) ⊎ ((length rows ≡ 100) ⊎ (length rows ≡ n))

full_of :
    {rest : List StoredMessage} {count k n : ℕ}
    → (rest ≡ []) ⊎ (count ≡ k)
    → (k ≡ 100) ⊎ (k ≡ n)
    → (rest ≡ []) ⊎ ((count ≡ 100) ⊎ (count ≡ n))
full_of (inl done) _ = inl done
full_of (inr e) (inl e1) = inr (inl (e ∙ e1))
full_of (inr e) (inr e1) = inr (inr (e ∙ e1))

-- Of the listed states, a visible message has one.
listed_of : (s : DeliveryState) → s ≢ deferred → s ≢ cancelled → is_listed s ≡ true
listed_of ready _ _ = refl
listed_of previewed _ _ = refl
listed_of settled _ _ = refl
listed_of deferred h _ = elim (h refl) [ ]
listed_of cancelled _ h = elim (h refl) [ ]

module _ (addr : String) (query : InboxQuery) (now : ℕ) where
  -- The condition of the query.
  abbrev is_shown : StoredMessage → Bool
  is_shown m =
      m.recipient == addr
      && (ltb m.sent_at (or_else query.before (now + 1000))
          && (if query.include_claimed then is_listed m.delivery_state else is_pending m))

  is_shown-IsVisible : (m : StoredMessage) → is_shown m ≡ true → IsVisible addr query now m
  is_shown-IsVisible m h = record {
    own = (eq_iff m.recipient addr).0 (ground arith);
    sent = ground arith;
    not_deferred = λ e. ground arith;
    not_cancelled = λ e. ground arith;
    pending = ground arith;
  }

  not-is_shown : (m : StoredMessage) → not (is_shown m) ≡ true → ¬ IsVisible addr query now m
  not-is_shown m h v =
      let own = (eq_iff m.recipient addr).1 v.own in
      let sent = lt→ltb m.sent_at _ v.sent in
      let listed = listed_of m.delivery_state v.not_deferred v.not_cancelled in
      let pending = v.pending in ground arith

  -- A listing with no limit, which is one of 50, or with a limit of `n` messages, shows the
  -- recipient's visible messages, newest first, and no more than `n` and than 100 of them; every
  -- message of the store is shown, or is visible and no newer than those shown, which are then as
  -- many as the limit, or is not visible.
  pub get_inbox-IsVisible :
      (st : Store) (n : ℕ)
      → or_else query.limit (pos 50) ≡ pos n
      → IsListing addr query now st n (get_inbox addr query now st)
  unfolding get_inbox inbox_rows
  get_inbox-IsVisible st n e =
      let (k, limit, most, few, which) = inbox_limit-min query n e in
      let found = select is_shown st.messages in
      let listing = newest_first found in
      let split = append-take-drop k listing in
      let others = select (λ m. not (is_shown m)) st.messages in
      record {
        rows = take k listing;
        rest = drop k listing;
        others = others;
        shown = rw limit refl;
        whole = rw split (
            Perm.trans (Perm.append_right others (newest_first-perm found))
              (select-perm is_shown st.messages));
        visible =
            rw split
              (newest_first-All _ found (select-All _ is_shown st.messages is_shown-IsVisible));
        hidden = select-All _ (λ m. not (is_shown m)) st.messages not-is_shown;
        newest = rw split (newest_first-IsNewestFirst found);
        capped = le_trans (length-take k listing) most;
        bounded = le_trans (length-take k listing) few;
        full = full_of (drop-take k listing) which;
      }

select_pending :
    (addr : String) (t : ℕ) (ms : List StoredMessage)
    → All (λ m. m.sent_at < t) ms
    → select (λ (m : StoredMessage). m.recipient == addr && (ltb m.sent_at t && is_pending m)) ms
      ≡ select (λ m. m.recipient == addr && is_pending m) ms
select_pending addr t [] h = refl
select_pending addr t (m ∷ ms) (p, h) = rw (select_pending addr t ms h, lt→ltb m.sent_at t p)

length-map-row_to_entry : (ms : List StoredMessage) → length (map row_to_entry ms) ≡ length ms
length-map-row_to_entry [] = refl
length-map-row_to_entry (m ∷ ms) = ap suc (length-map-row_to_entry ms)

negative_limit :
    (query : InboxQuery) (n : ℕ) → query.limit ≡ some (negsuc n) → inbox_limit query ≡ negsuc n
negative_limit query n e = rw e (ground arith)

-- A negative limit lifts the cap: where every message was sent before the query's time, the
-- listing of unclaimed messages has as many entries as the recipient has pending messages.
pub get_inbox_negative_limit :
    (addr : String) (query : InboxQuery) (now : ℕ) (st : Store) (n : ℕ)
    → query.limit ≡ some (negsuc n)
    → query.include_claimed ≡ false
    → All (λ (m : StoredMessage). m.sent_at < or_else query.before (now + 1000)) st.messages
    → length (get_inbox addr query now st) ≡ count_pending_to_recipient addr st
unfolding get_inbox inbox_rows count_pending_to_recipient
get_inbox_negative_limit addr query now st n e unclaimed sent =
    rw (length-map-row_to_entry, negative_limit query n e, unclaimed, length-newest_first)
      (ap length (select_pending addr _ st.messages sent))
