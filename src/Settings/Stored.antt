-- ===== src/Settings/Stored.antt =====
-- What an update leaves in the table.
use mailslot.Base.{
  ℕ, String, Bool, true, false, List, [], ◌∷◌, Option, none, some, ◌≡◌, refl, sym, ap, ◌∙◌, ◌==◌,
  eq_refl, eq_iff, arith, if◌then◌else◌, coalesce, inl, inr, Bool-cases, ok, err, Failure,
  >>=-eq-ok, ok_inj,
}
use mailslot.Base.Int.{ℤ, pos, negsuc, ◌≤ℤ◌}
use mailslot.Base.Text.{big_int, is_decimal}
use mailslot.Types.{RuntimeSettings}
use mailslot.Settings.Table.{SettingRow, Number, ReadSettings, exact, stored}
use mailslot.Settings.Update.{uint_string, positive_int, validate_counts, put_setting, put_settings}

equal_texts : (a b : String) → (a == b) ≡ true → a ≡ b
equal_texts a b h = ground (arith, eq_iff a b)

absurd_bool : {A : Type 0} {x : Bool} → x ≡ true → x ≡ false → A
absurd_bool h k = cc

pub failed : {A B : Type 0} {e : Failure} {b : B} → err e ≡ ok b → A
failed h = cc

other_text : (a b c : String) → (a == b) ≡ false → (a == c) ≡ true → (b == c) ≡ false
other_text a b c differ same = elim (Bool-cases (b == c)) [
  | inr kept ↦ kept
  | inl equal ↦
      let together = equal_texts a c same ∙ sym (equal_texts b c equal) in
      absurd_bool (ap (λ x. x == b) together ∙ eq_refl b) differ
]

-- A test whose second branch tests the same.
again :
    {A : Type 0} (b : Bool) (x y z : A)
    → (if b then x else z) ≡ (if b then x else (if b then y else z))
again true x y z = refl
again false x y z = refl

-- The value of a key after it is put, or another is.
stored-put_setting :
    (key other value : String) (now : ℕ) (rows : List SettingRow)
    → stored other (put_setting key value now rows)
      ≡ (if key == other then some value else stored other rows)
unfolding stored put_setting
stored-put_setting key other value now [] = refl
stored-put_setting key other value now (row ∷ rows) = elim (Bool-cases (row.key == key)) [
  | inl same ↦
      let equal = ap (λ x. x == other) (equal_texts row.key key same) in
      rw (same, equal) (again (key == other) _ _ _)
  | inr different ↦ elim (Bool-cases (row.key == other)) [
    | inl found ↦ rw (different, found, other_text row.key key other different found) refl
    | inr past ↦ rw (different, past) (stored-put_setting key other value now rows)
  ]
]

-- The last value that a list of pairs gives a key.
unfoldable pub last_value : String → List (String × String) → Option String
last_value other [] = none
last_value other ((key, value) ∷ rest) =
    coalesce (last_value other rest) (if key == other then some value else none)

pub stored-put_settings :
    (other : String) (pairs : List (String × String)) (now : ℕ) (rows : List SettingRow)
    → stored other (put_settings pairs now rows)
      ≡ coalesce (last_value other pairs) (stored other rows)
unfolding put_settings last_value
stored-put_settings other [] now rows = refl
stored-put_settings other ((key, value) ∷ rest) now rows =
    stored-put_settings other rest now (put_setting key value now rows)
    ∙ ap (coalesce (last_value other rest)) (stored-put_setting key other value now rows)
    ∙ settle (last_value other rest) (key == other) value (stored other rows)
  where
    settle :
        {A : Type 0} (o : Option A) (b : Bool) (x : A) (r : Option A)
        → coalesce o (if b then some x else r)
          ≡ coalesce (coalesce o (if b then some x else none)) r
    settle (some a) b x r = refl
    settle none true x r = refl
    settle none false x r = refl

-- What a validated setting is: three texts of digits, and a fee that the price covers.
pub record IsValid (s : RuntimeSettings) : Type 0 where
  pub price : ℤ
  pub fee : ℤ
  pub price_digits : is_decimal s.message_price_sats ≡ true
  pub fee_digits : is_decimal s.min_fee_sats ≡ true
  pub borrow_digits : is_decimal s.max_borrow_per_tap ≡ true
  pub price_reads : big_int s.message_price_sats ≡ some price
  pub fee_reads : big_int s.min_fee_sats ≡ some fee
  pub covered : fee ≤ℤ price

pub uint_string_lem :
    (value key : String) {text : String}
    → uint_string value key ≡ ok text
    → (value ≡ text) × (is_decimal value ≡ true)
unfolding uint_string
uint_string_lem value key h = elim (Bool-cases (is_decimal value)) [
  | inl digits ↦ (ok_inj (rw digits at h), digits)
  | inr others ↦ failed (rw others at h)
]

pub positive_int_lem :
    (v : Number) (key : String) {n : ℕ} → positive_int v key ≡ ok n → some (pos n) ≡ v
unfolding positive_int
positive_int_lem (some (pos m)) key h = ap (λ x. some (pos x)) (sym (ok_inj h))
positive_int_lem (some (negsuc m)) key h = cc
positive_int_lem none key h = cc

-- Validation changes nothing.
pub validate_counts-exact :
    (input : ReadSettings) (price fee borrow : String) (multiplier : ℕ) {next : RuntimeSettings}
    → validate_counts input price fee borrow multiplier ≡ ok next
    → exact next ≡ record input {
      message_price_sats = price;
      min_fee_sats = fee;
      max_borrow_per_tap = borrow;
      receive_capacity_multiplier = some (pos multiplier);
    }
unfolding validate_counts exact
validate_counts-exact input price fee borrow multiplier h =
    let (n1, e1, h1) =
      >>=-eq-ok (positive_int input.max_pending_per_sender "maxPendingPerSender") _ h in
    let (n2, e2, h2) =
      >>=-eq-ok (positive_int input.max_pending_per_recipient "maxPendingPerRecipient") _ h1 in
    let (n3, e3, h3) =
      >>=-eq-ok (positive_int input.max_deferred_per_sender "maxDeferredPerSender") _ h2 in
    let (n4, e4, h4) =
      >>=-eq-ok (positive_int input.max_deferred_per_recipient "maxDeferredPerRecipient") _ h3 in
    let (n5, e5, h5) =
      >>=-eq-ok (positive_int input.max_deferred_global "maxDeferredGlobal") _ h4 in
    let (n6, e6, h6) =
      >>=-eq-ok (positive_int input.deferred_message_ttl_ms "deferredMessageTtlMs") _ h5 in
    let (n7, e7, h7) =
      >>=-eq-ok (positive_int input.refresh_capacity_cooldown_ms "refreshCapacityCooldownMs") _
        h6 in
    rw (← ok_inj h7) (λ i. record {
      message_price_sats = price;
      min_fee_sats = fee;
      max_pending_per_sender = positive_int_lem _ _ e1 i;
      max_pending_per_recipient = positive_int_lem _ _ e2 i;
      max_deferred_per_sender = positive_int_lem _ _ e3 i;
      max_deferred_per_recipient = positive_int_lem _ _ e4 i;
      max_deferred_global = positive_int_lem _ _ e5 i;
      deferred_message_ttl_ms = positive_int_lem _ _ e6 i;
      max_borrow_per_tap = borrow;
      receive_capacity_multiplier = some (pos multiplier);
      refresh_capacity_cooldown_ms = positive_int_lem _ _ e7 i;
    })
