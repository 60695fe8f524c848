-- ===== src/App/PaymentInfo.antt =====
-- `handlePaymentInfo` and `buildPaymentInfo`.
use mailslot.Base.{
  String, false, Option, none, some, ◌≡◌, refl, if◌then◌else◌, inl, inr, Bool-cases, Result, ok,
  ◌>>=◌, or_reject, or_throw,
}
use mailslot.Base.Int.{ℤ, pos, ◌+ℤ◌, ◌-ℤ◌, ◌≤ℤ◌, ltb_ℤ, int_laws}
use mailslot.Base.Text.{big_int, to_text}
use mailslot.Types.{RuntimeSettings}
use mailslot.Store.Rows.{Store}
use mailslot.Store.Methods.{get_public_key}
use mailslot.Settings.Stored.{IsValid}
use mailslot.Reservoir.Proof.{non_empty}

-- What a sender is told of a recipient.
pub record PaymentTerms : Type 0 where
  pub recipient_public_key : String
  pub amount : String
  pub fee : String
  pub recipient_amount : String
  pub server_address : String
  pub recipient_addr : String

-- `amount > fee ? amount - fee : 0n`
unfoldable pub amount_after_fee : ℤ → ℤ → ℤ
amount_after_fee amount fee = if ltb_ℤ fee amount then amount -ℤ fee else pos 0

unfoldable pub build_payment_info : RuntimeSettings → String → String → String → Result PaymentTerms
unfolding amount_after_fee
build_payment_info settings server_address recipient_addr key = do
  amount ← or_throw (big_int settings.message_price_sats) "SyntaxError"
  fee ← or_throw (big_int settings.min_fee_sats) "SyntaxError"
  ok (record {
    recipient_public_key = key;
    amount = to_text amount;
    fee = to_text fee;
    recipient_amount = to_text (amount_after_fee amount fee);
    server_address = server_address;
    recipient_addr = recipient_addr;
  })

-- A key that is stored and not empty.
unfoldable pub registered_key : String → Store → Option String
registered_key address st = elim (get_public_key address st) [
  | none ↦ none
  | some key ↦ non_empty key
]

unfoldable pub handle_payment_info : RuntimeSettings → String → String → Store → Result PaymentTerms
unfolding build_payment_info registered_key
handle_payment_info settings server_address recipient_addr st = do
  key ← or_reject (registered_key recipient_addr st) 404 "recipient-not-found"
  build_payment_info settings server_address recipient_addr key

-- The terms are those of the settings, with the recipient's key: the amount is the price, the fee is
-- the least fee, and the recipient's part and the fee make up the price.
pub record IsShared (settings : RuntimeSettings) (server_address recipient_addr key : String)
    (terms : PaymentTerms) : Type 0 where
  pub amount : ℤ
  pub fee : ℤ
  pub part : ℤ
  pub amount_read : big_int settings.message_price_sats ≡ some amount
  pub fee_read : big_int settings.min_fee_sats ≡ some fee
  pub amount_told : terms.amount ≡ to_text amount
  pub fee_told : terms.fee ≡ to_text fee
  pub part_told : terms.recipient_amount ≡ to_text part
  pub total : part +ℤ fee ≡ amount
  pub key_told : terms.recipient_public_key ≡ key
  pub server_told : terms.server_address ≡ server_address
  pub recipient_told : terms.recipient_addr ≡ recipient_addr

split_total : (amount fee : ℤ) → (amount -ℤ fee) +ℤ fee ≡ amount
split_total amount fee = grind int_laws

amount_after_fee_total :
    (amount fee : ℤ) → fee ≤ℤ amount → amount_after_fee amount fee +ℤ fee ≡ amount
unfolding amount_after_fee
amount_after_fee_total amount fee h = elim (Bool-cases (ltb_ℤ fee amount)) [
  | inl less ↦ rw less (split_total amount fee)
  | inr equal ↦ rw equal (no_part amount fee h equal)
]
  where
    no_part : (amount fee : ℤ) → fee ≤ℤ amount → ltb_ℤ fee amount ≡ false → pos 0 +ℤ fee ≡ amount
    no_part amount fee h equal = grind int_laws

-- With valid settings, whoever asks for the terms of a recipient with a key is given the key, the
-- price as the amount and the least fee as the fee, and the recipient's part and the fee make up the
-- price.
pub handle_payment_info-IsShared :
    (settings : RuntimeSettings) (server_address recipient_addr key : String) (st : Store)
    → IsValid settings
    → registered_key recipient_addr st ≡ some key
    → (terms : PaymentTerms) × (handle_payment_info settings server_address recipient_addr st
        ≡ ok terms)
      × IsShared settings server_address recipient_addr key terms
unfolding handle_payment_info build_payment_info
handle_payment_info-IsShared settings server_address recipient_addr key st valid found = (
  record {
    recipient_public_key = key;
    amount = to_text valid.price;
    fee = to_text valid.fee;
    recipient_amount = to_text (amount_after_fee valid.price valid.fee);
    server_address = server_address;
    recipient_addr = recipient_addr;
  },
  rw (found, valid.price_reads, valid.fee_reads) refl,
  record {
    amount = valid.price;
    fee = valid.fee;
    part = amount_after_fee valid.price valid.fee;
    amount_read = valid.price_reads;
    fee_read = valid.fee_reads;
    amount_told = refl;
    fee_told = refl;
    part_told = refl;
    total = amount_after_fee_total valid.price valid.fee valid.covered;
    key_told = refl;
    server_told = refl;
    recipient_told = refl;
  },
)
