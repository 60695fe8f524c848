-- ===== src/App/Taps.antt =====
-- The handlers of taps: `handleTapBorrowParams`, `handleTapAddFundsParams`,
-- `handleTapBorrowMoreParams`, `handleTapSyncState` and `handleTapState`. A failure is answered with
-- its status and reason, an untyped one with 500, and leaves the tables as they were.
use mailslot.Base.{
  String, Option, none, some, ◌==◌, ◌||◌, not, if◌then◌else◌, Result, ok, ◌>>=◌, ◌>>◌, or_reject,
  reject_if,
}
use mailslot.Base.Text.{trim}
use mailslot.Json.{Json, Value, null, str, property, text_or, as_text, is_nullish}
use mailslot.Types.{RuntimeSettings}
use mailslot.Transfer.{Signer}
use mailslot.Reservoir.Tables.{Platform, Config, Tables, World}
use mailslot.Reservoir.Proof.{text_else, non_empty}
use mailslot.Reservoir.Liquidity.Opening.{
  OpeningArgs, BorrowOffer, create_tap_with_borrowed_liquidity_params,
}
use mailslot.Reservoir.Liquidity.Funding.{FundingArgs, create_add_funds_params}
use mailslot.Reservoir.Liquidity.Borrowing.{BorrowingArgs, create_borrow_liquidity_params}
use mailslot.Reservoir.Liquidity.Syncing.{
  SyncArgs, TapBalances, sync_tap_state, get_tracked_tap_state,
}

-- The bodies of the successes.
pub data TapReply : Type 0 where
  opened : OpeningArgs → BorrowOffer → TapReply
  funded : FundingArgs → String → TapReply
  borrowed : BorrowingArgs → BorrowOffer → TapReply
  synced : TapReply
  tap_state : Option TapBalances → TapReply

-- The body as JSON; it is none where it is too large.
unfoldable pub parse_body : Platform → Option String → Result Json
parse_body p body = do
  text ← or_reject body 413 "body-too-large"
  or_reject (p.decode text) 400 "invalid-json"

-- `typeof value === 'string' ? value : ''`
unfoldable pub text_field : Json → String → Result String
text_field fields name = do v ← property fields name; ok (text_else "" (as_text v))

-- `String(value ?? '')`
unfoldable pub string_field : Json → String → Result String
string_field fields name = do v ← property fields name; ok (text_or "" v)

-- `value == null ? null : String(value)`
unfoldable pub optional_field : Json → String → Result (Option String)
optional_field fields name = do
  v ← property fields name
  ok (if is_nullish v then none else some (text_or "" v))

-- The token of a request: none where it is neither a text nor null, and an empty one is null.
unfoldable pub token_of : Value → Option (Option String)
token_of none = some none
token_of (some null) = some none
token_of (some (str t)) = if trim t == "__invalid__" then none else some (non_empty (trim t))
token_of (some _) = none

unfoldable pub token_field : Json → Result (Option (Option String))
unfolding token_of
token_field fields = do v ← property fields "token"; ok (token_of v)

-- `typeof raw === 'string' ? raw.trim() : ''`, and an empty fee is undefined.
unfoldable pub fee_field : Json → Result (Option String)
fee_field fields = do
  v ← property fields "borrowFee"
  ok (non_empty (trim (text_else "" (as_text v))))

module _ (p : Platform) (s : Signer) (c : Config) where
  unfoldable pub handle_tap_borrow_params :
      World → Option String → Tables → Result (TapReply × Tables)
  unfolding parse_body text_field string_field token_field fee_field
  handle_tap_borrow_params w body t = do
    reject_if (c.contract_id == "") 503 "stackflow-contract-missing"
    fields ← parse_body p body
    borrower ← text_field fields "borrower"
    raw_token ← token_field fields
    tap_amount ← string_field fields "tapAmount"
    tap_nonce ← string_field fields "tapNonce"
    borrow_amount ← string_field fields "borrowAmount"
    borrow_fee ← fee_field fields
    my_balance ← string_field fields "myBalance"
    reservoir_balance ← string_field fields "reservoirBalance"
    borrow_nonce ← string_field fields "borrowNonce"
    my_signature ← text_field fields "mySignature"
    token ← or_reject raw_token 400 "invalid-params"
    reject_if
        (borrower == ""
          || tap_amount == ""
          || tap_nonce == ""
          || borrow_amount == ""
          || my_balance == ""
          || reservoir_balance == ""
          || borrow_nonce == ""
          || my_signature == "")
        400 "invalid-params"
    let args : OpeningArgs = record {
      borrower = borrower;
      token = token;
      tap_amount = tap_amount;
      tap_nonce = tap_nonce;
      borrow_amount = borrow_amount;
      borrow_fee = borrow_fee;
      my_balance = my_balance;
      reservoir_balance = reservoir_balance;
      borrow_nonce = borrow_nonce;
      my_signature = my_signature;
    }
    (offer, t') ← create_tap_with_borrowed_liquidity_params p s c w args t
    ok (opened args offer, t')

  unfoldable pub handle_tap_add_funds_params :
      World → Option String → Tables → Result (TapReply × Tables)
  unfolding parse_body text_field string_field token_field
  handle_tap_add_funds_params w body t = do
    fields ← parse_body p body
    user ← text_field fields "user"
    raw_token ← token_field fields
    amount ← string_field fields "amount"
    my_balance ← string_field fields "myBalance"
    reservoir_balance ← string_field fields "reservoirBalance"
    nonce ← string_field fields "nonce"
    my_signature ← text_field fields "mySignature"
    token ← or_reject raw_token 400 "invalid-params"
    reject_if
        (user == ""
          || amount == ""
          || my_balance == ""
          || reservoir_balance == ""
          || nonce == ""
          || my_signature == "")
        400 "invalid-params"
    let args : FundingArgs = record {
      user = user;
      token = token;
      amount = amount;
      my_balance = my_balance;
      reservoir_balance = reservoir_balance;
      nonce = nonce;
      my_signature = my_signature;
    }
    signature ← create_add_funds_params p s c w args t
    ok (funded args signature, t)

  unfoldable pub handle_tap_borrow_more_params :
      RuntimeSettings → World → Option String → Tables → Result (TapReply × Tables)
  unfolding parse_body text_field string_field token_field fee_field
  handle_tap_borrow_more_params settings w body t = do
    fields ← parse_body p body
    borrower ← text_field fields "borrower"
    raw_token ← token_field fields
    borrow_amount ← string_field fields "borrowAmount"
    borrow_fee ← fee_field fields
    my_balance ← string_field fields "myBalance"
    reservoir_balance ← string_field fields "reservoirBalance"
    borrow_nonce ← string_field fields "borrowNonce"
    my_signature ← text_field fields "mySignature"
    token ← or_reject raw_token 400 "invalid-params"
    reject_if
        (borrower == ""
          || borrow_amount == ""
          || my_balance == ""
          || reservoir_balance == ""
          || borrow_nonce == ""
          || my_signature == "")
        400 "invalid-params"
    let args : BorrowingArgs = record {
      borrower = borrower;
      token = token;
      borrow_amount = borrow_amount;
      borrow_fee = borrow_fee;
      my_balance = my_balance;
      reservoir_balance = reservoir_balance;
      borrow_nonce = borrow_nonce;
      my_signature = my_signature;
    }
    (offer, t') ← create_borrow_liquidity_params p s c settings w args t
    ok (borrowed args offer, t')

  -- What a sync asks for, of the user that the body names.
  unfoldable pub read_sync : Json → String → Result SyncArgs
  unfolding string_field optional_field token_field
  read_sync fields user = do
    raw_token ← token_field fields
    my_balance ← string_field fields "myBalance"
    reservoir_balance ← string_field fields "reservoirBalance"
    nonce ← string_field fields "nonce"
    action ← optional_field fields "action"
    actor ← optional_field fields "actor"
    my_signature ← optional_field fields "mySignature"
    reservoir_signature ← optional_field fields "reservoirSignature"
    token ← or_reject raw_token 400 "invalid-params"
    reject_if (my_balance == "" || reservoir_balance == "" || nonce == "") 400 "invalid-params"
    ok (record {
      counterparty = user;
      token = token;
      user_balance = my_balance;
      reservoir_balance = reservoir_balance;
      nonce = nonce;
      action = action;
      actor = actor;
      counterparty_signature = my_signature;
      server_signature = reservoir_signature;
    })

  -- `handleTapSyncState` for the address that is let in.
  unfoldable pub handle_tap_sync_state :
      World → String → Option String → Tables → Result (TapReply × Tables)
  unfolding parse_body text_field read_sync
  handle_tap_sync_state w address body t = do
    fields ← parse_body p body
    user ← text_field fields "user"
    reject_if (user == "" || not (user == address)) 403 "auth-address-mismatch"
    args ← read_sync fields user
    t' ← sync_tap_state p s c w args t
    ok (synced, t')

  -- `handleTapState` for the address that is let in.
  unfoldable pub handle_tap_state : World → String → Tables → Result (TapReply × Tables)
  handle_tap_state w address t = do
    tap ← get_tracked_tap_state p s c w address t
    ok (tap_state tap, t)
