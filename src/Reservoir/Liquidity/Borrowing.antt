-- ===== src/Reservoir/Liquidity/Borrowing.antt =====
-- `createBorrowLiquidityParams`.
use mailslot.Base.{
  ℕ, ◌+◌, String, Bool, false, Option, none, some, ◌&&◌, not, ltb, Result, ok, ◌>>=◌, ◌>>◌,
  or_throw, or_reject, reject_if,
}
use mailslot.Base.Int.{ℤ, pos, ◌+ℤ◌, ◌-ℤ◌, ◌*ℤ◌, ltb_ℤ, leb_ℤ, eqb_ℤ}
use mailslot.Base.Text.{big_int, to_text}
use mailslot.Types.{RuntimeSettings}
use mailslot.Transfer.{Signer}
use mailslot.Reservoir.Tables.{
  Platform, Config, Tables, World, get_last_refresh_at, record_refresh_at,
}
use mailslot.Reservoir.Liquidity.Snapshots.{
  Snapshot, check_token, check_configured, liquidity_state, check_user_signature, sign_as_reservoir,
  get_current_tracked_tap_snapshot,
}
use mailslot.Reservoir.Liquidity.Opening.{
  BorrowOffer, provided_fee, fetch_borrow_fee_from_reservoir,
}

-- The arguments of `createBorrowLiquidityParams`.
pub record BorrowingArgs : Type 0 where
  pub borrower : String
  pub token : Option String
  pub borrow_amount : String
  pub borrow_fee : Option String
  pub my_balance : String
  pub reservoir_balance : String
  pub borrow_nonce : String
  pub my_signature : String

pub record BorrowingFigures : Type 0 where
  pub borrow_amount : ℤ
  pub mine : ℤ
  pub reservoir : ℤ
  pub borrow_nonce : ℤ

unfoldable pub read_borrowing : BorrowingArgs → Result BorrowingFigures
read_borrowing args = do
  borrow_amount ← or_reject (big_int args.borrow_amount) 400 "invalid-borrow-params"
  mine ← or_reject (big_int args.my_balance) 400 "invalid-borrow-params"
  reservoir ← or_reject (big_int args.reservoir_balance) 400 "invalid-borrow-params"
  borrow_nonce ← or_reject (big_int args.borrow_nonce) 400 "invalid-borrow-params"
  reject_if (leb_ℤ borrow_amount (pos 0)) 400 "invalid-borrow-amount"
  ok (record {
    borrow_amount = borrow_amount;
    mine = mine;
    reservoir = reservoir;
    borrow_nonce = borrow_nonce;
  })

-- The receive capacity that a tap is refreshed to, if one tap may have it.
unfoldable pub target_receive_liquidity : RuntimeSettings → Result ℤ
target_receive_liquidity settings = do
  cap ← or_throw (big_int settings.max_borrow_per_tap) "SyntaxError"
  price ← or_throw (big_int settings.message_price_sats) "SyntaxError"
  let target = price *ℤ pos settings.receive_capacity_multiplier
  reject_if (ltb_ℤ cap target) 400 "borrow-cap-exceeded"
  ok target

-- The amount refreshes the capacity to the target exactly.
unfoldable pub check_borrowing : Snapshot → BorrowingFigures → ℤ → Result (Unit {0})
check_borrowing now f target = do
  reject_if (leb_ℤ target now.server) 409 "capacity-already-sufficient"
  reject_if (not (eqb_ℤ f.borrow_amount (target -ℤ now.server))) 400 "invalid-refresh-amount"
  reject_if (not (eqb_ℤ f.mine now.counterparty)) 400 "invalid-my-balance"
  reject_if (not (eqb_ℤ f.reservoir target)) 400 "invalid-reservoir-balance"

-- A cooldown of a borrower is on.
unfoldable pub is_cooling : RuntimeSettings → ℕ → String → Tables → Bool
is_cooling settings now borrower t = elim (get_last_refresh_at borrower t) [
  | none ↦ false
  | some last ↦
      ltb 0 settings.refresh_capacity_cooldown_ms
      && ltb now (last + settings.refresh_capacity_cooldown_ms)
]

-- A fee that is given covers the reservoir's.
unfoldable pub check_fee : Option ℤ → ℤ → Result (Unit {0})
check_fee none fee = ok tt
check_fee (some given) fee = reject_if (ltb_ℤ given fee) 400 "invalid-borrow-fee"

module _ (p : Platform) (s : Signer) (c : Config) where
  unfoldable pub create_borrow_liquidity_params :
      RuntimeSettings → World → BorrowingArgs → Tables → Result (BorrowOffer × Tables)
  unfolding check_configured read_borrowing target_receive_liquidity check_borrowing is_cooling
      check_fee
  create_borrow_liquidity_params settings w args t = do
    check_configured c
    token ← check_token args.token
    f ← read_borrowing args
    now ← get_current_tracked_tap_snapshot p c args.borrower token t
    reject_if (not (eqb_ℤ f.borrow_nonce (now.nonce +ℤ pos 1))) 400 "invalid-borrow-nonce"
    target ← target_receive_liquidity settings
    check_borrowing now f target
    reject_if (is_cooling settings w.now args.borrower t) 429 "refresh-cooldown-active"
    given ← provided_fee args.borrow_fee
    fee ← fetch_borrow_fee_from_reservoir c w f.borrow_amount
    check_fee given fee
    check_user_signature s c args.borrower args.my_signature
        (liquidity_state now.pipe_key args.borrower f.mine f.reservoir f.borrow_nonce
          c.reservoir_contract_id)
        "invalid-borrower-signature"
    signature ← sign_as_reservoir s c (
        liquidity_state now.pipe_key c.reservoir_contract_id f.reservoir f.mine f.borrow_nonce
          c.reservoir_contract_id)
    ok (
      record { borrow_fee = to_text fee; reservoir_signature = signature },
      record_refresh_at args.borrower w.now t,
    )
