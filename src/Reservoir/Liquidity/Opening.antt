-- ===== src/Reservoir/Liquidity/Opening.antt =====
-- `createTapWithBorrowedLiquidityParams`.
use mailslot.Base.{
  String, Option, none, some, ◌==◌, not, if◌then◌else◌, Result, ok, ◌>>=◌, ◌>>◌, or_reject,
  reject_if,
}
use mailslot.Base.Int.{ℤ, pos, ltb_ℤ, leb_ℤ, eqb_ℤ}
use mailslot.Base.Text.{big_int, to_text, trim, first_part, second_part}
use mailslot.Types.{PipeKey}
use mailslot.Transfer.{Signer}
use mailslot.Reservoir.Tables.{Platform, Config, Tables, World, build_pipe_id, upsert_pipe, no_meta}
use mailslot.Reservoir.Proof.{canonical_pipe_principals}
use mailslot.Reservoir.Liquidity.Snapshots.{
  check_token, check_configured, liquidity_state, check_user_signature, sign_as_reservoir,
}

-- The arguments of `createTapWithBorrowedLiquidityParams`.
pub record OpeningArgs : Type 0 where
  pub borrower : String
  pub token : Option String
  pub tap_amount : String
  pub tap_nonce : String
  pub borrow_amount : String
  pub borrow_fee : Option String
  pub my_balance : String
  pub reservoir_balance : String
  pub borrow_nonce : String
  pub my_signature : String

-- What the reservoir answers to a borrower.
pub record BorrowOffer : Type 0 where
  pub borrow_fee : String
  pub reservoir_signature : String

-- The numbers of a request to open a tap.
pub record OpeningFigures : Type 0 where
  pub tap_amount : ℤ
  pub tap_nonce : ℤ
  pub borrow_amount : ℤ
  pub mine : ℤ
  pub reservoir : ℤ
  pub borrow_nonce : ℤ

unfoldable pub read_opening : OpeningArgs → Result OpeningFigures
read_opening args = do
  tap_amount ← or_reject (big_int args.tap_amount) 400 "invalid-borrow-params"
  tap_nonce ← or_reject (big_int args.tap_nonce) 400 "invalid-borrow-params"
  borrow_amount ← or_reject (big_int args.borrow_amount) 400 "invalid-borrow-params"
  mine ← or_reject (big_int args.my_balance) 400 "invalid-borrow-params"
  reservoir ← or_reject (big_int args.reservoir_balance) 400 "invalid-borrow-params"
  borrow_nonce ← or_reject (big_int args.borrow_nonce) 400 "invalid-borrow-params"
  ok (record {
    tap_amount = tap_amount;
    tap_nonce = tap_nonce;
    borrow_amount = borrow_amount;
    mine = mine;
    reservoir = reservoir;
    borrow_nonce = borrow_nonce;
  })

-- A fee that is given and not blank, as an integer.
unfoldable pub provided_fee : Option String → Result (Option ℤ)
provided_fee none = ok none
provided_fee (some t) =
    if trim t == ""
    then ok none
    else do fee ← or_reject (big_int t) 400 "invalid-borrow-fee"; ok (some fee)

-- A fee that is given here must only not be negative.
unfoldable pub check_provided_fee : Option String → Result (Unit {0})
unfolding provided_fee
check_provided_fee raw = do
  fee ← provided_fee raw
  elim fee [ none ↦ ok tt | some f ↦ reject_if (ltb_ℤ f (pos 0)) 400 "invalid-borrow-fee" ]

-- The checks on the numbers.
unfoldable pub check_opening : OpeningArgs → OpeningFigures → Result (Unit {0})
unfolding check_provided_fee
check_opening args f = do
  reject_if (leb_ℤ f.tap_amount (pos 0)) 400 "invalid-tap-amount"
  reject_if (leb_ℤ f.borrow_amount (pos 0)) 400 "invalid-borrow-amount"
  check_provided_fee args.borrow_fee
  reject_if (leb_ℤ f.borrow_nonce f.tap_nonce) 400 "invalid-borrow-nonce"
  reject_if (not (eqb_ℤ f.mine f.tap_amount)) 400 "invalid-my-balance"
  reject_if (not (eqb_ℤ f.reservoir f.borrow_amount)) 400 "invalid-reservoir-balance"

-- `fetchBorrowFeeFromReservoir`: the contract's read-only function is in the world.
unfoldable pub fetch_borrow_fee_from_reservoir : Config → World → ℤ → Result ℤ
fetch_borrow_fee_from_reservoir c w amount = do
  reject_if (first_part c.reservoir_contract_id == "") 503 "reservoir-contract-missing"
  reject_if (second_part c.reservoir_contract_id == "") 503 "reservoir-contract-missing"
  w.borrow_fee amount

module _ (p : Platform) (s : Signer) (c : Config) where
  -- The pipe of a borrower with the reservoir's contract.
  unfoldable pub opening_key : String → Option String → Result PipeKey
  opening_key borrower token = do
    (first, second) ← canonical_pipe_principals p borrower c.reservoir_contract_id
    ok (record { principal_1 = first; principal_2 = second; token = token })

  -- The state that both have signed is recorded before the chain has it.
  unfoldable pub record_opening :
      World → OpeningArgs → OpeningFigures → PipeKey → String → Tables → Tables
  record_opening w args f key signature t =
      upsert_pipe (build_pipe_id c.contract_id key) c.contract_id key (to_text f.reservoir)
        (to_text f.mine) (to_text f.borrow_nonce)
        (record no_meta {
          action = some "2";
          actor = some c.reservoir_contract_id;
          server_signature = some signature;
          counterparty_signature = some args.my_signature;
        })
        w.sql_now t

  unfoldable pub create_tap_with_borrowed_liquidity_params :
      World → OpeningArgs → Tables → Result (BorrowOffer × Tables)
  unfolding check_configured read_opening check_opening opening_key record_opening
  create_tap_with_borrowed_liquidity_params w args t = do
    check_configured c
    f ← read_opening args
    check_opening args f
    token ← check_token args.token
    key ← opening_key args.borrower token
    check_user_signature s c args.borrower args.my_signature
        (liquidity_state key args.borrower f.mine f.reservoir f.borrow_nonce
          c.reservoir_contract_id)
        "invalid-borrower-signature"
    signature ← sign_as_reservoir s c (
        liquidity_state key c.reservoir_contract_id f.reservoir f.mine f.borrow_nonce
          c.reservoir_contract_id)
    fee ← fetch_borrow_fee_from_reservoir c w f.borrow_amount
    ok (
      record { borrow_fee = to_text fee; reservoir_signature = signature },
      record_opening w args f key signature t,
    )
