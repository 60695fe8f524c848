-- ===== src/Reservoir/Liquidity/Funding.antt =====
-- `createAddFundsParams`.
use mailslot.Base.{String, Option, not, Result, ok, ◌>>=◌, ◌>>◌, or_reject, reject_if}
use mailslot.Base.Int.{ℤ, pos, ◌+ℤ◌, leb_ℤ, eqb_ℤ}
use mailslot.Base.Text.{big_int}
use mailslot.Transfer.{Signer}
use mailslot.Reservoir.Tables.{Platform, Config, Tables, World}
use mailslot.Reservoir.Liquidity.Snapshots.{
  Snapshot, check_token, check_configured, liquidity_state, check_user_signature, sign_as_reservoir,
  get_current_on_chain_tap_snapshot, assert_no_optimistic_pending_states,
}

-- The arguments of `createAddFundsParams`.
pub record FundingArgs : Type 0 where
  pub user : String
  pub token : Option String
  pub amount : String
  pub my_balance : String
  pub reservoir_balance : String
  pub nonce : String
  pub my_signature : String

pub record FundingFigures : Type 0 where
  pub amount : ℤ
  pub mine : ℤ
  pub reservoir : ℤ
  pub nonce : ℤ

unfoldable pub read_funding : FundingArgs → Result FundingFigures
read_funding args = do
  amount ← or_reject (big_int args.amount) 400 "invalid-add-funds-params"
  mine ← or_reject (big_int args.my_balance) 400 "invalid-add-funds-params"
  reservoir ← or_reject (big_int args.reservoir_balance) 400 "invalid-add-funds-params"
  nonce ← or_reject (big_int args.nonce) 400 "invalid-add-funds-params"
  reject_if (leb_ℤ amount (pos 0)) 400 "invalid-add-funds-amount"
  ok (record { amount = amount; mine = mine; reservoir = reservoir; nonce = nonce })

-- The new state adds the amount to what the chain has, under the next nonce.
unfoldable pub check_funding : Snapshot → FundingFigures → Result (Unit {0})
check_funding now f = do
  reject_if now.has_unmatured_pending 409 "tap-has-onchain-pending"
  reject_if (not (eqb_ℤ f.nonce (now.nonce +ℤ pos 1))) 400 "invalid-add-funds-nonce"
  reject_if (not (eqb_ℤ f.mine (now.counterparty +ℤ f.amount))) 400 "invalid-my-balance"
  reject_if (not (eqb_ℤ f.reservoir now.server)) 400 "invalid-reservoir-balance"

module _ (p : Platform) (s : Signer) (c : Config) where
  -- The reservoir's signature; no table changes.
  unfoldable pub create_add_funds_params : World → FundingArgs → Tables → Result String
  unfolding check_configured read_funding check_funding
  create_add_funds_params w args t = do
    check_configured c
    token ← check_token args.token
    f ← read_funding args
    now ← get_current_on_chain_tap_snapshot p c w args.user token
    assert_no_optimistic_pending_states p c now.pipe_id now.nonce t
    check_funding now f
    check_user_signature s c args.user args.my_signature
        (liquidity_state now.pipe_key args.user f.mine f.reservoir f.nonce args.user)
        "invalid-depositor-signature"
    sign_as_reservoir s c
        (liquidity_state now.pipe_key c.reservoir_contract_id f.reservoir f.mine f.nonce args.user)
