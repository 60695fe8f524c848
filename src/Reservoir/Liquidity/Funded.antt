-- ===== src/Reservoir/Liquidity/Funded.antt =====
-- What the reservoir has checked before it signs a state with more funds.
use mailslot.Base.{
  String, true, false, Option, none, some, ◌≡◌, refl, not, Result, ok, >>=-eq-ok, >>-eq-ok,
  reject_if-eq-ok, reject_if-ok, or_throw-eq-ok, or_reject-eq-ok, ok_inj, or_reject, or_throw,
  reject_if,
}
use mailslot.Base.Int.{ℤ, pos, ◌+ℤ◌, ◌<ℤ◌, ◌≤ℤ◌, leb_ℤ, ltb_ℤ, eqb_ℤ}
use mailslot.Base.Text.{big_int}
use mailslot.Transfer.{Signer, build_transfer_message, sip018_sign, sip018_verify}
use mailslot.Reservoir.Tables.{
  Platform, Config, Tables, World, PendingRow, get_latest_pending_pipe_row,
}
use mailslot.Reservoir.Verify.{eq_of_eqb_ℤ, lt_of_leb_ℤ, le_of_ltb_ℤ, true_of_not}
use mailslot.Reservoir.Liquidity.Snapshots.{
  Snapshot, check_token, check_configured, liquidity_state, check_user_signature, sign_as_reservoir,
  get_current_on_chain_tap_snapshot, assert_no_optimistic_pending_states,
}
use mailslot.Reservoir.Liquidity.Funding.{
  FundingArgs, FundingFigures, read_funding, check_funding, create_add_funds_params,
}

-- The figures are the integers of the request's texts, and the amount is positive.
pub record IsRequested (args : FundingArgs) (f : FundingFigures) : Type 0 where
  pub amount : big_int args.amount ≡ some f.amount
  pub mine : big_int args.my_balance ≡ some f.mine
  pub reservoir : big_int args.reservoir_balance ≡ some f.reservoir
  pub nonce : big_int args.nonce ≡ some f.nonce
  pub positive : pos 0 <ℤ f.amount

read_funding-IsRequested :
    (args : FundingArgs) {f : FundingFigures} → read_funding args ≡ ok f → IsRequested args f
unfolding read_funding
read_funding-IsRequested args h =
    let (amount, e1, h1) =
      >>=-eq-ok (or_reject (big_int args.amount) 400 "invalid-add-funds-params") _ h in
    let (mine, e2, h2) =
      >>=-eq-ok (or_reject (big_int args.my_balance) 400 "invalid-add-funds-params") _ h1 in
    let (reservoir, e3, h3) =
      >>=-eq-ok (or_reject (big_int args.reservoir_balance) 400 "invalid-add-funds-params") _ h2 in
    let (nonce, e4, h4) =
      >>=-eq-ok (or_reject (big_int args.nonce) 400 "invalid-add-funds-params") _ h3 in
    let (c5, h5) = reject_if-eq-ok (leb_ℤ amount (pos 0)) 400 "invalid-add-funds-amount" _ h4 in
    rw (← ok_inj h5) (record {
      amount = or_reject-eq-ok _ _ _ e1;
      mine = or_reject-eq-ok _ _ _ e2;
      reservoir = or_reject-eq-ok _ _ _ e3;
      nonce = or_reject-eq-ok _ _ _ e4;
      positive = lt_of_leb_ℤ amount (pos 0) c5;
    })

-- The latest pending row of a pipe, where there is one, has no later nonce.
pub data IsQuiet (p : Platform) (pipe_id : String) (nonce : ℤ) (t : Tables) : Type 0 where
  nothing_pending : get_latest_pending_pipe_row p pipe_id t ≡ none → IsQuiet p pipe_id nonce t
  not_later :
      (latest : PendingRow) (latest_nonce : ℤ)
      → get_latest_pending_pipe_row p pipe_id t ≡ some latest
      → big_int latest.nonce ≡ some latest_nonce
      → latest_nonce ≤ℤ nonce
      → IsQuiet p pipe_id nonce t

assert_no_optimistic_pending_states-IsQuiet :
    (p : Platform) (c : Config) (pipe_id : String) (nonce : ℤ) (t : Tables)
    → assert_no_optimistic_pending_states p c pipe_id nonce t ≡ ok tt
    → IsQuiet p pipe_id nonce t
unfolding assert_no_optimistic_pending_states
assert_no_optimistic_pending_states-IsQuiet p c pipe_id nonce t h =
    by_latest (get_latest_pending_pipe_row p pipe_id t) refl h
  where
    by_latest :
        (found : Option PendingRow)
        → get_latest_pending_pipe_row p pipe_id t ≡ found
        → (elim found as (λ _. Result (Unit {0})) [
          | none ↦ ok tt
          | some latest ↦
              mailslot.Base.◌>>=◌
                (or_throw (big_int latest.nonce) "SyntaxError")
                (λ n. reject_if (ltb_ℤ nonce n) 409 "tap-has-pending-states")
        ])
          ≡ ok tt
        → IsQuiet p pipe_id nonce t
    by_latest none e h = nothing_pending e
    by_latest (some latest) e h =
        let (n, e1, h1) = >>=-eq-ok (or_throw (big_int latest.nonce) "SyntaxError") _ h in
        let c2 = reject_if-ok (ltb_ℤ nonce n) 409 "tap-has-pending-states" h1 in
        not_later latest n e (or_throw-eq-ok _ _ e1) (le_of_ltb_ℤ nonce n c2)

-- Both sides sign the state that adds the amount to what the chain has of the user.
pub record IsFunded (p : Platform) (s : Signer) (c : Config) (w : World) (args : FundingArgs)
    (t : Tables) (signature : String) : Type 0 where
  pub token : Option String
  pub now : Snapshot
  pub figures : FundingFigures
  pub on_chain : get_current_on_chain_tap_snapshot p c w args.user token ≡ ok now
  pub requested : IsRequested args figures
  pub quiet : IsQuiet p now.pipe_id now.nonce t
  pub mature : now.has_unmatured_pending ≡ false
  pub next : figures.nonce ≡ now.nonce +ℤ pos 1
  pub adds : figures.mine ≡ now.counterparty +ℤ figures.amount
  pub kept : figures.reservoir ≡ now.server
  pub signed :
      sip018_verify s c.contract_id
        (build_transfer_message (
          liquidity_state now.pipe_key args.user figures.mine figures.reservoir figures.nonce
            args.user))
        args.my_signature
        args.user
        c.chain_id
      ≡ true
  pub answered :
      sip018_sign s c.contract_id
        (build_transfer_message (
          liquidity_state now.pipe_key c.reservoir_contract_id figures.reservoir figures.mine
            figures.nonce args.user))
        c.server_private_key
        c.chain_id
      ≡ some signature

-- The reservoir signs a deposit only where no leg of the tap is pending on the chain, the latest
-- pending row of its pipe, if any, has no nonce above the chain's, the amount is positive, the state has the chain's next nonce, the user's balance on the chain
-- grown by the amount and the reservoir's own balance, and the user has signed it; it signs the
-- same balances, nonce and actor from its own side.
pub create_add_funds_params-IsFunded :
    (p : Platform) (s : Signer) (c : Config) (w : World) (args : FundingArgs) (t : Tables)
    (signature : String)
    → create_add_funds_params p s c w args t ≡ ok signature
    → IsFunded p s c w args t signature
unfolding create_add_funds_params check_funding check_user_signature sign_as_reservoir
create_add_funds_params-IsFunded p s c w args t signature h =
    let (_, h1) = >>-eq-ok (check_configured c) _ h in
    let (token, _, h2) = >>=-eq-ok (check_token args.token) _ h1 in
    let (f, e3, h3) = >>=-eq-ok (read_funding args) _ h2 in
    let (now, e4, h4) = >>=-eq-ok (get_current_on_chain_tap_snapshot p c w args.user token) _ h3 in
    let (e5, h5) =
      >>-eq-ok (assert_no_optimistic_pending_states p c now.pipe_id now.nonce t) _ h4 in
    let (e6, h6) = >>-eq-ok (check_funding now f) _ h5 in
    let (d1, k1) = reject_if-eq-ok now.has_unmatured_pending 409 "tap-has-onchain-pending" _ e6 in
    let (d2, k2) =
      reject_if-eq-ok (not (eqb_ℤ f.nonce (now.nonce +ℤ pos 1))) 400 "invalid-add-funds-nonce" _
        k1 in
    let (d3, k3) =
      reject_if-eq-ok (not (eqb_ℤ f.mine (now.counterparty +ℤ f.amount))) 400 "invalid-my-balance" _
        k2 in
    let d4 = reject_if-ok (not (eqb_ℤ f.reservoir now.server)) 400 "invalid-reservoir-balance" k3 in
    let (c7, h7) = reject_if-eq-ok _ 401 "invalid-depositor-signature" _ h6 in
    record {
      token = token;
      now = now;
      figures = f;
      on_chain = e4;
      requested = read_funding-IsRequested args e3;
      quiet = assert_no_optimistic_pending_states-IsQuiet p c now.pipe_id now.nonce t e5;
      mature = d1;
      next = eq_of_eqb_ℤ f.nonce (now.nonce +ℤ pos 1) (true_of_not _ d2);
      adds = eq_of_eqb_ℤ f.mine (now.counterparty +ℤ f.amount) (true_of_not _ d3);
      kept = eq_of_eqb_ℤ f.reservoir now.server (true_of_not _ d4);
      signed = true_of_not _ c7;
      answered = or_throw-eq-ok _ "signing failed" h7;
    }
