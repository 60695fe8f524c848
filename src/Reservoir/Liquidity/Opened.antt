-- ===== src/Reservoir/Liquidity/Opened.antt =====
-- What the reservoir has checked of a tap that it opens, and the state that it records.
use mailslot.Base.{
  String, true, Option, none, some, ◌≡◌, refl, ap, not, ok, >>=-eq-ok, >>-eq-ok, reject_if-eq-ok,
  reject_if-ok, ok_inj,
}
use mailslot.Base.Int.{pos, ◌<ℤ◌, leb_ℤ, eqb_ℤ}
use mailslot.Base.Text.{to_text}
use mailslot.Types.{PipeKey}
use mailslot.Transfer.{Signer, build_transfer_message, sip018_verify}
use mailslot.Reservoir.Tables.{
  Platform, Config, Tables, World, PipeRow, build_pipe_id, get_pipe_row, upsert_pipe,
}
use mailslot.Reservoir.Verify.{eq_of_eqb_ℤ, lt_of_leb_ℤ, true_of_not}
use mailslot.Reservoir.Complete.{put_pipe-IsWritten}
use mailslot.Reservoir.Liquidity.Snapshots.{
  check_token, check_configured, liquidity_state, check_user_signature, sign_as_reservoir,
}
use mailslot.Reservoir.Liquidity.Opening.{
  OpeningArgs, OpeningFigures, BorrowOffer, read_opening, check_opening, check_provided_fee,
  opening_key, record_opening, fetch_borrow_fee_from_reservoir,
  create_tap_with_borrowed_liquidity_params,
}

-- The borrower has the funds of the tap and the reservoir lends the rest, under a later nonce.
pub record IsLent (f : OpeningFigures) : Type 0 where
  pub funded : pos 0 <ℤ f.tap_amount
  pub lent : pos 0 <ℤ f.borrow_amount
  pub later : f.tap_nonce <ℤ f.borrow_nonce
  pub mine : f.mine ≡ f.tap_amount
  pub reservoir : f.reservoir ≡ f.borrow_amount

check_opening-IsLent :
    (args : OpeningArgs) (f : OpeningFigures) → check_opening args f ≡ ok tt → IsLent f
unfolding check_opening
check_opening-IsLent args f h =
    let (c1, h1) = reject_if-eq-ok (leb_ℤ f.tap_amount (pos 0)) 400 "invalid-tap-amount" _ h in
    let (c2, h2) =
      reject_if-eq-ok (leb_ℤ f.borrow_amount (pos 0)) 400 "invalid-borrow-amount" _ h1 in
    let (_, h3) = >>-eq-ok (check_provided_fee args.borrow_fee) _ h2 in
    let (c4, h4) =
      reject_if-eq-ok (leb_ℤ f.borrow_nonce f.tap_nonce) 400 "invalid-borrow-nonce" _ h3 in
    let (c5, h5) =
      reject_if-eq-ok (not (eqb_ℤ f.mine f.tap_amount)) 400 "invalid-my-balance" _ h4 in
    let c6 =
      reject_if-ok (not (eqb_ℤ f.reservoir f.borrow_amount)) 400 "invalid-reservoir-balance" h5 in
    record {
      funded = lt_of_leb_ℤ f.tap_amount (pos 0) c1;
      lent = lt_of_leb_ℤ f.borrow_amount (pos 0) c2;
      later = lt_of_leb_ℤ f.borrow_nonce f.tap_nonce c4;
      mine = eq_of_eqb_ℤ f.mine f.tap_amount (true_of_not _ c5);
      reservoir = eq_of_eqb_ℤ f.reservoir f.borrow_amount (true_of_not _ c6);
    }

-- The tap that a borrower and the reservoir have agreed on, and its enforceable row.
pub record IsOpened (p : Platform) (s : Signer) (c : Config) (args : OpeningArgs) (t t' : Tables)
    : Type 0 where
  pub figures : OpeningFigures
  pub key : PipeKey
  pub token : Option String
  pub row : PipeRow
  pub read : read_opening args ≡ ok figures
  pub lent : IsLent figures
  pub between : opening_key p s c args.borrower token ≡ ok key
  pub signed :
      sip018_verify s c.contract_id
        (build_transfer_message (
          liquidity_state key args.borrower figures.mine figures.reservoir figures.borrow_nonce
            c.reservoir_contract_id))
        args.my_signature
        args.borrower
        c.chain_id
      ≡ true
  pub located : get_pipe_row p (build_pipe_id c.contract_id key) t' ≡ some row
  pub server : row.server_balance ≡ to_text figures.reservoir
  pub theirs : row.counterparty_balance ≡ to_text figures.mine
  pub nonce : row.nonce ≡ to_text figures.borrow_nonce
  pub pending_kept : t'.pending ≡ t.pending
  pub refreshes_kept : t'.refreshes ≡ t.refreshes

-- The row that an opening puts.
abbrev opened_row : Config → World → OpeningArgs → OpeningFigures → PipeKey → String → PipeRow
opened_row c w args f key signature = record {
  pipe_id = build_pipe_id c.contract_id key;
  contract_id = c.contract_id;
  pipe_key = key;
  server_balance = to_text f.reservoir;
  counterparty_balance = to_text f.mine;
  nonce = to_text f.borrow_nonce;
  last_action = some "2";
  last_actor = some c.reservoir_contract_id;
  last_hashed_secret = none;
  last_valid_after = none;
  last_server_signature = some signature;
  last_counterparty_signature = some args.my_signature;
  enforceable_secret = none;
  updated_at = w.sql_now;
}

answered_tables : {A : Type 0} {r r' : A × Tables} → r ≡ r' → r.1 ≡ r'.1
answered_tables h = ap (λ x. x.1) h

-- Where the reservoir opens a tap, both amounts are positive, the borrower's balance is the tap's
-- amount and the reservoir's the lent one, under a nonce later than the tap's, and the borrower has
-- signed that state; whatever row the pipe had before, its balances and nonce are now those.
pub create_tap-IsOpened :
    (p : Platform) (s : Signer) (c : Config) (w : World) (args : OpeningArgs) (t t' : Tables)
    (offer : BorrowOffer)
    → create_tap_with_borrowed_liquidity_params p s c w args t ≡ ok (offer, t')
    → IsOpened p s c args t t'
unfolding create_tap_with_borrowed_liquidity_params check_user_signature record_opening upsert_pipe
    get_pipe_row
create_tap-IsOpened p s c w args t t' offer h =
    let (_, h1) = >>-eq-ok (check_configured c) _ h in
    let (f, e2, h2) = >>=-eq-ok (read_opening args) _ h1 in
    let (e3, h3) = >>-eq-ok (check_opening args f) _ h2 in
    let (token, _, h4) = >>=-eq-ok (check_token args.token) _ h3 in
    let (key, e5, h5) = >>=-eq-ok (opening_key p s c args.borrower token) _ h4 in
    let (c6, h6) = reject_if-eq-ok _ 401 "invalid-borrower-signature" _ h5 in
    let (signature, _, h7) = >>=-eq-ok (sign_as_reservoir s c _) _ h6 in
    let (_, _, h8) = >>=-eq-ok (fetch_borrow_fee_from_reservoir c w f.borrow_amount) _ h7 in
    let (row, put) = put_pipe-IsWritten (opened_row c w args f key signature) t.pipes in
    let recorded = answered_tables (ok_inj h8) in
    rw (← recorded) (record {
      figures = f;
      key = key;
      token = token;
      row = row;
      read = e2;
      lent = check_opening-IsLent args f e3;
      between = e5;
      signed = true_of_not _ c6;
      located = put.located;
      server = put.server;
      theirs = put.theirs;
      nonce = put.nonce;
      pending_kept = refl;
      refreshes_kept = refl;
    })
