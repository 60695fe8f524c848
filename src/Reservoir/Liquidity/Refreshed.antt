-- ===== src/Reservoir/Liquidity/Refreshed.antt =====
-- What a tap that borrows more liquidity has shown, and the cooldown after it.
use mailslot.Base.{
  ℕ, ◌+◌, ◌<◌, String, Bool, true, false, List, [], ◌∷◌, Option, some, ◌≡◌, ◌≢◌, refl, sym, ap, ◌∙◌,
  ◌==◌, not, lt→ltb, eq_refl, find, inl, inr, Bool-cases, ok, >>=-eq-ok, >>-eq-ok, reject_if-eq-ok,
  reject_if-ok, or_throw-eq-ok, ok_inj, or_throw,
}
use mailslot.Base.Int.{ℤ, pos, ◌+ℤ◌, ◌-ℤ◌, ◌*ℤ◌, ◌≤ℤ◌, ◌<ℤ◌, ltb_ℤ, leb_ℤ, eqb_ℤ}
use mailslot.Base.Text.{big_int}
use mailslot.Types.{RuntimeSettings}
use mailslot.Transfer.{Signer, build_transfer_message, sip018_verify}
use mailslot.Reservoir.Tables.{
  Platform, Config, Tables, World, Refresh, get_last_refresh_at, put_refresh, record_refresh_at,
}
use mailslot.Reservoir.Verify.{eq_of_eqb_ℤ, lt_of_leb_ℤ, le_of_ltb_ℤ, true_of_not}
use mailslot.Reservoir.Liquidity.Snapshots.{
  Snapshot, check_token, check_configured, liquidity_state, check_user_signature, sign_as_reservoir,
  get_current_tracked_tap_snapshot,
}
use mailslot.Reservoir.Liquidity.Opening.{
  BorrowOffer, provided_fee, fetch_borrow_fee_from_reservoir,
}
use mailslot.Reservoir.Liquidity.Borrowing.{
  BorrowingArgs, BorrowingFigures, read_borrowing, target_receive_liquidity, check_borrowing,
  is_cooling, check_fee, create_borrow_liquidity_params,
}

-- The capacity that the settings allow a tap to be refreshed to.
pub record IsTarget (settings : RuntimeSettings) (target : ℤ) : Type 0 where
  pub price : ℤ
  pub cap : ℤ
  pub price_reads : big_int settings.message_price_sats ≡ some price
  pub cap_reads : big_int settings.max_borrow_per_tap ≡ some cap
  pub by_price : target ≡ price *ℤ pos settings.receive_capacity_multiplier
  pub within_cap : target ≤ℤ cap

target_receive_liquidity-IsTarget :
    (settings : RuntimeSettings) {target : ℤ}
    → target_receive_liquidity settings ≡ ok target
    → IsTarget settings target
unfolding target_receive_liquidity
target_receive_liquidity-IsTarget settings h =
    let (cap, e1, h1) =
      >>=-eq-ok (or_throw (big_int settings.max_borrow_per_tap) "SyntaxError") _ h in
    let (price, e2, h2) =
      >>=-eq-ok (or_throw (big_int settings.message_price_sats) "SyntaxError") _ h1 in
    let product = price *ℤ pos settings.receive_capacity_multiplier in
    let (c3, h3) = reject_if-eq-ok (ltb_ℤ cap product) 400 "borrow-cap-exceeded" _ h2 in
    rw (← ok_inj h3) (record {
      price = price;
      cap = cap;
      price_reads = or_throw-eq-ok _ _ e2;
      cap_reads = or_throw-eq-ok _ _ e1;
      by_price = refl;
      within_cap = le_of_ltb_ℤ cap product c3;
    })

-- The amount raises the server's balance to the target, and nothing else moves.
pub record Raises (now : Snapshot) (f : BorrowingFigures) (target : ℤ) : Type 0 where
  pub short : now.server <ℤ target
  pub by : f.borrow_amount ≡ target -ℤ now.server
  pub kept : f.mine ≡ now.counterparty
  pub reaches : f.reservoir ≡ target

check_borrowing-Raises :
    (now : Snapshot) (f : BorrowingFigures) (target : ℤ)
    → check_borrowing now f target ≡ ok tt
    → Raises now f target
unfolding check_borrowing
check_borrowing-Raises now f target h =
    let (c1, h1) =
      reject_if-eq-ok (leb_ℤ target now.server) 409 "capacity-already-sufficient" _ h in
    let (c2, h2) =
      reject_if-eq-ok (not (eqb_ℤ f.borrow_amount (target -ℤ now.server))) 400
        "invalid-refresh-amount" _ h1 in
    let (c3, h3) =
      reject_if-eq-ok (not (eqb_ℤ f.mine now.counterparty)) 400 "invalid-my-balance" _ h2 in
    let c4 = reject_if-ok (not (eqb_ℤ f.reservoir target)) 400 "invalid-reservoir-balance" h3 in
    record {
      short = lt_of_leb_ℤ target now.server c1;
      by = eq_of_eqb_ℤ f.borrow_amount (target -ℤ now.server) (true_of_not _ c2);
      kept = eq_of_eqb_ℤ f.mine now.counterparty (true_of_not _ c3);
      reaches = eq_of_eqb_ℤ f.reservoir target (true_of_not _ c4);
    }

-- Both have signed the state of a tap in which the reservoir's part is grown.
pub record IsBorrowed (p : Platform) (s : Signer) (c : Config) (settings : RuntimeSettings)
    (w : World) (args : BorrowingArgs) (t t' : Tables) : Type 0 where
  pub token : Option String
  pub now : Snapshot
  pub figures : BorrowingFigures
  pub target : ℤ
  pub tracked : get_current_tracked_tap_snapshot p c args.borrower token t ≡ ok now
  pub read : read_borrowing args ≡ ok figures
  pub next : figures.borrow_nonce ≡ now.nonce +ℤ pos 1
  pub allowed : IsTarget settings target
  pub raises : Raises now figures target
  pub rested : is_cooling settings w.now args.borrower t ≡ false
  pub signed :
      sip018_verify s c.contract_id
        (build_transfer_message (
          liquidity_state now.pipe_key args.borrower figures.mine figures.reservoir
            figures.borrow_nonce c.reservoir_contract_id))
        args.my_signature
        args.borrower
        c.chain_id
      ≡ true
  pub refreshed : t' ≡ record_refresh_at args.borrower w.now t

module _ (p : Platform) (s : Signer) (c : Config) (settings : RuntimeSettings) (w : World) where
  -- Where a tap borrows, its tracked state is continued by the next nonce; the amount raises the
  -- server's balance to the price times the multiplier, which is not above the cap, and the user's
  -- balance stays; the borrower has no cooldown on and has signed the state; the refresh is
  -- recorded, and no other table changes.
  pub create_borrow_liquidity_params-IsBorrowed :
      (args : BorrowingArgs) (t : Tables) {offer : BorrowOffer} {t' : Tables}
      → create_borrow_liquidity_params p s c settings w args t ≡ ok (offer, t')
      → IsBorrowed p s c settings w args t t'
  unfolding create_borrow_liquidity_params check_user_signature
  create_borrow_liquidity_params-IsBorrowed args t h =
      let (_, h1) = >>-eq-ok (check_configured c) _ h in
      let (token, _, h2) = >>=-eq-ok (check_token args.token) _ h1 in
      let (f, e3, h3) = >>=-eq-ok (read_borrowing args) _ h2 in
      let (now, e4, h4) =
        >>=-eq-ok (get_current_tracked_tap_snapshot p c args.borrower token t) _ h3 in
      let (c5, h5) =
        reject_if-eq-ok (not (eqb_ℤ f.borrow_nonce (now.nonce +ℤ pos 1))) 400 "invalid-borrow-nonce"
          _ h4 in
      let (target, e6, h6) = >>=-eq-ok (target_receive_liquidity settings) _ h5 in
      let (e7, h7) = >>-eq-ok (check_borrowing now f target) _ h6 in
      let (c8, h8) =
        reject_if-eq-ok (is_cooling settings w.now args.borrower t) 429 "refresh-cooldown-active" _
          h7 in
      let (given, _, h9) = >>=-eq-ok (provided_fee args.borrow_fee) _ h8 in
      let (fee, _, h10) = >>=-eq-ok (fetch_borrow_fee_from_reservoir c w f.borrow_amount) _ h9 in
      let (_, h11) = >>-eq-ok (check_fee given fee) _ h10 in
      let (c12, h12) = reject_if-eq-ok _ 401 "invalid-borrower-signature" _ h11 in
      let (signature, _, h13) = >>=-eq-ok (sign_as_reservoir s c _) _ h12 in
      record {
        token = token;
        now = now;
        figures = f;
        target = target;
        tracked = e4;
        read = e3;
        next = eq_of_eqb_ℤ f.borrow_nonce (now.nonce +ℤ pos 1) (true_of_not _ c5);
        allowed = target_receive_liquidity-IsTarget settings e6;
        raises = check_borrowing-Raises now f target e7;
        rested = c8;
        signed = true_of_not _ c12;
        refreshed = sym (ap (λ x. x.1) (ok_inj h13));
      }

find-put_refresh :
    (r : Refresh) (rows : List Refresh)
    → find (λ (x : Refresh). x.borrower == r.borrower) (put_refresh r rows) ≡ some r
unfolding put_refresh
find-put_refresh r [] = rw eq_refl refl
find-put_refresh r (old ∷ rows) = elim (Bool-cases (old.borrower == r.borrower)) [
  | inl same ↦ rw (same, eq_refl) refl
  | inr other ↦ rw (other, other) (find-put_refresh r rows)
]

-- A recorded refresh is the last one of its borrower.
get_last_refresh_at-record_refresh_at :
    (borrower : String) (at : ℕ) (t : Tables)
    → get_last_refresh_at borrower (record_refresh_at borrower at t) ≡ some at
unfolding get_last_refresh_at record_refresh_at
get_last_refresh_at-record_refresh_at borrower at t =
    rw
      (
        find-put_refresh (record { borrower = borrower; last_refreshed_at = at }) t.refreshes,
        get_last_refresh_at,
      )
      refl

contradiction : {b : Bool} → b ≡ true → b ≡ false → ⊥
contradiction h k = cc

is_cooling-early :
    (settings : RuntimeSettings) (now last : ℕ) (borrower : String) (t : Tables)
    → get_last_refresh_at borrower t ≡ some last
    → now < last + settings.refresh_capacity_cooldown_ms
    → 0 < settings.refresh_capacity_cooldown_ms
    → is_cooling settings now borrower t ≡ true
unfolding is_cooling
is_cooling-early settings now last borrower t e early on =
    rw (e, lt→ltb _ _ early, lt→ltb _ _ on, is_cooling) refl

same_refreshes :
    (borrower : String) (t t' : Tables)
    → t.refreshes ≡ t'.refreshes
    → get_last_refresh_at borrower t ≡ get_last_refresh_at borrower t'
unfolding get_last_refresh_at
same_refreshes borrower t t' e = rw e refl

module _ (p : Platform) (s : Signer) (c : Config) (settings : RuntimeSettings) where
  -- After a tap has borrowed, the same borrower borrows nothing more, whatever the arguments and
  -- the token are, until the cooldown of the settings has passed, as long as the refreshes stay.
  pub borrow_cooldown :
      (first later : World) (args again : BorrowingArgs) (t t' t2 t3 : Tables)
      (offer offer' : BorrowOffer)
      → create_borrow_liquidity_params p s c settings first args t ≡ ok (offer, t')
      → t2.refreshes ≡ t'.refreshes
      → again.borrower ≡ args.borrower
      → later.now < first.now + settings.refresh_capacity_cooldown_ms
      → 0 < settings.refresh_capacity_cooldown_ms
      → create_borrow_liquidity_params p s c settings later again t2 ≢ ok (offer', t3)
  borrow_cooldown first later args again t t' t2 t3 offer offer' h same borrower early on again_ok =
      let once = create_borrow_liquidity_params-IsBorrowed p s c settings first args t h in
      let twice =
        create_borrow_liquidity_params-IsBorrowed p s c settings later again t2 again_ok in
      let last =
        same_refreshes again.borrower t2 t' same
        ∙ ap (get_last_refresh_at again.borrower) once.refreshed
        ∙ ap (λ b. get_last_refresh_at b (record_refresh_at args.borrower first.now t)) borrower
        ∙ get_last_refresh_at-record_refresh_at args.borrower first.now t in
      let cooling = is_cooling-early settings later.now first.now again.borrower t2 last early on in
      contradiction cooling twice.rested
