-- ===== src/Reservoir/Verify.antt =====
-- What an accepted payment proof has shown.
use mailslot.Base.{
  String, Bool, true, false, some, ◌≡◌, sym, ap, ◌∙◌, ◌==◌, ◌&&◌, ◌||◌, not, arith, ok, >>=-eq-ok,
  reject_if-eq-ok, or_reject-eq-ok, or_throw-eq-ok, ok_inj, or_reject, or_throw, if◌then◌else◌,
  eq_iff,
}
use mailslot.Base.Int.{ℤ, pos, ◌+ℤ◌, ◌-ℤ◌, ◌≤ℤ◌, ◌<ℤ◌, ltb_ℤ, leb_ℤ, eqb_ℤ}
use mailslot.Base.Text.{big_int}
use mailslot.Types.{PipeKey}
use mailslot.Reservoir.Tables.{Config, TapState, OnChainPipe}
use mailslot.Reservoir.Proof.{ParsedProof, text_else}
use mailslot.Reservoir.Payments.{
  Figures, side_1, side_2, check_addressing, read_figures, tracked_amount, first_amount,
}

-- The texts of a tracked state stand for a balance of the server, one of the counterparty and a nonce.
pub record Reads (tap : TapState) (server theirs nonce : ℤ) : Type 0 where
  pub server_reads : big_int tap.server_balance ≡ some server
  pub theirs_reads : big_int tap.counterparty_balance ≡ some theirs
  pub nonce_reads : big_int tap.nonce ≡ some nonce

-- A proof moves `amount` to the server from the balances before it: the total stays, and the
-- server's balance grows.
pub record Moves (server theirs amount : ℤ) (f : Figures) : Type 0 where
  pub total : f.server +ℤ f.sender ≡ server +ℤ theirs
  pub grows : server <ℤ f.server
  pub by : amount ≡ f.server -ℤ server

pub eq_of_eqb_ℤ : (a b : ℤ) → eqb_ℤ a b ≡ true → a ≡ b
eq_of_eqb_ℤ a b h = ground arith

pub lt_of_leb_ℤ : (a b : ℤ) → leb_ℤ a b ≡ false → b <ℤ a
lt_of_leb_ℤ a b h = ground arith

pub le_of_leb_ℤ : (a b : ℤ) → leb_ℤ a b ≡ true → a ≤ℤ b
le_of_leb_ℤ a b h = ground arith

pub le_of_ltb_ℤ : (a b : ℤ) → ltb_ℤ a b ≡ false → b ≤ℤ a
le_of_ltb_ℤ a b h = ground arith

pub true_of_not : (b : Bool) → not b ≡ false → b ≡ true
true_of_not b h = ground arith

-- A proof on a tracked pipe carries the next nonce.
pub record Continues (tap : TapState) (amount : ℤ) (f : Figures) : Type 0 where
  pub server : ℤ
  pub theirs : ℤ
  pub nonce : ℤ
  pub reads : Reads tap server theirs nonce
  pub next : f.nonce ≡ nonce +ℤ pos 1
  pub moves : Moves server theirs amount f

pub tracked_amount-Continues :
    (tap : TapState) (f : Figures) {amount : ℤ}
    → tracked_amount tap f ≡ ok amount
    → Continues tap amount f
unfolding tracked_amount
tracked_amount-Continues tap f {amount} h =
    let (server, e1, h1) = >>=-eq-ok (or_throw (big_int tap.server_balance) "SyntaxError") _ h in
    let (theirs, e2, h2) =
      >>=-eq-ok (or_throw (big_int tap.counterparty_balance) "SyntaxError") _ h1 in
    let (nonce, e3, h3) = >>=-eq-ok (or_throw (big_int tap.nonce) "SyntaxError") _ h2 in
    let (c1, h4) =
      reject_if-eq-ok (not (eqb_ℤ f.nonce (nonce +ℤ pos 1))) 402 "invalid-nonce" _ h3 in
    let (c2, h5) =
      reject_if-eq-ok (not (eqb_ℤ (f.server +ℤ f.sender) (server +ℤ theirs))) 402
        "invalid-total-balance" _ h4 in
    let (c3, h6) = reject_if-eq-ok (leb_ℤ f.server server) 402 "balance-not-increased" _ h5 in
    record {
      server = server;
      theirs = theirs;
      nonce = nonce;
      reads = record {
        server_reads = or_throw-eq-ok _ _ e1;
        theirs_reads = or_throw-eq-ok _ _ e2;
        nonce_reads = or_throw-eq-ok _ _ e3;
      };
      next = eq_of_eqb_ℤ f.nonce (nonce +ℤ pos 1) (true_of_not _ c1);
      moves = record {
        total = eq_of_eqb_ℤ (f.server +ℤ f.sender) (server +ℤ theirs) (true_of_not _ c2);
        grows = lt_of_leb_ℤ f.server server c3;
        by = cc h6;
      };
    }

-- A first proof on a pipe starts from the state that the contract reports, with a later nonce.
pub record Starts (c : Config) (key : PipeKey) (o : OnChainPipe) (amount : ℤ) (f : Figures)
    : Type 0 where
  pub next : o.nonce <ℤ f.nonce
  pub moves :
      Moves
        (if key.principal_1 == c.server_address then side_1 o else side_2 o)
        (if key.principal_1 == c.server_address then side_2 o else side_1 o)
        amount
        f

pub first_amount-Starts :
    (c : Config) (key : PipeKey) (o : OnChainPipe) (f : Figures) {amount : ℤ}
    → first_amount c key o f ≡ ok amount
    → Starts c key o amount f
unfolding first_amount
first_amount-Starts c key o f {amount} h =
    let server = if key.principal_1 == c.server_address then side_1 o else side_2 o in
    let sender = if key.principal_1 == c.server_address then side_2 o else side_1 o in
    let (c1, h1) = reject_if-eq-ok (leb_ℤ f.nonce o.nonce) 402 "invalid-nonce" _ h in
    let (c2, h2) =
      reject_if-eq-ok (not (eqb_ℤ (f.server +ℤ f.sender) (server +ℤ sender))) 402
        "invalid-total-balance" _ h1 in
    let (c3, h3) = reject_if-eq-ok (leb_ℤ f.server server) 402 "balance-not-increased" _ h2 in
    record {
      next = lt_of_leb_ℤ f.nonce o.nonce c1;
      moves = record {
        total = eq_of_eqb_ℤ (f.server +ℤ f.sender) (server +ℤ sender) (true_of_not _ c2);
        grows = lt_of_leb_ℤ f.server server c3;
        by = cc h3;
      };
    }

-- What the addressing checks of a proof leave true.
pub record IsAddressed (c : Config) (f : ParsedProof) (secret for_principal with_principal : String)
    : Type 0 where
  pub contract : c.contract_id == "" || f.contract_id == c.contract_id ≡ true
  pub action : f.action == "1" ≡ true
  pub locked : f.hashed_secret ≡ some secret
  pub by_actor : with_principal == f.actor ≡ true
  pub not_server : f.actor == c.server_address ≡ false
  pub actor_in_pipe : f.actor == f.pipe_key.principal_1 || f.actor == f.pipe_key.principal_2 ≡ true
  pub recipient : for_principal ≡ c.server_address

-- Where two do not both fail, one holds.
pub one_holds : (e d : Bool) → not e && not d ≡ false → e || d ≡ true
one_holds e d h = ground arith

equal_texts : (a b : String) → (a == b) ≡ true → a ≡ b
equal_texts a b h = (eq_iff a b).0 h

pub check_addressing-IsAddressed :
    (c : Config) (f : ParsedProof) (for_principal with_principal : String) {secret : String}
    → check_addressing c f for_principal with_principal ≡ ok secret
    → IsAddressed c f secret for_principal with_principal
unfolding check_addressing
check_addressing-IsAddressed c f for_principal with_principal {secret} h =
    let (_, h1) = reject_if-eq-ok (f.contract_id == "") 400 "missing-contract-id" _ h in
    let (c2, h2) =
      reject_if-eq-ok (not (c.contract_id == "") && not (f.contract_id == c.contract_id)) 402
        "wrong-contract" _ h1 in
    let (c3, h3) = reject_if-eq-ok (not (f.action == "1")) 402 "invalid-action" _ h2 in
    let (found, e, h4) = >>=-eq-ok (or_reject f.hashed_secret 400 "missing-hashed-secret") _ h3 in
    let (_, h5) = reject_if-eq-ok (with_principal == "") 400 "missing-with-principal" _ h4 in
    let (_, h6) = reject_if-eq-ok (f.actor == "") 400 "missing-actor" _ h5 in
    let (_, h7) =
      reject_if-eq-ok (text_else "" f.their_signature == "") 400 "missing-signature" _ h6 in
    let (c8, h8) = reject_if-eq-ok (not (with_principal == f.actor)) 402 "actor-mismatch" _ h7 in
    let (c9, h9) = reject_if-eq-ok (f.actor == c.server_address) 402 "invalid-actor" _ h8 in
    let (c10, h10) =
      reject_if-eq-ok
        (not (f.actor == f.pipe_key.principal_1) && not (f.actor == f.pipe_key.principal_2)) 402
        "actor-not-in-pipe" _ h9 in
    let (c11, h11) =
      reject_if-eq-ok (not (for_principal == c.server_address)) 402 "wrong-recipient" _ h10 in
    record {
      contract = one_holds (c.contract_id == "") (f.contract_id == c.contract_id) c2;
      action = true_of_not _ c3;
      locked = or_reject-eq-ok f.hashed_secret _ _ e ∙ ap some (ok_inj h11);
      by_actor = true_of_not _ c8;
      not_server = c9;
      actor_in_pipe = one_holds _ _ c10;
      recipient = equal_texts for_principal c.server_address (true_of_not _ c11);
    }

-- The texts of a proof stand for its figures.
pub record IsRead (f : ParsedProof) (figures : Figures) : Type 0 where
  pub server : big_int f.my_balance ≡ some figures.server
  pub sender : big_int f.their_balance ≡ some figures.sender
  pub nonce : big_int f.nonce ≡ some figures.nonce
  pub server_nonneg : pos 0 ≤ℤ figures.server
  pub sender_nonneg : pos 0 ≤ℤ figures.sender

both_nonneg : (a b : ℤ) → ltb_ℤ a (pos 0) || ltb_ℤ b (pos 0) ≡ false → (pos 0 ≤ℤ a) × (pos 0 ≤ℤ b)
both_nonneg a b h = (ground arith, ground arith)

pub read_figures-IsRead :
    (f : ParsedProof) {figures : Figures} → read_figures f ≡ ok figures → IsRead f figures
unfolding read_figures
read_figures-IsRead f {figures} h =
    let (server, e1, h1) =
      >>=-eq-ok (or_reject (big_int f.my_balance) 400 "invalid-balances") _ h in
    let (sender, e2, h2) =
      >>=-eq-ok (or_reject (big_int f.their_balance) 400 "invalid-balances") _ h1 in
    let (nonce, e3, h3) = >>=-eq-ok (or_reject (big_int f.nonce) 400 "invalid-balances") _ h2 in
    let (c4, h4) =
      reject_if-eq-ok (ltb_ℤ server (pos 0) || ltb_ℤ sender (pos 0)) 400 "invalid-balances" _ h3 in
    let (_, h5) = reject_if-eq-ok (ltb_ℤ nonce (pos 1)) 402 "invalid-nonce" _ h4 in
    let same = ok_inj (sym h5) in
    let (n4, n5) = both_nonneg server sender c4 in
    rw same (record {
      server = or_reject-eq-ok _ _ _ e1;
      sender = or_reject-eq-ok _ _ _ e2;
      nonce = or_reject-eq-ok _ _ _ e3;
      server_nonneg = n4;
      sender_nonneg = n5;
    })
