-- ===== src/Reservoir/Complete.antt =====
-- `recordCompletedIncomingPayment`: the state that becomes enforceable.
use mailslot.Base.{
  String, Bool, true, List, [], ◌∷◌, some, ◌≡◌, refl, ◌==◌, ◌&&◌, not, eq_refl, find, select, All,
  Bool-cases, Option, none, coalesce, inl, inr, ok, >>=-eq-ok, ok_inj,
}
use mailslot.Base.Int.{leb_ℤ}
use mailslot.Transfer.{Signer}
use mailslot.Reservoir.Tables.{
  Platform, Config, PipeRow, PendingRow, Tables, World, merged_pipe, put_pipe, upsert_pipe,
  get_pipe_row, delete_pending_states_at_or_below_nonce,
}
use mailslot.Reservoir.Proof.{ParsedProof, non_empty, parse_incoming_payment_proof}
use mailslot.Reservoir.Payments.{record_completed_incoming_payment}

-- The row of a pipe after an update: a secret that is not given stays.
pub record IsWritten (r row : PipeRow) (rows : List PipeRow) : Type 0 where
  pub located : find (λ (x : PipeRow). x.pipe_id == r.pipe_id) (put_pipe r rows) ≡ some row
  pub server : row.server_balance ≡ r.server_balance
  pub theirs : row.counterparty_balance ≡ r.counterparty_balance
  pub nonce : row.nonce ≡ r.nonce
  pub before : Option String
  pub secret : row.enforceable_secret ≡ coalesce r.enforceable_secret before

coalesce-none : {A : Type 0} (o : Option A) → o ≡ coalesce o none
coalesce-none none = refl
coalesce-none (some a) = refl

pub put_pipe-IsWritten :
    (r : PipeRow) (rows : List PipeRow) → (row : PipeRow) × IsWritten r row rows
unfolding put_pipe
put_pipe-IsWritten r [] = (
  r,
  record {
    located = rw eq_refl refl;
    server = refl;
    theirs = refl;
    nonce = refl;
    before = none;
    secret = coalesce-none r.enforceable_secret;
  },
)
put_pipe-IsWritten r (old ∷ rows) = elim (Bool-cases (old.pipe_id == r.pipe_id)) [
  | inl same ↦ (
    merged_pipe r old,
    record {
      located = rw (same, same) refl;
      server = refl;
      theirs = refl;
      nonce = refl;
      before = old.enforceable_secret;
      secret = refl;
    },
  )
  | inr other ↦
      let (row, put) = put_pipe-IsWritten r rows in
      (
        row,
        record {
          located = rw (other, other) put.located;
          server = put.server;
          theirs = put.theirs;
          nonce = put.nonce;
          before = put.before;
          secret = put.secret;
        },
      )
]

pub select-All :
    {A : Type 0} (test : A → Bool) (xs : List A) → All (λ x. test x ≡ true) (select test xs)
select-All test [] = tt
select-All test (x ∷ xs) = elim (Bool-cases (test x)) [
  | inl kept ↦ rw kept (kept, select-All test xs)
  | inr gone ↦ rw gone (select-All test xs)
]

-- The tables once the payment of a proof is completed with a secret.
pub record IsCompleted (p : Platform) (f : ParsedProof) (secret : String) (t t' : Tables)
    : Type 0 where
  pub row : PipeRow
  pub located : get_pipe_row p f.pipe_id t' ≡ some row
  pub server : row.server_balance ≡ f.my_balance
  pub theirs : row.counterparty_balance ≡ f.their_balance
  pub nonce : row.nonce ≡ f.nonce
  pub revealed : row.enforceable_secret ≡ some secret
  pub cleared :
      All
        (λ (r : PendingRow).
          not (r.pipe_id == f.pipe_id && leb_ℤ (p.cast_integer r.nonce) (p.cast_integer f.nonce))
          ≡ true)
        t'.pending

-- The row that a completed payment puts.
abbrev completed_row : World → ParsedProof → String → PipeRow
completed_row w f secret = record {
  pipe_id = f.pipe_id;
  contract_id = f.contract_id;
  pipe_key = f.pipe_key;
  server_balance = f.my_balance;
  counterparty_balance = f.their_balance;
  nonce = f.nonce;
  last_action = some f.action;
  last_actor = non_empty f.actor;
  last_hashed_secret = f.hashed_secret;
  last_valid_after = f.valid_after;
  last_server_signature = none;
  last_counterparty_signature = f.their_signature;
  enforceable_secret = some secret;
  updated_at = w.sql_now;
}

-- A completed payment makes the balances and the nonce of its proof the enforceable state of the
-- pipe, with the secret, whatever state stood there before, and leaves no pending state of the pipe
-- up to that nonce.
pub record_completed_incoming_payment-IsCompleted :
    (p : Platform) (s : Signer) (c : Config) (w : World) (raw secret : String) (t t' : Tables)
    → record_completed_incoming_payment p s c w raw secret t ≡ ok t'
    → (f : ParsedProof) × (parse_incoming_payment_proof p c raw ≡ ok f)
      × IsCompleted p f secret t t'
unfolding record_completed_incoming_payment upsert_pipe delete_pending_states_at_or_below_nonce
    get_pipe_row
record_completed_incoming_payment-IsCompleted p s c w raw secret t t' h =
    let (f, parsed, h1) = >>=-eq-ok (parse_incoming_payment_proof p c raw) _ h in
    let (row, put) = put_pipe-IsWritten (completed_row w f secret) t.pipes in
    (
      f,
      parsed,
      rw (← ok_inj h1) (record {
        row = row;
        located = put.located;
        server = put.server;
        theirs = put.theirs;
        nonce = put.nonce;
        revealed = put.secret;
        cleared = select-All _ t.pending;
      }),
    )
