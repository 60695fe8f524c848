-- ===== src/Transfer.antt =====
-- packages/server/src/sip018.ts: the message of a StackFlow transfer, and signing as an interface.
use mailslot.Base.{ℕ, String, Bool, false, Option, none, some, ◌==◌, if◌then◌else◌}
use mailslot.Base.Int.{ℤ}
use mailslot.Base.Text.{big_int}
use mailslot.Types.{PipeKey}

-- `TransferState`; the numbers are texts.
pub record TransferState : Type 0 where
  pub pipe_key : PipeKey
  pub for_principal : String
  pub my_balance : String
  pub their_balance : String
  pub nonce : String
  pub action : String
  pub actor : String
  pub hashed_secret : Option String
  pub valid_after : Option String

-- The typed message that is signed; `uint` fields are texts still.
pub record TypedMessage : Type 0 where
  pub principal_1 : String
  pub principal_2 : String
  pub token : Option String
  pub balance_1 : String
  pub balance_2 : String
  pub nonce : String
  pub action : String
  pub actor : String
  pub hashed_secret : Option String
  pub valid_after : Option String

-- `buildTransferMessage`: the first balance is that of the first principal of the pipe.
unfoldable pub build_transfer_message : TransferState → TypedMessage
build_transfer_message s =
    let local_is_principal_1 = s.pipe_key.principal_1 == s.for_principal in
    record {
      principal_1 = s.pipe_key.principal_1;
      principal_2 = s.pipe_key.principal_2;
      token = s.pipe_key.token;
      balance_1 = if local_is_principal_1 then s.my_balance else s.their_balance;
      balance_2 = if local_is_principal_1 then s.their_balance else s.my_balance;
      nonce = s.nonce;
      action = s.action;
      actor = s.actor;
      hashed_secret = s.hashed_secret;
      valid_after = s.valid_after;
    }

-- The Clarity values of a message: what its hash is taken of.
pub record MessageValues : Type 0 where
  pub principal_1 : String
  pub principal_2 : String
  pub token : Option String
  pub balance_1 : ℤ
  pub balance_2 : ℤ
  pub nonce : ℤ
  pub action : ℤ
  pub actor : String
  pub hashed_secret : Option String
  pub valid_after : Option ℤ

infixl 5 ◌>>=◌
abbrev ◌>>=◌ {ℓ κ} : {A : Type ℓ} {B : Type κ} → Option A → (A → Option B) → Option B
none >>= f = none
some a >>= f = f a

-- `none` where a conversion throws.
optional_int : Option String → Option (Option ℤ)
optional_int none = some none
optional_int (some t) = do n ← big_int t; some (some n)

-- `convertTypedField` on each field of the message: a `uint` goes through `BigInt(String(value))`.
unfoldable pub message_values : TypedMessage → Option MessageValues
unfolding optional_int
message_values m = do
  balance_1 ← big_int m.balance_1
  balance_2 ← big_int m.balance_2
  nonce ← big_int m.nonce
  action ← big_int m.action
  valid_after ← optional_int m.valid_after
  some (record {
    principal_1 = m.principal_1;
    principal_2 = m.principal_2;
    token = m.token;
    balance_1 = balance_1;
    balance_2 = balance_2;
    nonce = nonce;
    action = action;
    actor = m.actor;
    hashed_secret = m.hashed_secret;
    valid_after = valid_after;
  })

-- Hashing, signing and recovery on the values of a message. `sign contract values key chain` is
-- `none` where it throws.
pub record Signer : Type 0 where
  pub sign : String → MessageValues → String → ℕ → Option String
  pub verify : String → MessageValues → String → String → ℕ → Bool

-- `sip018Sign`, `none` where it throws.
unfoldable pub sip018_sign : Signer → String → TypedMessage → String → ℕ → Option String
sip018_sign s contract_id m key chain_id = do
  values ← message_values m
  s.sign contract_id values key chain_id

-- `sip018Verify`: a message that does not convert is not verified.
unfoldable pub sip018_verify : Signer → String → TypedMessage → String → String → ℕ → Bool
sip018_verify s contract_id m signature address chain_id = elim (message_values m) [
  | none ↦ false
  | some values ↦ s.verify contract_id values signature address chain_id
]
