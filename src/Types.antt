-- ===== src/Types.antt =====
-- packages/server/src/types.ts: the records of the server. A JSON column holds the record that it
-- encodes; times are numbers of milliseconds; amounts are the decimal texts of the wire.
use mailslot.Base.{ℕ, String, Bool, Option}

pub record PipeKey : Type 0 where
  pub principal_1 : String
  pub principal_2 : String
  pub token : Option String

-- `EncryptedMail` of packages/crypto, version 1.
pub record EncryptedMail : Type 0 where
  pub epk : String
  pub iv : String
  pub cipher : String

-- The `stateProof` that `createOutgoingPayment` builds.
pub record StateProof : Type 0 where
  pub contract_id : String
  pub pipe_key : PipeKey
  pub for_principal : String
  pub with_principal : String
  pub signer_address : String
  pub my_balance : String
  pub their_balance : String
  pub nonce : String
  pub action : String
  pub actor : String
  pub hashed_secret : String
  pub their_signature : String

pub record PendingPayment : Type 0 where
  pub state_proof : StateProof
  pub amount : String
  pub hashed_secret : String

pub data DeliveryState : Type 0 where
  ready previewed deferred settled cancelled : DeliveryState

pub data DeferredReason : Type 0 where
  no_recipient_tap insufficient_recipient_liquidity : DeferredReason

pub record InboxEntry : Type 0 where
  pub id : String
  pub sender : String
  pub sent_at : ℕ
  pub amount : String
  pub claimed : Bool

pub record MailMessage : Type 0 where
  pub id : String
  pub sender : String
  pub recipient : String
  pub sent_at : ℕ
  pub amount : String
  pub fee : String
  pub payment_id : String
  pub encrypted_payload : EncryptedMail

pub record StoredMessage : Type 0 where
  pub id : String
  pub sender : String
  pub recipient : String
  pub sent_at : ℕ
  pub amount : String
  pub fee : String
  pub payment_id : String
  pub hashed_secret : String
  pub encrypted_payload : EncryptedMail
  pub pending_payment : Option PendingPayment
  pub delivery_state : DeliveryState
  pub deferred_reason : Option DeferredReason
  pub deferred_until : Option ℕ
  pub previewed_at : Option ℕ
  pub cancelled_at : Option ℕ
  pub claimed : Bool
  pub claimed_at : Option ℕ
  pub payment_settled : Bool

pub record SettlementRecord : Type 0 where
  pub message_id : String
  pub payment_id : String
  pub recipient_addr : String
  pub hashed_secret : String
  pub secret : String
  pub pending_payment : Option PendingPayment
  pub settled_at : ℕ

-- `RuntimeSettings`, as the service reads them: the counts and times are non-negative integers.
pub record RuntimeSettings : Type 0 where
  pub message_price_sats : String
  pub min_fee_sats : String
  pub max_pending_per_sender : ℕ
  pub max_pending_per_recipient : ℕ
  pub max_deferred_per_sender : ℕ
  pub max_deferred_per_recipient : ℕ
  pub max_deferred_global : ℕ
  pub deferred_message_ttl_ms : ℕ
  pub max_borrow_per_tap : String
  pub receive_capacity_multiplier : ℕ
  pub refresh_capacity_cooldown_ms : ℕ
