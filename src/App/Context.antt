-- ===== src/App/Context.antt =====
-- What the handlers share: the state of the server, its parts that they are given, and responses.
use mailslot.Base.{
  ℕ, String, Option, none, some, Bool, if◌then◌else◌, Result, ok, err, Failure, service, thrown,
}
use mailslot.Types.{
  StoredMessage, MailMessage, InboxEntry, PendingPayment, DeferredReason, DeliveryState,
  RuntimeSettings,
}
use mailslot.Transfer.{Signer}
use mailslot.Store.Rows.{Store}
use mailslot.Reservoir.Tables.{Platform, Config, Tables, World}
use mathlib.Core.List.{List}

-- The database: the tables of the store and those of the reservoir.
pub record Database : Type 0 where
  pub store : Store
  pub tables : Tables

-- What a handler is given besides the request: the outside of the server, the settings, the ids
-- that `randomUUID` returns, `Buffer.byteLength(text, 'hex')`, SHA-256 on hexadecimal texts, and the addresses of a public key.
pub record Server : Type 0 where
  pub platform : Platform
  pub signer : Signer
  pub config : Config
  pub settings : RuntimeSettings
  pub max_encrypted_bytes : ℕ
  pub hex_byte_length : String → ℕ
  pub sha256 : String → String
  pub mainnet_address : String → String
  pub testnet_address : String → String
  pub world : World
  pub new_id : String

-- A response: a status with an error, or the body of one of the successes.
pub data Response : Type 0 where
  failed : ℕ → String → Response
  sent : String → Response
  accepted_deferred : String → DeferredReason → Response
  listed : List InboxEntry → Response
  previewed_message : StoredMessage → PendingPayment → Response
  claimed_message : MailMessage → Option PendingPayment → Response
  stored_message : MailMessage → Response
  cancelled_message : String → DeliveryState → Response
  payment_required : String → String → Response

-- A typed service error is answered with its status and reason; any other is a 500.
abbrev pub failure_response : Failure → Response
failure_response (service status reason) = failed status reason
failure_response (thrown message) = failed 500 "internal-error"

-- A handler changes the database and goes on with a value, or is done with a response.
pub data Reply {ℓ} (A : Type ℓ) : Type ℓ where
  done : Response → Reply A
  next : A → Reply A

abbrev pub Handler : Type 0 → Type 0
Handler A = Database → Reply A × Database

infixl 5 ◌>>=◌ ◌>>◌
abbrev pub ◌>>=◌ : {A B : Type 0} → Handler A → (A → Handler B) → Handler B
◌>>=◌ m f db = let (r, db') = m db in elim r [ done x ↦ (done x, db') | next a ↦ f a db' ]

abbrev pub ◌>>◌ : {B : Type 0} → Handler (Unit {0}) → Handler B → Handler B
m >> k = m >>= λ _. k

abbrev pub respond : {A : Type 0} → Response → Handler A
respond r db = (done r, db)

abbrev pub pure : {A : Type 0} → A → Handler A
pure a db = (next a, db)

abbrev pub respond_if : Bool → ℕ → String → Handler (Unit {0})
respond_if bad status error db = (if bad then done (failed status error) else next tt, db)

abbrev pub or_respond : {A : Type 0} → Option A → ℕ → String → Handler A
or_respond none status error db = (done (failed status error), db)
or_respond (some a) status error db = (next a, db)

abbrev pub get_store : Handler Store
get_store db = (next db.store, db)

-- A call of the store or of the reservoir that fails leaves its tables as they were.
abbrev pub lift : {A : Type 0} → Result A → Handler A
lift (ok a) db = (next a, db)
lift (err e) db = (done (failure_response e), db)

abbrev settle_tables : {A : Type 0} → Database → Result (A × Tables) → Reply A × Database
settle_tables db (ok (a, t)) = (next a, record db { tables = t })
settle_tables db (err e) = (done (failure_response e), db)

abbrev pub with_tables : {A : Type 0} → (Tables → Result (A × Tables)) → Handler A
with_tables f db = settle_tables db (f db.tables)

-- A call whose errors no handler catches: each of them is a 500.
abbrev settle_unhandled : {A : Type 0} → Database → Result (A × Tables) → Reply A × Database
settle_unhandled db (ok (a, t)) = (next a, record db { tables = t })
settle_unhandled db (err e) = (done (failed 500 "internal-error"), db)

abbrev pub with_tables_unhandled : {A : Type 0} → (Tables → Result (A × Tables)) → Handler A
with_tables_unhandled f db = settle_unhandled db (f db.tables)

abbrev settle_store : Database → Result Store → Reply (Unit {0}) × Database
settle_store db (ok st) = (next tt, record db { store = st })
settle_store db (err e) = (done (failure_response e), db)

abbrev pub with_store : (Store → Result Store) → Handler (Unit {0})
with_store f db = settle_store db (f db.store)

abbrev pub change_store : (Store → Store) → Handler (Unit {0})
change_store f db = (next tt, record db { store = f db.store })

-- The response of a handler that is done.
abbrev pub run_handler : Handler Response → Database → Response × Database
run_handler m db = let (r, db') = m db in (elim r [ done x ↦ x | next x ↦ x ], db')
