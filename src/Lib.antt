-- ===== src/Lib.antt =====
-- Mailslot: a server that takes encrypted messages against payments in a payment channel, keeps
-- them in an inbox, and hands each to its recipient when the recipient reveals the secret that its
-- payment is locked by.
--
-- The parts and where they are modelled:
-- - Base: helpers. Base/Tests (Boolean tests), Base/Lists, Base/Int (integers), Base/Outcome (typed
--   service errors and thrown errors), Base/Text (JavaScript's BigInt and toString on texts, the
--   tests of hexadecimal texts).
-- - Json, Crypto, Types, Transfer: values of JSON.parse, the hash lock of packages/crypto, the records
--   of packages/server/src/types.ts, the typed message of packages/server/src/sip018.ts.
-- - Store: packages/server/src/store.ts. Store/Rows has the tables as lists of rows in the order of
--   insertion and the queries on them, Store/Methods each method of SqliteMessageStore under its own
--   name in snake case, Store/Events the calls as events. Store/Evolution, Store/Finality,
--   Store/Claims, Store/Invariant, Store/Newest and Store/Inbox hold the proofs.
-- - Reservoir: packages/server/src/reservoir.ts. Reservoir/Tables has the tables of pipe states and
--   their queries, Reservoir/Proof the parsing of a payment proof, Reservoir/Payments
--   verifyIncomingPayment, recordCompletedIncomingPayment and createOutgoingPayment,
--   Reservoir/Cancel cancelMessage. Reservoir/Verify, Reservoir/Accept, Reservoir/Outgoing,
--   Reservoir/Refund and Reservoir/Complete hold the proofs.
-- - Reservoir/Liquidity: the operations of the same file on the liquidity of taps. Snapshots has the
--   state of a tap by the chain and by the tables, Opening createTapWithBorrowedLiquidityParams,
--   Funding createAddFundsParams, Borrowing createBorrowLiquidityParams, Syncing syncTapState and the
--   balances of getTrackedTapState, Disputes submitDisputeForCounterparty; Opened, Funded,
--   Refreshed, Synced and Disputed hold the proofs.
-- - Settings: packages/server/src/settings.ts. Settings/Table has the table and get, Settings/Update
--   the validation and update; Settings/Stored and Settings/Updated hold the proofs.
-- - Clarity: packages/server/src/sip018.ts. Clarity/Words and Clarity/Values have the bytes of Clarity
--   values and the hash, Clarity/Signatures signing and verification, Clarity/Transfers the signer
--   that fills the interface of Transfer; Clarity/Bytes, Clarity/Ordered, Clarity/Signed and
--   Clarity/Transfers hold the proofs.
-- - Auth: packages/server/src/auth.ts. Auth/Outside has the functions of Node.js that it calls,
--   Auth/Sessions the session tokens, Auth/Headers verifyInboxAuth with its two formats; Auth/Tokens
--   and Auth/Verified hold the proofs. Auth/Address has the c32check encoding of addresses, with
--   the proofs in Auth/Digits. App/Entry has requireAuth and requireAdminAuth of
--   packages/server/src/app.ts; App/Access and App/Sessions hold the proofs.
-- - App: packages/server/src/app.ts. App/Context has the state that the handlers share and their
--   monad, App/RateLimit consumeRateLimit and rateLimitCategory, App/Send handleSend, App/Inbox the
--   handlers of the inbox, App/Taps those of taps, App/PaymentInfo the terms of payment,
--   App/Webhook the webhook of disputes, App/Administration the update of settings; App/Windows,
--   App/Syncs, App/Patched, App/Administered, App/Replies and App/Claiming hold the proofs. A
--   handler checks a request, calls the reservoir on its tables and the store on its own, and
--   answers; what was written before an early response stays written.
--
-- A row of a table is a record, NULL is none, and a JSON column holds the record that it encodes.
-- Time is an argument. SQLite's CAST and LIKE, the serialization of principals, JSON.parse,
-- SHA-256, hashing, signing and recovery, the addresses of public keys and what the chain reports
-- are parameters: the records Platform, Signer, World, Server, Node, Codec, Curve, Digests and
-- Numbers (how JavaScript prints and reads a number). The address of a public key, which
-- Auth/Address computes from digests, is a field of those that use it. verify_incoming_payment and
-- the handlers run without a call of another request in between; check_incoming_payment and
-- record_incoming_payment are the two parts that others may come between.
--
-- Loops are structural, but for two on fuel, one more than the number: the printing of a number,
-- where Base/Text/Decimal shows that this is enough for every number, and the loop of c32encode,
-- whose digits have the value of the whole number, as Auth/Digits shows.
--
-- Not modelled: the routing of requests and CORS (packages/server/src/app.ts), encryption, the
-- start of the server, the client library and the web application. The human-readable text of
-- errors is left out.
pub mod Base
pub mod Json
pub mod Crypto
pub mod Types
pub mod Store
pub mod Transfer
pub mod Reservoir
pub mod Settings
pub mod Clarity
pub mod Auth
pub mod App
