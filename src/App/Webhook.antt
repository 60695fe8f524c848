-- ===== src/App/Webhook.antt =====
-- `handleDisputeWebhook` and `extractWebhookCounterparty`.
use Prim.Native.Char.{code}
use mailslot.Base.{
  String, false, Option, none, some, ◌≡◌, sym, ap, ◌∙◌, ◌==◌, ◌||◌, not, eqb, eq_iff, arith,
  if◌then◌else◌, Result, ok, ◌>>=◌, ◌>>◌, or_reject, reject_if, >>=-eq-ok, reject_if-eq-ok, ok_inj,
}
use mailslot.Base.Text.{trim}
use mailslot.Json.{Json, Value, obj, end, property, as_text}
use mailslot.Reservoir.Tables.{Platform, Config, Tables}
use mailslot.Reservoir.Liquidity.Disputes.{DisputeCall, Dispute, submit_dispute_for_counterparty}
use mailslot.Reservoir.Liquidity.Disputed.{IsDisputed, submit_dispute-IsDisputed}
use mailslot.App.Entry.{is_stacks_address}

-- The rest of a text that begins with another.
unfoldable pub after_prefix : String → String → Option String
after_prefix String.[] s = some s
after_prefix (String.◌∷◌ c p) String.[] = none
after_prefix (String.◌∷◌ c p) (String.◌∷◌ d s) =
    let rest = after_prefix p s in if eqb (code c) (code d) then rest else none

-- `authHeader.startsWith('Bearer ') ? authHeader.slice(7).trim() : ''`
unfoldable pub bearer_token : Option String → String
unfolding after_prefix
bearer_token none = ""
bearer_token (some header) = elim (after_prefix "Bearer " header) [ none ↦ "" | some t ↦ trim t ]

-- The token of the request: its own header first.
unfoldable pub webhook_token : Option String → Option String → String
unfolding bearer_token
webhook_token (some own) authorization = own
webhook_token none authorization = bearer_token authorization

-- A text that is an address.
unfoldable pub address_of : Value → Option String
address_of v = elim (as_text v) [
  | none ↦ none
  | some t ↦ if is_stacks_address t then some t else none
]

-- The first of two candidates.
unfoldable pub first_of : Option String → Option String → Option String
first_of (some a) b = some a
first_of none b = b

-- `extractWebhookCounterparty`
unfoldable pub extract_webhook_counterparty : Json → Result (Option String)
unfolding address_of first_of
extract_webhook_counterparty payload = do
  counterparty ← property payload "counterparty"
  address ← property payload "address"
  wallet ← property payload "wallet"
  sender ← property payload "sender"
  recipient ← property payload "recipient"
  sender_address ← property payload "senderAddress"
  recipient_address ← property payload "recipientAddress"
  counterparty_address ← property payload "counterpartyAddress"
  ok (
      first_of (address_of counterparty) (
        first_of (address_of address) (
          first_of (address_of wallet) (
            first_of (address_of sender) (
              first_of (address_of recipient) (
                first_of (address_of sender_address)
                  (first_of (address_of recipient_address) (address_of counterparty_address))))))))

-- The payload; an empty body is an empty object.
unfoldable pub webhook_payload : Platform → String → Option Json
webhook_payload p body = if body == "" then some (obj end) else p.decode body

-- `handleDisputeWebhook` with the configured token.
unfoldable pub handle_dispute_webhook :
    Platform
    → Config
    → (DisputeCall → Result (Option String))
    → String
    → Option String
    → Option String
    → Option String
    → Tables
    → Result (String × Dispute)
unfolding webhook_token webhook_payload
handle_dispute_webhook p c broadcast configured own authorization body t = do
  reject_if (configured == "") 503 "dispute-webhook-disabled"
  let token = webhook_token own authorization
  reject_if (token == "" || not (token == configured)) 401 "invalid-webhook-token"
  text ← or_reject body 413 "body-too-large"
  payload ← or_reject (webhook_payload p text) 400 "invalid-json"
  found ← extract_webhook_counterparty payload
  counterparty ← or_reject found 400 "missing-counterparty"
  submitted ← submit_dispute_for_counterparty p c broadcast counterparty t
  ok (counterparty, submitted)

same_token : (a b : String) → (a == "" || not (a == b)) ≡ false → a ≡ b
same_token a b h = ground (arith, eq_iff a b)

-- A webhook that is answered with success has the configured token, which is not empty, and what is
-- disputed is the enforceable state of the tap of the counterparty that is answered.
pub handle_dispute_webhook-IsDisputed :
    (p : Platform) (c : Config) (broadcast : DisputeCall → Result (Option String))
    (configured : String) (own authorization body : Option String) (t : Tables)
    (counterparty : String) (d : Dispute)
    → handle_dispute_webhook p c broadcast configured own authorization body t
      ≡ ok (counterparty, d)
    → ((configured == "") ≡ false)
      × (webhook_token own authorization ≡ configured)
      × IsDisputed p c broadcast counterparty t d
unfolding handle_dispute_webhook
handle_dispute_webhook-IsDisputed p c broadcast configured own authorization body t counterparty d
      h =
    let token = webhook_token own authorization in
    let (c1, h1) = reject_if-eq-ok (configured == "") 503 "dispute-webhook-disabled" _ h in
    let (c2, h2) =
      reject_if-eq-ok (token == "" || not (token == configured)) 401 "invalid-webhook-token" _ h1 in
    let (text, _, h3) = >>=-eq-ok (or_reject body 413 "body-too-large") _ h2 in
    let (payload, _, h4) = >>=-eq-ok (or_reject (webhook_payload p text) 400 "invalid-json") _ h3 in
    let (found, _, h5) = >>=-eq-ok (extract_webhook_counterparty payload) _ h4 in
    let (named, _, h6) = >>=-eq-ok (or_reject found 400 "missing-counterparty") _ h5 in
    let (submitted, e7, h7) =
      >>=-eq-ok (submit_dispute_for_counterparty p c broadcast named t) _ h6 in
    let same = ok_inj h7 in
    let of_named =
      ap (λ n. submit_dispute_for_counterparty p c broadcast n t)
        (sym (ap (λ (r : String × Dispute). r.0) same))
      ∙ e7
      ∙ ap ok (ap (λ (r : String × Dispute). r.1) same) in
    (
      c1,
      same_token token configured c2,
      submit_dispute-IsDisputed p c broadcast counterparty t d of_named,
    )
