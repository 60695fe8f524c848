-- ===== src/Reservoir/Proof.antt =====
-- Reading a payment proof: canonical principals, the hashed secret, and the fields of the proof.
use mailslot.Base.{
  ℕ, String, Bool, true, false, List, [], ◌∷◌, Option, none, some, ◌==◌, ◌&&◌, ◌||◌, not, ltb,
  if◌then◌else◌, Result, ok, err, service, ◌>>=◌, ◌>>◌, or_throw, or_reject, reject_if,
}
use mailslot.Base.Text.{strip_0x, lower, is_hex}
use mailslot.Json.{Json, Value, str, obj, property, text_or, as_text, is_nullish}
use mailslot.Types.{PipeKey}
use mailslot.Reservoir.Tables.{Platform, Config, build_pipe_id}

-- The first byte at which two texts differ decides; where there is none, they stay as they are.
pub data Comparison : Type 0 where
  less greater undecided : Comparison

unfoldable pub compare_bytes : List ℕ → List ℕ → Comparison
compare_bytes [] bs = undecided
compare_bytes (a ∷ as_) [] = undecided
compare_bytes (a ∷ as_) (b ∷ bs) =
    let rest = compare_bytes as_ bs in if ltb a b then less else if ltb b a then greater else rest

abbrev pub in_order : String → String → Comparison → String × String
in_order a b less = (a, b)
in_order a b greater = (b, a)
in_order a b undecided = (a, b)

-- `normalizeHex32`
unfoldable pub normalize_hex32 : String → Result String
normalize_hex32 value =
    let normalized = lower (strip_0x value) in
    if is_hex 64 normalized then ok normalized else err (service 400 "invalid-hashed-secret")

unfoldable pub optional_hex32 : Option String → Result (Option String)
unfolding normalize_hex32
optional_hex32 none = ok none
optional_hex32 (some value) = do normalized ← normalize_hex32 value; ok (some normalized)

-- `ParsedPaymentProof`
pub record ParsedProof : Type 0 where
  pub contract_id : String
  pub pipe_key : PipeKey
  pub pipe_id : String
  pub my_balance : String
  pub their_balance : String
  pub nonce : String
  pub action : String
  pub actor : String
  pub hashed_secret : Option String
  pub their_signature : Option String
  pub valid_after : Option String

-- An object that is no array.
abbrev is_object : Value → Bool
is_object (some (obj _)) = true
is_object _ = false

abbrev is_text : Value → Bool
is_text (some (str _)) = true
is_text _ = false

abbrev pub text_else : String → Option String → String
text_else fallback none = fallback
text_else fallback (some t) = t

-- `x || null`
abbrev pub non_empty : String → Option String
non_empty t = if t == "" then none else some t

module _ (p : Platform) where
  -- `canonicalPipePrincipals`
  unfoldable pub canonical_pipe_principals : String → String → Result (String × String)
  canonical_pipe_principals a b = do
    sa ← or_throw (p.serialize_principal a) "invalid principal"
    sb ← or_throw (p.serialize_principal b) "invalid principal"
    ok (in_order a b (compare_bytes sa sb))

  -- Base64url first, and the text itself where that is no JSON.
  unfoldable pub decode_proof : String → Result Json
  decode_proof raw = elim (p.decode_base64url raw) [
    | some json ↦ ok json
    | none ↦ or_reject (p.decode raw) 400 "invalid-proof-encoding"
  ]

  -- The key of a proof, as it is validated.
  unfoldable pub parse_pipe_key : Json → Result PipeKey
  parse_pipe_key raw = do
    principal_1 ← property raw "principal-1"
    principal_2 ← property raw "principal-2"
    token ← property raw "token"
    a ← or_reject (as_text principal_1) 400 "invalid-pipe-key"
    b ← or_reject (as_text principal_2) 400 "invalid-pipe-key"
    reject_if (a == b) 400 "invalid-pipe-key"
    reject_if (not (is_nullish token) && not (is_text token)) 400 "invalid-pipe-key"
    (first, second) ← canonical_pipe_principals a b
    reject_if (not (first == a) || not (second == b)) 402 "non-canonical-pipe-key"
    ok (record { principal_1 = a; principal_2 = b; token = as_text token })

  -- `parseIncomingPaymentProof`, from the decoded proof on.
  unfoldable pub parse_proof : Config → Json → Result ParsedProof
  unfolding parse_pipe_key optional_hex32
  parse_proof c proof = do
    contract ← property proof "contractId"
    let contract_id = text_else c.contract_id (as_text contract)
    pipe_key ← property proof "pipeKey"
    reject_if (not (is_object pipe_key)) 400 "missing-pipe-key"
    raw_key ← or_reject pipe_key 400 "missing-pipe-key"
    key ← parse_pipe_key raw_key
    my_balance ← property proof "myBalance"
    their_balance ← property proof "theirBalance"
    nonce ← property proof "nonce"
    action ← property proof "action"
    actor ← property proof "actor"
    secret ← property proof "hashedSecret"
    hashed_secret ← optional_hex32 (as_text secret)
    signature ← property proof "theirSignature"
    valid_after ← property proof "validAfter"
    ok (record {
      contract_id = contract_id;
      pipe_key = key;
      pipe_id = build_pipe_id contract_id key;
      my_balance = text_or "" my_balance;
      their_balance = text_or "" their_balance;
      nonce = text_or "" nonce;
      action = text_or "1" action;
      actor = text_else "" (as_text actor);
      hashed_secret = hashed_secret;
      their_signature = as_text signature;
      valid_after = as_text valid_after;
    })

  unfoldable pub parse_incoming_payment_proof : Config → String → Result ParsedProof
  parse_incoming_payment_proof c raw = do json ← decode_proof raw; parse_proof c json
