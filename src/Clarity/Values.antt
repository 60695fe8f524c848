-- ===== src/Clarity/Values.antt =====
-- `serializeClarityValue`, the domain, and `computeSip018Hash`.
use mailslot.Base.{
  ℕ, ◌%◌, String, Bool, List, [], ◌∷◌, ◌++◌, Option, if◌then◌else◌, length, Result, ok, ◌>>=◌,
  or_throw,
}
use mailslot.Base.Int.{ℤ, pos}
use mailslot.Base.Text.{strip_0x}
use mailslot.Clarity.Words.{u32be, u128be}

-- `ClarityValue`; the value of a `uint` has gone through `BigInt`.
mutual
  pub data ClarityValue : Type 0 where
    uint : ℤ → ClarityValue
    principal : String → ClarityValue
    buff : String → ClarityValue
    absent : ClarityValue
    present : ClarityValue → ClarityValue
    string_ascii : String → ClarityValue
    tuple : Members → ClarityValue

  pub data Members : Type 0 where
    end : Members
    member : String → ClarityValue → Members → Members

-- What Node.js and @stacks/transactions give: the bytes of a principal, none where it is no
-- principal, the bytes of a hexadecimal text, of an ASCII and of a UTF-8 text, SHA-256, and the order
-- of texts by their UTF-16 units.
pub record Codec : Type 0 where
  pub principal_bytes : String → Option (List ℕ)
  pub from_hex : String → List ℕ
  pub from_ascii : String → List ℕ
  pub from_utf8 : String → List ℕ
  pub sha256 : List ℕ → List ℕ
  pub before : String → String → Bool

-- The bytes with their length in front.
unfoldable pub with_length : List ℕ → Result (List ℕ)
with_length bytes = do size ← u32be (length bytes); ok (size ++ bytes)

-- The members that come before a name, by its order: one step of `sort`.
unfoldable pub insert_member :
    Codec → String → List ℕ → List (String × List ℕ) → List (String × List ℕ)
insert_member k name bytes [] = (name, bytes) ∷ []
insert_member k name bytes ((other, others) ∷ rest) =
    if k.before other name
    then (other, others) ∷ insert_member k name bytes rest
    else (name, bytes) ∷ (other, others) ∷ rest

-- `Buffer.from([nb.length]), nb, value`, one member after the other; a byte keeps the length's
-- lowest eight bits.
unfoldable pub member_bytes : Codec → List (String × List ℕ) → List ℕ
member_bytes k [] = []
member_bytes k ((name, bytes) ∷ rest) =
    length (k.from_utf8 name) % 256 ∷ (k.from_utf8 name ++ (bytes ++ member_bytes k rest))

-- `serializeClarityValue`: the members of a tuple in the order of their names.
unfoldable mutual
  pub serialize_clarity_value : Codec → ClarityValue → Result (List ℕ)
  serialize_clarity_value k (uint n) = ok (1 ∷ u128be n)
  serialize_clarity_value k (principal p) = or_throw (k.principal_bytes p) "invalid principal"
  serialize_clarity_value k (buff text) = do
    bytes ← with_length (k.from_hex (strip_0x text))
    ok (2 ∷ bytes)
  serialize_clarity_value k absent = ok (9 ∷ [])
  serialize_clarity_value k (present v) = do bytes ← serialize_clarity_value k v; ok (10 ∷ bytes)
  serialize_clarity_value k (string_ascii text) = do
    bytes ← with_length (k.from_ascii text)
    ok (13 ∷ bytes)
  serialize_clarity_value k (tuple members) = do
    sorted ← serialize_members k members
    size ← u32be (length sorted)
    ok (12 ∷ (size ++ member_bytes k sorted))

  pub serialize_members : Codec → Members → Result (List (String × List ℕ))
  serialize_members k end = ok []
  serialize_members k (member name v rest) = do
    bytes ← serialize_clarity_value k v
    sorted ← serialize_members k rest
    ok (insert_member k name bytes sorted)

-- `buildDomain`
unfoldable pub build_domain : String → ℕ → ClarityValue
build_domain contract_id chain_id = tuple (
    member "chain-id" (uint (pos chain_id))
      (member "name" (string_ascii contract_id) (member "version" (string_ascii "0.6.0") end)))

-- `computeSip018Hash` of a message's tuple: "SIP018", the hash of the domain, that of the message.
unfoldable pub compute_sip018_hash : Codec → String → ClarityValue → ℕ → Result (List ℕ)
unfolding serialize_clarity_value build_domain
compute_sip018_hash k contract_id message chain_id = do
  domain ← serialize_clarity_value k (build_domain contract_id chain_id)
  bytes ← serialize_clarity_value k message
  ok (k.sha256 (83 ∷ 73 ∷ 80 ∷ 48 ∷ 49 ∷ 56 ∷ (k.sha256 domain ++ k.sha256 bytes)))
