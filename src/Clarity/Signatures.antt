-- ===== src/Clarity/Signatures.antt =====
-- `sip018Sign`, `sip018Verify` and the layouts of a signature.
use Prim.Native.String
use mailslot.Base.{
  ℕ, ◌-◌, String, Bool, false, List, [], ◌∷◌, ◌++◌, Option, none, some, ◌==◌, ◌||◌, eqb,
  if◌then◌else◌, take, length, any, Result, ok, err, ◌>>=◌,
}
use mailslot.Base.Text.{strip_0x}
use mailslot.Clarity.Values.{Codec, ClarityValue, compute_sip018_hash}

-- secp256k1 of @noble/curves, and the addresses of a public key. `sign` gives r and s and the
-- recovery id, `recover` the key in hexadecimal, none where it throws.
pub record Curve : Type 0 where
  pub sign : List ℕ → List ℕ → List ℕ × ℕ
  pub recover : List ℕ → List ℕ → ℕ → Option String
  pub mainnet_address : String → String
  pub testnet_address : String → String
  pub to_hex : List ℕ → String

-- `normalizeRecoveryId`
unfoldable pub normalize_recovery_id : ℕ → Option ℕ
normalize_recovery_id raw =
    if eqb raw 0 || eqb raw 1
    then some raw
    else if eqb raw 27 || eqb raw 28
    then some (raw - 27)
    else none

-- r and s with a recovery id.
pub record Candidate : Type 0 where
  pub compact : List ℕ
  pub recovery_id : ℕ

-- A candidate of 65 bytes, if the byte in the place of the recovery id is one.
unfoldable pub candidate_of : List ℕ → ℕ → List Candidate
unfolding normalize_recovery_id
candidate_of compact raw = elim (normalize_recovery_id raw) [
  | none ↦ []
  | some id ↦ record { compact = compact; recovery_id = id } ∷ []
]

-- The byte at the end of the list, zero of the empty one.
unfoldable pub last_byte : List ℕ → ℕ
last_byte [] = 0
last_byte (b ∷ []) = b
last_byte (b ∷ c ∷ rest) = last_byte (c ∷ rest)

-- Both layouts of 65 bytes: the recovery id first, or last.
unfoldable pub candidates_65 : List ℕ → List Candidate
unfolding candidate_of last_byte
candidates_65 [] = []
candidates_65 (first ∷ rest) =
    candidate_of rest first ++ candidate_of (take 64 (first ∷ rest)) (last_byte (first ∷ rest))

-- `signatureCandidates`
unfoldable pub signature_candidates : List ℕ → List Candidate
unfolding candidates_65
signature_candidates bytes =
    if eqb (length bytes) 64
    then record { compact = bytes; recovery_id = 0 }
      ∷ record { compact = bytes; recovery_id = 1 }
      ∷ []
    else if eqb (length bytes) 65
    then candidates_65 bytes
    else []

-- The candidate's key has the expected address on either network.
unfoldable pub is_signed_by : Curve → List ℕ → String → Candidate → Bool
is_signed_by curve hash expected candidate =
    elim (curve.recover hash candidate.compact candidate.recovery_id) [
      | none ↦ false
      | some key ↦ curve.mainnet_address key == expected || curve.testnet_address key == expected
    ]

-- `sip018Sign`: r, s and the recovery id, in hexadecimal.
unfoldable pub sign_value : Codec → Curve → String → ClarityValue → String → ℕ → Result String
sign_value k curve contract_id message key chain_id = do
  hash ← compute_sip018_hash k contract_id message chain_id
  let (compact, recovery) = curve.sign hash (k.from_hex (strip_0x key))
  ok (String.◌++◌ "0x" (curve.to_hex (compact ++ (recovery ∷ []))))

-- `sip018Verify`: false where the message has no hash.
unfoldable pub verify_value : Codec → Curve → String → ClarityValue → String → String → ℕ → Bool
unfolding signature_candidates is_signed_by
verify_value k curve contract_id message signature expected chain_id =
    elim (compute_sip018_hash k contract_id message chain_id) [
      | err e ↦ false
      | ok hash ↦
          any (is_signed_by curve hash expected)
            (signature_candidates (k.from_hex (strip_0x signature)))
    ]
