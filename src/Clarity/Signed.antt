-- ===== src/Clarity/Signed.antt =====
-- A signature that is made is verified.
use Prim.Native.String
use mailslot.Base.{
  ℕ, suc, String, Bool, true, List, [], ◌∷◌, ◌++◌, some, ◌≡◌, refl, sym, ap, ◌∙◌, ◌==◌, ◌||◌, arith,
  ◌⊎◌, inl, inr, take, length, any, ok, ok_inj,
}
use mailslot.Base.Text.{strip_0x}
use mailslot.Clarity.Values.{Codec, ClarityValue, compute_sip018_hash}
use mailslot.Clarity.Signatures.{
  Curve, Candidate, normalize_recovery_id, candidate_of, last_byte, candidates_65,
  signature_candidates, is_signed_by, sign_value, verify_value,
}

module _ {A : Type 0} where
  length-snoc : (xs : List A) (x : A) → length (xs ++ (x ∷ [])) ≡ suc (length xs)
  length-snoc [] x = refl
  length-snoc (y ∷ xs) x = ap suc (length-snoc xs x)

  take-snoc : (xs : List A) (x : A) → take (length xs) (xs ++ (x ∷ [])) ≡ xs
  take-snoc [] x = refl
  take-snoc (y ∷ xs) x = ap (λ r. y ∷ r) (take-snoc xs x)

  -- What an element at the end of a list passes, one of the list passes.
  any-snoc :
      (test : A → Bool) (xs : List A) (x : A) → test x ≡ true → any test (xs ++ (x ∷ [])) ≡ true
  any-snoc test [] x h = rw h refl
  any-snoc test (y ∷ xs) x h = let rest = any-snoc test xs x h in ground arith

last_byte-snoc : (xs : List ℕ) (x : ℕ) → last_byte (xs ++ (x ∷ [])) ≡ x
unfolding last_byte
last_byte-snoc [] x = refl
last_byte-snoc (y ∷ []) x = refl
last_byte-snoc (y ∷ z ∷ xs) x = last_byte-snoc (z ∷ xs) x

candidate_of_id :
    (compact : List ℕ) (id : ℕ)
    → (id ≡ 0) ⊎ (id ≡ 1)
    → candidate_of compact id ≡ record { compact = compact; recovery_id = id } ∷ []
unfolding candidate_of normalize_recovery_id
candidate_of_id compact id (inl e) = rw e refl
candidate_of_id compact id (inr e) = rw e refl

-- What the curve promises of a signature that it makes: 64 bytes and a recovery id of 0 or 1, with
-- which the key is recovered that has the signer's address on one of the networks; and hexadecimal
-- digits are read back.
pub record IsSigner (k : Codec) (curve : Curve) (key : String) (hash : List ℕ) (address : String)
    : Type 0 where
  pub compact : List ℕ
  pub recovery : ℕ
  pub public_key : String
  pub signs : curve.sign hash (k.from_hex (strip_0x key)) ≡ (compact, recovery)
  pub size : length compact ≡ 64
  pub id : (recovery ≡ 0) ⊎ (recovery ≡ 1)
  pub recovers : curve.recover hash compact recovery ≡ some public_key
  pub owned :
      (curve.mainnet_address public_key == address || curve.testnet_address public_key == address)
      ≡ true
  pub read :
      k.from_hex (strip_0x (String.◌++◌ "0x" (curve.to_hex (compact ++ (recovery ∷ [])))))
      ≡ compact ++ (recovery ∷ [])

-- 65 bytes are read in both layouts.
candidates_of_65 :
    (bytes : List ℕ) → length bytes ≡ 65 → signature_candidates bytes ≡ candidates_65 bytes
unfolding signature_candidates
candidates_of_65 bytes e = rw (e, signature_candidates) refl

-- Of r, s and a recovery id, the last layout is the signer's.
candidates_65-snoc :
    (first : ℕ) (rest : List ℕ) (recovery : ℕ)
    → length (first ∷ rest) ≡ 64
    → (recovery ≡ 0) ⊎ (recovery ≡ 1)
    → candidates_65 (first ∷ (rest ++ (recovery ∷ [])))
      ≡ candidate_of (rest ++ (recovery ∷ [])) first
        ++ (record { compact = first ∷ rest; recovery_id = recovery } ∷ [])
unfolding candidates_65
candidates_65-snoc first rest recovery size id =
    let whole = first ∷ rest in
    let before = candidate_of (rest ++ (recovery ∷ [])) first in
    let kept = ap (λ n. take n (whole ++ (recovery ∷ []))) (sym size) ∙ take-snoc whole recovery in
    ap (λ c. before ++ candidate_of c (last_byte (whole ++ (recovery ∷ [])))) kept
    ∙ ap (λ b. before ++ candidate_of whole b) (last_byte-snoc whole recovery)
    ∙ ap (λ l. before ++ l) (candidate_of_id whole recovery id)

signed_candidates :
    (test : Candidate → Bool) (compact : List ℕ) (recovery : ℕ)
    → length compact ≡ 64
    → (recovery ≡ 0) ⊎ (recovery ≡ 1)
    → test (record { compact = compact; recovery_id = recovery }) ≡ true
    → any test (signature_candidates (compact ++ (recovery ∷ []))) ≡ true
signed_candidates test [] recovery size id h = absurd (omega arith)
signed_candidates test (first ∷ rest) recovery size id h =
    ap (any test) (
      candidates_of_65 (first ∷ (rest ++ (recovery ∷ [])))
        (length-snoc (first ∷ rest) recovery ∙ ap suc size)
      ∙ candidates_65-snoc first rest recovery size id)
    ∙ any-snoc test (candidate_of (rest ++ (recovery ∷ [])) first)
        (record { compact = first ∷ rest; recovery_id = recovery }) h

is_signed_by-signer :
    (k : Codec) (curve : Curve) (key address : String) (hash : List ℕ)
    (s : IsSigner k curve key hash address)
    → is_signed_by curve hash address (record { compact = s.compact; recovery_id = s.recovery })
      ≡ true
unfolding is_signed_by
is_signed_by-signer k curve key address hash s = rw (s.recovers, is_signed_by) s.owned

-- The signature that is made of a message, whatever its domain and chain, is verified for the
-- signer's address, where the curve recovers the signer's key; that another layout of the bytes may
-- be read first does not prevent it.
pub verify_value-sign_value :
    (k : Codec) (curve : Curve) (contract_id : String) (message : ClarityValue) (key : String)
    (chain_id : ℕ) (address signature : String) (hash : List ℕ)
    → compute_sip018_hash k contract_id message chain_id ≡ ok hash
    → IsSigner k curve key hash address
    → sign_value k curve contract_id message key chain_id ≡ ok signature
    → verify_value k curve contract_id message signature address chain_id ≡ true
unfolding sign_value verify_value
verify_value-sign_value k curve contract_id message key chain_id address signature hash hashed s h =
    let made = ok_inj (rw (hashed, s.signs) at h) in
    ap (λ t. verify_value k curve contract_id message t address chain_id) (sym made)
    ∙ rw (hashed, s.read, verify_value)
        (signed_candidates (is_signed_by curve hash address) s.compact s.recovery s.size s.id
          (is_signed_by-signer k curve key address hash s))
