-- ===== src/Clarity/Transfers.antt =====
-- The messages of transfers as Clarity values, and the signer that the server calls.
use mailslot.Base.{
  ℕ, List, String, true, false, Option, none, some, ◌≡◌, refl, ◌==◌, eq_refl, ◌⊎◌, inl, inr,
  if◌then◌else◌, Result, ok, err,
}
use mailslot.Base.Int.{ℤ}
use mailslot.Transfer.{
  TransferState, TypedMessage, MessageValues, Signer, build_transfer_message, message_values,
  sip018_sign, sip018_verify,
}
use mailslot.Clarity.Values.{
  ClarityValue, uint, principal, buff, absent, present, tuple, member, end, Codec,
  compute_sip018_hash,
}
use mailslot.Clarity.Signatures.{Curve, sign_value, verify_value}
use mailslot.Clarity.Signed.{IsSigner, verify_value-sign_value}

optional_value : (String → ClarityValue) → Option String → ClarityValue
optional_value make none = absent
optional_value make (some t) = present (make t)

optional_uint : Option ℤ → ClarityValue
optional_uint none = absent
optional_uint (some n) = present (uint n)

-- `buildMessageTuple` of a transfer's message.
unfoldable pub message_tuple : MessageValues → ClarityValue
unfolding optional_value optional_uint
message_tuple m = tuple (
    member "principal-1" (principal m.principal_1) (
      member "principal-2" (principal m.principal_2) (
        member "token" (optional_value principal m.token) (
          member "balance-1" (uint m.balance_1) (
            member "balance-2" (uint m.balance_2) (
              member "nonce" (uint m.nonce) (
                member "action" (uint m.action) (
                  member "actor" (principal m.actor) (
                    member "hashed-secret" (optional_value buff m.hashed_secret)
                      (member "valid-after" (optional_uint m.valid_after) end))))))))))

unfoldable pub to_option : Result String → Option String
to_option (ok t) = some t
to_option (err e) = none

-- `sip018Sign` and `sip018Verify` on the values of a message.
unfoldable pub sip018_signer : Codec → Curve → Signer
unfolding to_option message_tuple
sip018_signer k curve = record {
  sign = λ contract_id values key chain_id.
      to_option (sign_value k curve contract_id (message_tuple values) key chain_id);
  verify = λ contract_id values signature address chain_id.
      verify_value k curve contract_id (message_tuple values) signature address chain_id;
}

to_option-some : (r : Result String) {t : String} → to_option r ≡ some t → r ≡ ok t
unfolding to_option
to_option-some (ok a) h = cc
to_option-some (err e) h = cc

-- What the server signs of a transfer it verifies for the signer's address.
pub sip018_verify-sip018_sign :
    (k : Codec) (curve : Curve) (contract_id : String) (m : TypedMessage) (values : MessageValues)
    (key : String) (chain_id : ℕ) (address signature : String) (hash : List ℕ)
    → message_values m ≡ some values
    → compute_sip018_hash k contract_id (message_tuple values) chain_id ≡ ok hash
    → IsSigner k curve key hash address
    → sip018_sign (sip018_signer k curve) contract_id m key chain_id ≡ some signature
    → sip018_verify (sip018_signer k curve) contract_id m signature address chain_id ≡ true
unfolding sip018_sign sip018_verify sip018_signer
sip018_verify-sip018_sign k curve contract_id m values key chain_id address signature hash read
      hashed s h =
    rw (read, sip018_verify)
      (verify_value-sign_value k curve contract_id (message_tuple values) key chain_id address
        signature hash hashed s (to_option-some _ (rw (read, sip018_sign) at h)))

-- The same state as the other principal of the pipe has it.
unfoldable pub seen_by_other : TransferState → TransferState
seen_by_other t = record t {
  for_principal =
      if t.pipe_key.principal_1 == t.for_principal
      then t.pipe_key.principal_2
      else t.pipe_key.principal_1;
  my_balance = t.their_balance;
  their_balance = t.my_balance;
}

-- Both principals of a pipe sign the same message: the state that the other one has gives the
-- message of this one, where the two principals differ and the state is of one of them.
pub build_transfer_message-seen_by_other :
    (t : TransferState)
    → (t.pipe_key.principal_1 == t.pipe_key.principal_2) ≡ false
    → (t.for_principal ≡ t.pipe_key.principal_1) ⊎ (t.for_principal ≡ t.pipe_key.principal_2)
    → build_transfer_message (seen_by_other t) ≡ build_transfer_message t
unfolding build_transfer_message seen_by_other
build_transfer_message-seen_by_other t differ (inl first) = rw (first, eq_refl, differ) refl
build_transfer_message-seen_by_other t differ (inr second) = rw (second, differ, eq_refl) refl
