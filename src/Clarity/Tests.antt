-- ===== src/Clarity/Tests.antt =====
-- The theorems about Clarity values at small values, with concrete functions in place of Node's and
-- the curve's.
use mailslot.Base.{
  ℕ, String, true, List, [], ◌∷◌, ◌++◌, none, some, ◌≡◌, refl, ok, ◌==◌, ◌&&◌, ◌<◌, inr, arith, All,
  length, if◌then◌else◌, take,
}
use mailslot.Base.Int.{pos, negsuc}
use mailslot.Base.Text.{strip_0x}
use mailslot.Clarity.Words.{u32be, u128be, as_uint_128, bytes_value, low_bytes}
use mailslot.Clarity.Values.{
  uint, absent, tuple, member, end, Members, Codec, serialize_clarity_value, insert_member,
  member_bytes, with_length, build_domain, compute_sip018_hash,
}
use mailslot.Clarity.Signatures.{Curve, sign_value, verify_value}
use mailslot.Clarity.Bytes.{u128be_value, u32be_value}
use mailslot.Clarity.Ordered.{swap, serialize_clarity_value-Reorders}
use mailslot.Transfer.{
  TransferState, MessageValues, build_transfer_message, message_values, sip018_sign, sip018_verify,
}
use mailslot.Base.Text.{big_int}
use mailslot.Clarity.Transfers.{
  message_tuple, sip018_signer, to_option, seen_by_other, sip018_verify-sip018_sign,
  build_transfer_message-seen_by_other,
}
use mailslot.Clarity.Signed.{IsSigner, verify_value-sign_value}

u128be_value_example :
    (length (u128be (negsuc 0)) ≡ 16)
    × All (λ b. b < 256) (u128be (negsuc 0))
    × (bytes_value (u128be (negsuc 0)) 0 ≡ as_uint_128 (negsuc 0))
u128be_value_example = u128be_value (negsuc 0)

abbrev of_258_bytes : List ℕ
of_258_bytes = 0 ∷ 0 ∷ 1 ∷ 2 ∷ []

of_258 : u32be 258 ≡ ok of_258_bytes
unfolding u32be
of_258 = refl

u32be_value_example :
    (258 < 4294967296)
    × (length of_258_bytes ≡ 4)
    × All (λ b. b < 256) of_258_bytes
    × (bytes_value of_258_bytes 0 ≡ 258)
u32be_value_example = u32be_value 258 of_258_bytes of_258

abbrev sixty_four : List ℕ
sixty_four = low_bytes 64 0 []

abbrev codec : Codec
codec = record {
  principal_bytes = λ p. some (5 ∷ []);
  from_hex = λ t. if t == "k" then [] else sixty_four ++ (1 ∷ []);
  from_ascii = λ t. 7 ∷ [];
  from_utf8 = λ t. if t == "a" then 97 ∷ [] else 98 ∷ [];
  sha256 = λ bytes. take 1 bytes;
  before = λ a b. a == "a" && b == "b";
}

abbrev ab : Members
ab = member "a" absent (member "b" (uint (pos 5)) end)

abbrev ba : Members
ba = member "b" (uint (pos 5)) (member "a" absent end)

abbrev ab_bytes : List ℕ
ab_bytes =
    12 ∷ 0 ∷ 0 ∷ 0 ∷ 2 ∷ 1 ∷ 97 ∷ 9 ∷ 1 ∷ 98 ∷ 1 ∷ 0 ∷ 0 ∷ 0 ∷ 0 ∷ 0 ∷ 0 ∷ 0 ∷ 0 ∷ 0 ∷ 0 ∷ 0 ∷ 0 ∷ 0
    ∷ 0 ∷ 0 ∷ 5 ∷ []

ab_serializes : serialize_clarity_value codec (tuple ab) ≡ ok ab_bytes
unfolding serialize_clarity_value insert_member member_bytes u32be u128be
ab_serializes = refl

only_a :
    (a b c : String)
    → (a == "a" && b == "b") ≡ true
    → (b == "a" && c == "b") ≡ true
    → (a == "a" && c == "b") ≡ true
only_a a b c h g = ground arith

serialize_clarity_value-Reorders_example : serialize_clarity_value codec (tuple ba) ≡ ok ab_bytes
serialize_clarity_value-Reorders_example =
    serialize_clarity_value-Reorders codec (record { trans = only_a }) ab ba ab_bytes
      (swap refl refl) ab_serializes

abbrev curve : Curve
curve = record {
  sign = λ hash key. (sixty_four, 1);
  recover = λ hash compact id. some "02";
  mainnet_address = λ key. "alice";
  testnet_address = λ key. "";
  to_hex = λ bytes. "s";
}

hashes : compute_sip018_hash codec "flow" (tuple ab) 1 ≡ ok (83 ∷ [])
unfolding compute_sip018_hash serialize_clarity_value insert_member member_bytes u32be u128be
    with_length build_domain
hashes = refl

signs : sign_value codec curve "flow" (tuple ab) "k" 1 ≡ ok "0xs"
unfolding sign_value compute_sip018_hash serialize_clarity_value insert_member member_bytes u32be
    u128be with_length build_domain
signs = refl

signer : IsSigner codec curve "k" (83 ∷ []) "alice"
unfolding strip_0x low_bytes
signer = record {
  compact = sixty_four;
  recovery = 1;
  public_key = "02";
  signs = refl;
  size = refl;
  id = inr refl;
  recovers = refl;
  owned = refl;
  read = refl;
}

verify_value-sign_value_example : verify_value codec curve "flow" (tuple ab) "0xs" "alice" 1 ≡ true
verify_value-sign_value_example =
    verify_value-sign_value codec curve "flow" (tuple ab) "k" 1 "alice" "0xs" (83 ∷ []) hashes
      signer signs

abbrev transfer : TransferState
transfer = record {
  pipe_key = record { principal_1 = "alice"; principal_2 = "server"; token = none };
  for_principal = "server";
  my_balance = "100";
  their_balance = "900";
  nonce = "1";
  action = "1";
  actor = "alice";
  hashed_secret = some "ab";
  valid_after = none;
}

build_transfer_message-seen_by_other_example :
    build_transfer_message (seen_by_other transfer) ≡ build_transfer_message transfer
build_transfer_message-seen_by_other_example =
    build_transfer_message-seen_by_other transfer refl (inr refl)

abbrev values : MessageValues
values = record {
  principal_1 = "alice";
  principal_2 = "server";
  token = none;
  balance_1 = pos 900;
  balance_2 = pos 100;
  nonce = pos 1;
  action = pos 1;
  actor = "alice";
  hashed_secret = some "ab";
  valid_after = none;
}

transfer_reads : message_values (build_transfer_message transfer) ≡ some values
unfolding message_values build_transfer_message big_int
transfer_reads = refl

transfer_hashes : compute_sip018_hash codec "flow" (message_tuple values) 1 ≡ ok (83 ∷ [])
unfolding compute_sip018_hash serialize_clarity_value insert_member member_bytes u32be u128be
    with_length build_domain message_tuple strip_0x
transfer_hashes = refl

transfer_signs :
    sip018_sign (sip018_signer codec curve) "flow" (build_transfer_message transfer) "k" 1
    ≡ some "0xs"
unfolding sip018_sign sip018_signer message_values build_transfer_message big_int sign_value
    compute_sip018_hash serialize_clarity_value insert_member member_bytes u32be u128be with_length
    build_domain message_tuple to_option strip_0x
transfer_signs = refl

sip018_verify-sip018_sign_example :
    sip018_verify
      (sip018_signer codec curve)
      "flow"
      (build_transfer_message transfer)
      "0xs"
      "alice"
      1
    ≡ true
sip018_verify-sip018_sign_example =
    sip018_verify-sip018_sign codec curve "flow" (build_transfer_message transfer) values "k" 1
      "alice" "0xs" (83 ∷ []) transfer_reads transfer_hashes signer transfer_signs
