-- ===== src/Reservoir/Tests.antt =====
-- The theorems about the reservoir at a proof of a first payment of 100, with concrete functions in
-- place of SQLite's, of signing and of the decoding of JSON.
use mailslot.Base.{String, [], ◌∷◌, none, some, ◌≡◌, refl, ok, or_else, ◌==◌, ◌&&◌, if◌then◌else◌}
use mailslot.Base.Int.{pos}
use mailslot.Base.Text.{big_int, to_text}
use mailslot.Json.{Json, null, str, obj, end, field}
use mailslot.Types.{PipeKey, PendingPayment, RuntimeSettings}
use mailslot.Transfer.{Signer}
use mailslot.Reservoir.Tables.{
  upsert_pipe, put_pipe, delete_pending_states_at_or_below_nonce, Platform, Config, Tables, World,
  OnChainPipe,
}
use mailslot.Reservoir.Payments.{
  record_completed_incoming_payment, VerifiedPayment, CheckedPayment, verify_incoming_payment,
  create_outgoing_payment,
}
use mailslot.Transfer.{sip018_verify, sip018_sign, build_transfer_message, message_values}
use mailslot.Base.Text.{print_ℕ, is_hex, lower, strip_0x}
use mailslot.Json.{json_text, property, text_or, as_text}
use mailslot.Reservoir.Payments.{
  check_addressing, check_incoming_payment, incoming_amount, read_figures, record_incoming_payment,
  tracked_amount, first_amount, forward_payment,
}
use mailslot.Reservoir.Proof.{
  normalize_hex32, optional_hex32, parse_pipe_key, decode_proof, parse_proof,
  canonical_pipe_principals, compare_bytes, ParsedProof, parse_incoming_payment_proof,
}
use mailslot.Reservoir.Tables.{
  build_pipe_id, principals_suffix, choose_latest_row, get_latest_pending_pipe_row, get_pipe_row,
  put_pending, upsert_pending_state, get_latest_pipe_state, first_by,
  get_latest_pipe_state_for_principals, get_latest_pipe_row_for_principals,
  get_latest_pending_pipe_row_for_principals,
}
use mailslot.Base.Int.{◌+ℤ◌, ◌-ℤ◌}
use mailslot.Reservoir.Accept.{IsChecked, IsRecorded, verify_incoming_payment-IsChecked}
use mailslot.Reservoir.Cancel.{Cancellation, cancel_message}
use mailslot.Reservoir.Refund.{Cancels, cancel_message-Cancels}
use mailslot.Reservoir.Complete.{IsCompleted, record_completed_incoming_payment-IsCompleted}
use mailslot.Reservoir.Outgoing.{Offers, create_outgoing_payment-Offers}

abbrev pub secret_hash : String
secret_hash = "00112233445566778899aabbccddeeff00112233445566778899aabbccddeeff"

abbrev pub proof : Json
proof = obj (
    field "contractId" (str "flow") (
      field "pipeKey"
        (obj (
          field "principal-1" (str "alice")
            (field "principal-2" (str "server") (field "token" null end))))
        (field "forPrincipal" (str "server") (
          field "withPrincipal" (str "alice") (
            field "myBalance" (str "100") (
              field "theirBalance" (str "900") (
                field "nonce" (str "1") (
                  field "action" (str "1") (
                    field "actor" (str "alice") (
                      field "hashedSecret" (str secret_hash)
                        (field "theirSignature" (str "signed by alice") end)))))))))))

abbrev pub platform : Platform
platform = record {
  cast_integer = λ t. or_else (big_int t) (pos 0);
  like = λ pattern text. pattern == "%|alice|server" && text == "flow|stx|alice|server";
  serialize_principal = λ t. some (if t == "alice" then 1 ∷ [] else 2 ∷ []);
  decode_base64url = λ t. none;
  decode = λ t. some proof;
}

abbrev pub signer : Signer
signer = record {
  sign = λ contract_id values key chain_id. some "signed by server";
  verify = λ contract_id values signature address chain_id.
      address == "alice" && signature == "signed by alice";
}

abbrev pub config : Config
config = record {
  server_address = "server";
  signer_address = "server";
  reservoir_contract_id = "reservoir";
  server_private_key = "key";
  contract_id = "flow";
  chain_id = 1;
}

abbrev pub settings : RuntimeSettings
settings = record {
  message_price_sats = "100";
  min_fee_sats = "10";
  max_pending_per_sender = 5;
  max_pending_per_recipient = 20;
  max_deferred_per_sender = 5;
  max_deferred_per_recipient = 20;
  max_deferred_global = 200;
  deferred_message_ttl_ms = 1000;
  max_borrow_per_tap = "1000";
  receive_capacity_multiplier = 2;
  refresh_capacity_cooldown_ms = 1000;
}

abbrev pub on_chain_pipe : OnChainPipe
on_chain_pipe = record {
  balance_1 = pos 1000;
  balance_2 = pos 0;
  pending_1 = pos 0;
  pending_2 = pos 0;
  pending_leg_1 = record { amount = pos 0; burn_height = none };
  pending_leg_2 = record { amount = pos 0; burn_height = none };
  nonce = pos 0;
}

abbrev pub world : World
world = record {
  on_chain = λ actor key. some on_chain_pipe;
  burn_height = none;
  borrow_fee = λ amount. ok (pos 0);
  now = 1;
  sql_now = 1;
}

abbrev pub empty : Tables
empty = record { pipes = []; pending = []; refreshes = [] }

abbrev pub pipe_key : PipeKey
pipe_key = record { principal_1 = "alice"; principal_2 = "server"; token = none }

abbrev verified : VerifiedPayment
verified = record { hashed_secret = secret_hash; incoming_amount = "100"; sender_address = "alice" }

abbrev pub recorded : Tables
recorded = record empty {
  pending =
      record {
        pipe_id = "flow|stx|alice|server";
        nonce = "1";
        contract_id = "flow";
        pipe_key = pipe_key;
        server_balance = "100";
        counterparty_balance = "900";
        action = some "1";
        actor = some "alice";
        hashed_secret = some secret_hash;
        valid_after = none;
        server_signature = none;
        counterparty_signature = some "signed by alice";
        updated_at = 1;
      }
      ∷ [];
}

verifies :
    verify_incoming_payment platform signer config settings world "raw" empty
    ≡ ok (verified, recorded)
unfolding verify_incoming_payment big_int to_text sip018_verify build_transfer_message
    message_values print_ℕ is_hex lower strip_0x json_text property text_or as_text check_addressing
    check_incoming_payment incoming_amount read_figures record_incoming_payment tracked_amount
    first_amount normalize_hex32 optional_hex32 parse_pipe_key decode_proof parse_proof
    canonical_pipe_principals compare_bytes build_pipe_id principals_suffix choose_latest_row
    get_latest_pending_pipe_row get_pipe_row put_pending upsert_pending_state get_latest_pipe_state
    first_by ◌+ℤ◌ ◌-ℤ◌
verifies = refl

verify_incoming_payment-IsChecked_example :
    (a : CheckedPayment) × IsChecked platform signer config settings world "raw" empty a
    × IsRecorded a empty recorded
    × (secret_hash ≡ a.hashed_secret)
    × ("100" ≡ to_text a.amount)
    × ("alice" ≡ a.proof.actor)
verify_incoming_payment-IsChecked_example =
    verify_incoming_payment-IsChecked platform signer config settings world "raw" empty recorded
      verified verifies

abbrev pub offered : PendingPayment
offered = record {
  state_proof = record {
    contract_id = "flow";
    pipe_key = pipe_key;
    for_principal = "alice";
    with_principal = "server";
    signer_address = "server";
    my_balance = "940";
    their_balance = "60";
    nonce = "2";
    action = "1";
    actor = "server";
    hashed_secret = secret_hash;
    their_signature = "signed by server";
  };
  amount = "40";
  hashed_secret = secret_hash;
}

abbrev forwarded : Tables
forwarded = record empty {
  pending =
      record {
        pipe_id = "flow|stx|alice|server";
        nonce = "1";
        contract_id = "flow";
        pipe_key = pipe_key;
        server_balance = "100";
        counterparty_balance = "900";
        action = some "1";
        actor = some "alice";
        hashed_secret = some secret_hash;
        valid_after = none;
        server_signature = none;
        counterparty_signature = some "signed by alice";
        updated_at = 1;
      }
      ∷ record {
        pipe_id = "flow|stx|alice|server";
        nonce = "2";
        contract_id = "flow";
        pipe_key = pipe_key;
        server_balance = "60";
        counterparty_balance = "940";
        action = some "1";
        actor = some "server";
        hashed_secret = some secret_hash;
        valid_after = none;
        server_signature = some "signed by server";
        counterparty_signature = none;
        updated_at = 1;
      }
      ∷ [];
}

offers :
    create_outgoing_payment platform signer config settings world secret_hash "50" "alice" "flow"
      recorded
    ≡ ok (some offered, forwarded)
unfolding create_outgoing_payment forward_payment big_int to_text sip018_sign build_transfer_message
    message_values print_ℕ is_hex lower strip_0x normalize_hex32 canonical_pipe_principals
    compare_bytes principals_suffix choose_latest_row put_pending upsert_pending_state
    get_latest_pipe_state_for_principals get_latest_pipe_row_for_principals
    get_latest_pending_pipe_row_for_principals first_by ◌+ℤ◌ ◌-ℤ◌
offers = refl

create_outgoing_payment-Offers_example :
    Offers platform signer config world settings "50" "alice" "flow" recorded
      (some offered, forwarded)
create_outgoing_payment-Offers_example =
    create_outgoing_payment-Offers platform signer config world settings secret_hash "50" "alice"
      "flow" recorded (some offered, forwarded) offers

abbrev cancellation : Cancellation
cancellation = record {
  payment_proof = "raw";
  sender_addr = "alice";
  recipient_addr = "bob";
  incoming_amount = "100";
  fee = "10";
  recipient_pending_payment = some offered;
}

cancel_message-Cancels_example :
    Cancels platform signer config world cancellation recorded
      (cancel_message platform signer config world cancellation recorded)
cancel_message-Cancels_example =
    cancel_message-Cancels platform signer config world cancellation recorded

-- A later state of the pipe is enforceable already, and an older payment is completed.
abbrev at_nonce_7 : Tables
at_nonce_7 = record empty {
  pipes =
      record {
        pipe_id = "flow|stx|alice|server";
        contract_id = "flow";
        pipe_key = pipe_key;
        server_balance = "700";
        counterparty_balance = "300";
        nonce = "7";
        last_action = some "1";
        last_actor = some "alice";
        last_hashed_secret = some secret_hash;
        last_valid_after = none;
        last_server_signature = none;
        last_counterparty_signature = some "later";
        enforceable_secret = some "later";
        updated_at = 1;
      }
      ∷ [];
}

abbrev back_at_nonce_1 : Tables
back_at_nonce_1 = record empty {
  pipes =
      record {
        pipe_id = "flow|stx|alice|server";
        contract_id = "flow";
        pipe_key = pipe_key;
        server_balance = "100";
        counterparty_balance = "900";
        nonce = "1";
        last_action = some "1";
        last_actor = some "alice";
        last_hashed_secret = some secret_hash;
        last_valid_after = none;
        last_server_signature = none;
        last_counterparty_signature = some "signed by alice";
        enforceable_secret = some "5ec7e7";
        updated_at = 1;
      }
      ∷ [];
}

completes :
    record_completed_incoming_payment platform signer config world "raw" "5ec7e7" at_nonce_7
    ≡ ok back_at_nonce_1
unfolding record_completed_incoming_payment parse_incoming_payment_proof is_hex lower strip_0x
    json_text property text_or as_text normalize_hex32 optional_hex32 parse_pipe_key decode_proof
    parse_proof canonical_pipe_principals compare_bytes build_pipe_id principals_suffix big_int
    upsert_pipe put_pipe delete_pending_states_at_or_below_nonce
completes = refl

record_completed_incoming_payment-IsCompleted_example :
    (f : ParsedProof) × (parse_incoming_payment_proof platform config "raw" ≡ ok f)
    × IsCompleted platform f "5ec7e7" at_nonce_7 back_at_nonce_1
record_completed_incoming_payment-IsCompleted_example =
    record_completed_incoming_payment-IsCompleted platform signer config world "raw" "5ec7e7"
      at_nonce_7 back_at_nonce_1 completes
