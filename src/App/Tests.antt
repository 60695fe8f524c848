-- ===== src/App/Tests.antt =====
-- The rate limiter with a maximum of two calls in a window of a second, and a claim.
use mailslot.Base.{
  ok, false, none, some, if◌then◌else◌, ◌==◌, arith, true, ◌+◌, String, [], ◌∷◌, ◌≡◌, refl,
}
use mailslot.Base.Text.{big_int, strip_0x, lower, is_hex}
use mailslot.Crypto.{verify_secret_hash, hash_secret}
use mailslot.Json.{Json, Value, str, obj, field, end, property, text_or, as_text, json_text}
use mailslot.Types.{StoredMessage, ready}
use mailslot.Store.Rows.{row_to_mail}
use mailslot.Store.Methods.{
  claim_row, get_message, claim_message, record_settlement, upsert_settlement,
}
use mailslot.Reservoir.Tables.{
  delete_pending_states_at_or_below_nonce, upsert_pipe, put_pipe, build_pipe_id, principals_suffix,
}
use mailslot.Reservoir.Proof.{
  text_else, normalize_hex32, optional_hex32, parse_pipe_key, decode_proof, parse_proof,
  canonical_pipe_principals, compare_bytes, parse_incoming_payment_proof,
}
use mailslot.Reservoir.Payments.{record_completed_incoming_payment}
use mailslot.Reservoir.Tests.{
  secret_hash, proof, platform, signer, config, settings, world, pipe_key, offered, recorded, empty,
}
use mailslot.App.Context.{Server, Database, claimed_message}
use mailslot.App.Inbox.{
  check_claimable, claim_found, complete_payment, finish_claim, take_claim, claim_with,
  handle_claim,
}
use mailslot.App.Claiming.{IsClaimed, handle_claim-IsClaimed}
use mailslot.App.RateLimit.{get_bucket}
use mailslot.App.Windows.{count_allowed, smaller, is_closed, count_allowed-smaller}

closed : is_closed 1000 "send:1" 5 [] ≡ true
unfolding is_closed get_bucket
closed = refl

count_allowed-smaller_example :
    count_allowed 1000 "send:1" 2 (5 ∷ 6 ∷ 900 ∷ 1004 ∷ []) [] ≡ smaller 2 (1 + 3)
count_allowed-smaller_example =
    count_allowed-smaller 1000 "send:1" 2 5 (6 ∷ 900 ∷ 1004 ∷ []) [] (omega arith) closed
      (omega arith, (omega arith, (omega arith, tt)))

-- A body with the secret, and the proof of the payment as any other text.
abbrev server : Server
server = record {
  platform = record platform {
    decode =
        λ t. if t == "body" then some (obj (field "secret" (str "5ec7e7") end)) else some proof;
  };
  signer = signer;
  config = config;
  settings = settings;
  max_encrypted_bytes = 100;
  hex_byte_length = λ t. 10;
  sha256 = λ t. if t == "5ec7e7" then secret_hash else "other";
  mainnet_address = λ t. "alice";
  testnet_address = λ t. "alice";
  world = world;
  new_id = "m2";
}

abbrev paid_message : StoredMessage
paid_message = record {
  id = "m1";
  sender = "alice";
  recipient = "bob";
  sent_at = 1;
  amount = "100";
  fee = "10";
  payment_id = "raw";
  hashed_secret = secret_hash;
  encrypted_payload = record { epk = "e"; iv = "i"; cipher = "c" };
  pending_payment = some offered;
  delivery_state = ready;
  deferred_reason = none;
  deferred_until = none;
  previewed_at = none;
  cancelled_at = none;
  claimed = false;
  claimed_at = none;
  payment_settled = false;
}

abbrev before_claim : Database
before_claim = record {
  store = record {
    messages = paid_message ∷ [];
    settlements = [];
    public_keys = [];
    payment_infos = [];
  };
  tables = recorded;
}

abbrev after_claim : Database
after_claim = record {
  store = record {
    messages = claim_row 1 paid_message ∷ [];
    settlements =
        record {
          message_id = "m1";
          payment_id = "raw";
          recipient_addr = "bob";
          hashed_secret = secret_hash;
          secret = "5ec7e7";
          pending_payment = some offered;
          settled_at = 1;
        }
        ∷ [];
    public_keys = [];
    payment_infos = [];
  };
  tables = record empty {
    pipes =
        record {
          pipe_id = "flow|stx|alice|server";
          contract_id = "flow";
          pipe_key = pipe_key;
          server_balance = "100";
          counterparty_balance = "900";
          nonce = "1";
          last_action = some "1";
          last_actor = some "alice";
          last_hashed_secret = some secret_hash;
          last_valid_after = none;
          last_server_signature = none;
          last_counterparty_signature = some "signed by alice";
          enforceable_secret = some "5ec7e7";
          updated_at = 1;
        }
        ∷ [];
  };
}

claims_message :
    handle_claim server "bob" "m1" (some "body") before_claim
    ≡ (claimed_message (row_to_mail paid_message) (some offered), after_claim)
unfolding handle_claim claim_with take_claim finish_claim check_claimable claim_found
    complete_payment get_message claim_message record_settlement upsert_settlement
    verify_secret_hash hash_secret property as_text text_or json_text
    record_completed_incoming_payment parse_incoming_payment_proof normalize_hex32 optional_hex32
    parse_pipe_key decode_proof parse_proof canonical_pipe_principals compare_bytes
    delete_pending_states_at_or_below_nonce upsert_pipe put_pipe build_pipe_id principals_suffix
    big_int strip_0x lower is_hex
claims_message = refl

handle_claim-IsClaimed_example :
    (text : String) × (json : Json) × (value : Value) × (some "body" ≡ some text)
    × (server.platform.decode text ≡ some json)
    × (property json "secret" ≡ ok value)
    × IsClaimed server "bob" "m1"
        (text_else "" (as_text value))
        (row_to_mail paid_message)
        (some offered)
        before_claim
        after_claim
handle_claim-IsClaimed_example =
    handle_claim-IsClaimed server "bob" "m1" before_claim after_claim (row_to_mail paid_message)
      (some offered) (some "body") claims_message
