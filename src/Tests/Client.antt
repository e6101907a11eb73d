-- ===== src/Tests/Client.antt =====
-- The properties of the client and of safety numbers at small data.
use cmp.Base.{
  ℕ, zero, suc, ◌+◌, ◌/◌, ◌*◌, String, true, [], ◌∷◌, ◌++◌, none, some, ◌≡◌, refl, arith, ap,
  length, length-append, ◌==◌, string_eq,
}
use cmp.Base.Bytes.{Bytes, ascii}
use cmp.Base.HashMap.{get, insert, remove}
use cmp.Base.Rows.{All, find}
use cmp.Crypto.Kdf.{zeros}
use cmp.Crypto.Primitives.{Primitives}
use cmp.Crypto.Fingerprint.{compute, display_grouped}
use cmp.Crypto.Fingerprint.Symmetric.{compute_symmetric}
use cmp.Crypto.Fingerprint.Shape.{compute-IsDigit, IsDigit}
use cmp.Client.Store.{
  ClientDb, get_verification, get_peer_identity_key, store_peer_identity_key, store_verification,
}
use cmp.Client.Contacts.{
  Library, done, resolve_safety_number, number_with, decode_identity_key, check_peer_identity,
  security_alert, act, confirm_verification, confirm_with,
}
use cmp.Client.Contacts.Verified.{
  arrives, asks, step, run, run-verified, check_peer_identity-changed,
}
use cmp.Client.Outbox.{no_session, ensure_capacity, total_len}
use cmp.Client.Manager.{Manager}
use cmp.Client.Manager.Encryption.{
  encrypt_message, encrypt_within, advance_encryption, enqueue_envelope,
}
use cmp.Client.Manager.Failure.{Same, encrypt_message-Same}
use cmp.Client.Outbox.{text_length}
use cmp.Client.Manager.Capacity.{Within}
use cmp.Client.Manager.Limits.{TagLength, Base64Length}
use cmp.Client.Manager.History.{acks, acked, run as run_operations, run-Within}
use cmp.Protocol.Types.{utf8_length, EncryptedEnvelope, established, protocol_version}
use cmp.Crypto.Session.{SessionState}
use cmp.Crypto.Ratchet.{decrypt}
use cmp.Crypto.Aead
use cmp.Crypto.Kdf.{derive_message_keys}
use cmp.Base.{false}
use cmp.Client.Manager.Arrival.{
  decode_ratchet_header, Decoders, Arrival, Receiver, InboundDecrypt, pending, duplicate,
}
use cmp.Client.Manager.Decryption.{decrypt_message_to_text, decrypt_with_marker}
use cmp.Client.Manager.Redelivery.{stored, decrypt_message_to_text_again}
use Prim.Native.Char.{char}
use cmp.Tests.Toy.{toy}

abbrev hash : Bytes → Bytes
hash m = zeros 64

compute_symmetric_example :
    compute hash ascii "alice" (1 ∷ []) "bob" (2 ∷ [])
    ≡ compute hash ascii "bob" (2 ∷ []) "alice" (1 ∷ [])
compute_symmetric_example = compute_symmetric hash ascii "alice" (1 ∷ []) "bob" (2 ∷ [])

compute-IsDigit_example :
    (length (compute hash ascii "alice" (1 ∷ []) "bob" (2 ∷ [])).digits ≡ 60)
    × All IsDigit (compute hash ascii "alice" (1 ∷ []) "bob" (2 ∷ [])).digits
compute-IsDigit_example = compute-IsDigit hash ascii "alice" (1 ∷ []) "bob" (2 ∷ []) (λ m. refl)

abbrev library : Library
library = record { b64_decode = λ s. some (zeros 32); sha512 = hash; utf8 = ascii }

abbrev fresh : ClientDb
fresh = record { messages = []; peer_identity_keys = []; verified_contacts = [] }

abbrev shown : Bytes
shown = display_grouped (compute hash ascii "alice" (zeros 32) "bob" (zeros 32))

-- Alice gets Bob's key and confirms his number.
stored_number :
    get_verification
      (run library "alice" "own" (arrives "bob" "key" ∷ asks "bob" "confirm" ∷ []) fresh)
      "bob"
    ≡ some shown
unfolding run step check_peer_identity decode_identity_key store_peer_identity_key get insert remove
    act confirm_verification resolve_safety_number get_peer_identity_key number_with confirm_with
    store_verification get_verification
stored_number = refl

run-verified_example :
    resolve_safety_number library "alice" "own" "bob"
      (run library "alice" "own" (arrives "bob" "key" ∷ asks "bob" "confirm" ∷ []) fresh)
    ≡ done shown
run-verified_example =
    run-verified library "alice" "own" (arrives "bob" "key" ∷ asks "bob" "confirm" ∷ []) fresh "bob"
      shown refl stored_number

abbrev known : ClientDb
known = record fresh {
  peer_identity_keys = ("bob", "old") ∷ [];
  verified_contacts = ("bob", shown) ∷ ("carol", shown) ∷ [];
}

known_key : get_peer_identity_key known "bob" ≡ some "old"
unfolding get_peer_identity_key get
known_key = refl

good_key : decode_identity_key library "new" ≡ some (zeros 32)
unfolding decode_identity_key
good_key = refl

check_peer_identity-changed_example :
    let r = check_peer_identity library known "bob" "new" in
    (r.0 ≡ some (security_alert library "bob"))
    × (get_peer_identity_key r.1 "bob" ≡ some "new")
    × (get_verification r.1 "bob" ≡ none)
    × (get_verification r.1 "carol" ≡ get_verification known "carol")
check_peer_identity-changed_example =
    check_peer_identity-changed library "alice" "own" known "bob" "carol" "old" "new" (zeros 32)
      known_key (λ e. ground (arith, ap (λ s. s == "old") e)) good_key
      (λ e. ground (arith, ap (λ s. s == "carol") e))

abbrev manager : Manager
manager = record {
  identity = record { signing_key = [] };
  sessions = [];
  pending_outbound = [];
  processed_messages = [];
}

-- There is no session with Bob yet.
encrypt_message-Same_example :
    Same
      (encrypt_message toy (λ b. "text") (λ ids. none) true "bob" "bob" "m1" (1 ∷ []) manager).1
      manager
      "bob"
unfolding encrypt_message encrypt_within advance_encryption enqueue_envelope ensure_capacity
    total_len get find
encrypt_message-Same_example =
    encrypt_message-Same toy (λ b. "text") (λ ids. none) true "bob" "bob" "bob" "m1" (1 ∷ [])
      manager no_session refl

-- A cipher that adds 16 bytes, and an encoder that gives a text of the right length.
abbrev tagging : Primitives
tagging = record toy { aes_encrypt = λ k n m aad. some (zeros 16 ++ m) }

tagging-TagLength : TagLength tagging
tagging-TagLength k n m aad c h = ground (arith, h, length-append (zeros 16) m)

abbrev text_of : ℕ → String
text_of zero = ""
text_of (suc n) = String.◌∷◌ (char 97 tt) (text_of n)

text_length_lem : (n : ℕ) → text_length (text_of n) ≡ n
unfolding utf8_length
text_length_lem zero = refl
text_length_lem (suc n) = ground (arith, text_length_lem n)

abbrev encoder : Bytes → String
encoder x = text_of ((length x + 2) / 3 * 4)

encoder-Base64Length : Base64Length encoder
encoder-Base64Length x = text_length_lem ((length x + 2) / 3 * 4)

run-Within_example :
    Within
      (run_operations tagging encoder
        (λ ids. none)
        (acks true "a1" ("m1" ∷ []) ∷ acked true "a1" ("m1" ∷ []) ∷ [])
        manager).pending_outbound
unfolding total_len
run-Within_example =
    run-Within tagging encoder (λ ids. none)
      (acks true "a1" ("m1" ∷ []) ∷ acked true "a1" ("m1" ∷ []) ∷ []) manager tagging-TagLength
      encoder-Base64Length (omega arith, omega arith)

-- Bob's message 0, whose key was stored when it was skipped.
abbrev opening : Primitives
opening = record toy { aes_decrypt = λ k n c aad. some c }

abbrev decoders : Decoders
decoders = record {
  b64_decode = λ s. some (zeros 32);
  from_utf8 = λ b. some "hi";
  is_verifying_key = λ b. true;
}

abbrev arrival : Arrival
arrival = record { pruned = true; saved = true; now = 0; marked_at = 0; secret = [] }

abbrev late : Arrival
late = record { pruned = false; saved = false; now = 9; marked_at = 9; secret = 5 ∷ [] }

abbrev session : SessionState
session = record {
  root_key = [];
  our_ratchet = record { secret_bytes = []; public_bytes = [] };
  their_ratchet_key = none;
  sending_chain_key = none;
  receiving_chain_key = none;
  send_count = 0;
  recv_count = 0;
  previous_send_count = 0;
  skipped = ((zeros 32, 0), zeros 32) ∷ [];
}

abbrev receiver : Receiver
receiver = record {
  manager = record manager {
    sessions =
        ("bob", record { ratchet = session; prekey_header = none; prekey_expires_at = none }) ∷ [];
  };
  own = record {
    stored_spk = none;
    previous_spks = [];
    stored_opks = [];
    one_time_prekey_created_at = [];
  };
}

abbrev from_bob : EncryptedEnvelope
from_bob = record {
  version = protocol_version;
  header =
      established (record { ratchet_key = "key"; previous_chain_length = 0; message_number = 0 });
  ciphertext = "text";
}

abbrev first_arrival : InboundDecrypt × Receiver
first_arrival = decrypt_message_to_text opening decoders arrival "bob" "m1" from_bob receiver

first_arrival_text : first_arrival.0 ≡ pending "hi"
unfolding decrypt_message_to_text decrypt_with_marker get decode_ratchet_header decrypt Aead.decrypt
    derive_message_keys
first_arrival_text = refl

decrypt_message_to_text_again_example :
    (decrypt_message_to_text opening decoders late "bob" "m1" from_bob first_arrival.1
      ≡ (pending "hi", first_arrival.1))
    × (decrypt_message_to_text opening decoders late "bob" "m1" from_bob
          (stored "bob" "m1" first_arrival.1)
        ≡ (duplicate, stored "bob" "m1" first_arrival.1))
decrypt_message_to_text_again_example =
    decrypt_message_to_text_again opening decoders arrival late "bob" "m1" from_bob from_bob
      receiver "hi" first_arrival_text refl
