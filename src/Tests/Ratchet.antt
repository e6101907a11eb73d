-- ===== src/Tests/Ratchet.antt =====
-- The properties of X3DH and of the Double Ratchet at concrete sessions.
use cmp.Base.{false, ℕ, zero, suc, ◌+◌, ◌≡◌, refl, none, some, [], ◌∷◌, arith, inl}
use cmp.Base.Bytes.{Bytes, checked_succ}
use cmp.Base.HashMap.{get}
use cmp.Crypto.Error.{ok, decryption_failed}
use cmp.Crypto.Aead
use cmp.Crypto.Kdf.{kdf_rk, kdf_ck, derive_message_keys, zeros}
use cmp.Crypto.Keys.{IdentityKeyPair, generate_ratchet, generate_signed_prekey}
use cmp.Crypto.Session.{RatchetHeader, RatchetMessage, SessionState, authenticated_data}
use cmp.Crypto.Ratchet.{initialize_alice, initialize_bob, encrypt, decrypt}
use cmp.Crypto.X3dh.Agreement.{Agree, one_time, alice_initiate-bob_respond}
use cmp.Crypto.Ratchet.Bounds.{IsValid}
use cmp.Crypto.Ratchet.History.{encrypts, decrypts, run, run-IsValid, initialize_bob-IsValid}
use cmp.Crypto.Ratchet.Alternation.{
  Talk, AllReceived, says, adds, yields, silence, initialize-AllReceived,
}
use cmp.Crypto.Ratchet.Conversation.{Packet, decrypt_all, decrypt_all_lem, Sends, encrypt-Sealed}
use cmp.Crypto.Ratchet.Erasure.{Erased, decrypt-Erased}
use cmp.Crypto.Ratchet.Rollback.{SameSession, decrypt-SameSession}
use cmp.Crypto.Ratchet.Handshake.{IsFresh}
use cmp.Crypto.Ratchet.Delivery.{Sealed}
use cmp.Crypto.Ratchet.Skipping.{IsChain, Tracks}
use native.Mathlib.Numerals.{add-one}
use cmp.Tests.Toy.{
  toy, toy-AesCorrect, toy-DhAgrees, toy-MontgomeryAgrees, toy-SignatureCorrect, toy-HkdfTotal,
}

abbrev alice_identity : IdentityKeyPair
alice_identity = record { signing_key = 3 ∷ [] }

abbrev bob_identity : IdentityKeyPair
bob_identity = record { signing_key = 4 ∷ [] }

alice_initiate-bob_respond_example :
    Agree toy alice_identity bob_identity
      (generate_signed_prekey toy 0 bob_identity (5 ∷ []))
      (one_time toy (some (11, 6 ∷ [])))
      (8 ∷ [])
alice_initiate-bob_respond_example =
    alice_initiate-bob_respond toy alice_identity bob_identity 0 (5 ∷ []) (8 ∷ [])
      (some (11, 6 ∷ [])) toy-DhAgrees toy-MontgomeryAgrees toy-SignatureCorrect toy-HkdfTotal

abbrev bob_start : SessionState
unfolding initialize_bob generate_ratchet
bob_start = initialize_bob toy (9 ∷ []) (generate_ratchet toy (2 ∷ []))

abbrev header_far : RatchetHeader
header_far = record { ratchet_key = 1 ∷ []; previous_chain_length = 0; message_number = 5000 }

run-IsValid_example : IsValid (
    run toy
      (decrypts (7 ∷ []) header_far [] [] ∷ encrypts (1 ∷ []) [] ∷ [])
      (initialize_bob toy (9 ∷ []) (generate_ratchet toy (2 ∷ []))))
run-IsValid_example =
    run-IsValid toy (decrypts (7 ∷ []) header_far [] [] ∷ encrypts (1 ∷ []) [] ∷ []) _
      (initialize_bob-IsValid toy (9 ∷ []) (generate_ratchet toy (2 ∷ [])))

-- Alice's session, as `initialize_alice` computes it.
abbrev alice_start : SessionState
alice_start = record {
  root_key = 3 ∷ 9 ∷ zeros 30;
  our_ratchet = record { secret_bytes = 1 ∷ []; public_bytes = 0 ∷ 1 ∷ [] };
  their_ratchet_key = some (0 ∷ 2 ∷ []);
  sending_chain_key = some (zeros 32);
  receiving_chain_key = none;
  send_count = 0;
  recv_count = 0;
  previous_send_count = 0;
  skipped = [];
}

alice_started : initialize_alice toy (1 ∷ []) (9 ∷ []) (0 ∷ 2 ∷ []) ≡ ok alice_start
unfolding initialize_alice generate_ratchet kdf_rk
alice_started = refl

abbrev first_message : RatchetMessage
first_message = record {
  header = record { ratchet_key = 0 ∷ 1 ∷ []; previous_chain_length = 0; message_number = 0 };
  ciphertext = 2 ∷ 42 ∷ [];
}

abbrev alice_next : SessionState
alice_next = record alice_start { sending_chain_key = some (2 ∷ zeros 32); send_count = 1 }

first_encrypted : encrypt toy (42 ∷ []) [] alice_start ≡ (ok first_message, alice_next)
unfolding encrypt Aead.encrypt kdf_ck derive_message_keys checked_succ authenticated_data
first_encrypted = refl

draw_IsFresh :
    IsFresh toy (7 ∷ []) alice_start (initialize_bob toy (9 ∷ []) (generate_ratchet toy (2 ∷ [])))
unfolding initialize_bob generate_ratchet get
draw_IsFresh = record { other = λ e. cc; no_keys = λ i. refl }

-- A second message of the same turn.
abbrev second_message : RatchetMessage
second_message = record {
  header = record { ratchet_key = 0 ∷ 1 ∷ []; previous_chain_length = 0; message_number = 1 };
  ciphertext = 5 ∷ 43 ∷ [];
}

abbrev alice_last : SessionState
alice_last = record alice_start { sending_chain_key = some (2 ∷ 2 ∷ zeros 32); send_count = 2 }

second_encrypted : encrypt toy (43 ∷ []) [] alice_next ≡ (ok second_message, alice_last)
unfolding encrypt Aead.encrypt kdf_ck derive_message_keys checked_succ authenticated_data
second_encrypted = refl

abbrev talk :
    Talk toy false alice_start (initialize_bob toy (9 ∷ []) (generate_ratchet toy (2 ∷ [])))
talk =
    says (7 ∷ []) (42 ∷ []) [] first_message alice_next first_encrypted draw_IsFresh
      (adds (8 ∷ []) (43 ∷ []) [] second_message alice_last second_encrypted (yields silence))

initialize-AllReceived_example : AllReceived toy talk
initialize-AllReceived_example =
    initialize-AllReceived toy toy-AesCorrect toy-DhAgrees toy-HkdfTotal (1 ∷ []) (2 ∷ []) (9 ∷ [])
      alice_start alice_started talk

-- A sending chain: the chain keys and the message keys.
twos : ℕ → Bytes
twos zero = []
twos (suc i) = 2 ∷ twos i

keys : ℕ → Bytes
keys i = 1 ∷ twos i

twos-IsChain : IsChain toy twos keys
unfolding kdf_ck keys twos
twos-IsChain i = rw add-one refl

abbrev receiver : SessionState
receiver = record alice_start {
  their_ratchet_key = some (0 ∷ 1 ∷ []);
  receiving_chain_key = some [];
}

receiver-Tracks : Tracks twos (0 ∷ 1 ∷ []) receiver
unfolding twos get
receiver-Tracks = record { their = refl; receiving = refl; ahead = λ i h. refl }

abbrev packet : ℕ → ℕ → ℕ → Packet
packet i tag letter = record {
  secret = [];
  header = record { ratchet_key = 0 ∷ 1 ∷ []; previous_chain_length = 0; message_number = i };
  ciphertext = tag ∷ letter ∷ [];
  envelope_aad = [];
  plaintext = letter ∷ [];
}

-- Message 1 arrives before message 0.
decrypt_all_lem_example :
    (decrypt_all toy (packet 1 5 42 ∷ packet 0 2 41 ∷ []) receiver).0
    ≡ ok (42 ∷ []) ∷ ok (41 ∷ []) ∷ []
unfolding keys twos Aead.encrypt derive_message_keys authenticated_data
decrypt_all_lem_example =
    decrypt_all_lem toy twos keys twos-IsChain (0 ∷ 1 ∷ []) toy-AesCorrect 2
      (packet 1 5 42 ∷ packet 0 2 41 ∷ []) receiver receiver-Tracks
      (
        (record { key = refl; sealed = refl }, omega arith, inl (omega arith)),
        ((record { key = refl; sealed = refl }, omega arith, inl (omega arith)), tt),
      )
      ((omega arith, tt), (tt, tt)) (omega arith) (omega arith)

-- The session that has skipped message 0 of that chain.
abbrev skipping : SessionState
skipping = record receiver {
  receiving_chain_key = some (2 ∷ 2 ∷ []);
  recv_count = 2;
  skipped = ((0 ∷ 1 ∷ [], 0), 1 ∷ []) ∷ [];
}

skipping-IsValid : IsValid skipping
unfolding get
skipping-IsValid = record {
  distinct = (refl, tt);
  bounded = omega arith;
  sent = omega arith;
  received = omega arith;
  previous = omega arith;
}

-- A forged ciphertext for the skipped message: the key is taken out and put back.
decrypt-SameSession_example :
    SameSession (decrypt toy [] (packet 0 3 41).header (3 ∷ 41 ∷ []) [] skipping).1 skipping
unfolding decrypt get Aead.decrypt derive_message_keys authenticated_data
decrypt-SameSession_example =
    decrypt-SameSession toy [] (packet 0 3 41).header (3 ∷ 41 ∷ []) [] skipping decryption_failed
      skipping-IsValid refl

-- The next message of the chain.
decrypt-Erased_example :
    Erased toy
      (packet 2 8 41).header
      (8 ∷ 41 ∷ [])
      []
      (41 ∷ [])
      skipping
      (decrypt toy [] (packet 2 8 41).header (8 ∷ 41 ∷ []) [] skipping).1
unfolding decrypt get Aead.decrypt derive_message_keys authenticated_data kdf_ck checked_succ
decrypt-Erased_example =
    decrypt-Erased toy [] (packet 2 8 41).header (8 ∷ 41 ∷ []) [] skipping (41 ∷ []) refl

sender : SessionState
sender = record alice_start { sending_chain_key = some [] }

abbrev sender_next : SessionState
sender_next = record alice_start { sending_chain_key = some (2 ∷ []); send_count = 1 }

encrypt-Sealed_example :
    Sealed toy twos keys twos-IsChain (0 ∷ 1 ∷ []) first_message.header (42 ∷ []) [] (2 ∷ 42 ∷ [])
    × (first_message.header.message_number ≡ sender.send_count)
    × (sender_next.send_count ≡ sender.send_count + 1)
    × Sends toy twos keys twos-IsChain (0 ∷ 1 ∷ []) sender_next
unfolding sender twos encrypt Aead.encrypt kdf_ck derive_message_keys checked_succ
    authenticated_data
encrypt-Sealed_example =
    encrypt-Sealed toy twos keys twos-IsChain (0 ∷ 1 ∷ []) sender sender_next (42 ∷ []) []
      (record { header = first_message.header; ciphertext = 2 ∷ 42 ∷ [] })
      (record { public = refl; sending = refl }) refl
