-- ===== src/Crypto/Ratchet.antt =====
-- crypto/src/ratchet.rs: the operations of the Double Ratchet on a session.
pub mod Bounds
pub mod Rollback
pub mod Erasure
pub mod History
pub mod Skipping
pub mod Delivery
pub mod Conversation
pub mod Handshake
pub mod Alternation
use cmp.Base.{
  ℕ, zero, suc, ◌+◌, ◌-◌, Option, none, some, [], ◌∷◌, ltb, leb, is_some, if◌then◌else◌, length,
  ◌==◌, list_eq, option_eq, pair_eq, nat_eq,
}
use cmp.Base.Bytes.{Bytes, checked_succ}
use cmp.Base.HashMap.{get, remove, insert}
use cmp.Crypto.Error.{
  Result, ok, err, no_session, skipped_key_limit_exceeded, message_counter_exhausted, ok_or, map_ok,
}
use cmp.Crypto.Primitives.{Primitives}
use cmp.Crypto.Kdf.{kdf_rk, kdf_ck}
use cmp.Crypto.Aead
use cmp.Crypto.Keys.{RatchetKeyPair, generate_ratchet}
use cmp.Crypto.Session.{
  max_skip, RatchetHeader, authenticated_data, RatchetMessage, SkippedKeysMap, SessionState, Exec,
  ◌>>=◌, ◌>>◌, pure, lift, read, write, store_skipped, roll_back,
}

module _ (p : Primitives) where
  -- `secret` is what the random generator returns for the new ratchet key.
  unfoldable pub initialize_alice : Bytes → Bytes → Bytes → Result SessionState
  initialize_alice secret shared_secret bob_ratchet_public =
      let our_ratchet = generate_ratchet p secret in
      let dh_output = p.diffie_hellman our_ratchet.secret_bytes bob_ratchet_public in
      map_ok
        (λ rk_out. record {
          root_key = rk_out.root_key;
          our_ratchet = our_ratchet;
          their_ratchet_key = some bob_ratchet_public;
          sending_chain_key = some rk_out.chain_key;
          receiving_chain_key = none;
          send_count = 0;
          recv_count = 0;
          previous_send_count = 0;
          skipped = [];
        })
        (kdf_rk p shared_secret dh_output)

  unfoldable pub initialize_bob : Bytes → RatchetKeyPair → SessionState
  initialize_bob shared_secret bob_ratchet = record {
    root_key = shared_secret;
    our_ratchet = bob_ratchet;
    their_ratchet_key = none;
    sending_chain_key = none;
    receiving_chain_key = none;
    send_count = 0;
    recv_count = 0;
    previous_send_count = 0;
    skipped = [];
  }

  -- Everything that can fail comes before the two writes.
  unfoldable pub encrypt : Bytes → Bytes → Exec RatchetMessage
  unfolding authenticated_data
  encrypt plaintext envelope_aad = do
    state ← read
    new_send_count ← lift (ok_or (checked_succ state.send_count) message_counter_exhausted)
    chain_key ← lift (ok_or state.sending_chain_key no_session)
    ck_out ← lift (kdf_ck p chain_key)
    let header : RatchetHeader = record {
      ratchet_key = state.our_ratchet.public_bytes;
      previous_chain_length = state.previous_send_count;
      message_number = state.send_count;
    }
    let aad = authenticated_data envelope_aad header
    ciphertext ← lift (Aead.encrypt p ck_out.message_key plaintext aad)
    write (record state { sending_chain_key = some ck_out.chain_key; send_count = new_send_count })
    pure (record { header = header; ciphertext = ciphertext })

  -- The loop `for i in current..until`, by the rounds that are left: it stores each message key and
  -- returns the chain key that comes after.
  unfoldable pub skip_loop : ℕ → ℕ → Bytes → Bytes → Exec Bytes
  skip_loop zero i their_key chain_key = pure chain_key
  skip_loop (suc rounds) i their_key chain_key = do
    ck_out ← lift (kdf_ck p chain_key)
    store_skipped (their_key, i) ck_out.message_key
    skip_loop rounds (i + 1) their_key ck_out.chain_key

  -- `None` for either key returns early.
  unfoldable pub skip_with : Option Bytes → Option Bytes → ℕ → ℕ → Exec (Unit {0})
  unfolding skip_loop
  skip_with (some their_key) (some chain_key) current until = do
    last ← skip_loop (until - current) current their_key chain_key
    state ← read
    write (record state { receiving_chain_key = some last })
  skip_with _ _ current until = pure tt

  unfoldable pub skip_message_keys : ℕ → ℕ → Exec (Unit {0})
  unfolding skip_with
  skip_message_keys current until state =
      if leb until current
      then (ok tt, state)
      else if ltb max_skip (until - current + length state.skipped)
      then (err skipped_key_limit_exceeded, state)
      else skip_with state.their_ratchet_key state.receiving_chain_key current until state

  -- `if state.receiving_chain_key.is_some() { skip_message_keys(..)?; }`
  unfoldable pub skip_previous_chain : RatchetHeader → Exec (Unit {0})
  unfolding skip_message_keys
  skip_previous_chain header state =
      if is_some state.receiving_chain_key
      then skip_message_keys state.recv_count header.previous_chain_length state
      else (ok tt, state)

  -- The new receiving chain, and what is reset with it.
  unfoldable pub start_receiving : RatchetHeader → Bytes → Exec (Unit {0})
  start_receiving header secret = do
    state ← read
    let dh_output = p.diffie_hellman state.our_ratchet.secret_bytes header.ratchet_key
    rk_out ← lift (kdf_rk p state.root_key dh_output)
    write (record state {
      root_key = rk_out.root_key;
      our_ratchet = generate_ratchet p secret;
      their_ratchet_key = some header.ratchet_key;
      receiving_chain_key = some rk_out.chain_key;
      send_count = 0;
      recv_count = 0;
      previous_send_count = state.send_count;
    })

  -- The new sending chain, from the key pair that was just generated.
  unfoldable pub start_sending : RatchetHeader → Exec (Unit {0})
  start_sending header = do
    state ← read
    let dh_output2 = p.diffie_hellman state.our_ratchet.secret_bytes header.ratchet_key
    rk_out2 ← lift (kdf_rk p state.root_key dh_output2)
    write (record state { root_key = rk_out2.root_key; sending_chain_key = some rk_out2.chain_key })

  unfoldable pub dh_step : RatchetHeader → Bytes → Exec (Unit {0})
  unfolding skip_previous_chain start_receiving start_sending
  dh_step header secret = do
    skip_previous_chain header
    start_receiving header secret
    start_sending header

  unfoldable pub ratchet_if_needed : RatchetHeader → Bytes → Exec (Unit {0})
  unfolding dh_step
  ratchet_if_needed header secret state =
      if state.their_ratchet_key == some header.ratchet_key
      then (ok tt, state)
      else dh_step header secret state

  -- From the skipping up to the new message to the commit.
  unfoldable pub receive : RatchetHeader → Bytes → Bytes → Exec Bytes
  unfolding skip_message_keys
  receive header ciphertext envelope_aad = do
    before ← read
    skip_message_keys before.recv_count header.message_number
    state ← read
    chain_key ← lift (ok_or state.receiving_chain_key no_session)
    ck_out ← lift (kdf_ck p chain_key)
    let aad = authenticated_data envelope_aad header
    plaintext ← lift (Aead.decrypt p ck_out.message_key ciphertext aad)
    write (record state { receiving_chain_key = some ck_out.chain_key })
    committed ← read
    recv_count ← lift (ok_or (checked_succ header.message_number) message_counter_exhausted)
    write (record committed { recv_count = recv_count })
    pure plaintext

  unfoldable pub try_decrypt_inner : Bytes → RatchetHeader → Bytes → Bytes → Exec Bytes
  unfolding ratchet_if_needed receive
  try_decrypt_inner secret header ciphertext envelope_aad = do
    ratchet_if_needed header secret
    receive header ciphertext envelope_aad

  -- A skipped key is consumed by a success and put back after a failure.
  unfoldable pub decrypt_skipped : Bytes → RatchetHeader → Bytes → Bytes → Exec Bytes
  decrypt_skipped message_key header ciphertext envelope_aad state =
      let skip_key : Bytes × ℕ = (header.ratchet_key, header.message_number) in
      let removed : SkippedKeysMap = remove skip_key state.skipped in
      elim (Aead.decrypt p message_key ciphertext (authenticated_data envelope_aad header)) [
        | ok plaintext ↦ (ok plaintext, record state { skipped = removed })
        | err e ↦ (err e, record state { skipped = insert skip_key message_key removed })
      ]

  -- `secret` is the draw for the ratchet key that a Diffie-Hellman step generates.
  unfoldable pub decrypt : Bytes → RatchetHeader → Bytes → Bytes → Exec Bytes
  unfolding decrypt_skipped try_decrypt_inner
  decrypt secret header ciphertext envelope_aad state =
      elim (get (header.ratchet_key, header.message_number) state.skipped) [
        | some message_key ↦ decrypt_skipped message_key header ciphertext envelope_aad state
        | none ↦ roll_back state (try_decrypt_inner secret header ciphertext envelope_aad state)
      ]
