-- ===== src/Client/Manager/Arrival.antt =====
-- What decryption uses: client/src/crypto_decode.rs, and the own one-time pre-keys of
-- client/src/crypto_mgr_prekeys.rs.
use cmp.Base.{
  ℕ, ◌+◌, String, Bool, true, false, List, [], ◌∷◌, Option, none, some, if◌then◌else◌, length, ◌==◌,
  nat_eq, string_eq,
}
use cmp.Base.Bytes.{Bytes}
use cmp.Base.HashMap.{HashMap, get, insert, remove}
use cmp.Crypto.Keys.{SignedPreKey, OneTimePreKey}
use cmp.Crypto.Session.{RatchetHeader}
use cmp.Protocol.Aad.{prekey}
use cmp.Protocol.Types.{MessageId, WireRatchetHeader}
use cmp.Client.Outbox.{CryptoError, bad_bundle, bad_envelope, Result, ok, err}
use cmp.Client.Replay.{Processed, ProcessedMessage}
use cmp.Client.Manager.{Manager}
use cmp.Client.Manager.Acknowledging.{messages_of, remove_processed}

-- The part of `CryptoManager` that holds the client's own pre-keys, as far as decryption uses it.
pub record OwnPrekeys : Type 0 where
  pub stored_spk : Option SignedPreKey
  pub previous_spks : List SignedPreKey
  pub stored_opks : HashMap ℕ OneTimePreKey
  pub one_time_prekey_created_at : HashMap ℕ ℕ

-- Both parts of `CryptoManager`.
pub record Receiver : Type 0 where
  pub manager : Manager
  pub own : OwnPrekeys

pub data InboundDecrypt : Type 0 where
  pending : String → InboundDecrypt
  duplicate failed : InboundDecrypt

abbrev pub max_processed_messages : ℕ
max_processed_messages = 10000

-- `values().map(HashMap::len).sum()`.
unfoldable pub ledger_size : Processed → ℕ
ledger_size [] = 0
ledger_size ((peer, messages) ∷ processed) = length messages + ledger_size processed

unfoldable pub take_one_time_prekey :
    ℕ → OwnPrekeys → Option (OneTimePreKey × Option ℕ) × OwnPrekeys
take_one_time_prekey key_id own = elim (get key_id own.stored_opks) [
  | none ↦ (none, own)
  | some prekey ↦ (
    some (prekey, get key_id own.one_time_prekey_created_at),
    record own {
      stored_opks = remove key_id own.stored_opks;
      one_time_prekey_created_at = remove key_id own.one_time_prekey_created_at;
    },
  )
]

abbrev extend : ℕ → Option ℕ → HashMap ℕ ℕ → HashMap ℕ ℕ
extend key_id none created = created
extend key_id (some timestamp) created = insert key_id timestamp created

unfoldable pub restore_one_time_prekey : ℕ → OneTimePreKey → Option ℕ → OwnPrekeys → OwnPrekeys
restore_one_time_prekey key_id prekey created_at own = record own {
  stored_opks = insert key_id prekey own.stored_opks;
  one_time_prekey_created_at = extend key_id created_at own.one_time_prekey_created_at;
}

-- `consumed_opk`, and what is put back of it.
unfoldable pub consume : Option ℕ → OwnPrekeys → Option (OneTimePreKey × Option ℕ) × OwnPrekeys
unfolding take_one_time_prekey
consume none own = (none, own)
consume (some opk_id) own = take_one_time_prekey opk_id own

unfoldable pub restore_consumed :
    Option ℕ → Option (OneTimePreKey × Option ℕ) × OwnPrekeys → OwnPrekeys
unfolding restore_one_time_prekey
restore_consumed (some opk_id) (some (opk, created_at), own) =
    restore_one_time_prekey opk_id opk created_at own
restore_consumed _ (_, own) = own

-- A new mark is removed again; a mark that was there before stays.
abbrev pub unmark : String → MessageId → Bool × Processed → Processed
unmark peer_id message_id (true, processed) = remove_processed peer_id message_id processed
unmark peer_id message_id (false, processed) = processed

unfoldable pub lookup : String → MessageId → Processed → Option ProcessedMessage
lookup peer_id message_id processed = get message_id (messages_of peer_id processed)

-- base64's decoder, `String::from_utf8`, and `VerifyingKey::from_bytes`.
pub record Decoders : Type 0 where
  pub b64_decode : String → Option Bytes
  pub from_utf8 : Bytes → Option String
  pub is_verifying_key : Bytes → Bool

-- What one arrival finds: whether the store prunes, whether it saves, the clock at the start and
-- at the mark, and the random secret of a new ratchet key.
pub record Arrival : Type 0 where
  pub pruned : Bool
  pub saved : Bool
  pub now : ℕ
  pub marked_at : ℕ
  pub secret : Bytes

infixl 5 ◌>>=◌
abbrev pub ◌>>=◌ : {A B : Type 0} → Result A → (A → Result B) → Result B
ok a >>= f = f a
err e >>= f = err e

module _ (d : Decoders) where
  -- A text that does not decode gives the error, and bytes of another length `BadBundle`.
  unfoldable pub b64_decode_fixed : ℕ → String → CryptoError → Result Bytes
  b64_decode_fixed n encoded error = elim (d.b64_decode encoded) [
    | none ↦ err error
    | some bytes ↦ if length bytes == n then ok bytes else err bad_bundle
  ]

  unfoldable pub decode_ratchet_header : WireRatchetHeader → Result RatchetHeader
  unfolding b64_decode_fixed
  decode_ratchet_header proto = do
    ratchet_key ← b64_decode_fixed 32 proto.ratchet_key bad_envelope
    ok (record {
      ratchet_key = ratchet_key;
      previous_chain_length = proto.previous_chain_length;
      message_number = proto.message_number;
    })

  abbrev pub decode_ciphertext : String → Result Bytes
  decode_ciphertext ciphertext = elim (d.b64_decode ciphertext) [
    | none ↦ err bad_envelope
    | some bytes ↦ ok bytes
  ]

  unfoldable pub text_or_notice : Bytes → String
  text_or_notice plaintext = elim (d.from_utf8 plaintext) [
    | none ↦ "[invalid utf-8]"
    | some text ↦ text
  ]
