-- ===== src/Protocol/Types.antt =====
-- protocol/src/types.rs and consts.rs: user ids, message ids, envelopes and pre-keys on the wire. A
-- validated user id is the text that it holds, and a message id is its canonical text. Fields in
-- base64 are texts, as in the source.
pub mod Valid
use cmp.Base.{
  ℕ, ◌+◌, ◌*◌, ◌<◌, String, Bool, true, false, not, ◌&&◌, ◌||◌, List, [], ◌∷◌, Option, none, some,
  leb, ltb, if◌then◌else◌, ◌==◌, nat_eq, length,
}
use cmp.Base.Bytes.{Bytes, ascii}

abbrev pub UserId : Type 0
UserId = String

abbrev pub MessageId : Type 0
MessageId = String

-- `char::is_whitespace`: the characters of Unicode's property White_Space.
unfoldable pub is_whitespace : ℕ → Bool
is_whitespace c =
    leb 9 c && leb c 13
    || (c == 32
        || (c == 133
            || (c == 160
                || (c == 5760
                    || (leb 8192 c && leb c 8202
                        || (c == 8232
                            || (c == 8233 || (c == 8239 || (c == 8287 || c == 12288)))))))))

-- `id.trim().is_empty()`.
unfoldable pub all_whitespace : List ℕ → Bool
unfolding is_whitespace
all_whitespace [] = true
all_whitespace (c ∷ cs) = is_whitespace c && all_whitespace cs

-- `id.len()`: the bytes of the UTF-8 encoding.
unfoldable pub utf8_length : List ℕ → ℕ
utf8_length [] = 0
utf8_length (c ∷ cs) =
    (if ltb c 128 then 1 else if ltb c 2048 then 2 else if ltb c 65536 then 3 else 4)
    + utf8_length cs

unfoldable pub is_ascii : List ℕ → Bool
is_ascii [] = true
is_ascii (c ∷ cs) = ltb c 128 && is_ascii cs

-- `id.bytes().any(|b| b.is_ascii_control())`, where all characters are ASCII.
unfoldable pub has_control : List ℕ → Bool
has_control [] = false
has_control (c ∷ cs) = (ltb c 32 || c == 127) || has_control cs

-- `id.contains('/') || id.contains('\\')`.
unfoldable pub has_separator : List ℕ → Bool
has_separator [] = false
has_separator (c ∷ cs) = (c == 47 || c == 92) || has_separator cs

unfoldable pub starts_with_dot : List ℕ → Bool
starts_with_dot [] = false
starts_with_dot (c ∷ cs) = c == 46

-- `id.contains("..")`.
unfoldable pub has_dots : List ℕ → Bool
unfolding starts_with_dot
has_dots [] = false
has_dots (c ∷ cs) = c == 46 && starts_with_dot cs || has_dots cs

-- `UserId::new`. The text of the error is left out.
unfoldable pub user_id : String → Option UserId
unfolding all_whitespace utf8_length is_ascii has_control has_separator has_dots
user_id id =
    let chars = ascii id in
    if all_whitespace chars
    then none
    else if ltb 128 (utf8_length chars)
    then none
    else if not (is_ascii chars)
    then none
    else if has_control chars
    then none
    else if has_separator chars || has_dots chars
    then none
    else some id

-- `RatchetHeader` of the wire, whose key is in base64.
pub record WireRatchetHeader : Type 0 where
  pub ratchet_key : String
  pub previous_chain_length : ℕ
  pub message_number : ℕ

pub record PreKeyHeader : Type 0 where
  pub sender_identity_key : String
  pub sender_ephemeral_key : String
  pub recipient_signed_prekey_id : ℕ
  pub recipient_one_time_prekey_id : Option ℕ
  pub ratchet : WireRatchetHeader

pub data MessageHeader : Type 0 where
  pre_key : PreKeyHeader → MessageHeader
  established : WireRatchetHeader → MessageHeader

pub record EncryptedEnvelope : Type 0 where
  pub version : ℕ
  pub header : MessageHeader
  pub ciphertext : String

pub record WireOneTimePreKey : Type 0 where
  pub key_id : ℕ
  pub public_key : String

pub record PreKeyBundle : Type 0 where
  pub identity_key : String
  pub signed_prekey : String
  pub signed_prekey_id : ℕ
  pub signed_prekey_signature : String
  pub one_time_prekey : Option WireOneTimePreKey

abbrev pub protocol_version : ℕ
protocol_version = 2

abbrev pub max_prekeys_per_upload : ℕ
max_prekeys_per_upload = 200

abbrev pub max_prekeys_per_user : ℕ
max_prekeys_per_user = 200

abbrev pub max_ack_batch : ℕ
max_ack_batch = 1000

abbrev pub max_queued_messages : ℕ
max_queued_messages = 1000

abbrev pub max_queued_messages_per_page : ℕ
max_queued_messages_per_page = 64

abbrev pub max_ciphertext_bytes : ℕ
max_ciphertext_bytes = 512 * 1024

abbrev pub max_queued_page_bytes : ℕ
max_queued_page_bytes = 512 * 1024 + 16 * 1024

abbrev pub max_queue_per_user : ℕ
max_queue_per_user = 10000

abbrev pub max_receipt_batch : ℕ
max_receipt_batch = 100
