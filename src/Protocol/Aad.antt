-- ===== src/Protocol/Aad.antt =====
-- protocol/src/aad.rs: the context that the associated data of an envelope starts with.
pub mod Injective
use cmp.Base.{ℕ, [], ◌∷◌, ◌++◌, Option, none, some}
use cmp.Base.Bytes.{Bytes, ascii, be32}

abbrev pub domain : Bytes
domain = ascii "CMP_ENVELOPE_AAD"

abbrev pub prekey_header : ℕ
prekey_header = 1

abbrev pub ratchet_header : ℕ
ratchet_header = 2

unfoldable pub prefix : ℕ → ℕ → Bytes
unfolding be32
prefix version header_type = domain ++ (be32 version ++ header_type ∷ [])

unfoldable pub ratchet : ℕ → Bytes
unfolding prefix
ratchet version = prefix version ratchet_header

-- The last five bytes.
unfoldable pub one_time_field : Option ℕ → Bytes
unfolding be32
one_time_field (some key_id) = 1 ∷ be32 key_id
one_time_field none = 0 ∷ be32 0

unfoldable pub prekey : ℕ → Bytes → Bytes → ℕ → Option ℕ → Bytes
unfolding prefix one_time_field
prekey version sender_identity_key sender_ephemeral_key recipient_signed_prekey_id
      recipient_one_time_prekey_id =
    prefix version prekey_header
    ++ (sender_identity_key
        ++ (sender_ephemeral_key
            ++ (be32 recipient_signed_prekey_id ++ one_time_field recipient_one_time_prekey_id)))
