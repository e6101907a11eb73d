-- ===== src/Crypto/Session.antt =====
-- crypto/src/ratchet.rs: the header, the message and the session state, and the effect of an
-- operation with `&mut SessionState`: it takes the state and returns the new one beside its result,
-- also where it fails, since what it wrote before an error stays written.
use cmp.Base.{ℕ, Option, ◌++◌}
use cmp.Base.Bytes.{Bytes, be32}
use cmp.Base.{pair_eq, list_eq, nat_eq}
use cmp.Base.HashMap.{HashMap, insert}
use cmp.Crypto.Error.{Result, ok, err}
use cmp.Crypto.Keys.{RatchetKeyPair}

abbrev pub max_skip : ℕ
max_skip = 1000

pub record RatchetHeader : Type 0 where
  pub ratchet_key : Bytes
  pub previous_chain_length : ℕ
  pub message_number : ℕ

unfoldable pub to_aad : RatchetHeader → Bytes
unfolding be32
to_aad header =
    header.ratchet_key ++ (be32 header.previous_chain_length ++ be32 header.message_number)

unfoldable pub authenticated_data : Bytes → RatchetHeader → Bytes
unfolding to_aad
authenticated_data envelope_aad header = envelope_aad ++ to_aad header

pub record RatchetMessage : Type 0 where
  pub header : RatchetHeader
  pub ciphertext : Bytes

-- `(ratchet_key, message_number) -> message_key`.
abbrev pub SkippedKeysMap : Type 0
SkippedKeysMap = HashMap (Bytes × ℕ) Bytes

pub record SessionState : Type 0 where
  pub root_key : Bytes
  pub our_ratchet : RatchetKeyPair
  pub their_ratchet_key : Option Bytes
  pub sending_chain_key : Option Bytes
  pub receiving_chain_key : Option Bytes
  pub send_count : ℕ
  pub recv_count : ℕ
  pub previous_send_count : ℕ
  pub skipped : SkippedKeysMap

-- What an operation on a session returns, beside the session that it leaves.
abbrev pub Exec : Type 0 → Type 0
Exec A = SessionState → Result A × SessionState

abbrev pub continue : {A B : Type 0} → Result A → (A → Exec B) → Exec B
continue (ok a) f s = f a s
continue (err e) f s = (err e, s)

infixl 5 ◌>>=◌ ◌>>◌
abbrev pub ◌>>=◌ : {A B : Type 0} → Exec A → (A → Exec B) → Exec B
◌>>=◌ m f s = continue (m s).0 f (m s).1

abbrev pub ◌>>◌ : {A B : Type 0} → Exec A → Exec B → Exec B
m >> n = m >>= λ _. n

abbrev pub pure : {A : Type 0} → A → Exec A
pure a s = (ok a, s)

-- `?` on a result.
abbrev pub lift : {A : Type 0} → Result A → Exec A
lift r s = (r, s)

abbrev pub read : Exec SessionState
read s = (ok s, s)

abbrev pub write : SessionState → Exec (Unit {0})
write s _ = (ok tt, s)

-- `state.skipped.insert(key, message_key)`.
abbrev pub store_skipped : Bytes × ℕ → Bytes → Exec (Unit {0})
store_skipped key message_key s = (ok tt, record s { skipped = insert key message_key s.skipped })

-- `if result.is_err() { *state = snapshot; }`
abbrev pub roll_back :
    {A : Type 0} → SessionState → Result A × SessionState → Result A × SessionState
roll_back snapshot (ok a, s) = (ok a, s)
roll_back snapshot (err e, s) = (err e, snapshot)
