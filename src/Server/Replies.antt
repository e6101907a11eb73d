-- ===== src/Server/Replies.antt =====
-- server/src/handlers/mod.rs: the state of one connection, the replies that the handlers share, and
-- the decoding of pre-keys.
pub mod Passed
use cmp.Base.{
  ℕ, String, Bool, true, false, not, ◌&&◌, ◌||◌, List, [], ◌∷◌, Option, none, some, if◌then◌else◌,
  length, ◌==◌, nat_eq,
}
use cmp.Base.Bytes.{Bytes}
use cmp.Protocol.Types.{UserId, WireOneTimePreKey}
use cmp.Protocol.Messages.{ServerMessage, error, auth_failure}
use cmp.Server.World.{World, Externals}

pub record PendingChallenge : Type 0 where
  pub user_id : String
  pub nonce : Bytes
  pub timestamp : ℕ

-- `cancel` is the watch channel of the connection.
pub record Session : Type 0 where
  pub authed_user : Option String
  pub conn_id : Option ℕ
  pub pending_challenge : Option PendingChallenge
  pub deliver_prekey_status : Bool
  pub cancel : ℕ

-- `Session::new`.
unfoldable pub new_session : ℕ → Session
new_session cancel = record {
  authed_user = none;
  conn_id = none;
  pending_challenge = none;
  deliver_prekey_status = false;
  cancel = cancel;
}

abbrev pub error_400 : String → ServerMessage
error_400 = error 400

abbrev pub error_404 : String → ServerMessage
error_404 = error 404

abbrev pub error_429 : String → ServerMessage
error_429 = error 429

abbrev pub error_500_generic : ServerMessage
error_500_generic = error 500 "internal server error"

-- A chain of checks: the value goes on, or a reply returns early.
pub data Checked {ℓ} (A : Type ℓ) : Type ℓ where
  pass : A → Checked A
  refuse : ServerMessage → Checked A

infixl 5 ◌>>=◌ ◌>>◌
abbrev pub ◌>>=◌ {ℓ κ} : {A : Type ℓ} {B : Type κ} → Checked A → (A → Checked B) → Checked B
pass a >>= f = f a
refuse m >>= f = refuse m

abbrev pub ◌>>◌ {ℓ} : {B : Type ℓ} → Checked (Unit {0}) → Checked B → Checked B
m >> k = m >>= λ _. k

-- `let Some(a) = o else { return m }`.
abbrev pub or_refuse {ℓ} : {A : Type ℓ} → Option A → ServerMessage → Checked A
or_refuse none m = refuse m
or_refuse (some a) m = pass a

-- `if !b { return m }`.
abbrev pub require : Bool → ServerMessage → Checked (Unit {0})
require true m = pass tt
require false m = refuse m

-- The handler's result: the refusal with the state unchanged, or what the continuation makes.
abbrev pub finish {ℓ κ} :
    {A : Type ℓ} {S : Type κ} → Checked A → S → (A → ServerMessage × S) → ServerMessage × S
finish (pass a) s f = f a
finish (refuse m) s f = (m, s)

abbrev pub contains : ℕ → List ℕ → Bool
contains n [] = false
contains n (x ∷ xs) = x == n || contains n xs

-- `bytes.try_into()` for an array of so many bytes.
unfoldable pub fixed : ℕ → Bytes → Option Bytes
fixed n bytes = if length bytes == n then some bytes else none

module _ (e : Externals) where
  -- A key that is kept: it decodes, to 32 bytes.
  unfoldable pub decode_key : String → Option Bytes
  unfolding fixed
  decode_key text = elim (e.b64_decode text) [ none ↦ none | some bytes ↦ fixed 32 bytes ]

  -- The filter_map: a key whose id was seen before is dropped, and so is one that does not decode.
  unfoldable pub decode_loop : List ℕ → List WireOneTimePreKey → List (ℕ × Bytes)
  unfolding decode_key
  decode_loop seen [] = []
  decode_loop seen (pk ∷ pks) =
      let rest = decode_loop (pk.key_id ∷ seen) pks in
      if contains pk.key_id seen
      then rest
      else elim (decode_key pk.public_key) [ none ↦ rest | some bytes ↦ (pk.key_id, bytes) ∷ rest ]

  unfoldable pub decode_prekeys : List WireOneTimePreKey → Checked (List (ℕ × Bytes))
  unfolding decode_loop
  decode_prekeys prekeys =
      let pairs = decode_loop [] prekeys in
      if length pairs == length prekeys
      then pass pairs
      else refuse (error_400 "prekeys must have unique IDs and valid 32-byte base64 public keys")
