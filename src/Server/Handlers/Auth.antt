-- ===== src/Server/Handlers/Auth.antt =====
-- server/src/handlers/auth.rs: registration, and login by a signed challenge. `tx` is the channel
-- to the client.
use cmp.Base.{
  ℕ, ◌-◌, String, Bool, true, false, List, ◌++◌, Option, none, some, leb, is_some, if◌then◌else◌,
  length, ◌==◌, nat_eq,
}
use cmp.Base.Bytes.{Bytes, be64}
use cmp.Protocol.Types.{UserId, WireOneTimePreKey, PreKeyBundle, max_prekeys_per_upload}
use cmp.Protocol.Messages.{ServerMessage, auth_success, auth_failure, challenge}
use cmp.Server.Db.{Result, ok, err}
use cmp.Server.Users.{Registration, register_atomic, get_identity_key, user_exists}
use cmp.Server.World.{World, Externals}
use cmp.Server.Connection.{insert_connection}
use cmp.Server.Replies.{
  Session, PendingChallenge, Checked, pass, refuse, ◌>>=◌, ◌>>◌, or_refuse, require, fixed,
  decode_prekeys, error_400, error_500_generic,
}

-- `session.authed_user = Some(user)` and `session.conn_id = Some(conn_id)`.
abbrev pub logged_in : String → ℕ → Session → Session
logged_in user conn_id session = record session { authed_user = some user; conn_id = some conn_id }

module _ (e : Externals) where
  -- The checks of `handle_register` before the database is asked.
  unfoldable pub validate_registration :
      UserId → PreKeyBundle → List WireOneTimePreKey → Checked Registration
  unfolding fixed decode_prekeys
  validate_registration user_id bundle one_time_prekeys = do
    require (leb (length one_time_prekeys) max_prekeys_per_upload) (error_400 "too many prekeys")
    identity_bytes ←
        or_refuse (e.b64_decode bundle.identity_key) (auth_failure "invalid base64 in identity_key")
    ik_arr ← or_refuse (fixed 32 identity_bytes) (auth_failure "identity key must be 32 bytes")
    require (e.valid_key ik_arr) (auth_failure "identity key is not a valid Ed25519 public key")
    spk_bytes ←
        or_refuse (e.b64_decode bundle.signed_prekey)
          (auth_failure "invalid base64 in signed_prekey")
    require (length spk_bytes == 32) (auth_failure "signed prekey must be 32 bytes")
    sig_bytes ←
        or_refuse (e.b64_decode bundle.signed_prekey_signature)
          (auth_failure "invalid base64 in signature")
    sig_arr ← or_refuse (fixed 64 sig_bytes) (auth_failure "signature must be 64 bytes")
    require (e.verify ik_arr spk_bytes sig_arr) (auth_failure "signed prekey signature is invalid")
    prekey_pairs ← decode_prekeys e one_time_prekeys
    pass (record {
      user_id = user_id;
      identity_key = identity_bytes;
      signed_prekey_id = bundle.signed_prekey_id;
      signed_prekey_public = spk_bytes;
      signed_prekey_signature = sig_bytes;
      one_time_prekeys = prekey_pairs;
    })

  -- The match on what the database answered.
  unfoldable pub after_registration :
      ℕ → Session → String → World → Result Bool → ServerMessage × Session × World
  after_registration tx session uid w (ok true) =
      let joined = insert_connection e uid tx session.cancel w in
      (auth_success, logged_in uid joined.0 session, joined.1)
  after_registration tx session uid w (ok false) =
      (auth_failure "user already exists — use AuthChallenge to login", session, w)
  after_registration tx session uid w (err why) = (error_500_generic, session, w)

  unfoldable pub register_with :
      ℕ → Session → ℕ → World → Checked Registration → ServerMessage × Session × World
  unfolding after_registration
  register_with tx session now w (refuse m) = (m, session, w)
  register_with tx session now w (pass registration) =
      let r = register_atomic w.db registration now in
      after_registration tx session registration.user_id (record w { db = r.1 }) r.0

  unfoldable pub handle_register :
      ℕ
      → Session
      → UserId
      → PreKeyBundle
      → List WireOneTimePreKey
      → ℕ
      → World
      → ServerMessage × Session × World
  unfolding validate_registration register_with
  handle_register tx session user_id bundle one_time_prekeys now w =
      if is_some session.authed_user
      then (auth_failure "already authenticated", session, w)
      else register_with tx session now w (validate_registration user_id bundle one_time_prekeys)

  -- `nonce` is the random draw.
  unfoldable pub handle_auth_challenge :
      Session → UserId → Bytes → ℕ → World → ServerMessage × Session × World
  handle_auth_challenge session user_id nonce now w =
      if is_some session.authed_user
      then (auth_failure "already authenticated", session, w)
      else if user_exists w.db user_id
      then (
        challenge (e.b64_encode nonce) now w.server_id,
        record session {
          pending_challenge = some (record { user_id = user_id; nonce = nonce; timestamp = now });
        },
        w,
      )
      else (auth_failure "authentication failed", session, w)

  -- What a client signs: the nonce, the time and the name of the server.
  unfoldable pub signed_data : PendingChallenge → String → Bytes
  signed_data c server_id = c.nonce ++ (be64 c.timestamp ++ e.utf8 server_id)

  -- The checks of `handle_auth_response` once the challenge is taken.
  unfoldable pub check_response : World → PendingChallenge → String → ℕ → Checked (Unit {0})
  unfolding fixed signed_data
  check_response w c signature_b64 now = do
    require (leb (now - c.timestamp) 60) (auth_failure "challenge expired")
    identity_bytes ←
        or_refuse (get_identity_key w.db c.user_id) (auth_failure "authentication failed")
    vk_bytes ← or_refuse (fixed 32 identity_bytes) (auth_failure "invalid stored identity key")
    require (e.valid_key vk_bytes) (auth_failure "invalid stored identity key")
    sig_bytes ← or_refuse (e.b64_decode signature_b64) (auth_failure "invalid base64 signature")
    sig_arr ← or_refuse (fixed 64 sig_bytes) (auth_failure "signature must be 64 bytes")
    require (e.verify vk_bytes (signed_data c w.server_id) sig_arr)
        (auth_failure "signature verification failed")

  unfoldable pub log_in :
      ℕ → Session → World → PendingChallenge → Checked (Unit {0}) → ServerMessage × Session × World
  log_in tx session w c (refuse m) = (m, session, w)
  log_in tx session w c (pass _) =
      let joined = insert_connection e c.user_id tx session.cancel w in
      (
        auth_success,
        record (logged_in c.user_id joined.0 session) { deliver_prekey_status = true },
        joined.1,
      )

  -- `session.pending_challenge.take()`: the challenge is gone whatever follows.
  unfoldable pub respond_to :
      ℕ → Session → String → ℕ → World → Option PendingChallenge → ServerMessage × Session × World
  unfolding log_in check_response
  respond_to tx session signature_b64 now w none = (auth_failure "no pending challenge", session, w)
  respond_to tx session signature_b64 now w (some c) =
      log_in tx (record session { pending_challenge = none }) w c
        (check_response w c signature_b64 now)

  unfoldable pub handle_auth_response :
      ℕ → Session → String → ℕ → World → ServerMessage × Session × World
  unfolding respond_to
  handle_auth_response tx session signature_b64 now w =
      if is_some session.authed_user
      then (auth_failure "already authenticated", session, w)
      else respond_to tx session signature_b64 now w session.pending_challenge
