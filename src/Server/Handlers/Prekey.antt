-- ===== src/Server/Handlers/Prekey.antt =====
-- server/src/handlers/prekey.rs: fetching a bundle, uploading one-time pre-keys and rotating the
-- signed pre-key.
use cmp.Base.{
  ℕ, String, true, false, not, List, Option, none, some, leb, ltb, if◌then◌else◌, length, ◌==◌,
  string_eq, nat_eq,
}
use cmp.Base.Bytes.{Bytes}
use cmp.Protocol.Types.{
  UserId, MessageId, WireOneTimePreKey, max_prekeys_per_upload, max_prekeys_per_user,
}
use cmp.Protocol.Messages.{
  ServerMessage, prekey_bundle_response, prekey_low, prekeys_uploaded, signed_prekey_rotated,
}
use cmp.Server.Db.{Db, Result, ok, err, SignedPrekeyRow}
use cmp.Server.Users.{get_identity_key}
use cmp.Server.Prekeys.{
  UploadResult, inventory_full, invalid_sequence, upload_prekeys, count_prekeys,
}
use cmp.Server.Prekeys
use cmp.Server.SignedPrekeys.{
  SignedPreKeyRotationResult, previously_accepted, conflict, get_signed_prekey,
  rotate_signed_prekey,
}
use cmp.Server.SignedPrekeys
use cmp.Server.Fetch.{
  FetchLimits, FetchResult, fetched, nothing, target_depleted, rate_limited, fetch_for_requester,
}
use cmp.Server.World.{World, Externals}
use cmp.Server.Connection.{send_to}
use cmp.Server.Replies.{
  Checked, pass, refuse, ◌>>=◌, ◌>>◌, or_refuse, require, fixed, decode_prekeys, error_400,
  error_404, error_429, error_500_generic,
}

abbrev pub prekey_low_threshold : ℕ
prekey_low_threshold = 10

abbrev pub fetch_limits : FetchLimits
fetch_limits = record { window_secs = 3600; per_requester = 10; per_target = 20 }

module _ (e : Externals) where
  -- The alert, where few keys are left.
  unfoldable pub warn_if_low : String → ℕ → World → World
  warn_if_low uid now w = elim (count_prekeys w.db uid now) [
    | err why ↦ w
    | ok remaining ↦
        if ltb remaining prekey_low_threshold then (send_to e uid (prekey_low remaining) w).1 else w
  ]

  unfoldable pub send_bundle :
      UserId → Bytes → SignedPrekeyRow → Option (ℕ × Bytes) → ℕ → World → ServerMessage × World
  unfolding warn_if_low
  send_bundle target identity_key spk one_time now w = (
    prekey_bundle_response target (record {
      identity_key = e.b64_encode identity_key;
      signed_prekey = e.b64_encode spk.public_key;
      signed_prekey_id = spk.key_id;
      signed_prekey_signature = e.b64_encode spk.signature;
      one_time_prekey = elim one_time [
        | none ↦ none
        | some (key_id, public_key) ↦
            some (record { key_id = key_id; public_key = e.b64_encode public_key })
      ];
    }),
    warn_if_low target now w,
  )

  -- The match on what `fetch_for_requester` answered.
  unfoldable pub after_fetch :
      UserId → Bytes → SignedPrekeyRow → ℕ → World → Result FetchResult → ServerMessage × World
  unfolding send_bundle
  after_fetch target identity_key spk now w (ok (fetched key_id public_key)) =
      send_bundle target identity_key spk (some (key_id, public_key)) now w
  after_fetch target identity_key spk now w (ok nothing) =
      send_bundle target identity_key spk none now w
  after_fetch target identity_key spk now w (ok target_depleted) =
      send_bundle target identity_key spk none now w
  after_fetch target identity_key spk now w (ok rate_limited) =
      (error_429 "pre-key fetch rate limit exceeded", w)
  after_fetch target identity_key spk now w (err why) = (error_500_generic, w)

  unfoldable pub fetch_bundle :
      String → UserId → ℕ → World → Option Bytes → Option SignedPrekeyRow → ServerMessage × World
  unfolding after_fetch
  fetch_bundle requester_id target now w none spk = (error_404 "not found", w)
  fetch_bundle requester_id target now w (some identity_key) none = (error_404 "not found", w)
  fetch_bundle requester_id target now w (some identity_key) (some spk) =
      let r = fetch_for_requester e.pick w.db requester_id target now fetch_limits in
      after_fetch target identity_key spk now (record w { db = r.1 }) r.0

  unfoldable pub handle_fetch : String → UserId → ℕ → World → ServerMessage × World
  unfolding fetch_bundle
  handle_fetch requester_id target now w =
      if requester_id == target
      then (error_400 "cannot fetch your own pre-key bundle", w)
      else fetch_bundle requester_id target now w (get_identity_key w.db target)
          (get_signed_prekey w.db target)

  unfoldable pub upload_reply : MessageId → Result UploadResult → ServerMessage
  upload_reply upload_id (ok (Prekeys.accepted remaining)) =
      prekeys_uploaded upload_id true remaining
  upload_reply upload_id (ok (inventory_full remaining)) =
      prekeys_uploaded upload_id false remaining
  upload_reply upload_id (ok invalid_sequence) = error_400 "prekey IDs must increase monotonically"
  upload_reply upload_id (err why) = error_500_generic

  unfoldable pub validate_upload : List WireOneTimePreKey → Checked (List (ℕ × Bytes))
  unfolding decode_prekeys
  validate_upload prekeys = do
    require (leb (length prekeys) max_prekeys_per_upload) (error_400 "too many prekeys")
    require (not (length prekeys == 0)) (error_400 "prekey upload cannot be empty")
    decode_prekeys e prekeys

  unfoldable pub upload_with :
      String → MessageId → ℕ → World → Checked (List (ℕ × Bytes)) → ServerMessage × World
  unfolding upload_reply
  upload_with user_id upload_id now w (refuse m) = (m, w)
  upload_with user_id upload_id now w (pass pairs) =
      let r = upload_prekeys w.db user_id pairs max_prekeys_per_user now in
      (upload_reply upload_id r.0, record w { db = r.1 })

  unfoldable pub handle_upload :
      String → MessageId → List WireOneTimePreKey → ℕ → World → ServerMessage × World
  unfolding validate_upload upload_with
  handle_upload user_id upload_id prekeys now w =
      upload_with user_id upload_id now w (validate_upload prekeys)

  unfoldable pub decode_signed_prekey : String → String → Checked (Bytes × Bytes)
  unfolding fixed
  decode_signed_prekey public_key signature = do
    public_bytes ← or_refuse (e.b64_decode public_key) (error_400 "invalid signed prekey encoding")
    public_array ← or_refuse (fixed 32 public_bytes) (error_400 "signed prekey must be 32 bytes")
    signature_bytes ←
        or_refuse (e.b64_decode signature) (error_400 "invalid signed prekey signature encoding")
    signature_array ←
        or_refuse (fixed 64 signature_bytes) (error_400 "signed prekey signature must be 64 bytes")
    pass (public_array, signature_array)

  unfoldable pub verify_signature : Bytes → Bytes → Bytes → Checked (Unit {0})
  unfolding fixed
  verify_signature identity_key public_key signature = do
    identity_array ← or_refuse (fixed 32 identity_key) error_500_generic
    require (e.valid_key identity_array) error_500_generic
    require (e.verify identity_array public_key signature)
        (error_400 "signed prekey signature is invalid")

  unfoldable pub validate_signed_prekey_rotation :
      Db → String → String → String → Checked (Bytes × Bytes)
  unfolding decode_signed_prekey verify_signature
  validate_signed_prekey_rotation db user_id public_key signature = do
    decoded ← decode_signed_prekey public_key signature
    identity_key ← or_refuse (get_identity_key db user_id) (error_404 "not found")
    verify_signature identity_key decoded.0 decoded.1
    pass decoded

  -- What `store_signed_prekey_rotation` answers.
  unfoldable pub rotation_reply : MessageId → Result SignedPreKeyRotationResult → ServerMessage
  rotation_reply rotation_id (ok (SignedPrekeys.accepted current)) =
      signed_prekey_rotated rotation_id true false current
  rotation_reply rotation_id (ok (previously_accepted current)) =
      signed_prekey_rotated rotation_id false true current
  rotation_reply rotation_id (ok (SignedPrekeys.invalid_sequence current)) =
      signed_prekey_rotated rotation_id false false current
  rotation_reply rotation_id (ok (conflict current)) =
      signed_prekey_rotated rotation_id false false current
  rotation_reply rotation_id (err why) = error_500_generic

  unfoldable pub store_signed_prekey_rotation :
      String → MessageId → ℕ → World → Checked (Bytes × Bytes) → ServerMessage × World
  unfolding rotation_reply
  store_signed_prekey_rotation user_id rotation_id key_id w (refuse m) = (m, w)
  store_signed_prekey_rotation user_id rotation_id key_id w (pass (public_key, signature)) =
      let r = rotate_signed_prekey w.db (record {
        user_id = user_id;
        key_id = key_id;
        public_key = public_key;
        signature = signature;
      }) in
      (rotation_reply rotation_id r.0, record w { db = r.1 })

  unfoldable pub handle_signed_prekey_rotation :
      String → MessageId → ℕ → String → String → World → ServerMessage × World
  unfolding validate_signed_prekey_rotation store_signed_prekey_rotation
  handle_signed_prekey_rotation user_id rotation_id key_id public_key signature w =
      store_signed_prekey_rotation user_id rotation_id key_id w
        (validate_signed_prekey_rotation w.db user_id public_key signature)
