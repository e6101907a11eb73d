-- ===== src/Server/Handlers/Router/Challenges.antt =====
-- server/src/handlers/auth.rs: the pending challenge of a connection.
use mathlib.Core.List.{Memᴰ}
use cmp.Base.{
  ℕ, String, List, ◌∷◌, Option, none, some, ◌≡◌, ◌⊎◌, inl, inr, arith, refl, subst, Bool-cases,
  is_some, Option-cases, sym,
}
use cmp.Base.Bytes.{Bytes}
use cmp.Protocol.Types.{UserId, PreKeyBundle, WireOneTimePreKey}
use cmp.Protocol.Messages.{
  ClientMessage, register, auth_challenge, auth_response, upload_prekeys, rotate_signed_prekey,
  fetch_prekey_bundle, send_message, ack, ack_message_sent, typing, send_read_receipt,
  ack_read_receipt, ack_read_receipt_sent, auth_failure,
}
use cmp.Server.Users.{Registration, user_exists}
use cmp.Server.World.{World, Externals}
use cmp.Server.Replies.{Session, PendingChallenge, Checked, pass, refuse}
use cmp.Server.Handlers.Auth.{
  validate_registration, after_registration, register_with, handle_register, handle_auth_challenge,
  log_in, respond_to, handle_auth_response,
}
use cmp.Server.Handlers.Router.{handle_message}

abbrev pub asked : ClientMessage → Bytes → ℕ → List PendingChallenge → List PendingChallenge
asked (auth_challenge user) nonce now cs =
    record { user_id = user; nonce = nonce; timestamp = now } ∷ cs
asked _ nonce now cs = cs

-- The pending challenge, if there is one, is among these.
abbrev pub Pending : Option PendingChallenge → List PendingChallenge → Type 0
Pending none cs = Unit
Pending (some c) cs = Memᴰ c cs

Pending-later :
    (d : PendingChallenge) (o : Option PendingChallenge) (cs : List PendingChallenge)
    → Pending o cs
    → Pending o (d ∷ cs)
Pending-later d none cs h = tt
Pending-later d (some c) cs h = Memᴰ.tail h

register_with-pending :
    (e : Externals) (tx : ℕ) (s : Session) (now : ℕ) (w : World) (c : Checked Registration)
    → (register_with e tx s now w c).1.pending_challenge ≡ s.pending_challenge
unfolding register_with after_registration
register_with-pending e tx s now w (refuse m) = refl
register_with-pending e tx s now w (pass r) = ground arith

respond_to-pending :
    (e : Externals) (tx : ℕ) (s : Session) (text : String) (now : ℕ) (w : World)
    (o : Option PendingChallenge)
    → s.pending_challenge ≡ o
    → (respond_to e tx s text now w o).1.pending_challenge ≡ none
unfolding respond_to log_in
respond_to-pending e tx s text now w none h = h
respond_to-pending e tx s text now w (some c) h = ground arith

register-pending :
    (e : Externals) (tx : ℕ) (s : Session) (user : UserId) (bundle : PreKeyBundle)
    (keys : List WireOneTimePreKey) (now : ℕ) (w : World)
    → (handle_register e tx s user bundle keys now w).1.pending_challenge ≡ s.pending_challenge
unfolding handle_register
register-pending e tx s user bundle keys now w =
    ground (arith, register_with-pending e tx s now w (validate_registration e user bundle keys))

challenge-cases :
    (e : Externals) (s : Session) (user : UserId) (nonce : Bytes) (now : ℕ) (w : World)
    → ((handle_auth_challenge e s user nonce now w).1.pending_challenge ≡ s.pending_challenge)
      ⊎ ((handle_auth_challenge e s user nonce now w).1.pending_challenge
          ≡ some (record { user_id = user; nonce = nonce; timestamp = now }))
unfolding handle_auth_challenge
challenge-cases e s user nonce now w = elim (Bool-cases (is_some s.authed_user)) [
  | inl auth ↦ inl (ground (arith, auth))
  | inr out ↦ elim (Bool-cases (user_exists w.db user)) [
    | inl known ↦ inr (ground (arith, out, known))
    | inr unknown ↦ inl (ground (arith, out, unknown))
  ]
]

challenge-Pending :
    (e : Externals) (s : Session) (user : UserId) (nonce : Bytes) (now : ℕ) (w : World)
    (cs : List PendingChallenge)
    → Pending s.pending_challenge cs
    → Pending
        (handle_auth_challenge e s user nonce now w).1.pending_challenge
        (record { user_id = user; nonce = nonce; timestamp = now } ∷ cs)
unfolding handle_auth_challenge
challenge-Pending e s user nonce now w cs h =
    let c : PendingChallenge = record { user_id = user; nonce = nonce; timestamp = now } in
    elim (challenge-cases e s user nonce now w) [
      | inl kept ↦ subst (λ o. Pending o (c ∷ cs)) (sym kept) (Pending-later c _ cs h)
      | inr new ↦ subst (λ o. Pending o (c ∷ cs)) (sym new) (Memᴰ.head refl)
    ]

response-pending :
    (e : Externals) (tx : ℕ) (s : Session) (text : String) (now : ℕ) (w : World)
    → ((handle_auth_response e tx s text now w).1.pending_challenge ≡ s.pending_challenge)
      ⊎ ((handle_auth_response e tx s text now w).1.pending_challenge ≡ none)
unfolding handle_auth_response
response-pending e tx s text now w = elim (Bool-cases (is_some s.authed_user)) [
  | inl auth ↦ inl (ground (arith, auth))
  | inr out ↦
      inr (ground (arith, out, respond_to-pending e tx s text now w s.pending_challenge refl))
]

pub message-Pending :
    (e : Externals) (tx : ℕ) (s : Session) (m : ClientMessage) (nonce : Bytes) (now : ℕ) (w : World)
    (cs : List PendingChallenge)
    → Pending s.pending_challenge cs
    → Pending (handle_message e tx s m nonce now w).1.pending_challenge (asked m nonce now cs)
unfolding handle_message handle_register handle_auth_challenge handle_auth_response
message-Pending e tx s (register user bundle keys) nonce now w cs h =
    subst (λ o. Pending o cs) (sym (register-pending e tx s user bundle keys now w)) h
message-Pending e tx s (auth_challenge user) nonce now w cs h =
    challenge-Pending e s user nonce now w cs h
message-Pending e tx s (auth_response text) nonce now w cs h =
    elim (response-pending e tx s text now w) [
      | inl kept ↦ subst (λ o. Pending o cs) (sym kept) h
      | inr gone ↦ subst (λ o. Pending o cs) (sym gone) tt
    ]
message-Pending e tx s (upload_prekeys _ _) nonce now w cs h = h
message-Pending e tx s (rotate_signed_prekey _ _ _ _) nonce now w cs h = h
message-Pending e tx s (fetch_prekey_bundle _) nonce now w cs h = h
message-Pending e tx s (send_message _ _ _) nonce now w cs h = h
message-Pending e tx s (ack _ _) nonce now w cs h = h
message-Pending e tx s (ack_message_sent _) nonce now w cs h = h
message-Pending e tx s (typing _) nonce now w cs h = h
message-Pending e tx s (send_read_receipt _ _ _) nonce now w cs h = h
message-Pending e tx s (ack_read_receipt _ _) nonce now w cs h = h
message-Pending e tx s (ack_read_receipt_sent _) nonce now w cs h = h

no_challenge :
    (e : Externals) (tx : ℕ) (s : Session) (text : String) (now : ℕ) (w : World)
    → s.authed_user ≡ none
    → s.pending_challenge ≡ none
    → handle_auth_response e tx s text now w ≡ (auth_failure "no pending challenge", s, w)
unfolding handle_auth_response respond_to
no_challenge e tx s text now w out gone = ground (arith, out, gone)

answered-pending :
    (e : Externals) (tx : ℕ) (s : Session) (text : String) (now : ℕ) (w : World)
    → (handle_auth_response e tx s text now w).1.authed_user ≡ none
    → (handle_auth_response e tx s text now w).1.pending_challenge ≡ none
unfolding handle_auth_response
answered-pending e tx s text now w out = elim (Option-cases s.authed_user) [
  | inl no_user ↦
      ground (arith, no_user, respond_to-pending e tx s text now w s.pending_challenge refl)
  | inr (u, auth) ↦ absurd (ground (arith, auth, out))
]

-- A challenge admits one answer: where an answer did not log the connection in, the next answer is
-- told that no challenge is pending and changes nothing, whatever signature it carries.
pub answer_once :
    (e : Externals) (tx : ℕ) (s : Session) (first second : String) (nonce : Bytes) (now later : ℕ)
    (w w' : World)
    → (handle_message e tx s (auth_response first) nonce now w).1.authed_user ≡ none
    → handle_message e tx
        (handle_message e tx s (auth_response first) nonce now w).1
        (auth_response second)
        nonce
        later
        w'
      ≡ (
        some (auth_failure "no pending challenge"),
        (handle_message e tx s (auth_response first) nonce now w).1,
        w',
      )
unfolding handle_message
answer_once e tx s first second nonce now later w w' out =
    let again =
      no_challenge e tx (handle_auth_response e tx s first now w).1 second later w' out
        (answered-pending e tx s first now w out) in
    ground (arith, again)
