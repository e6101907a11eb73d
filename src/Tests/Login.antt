-- ===== src/Tests/Login.antt =====
-- The properties of the login at a small relay.
use cmp.Base.{[], ◌∷◌, none, some, ◌≡◌, refl}
use cmp.Base.Rows.{find}
use cmp.Protocol.Messages.{auth_challenge, auth_response, auth_failure}
use cmp.Server.Users.{get_identity_key, user_exists}
use cmp.Server.World.{World}
use cmp.Server.Connection.{insert_connection}
use cmp.Server.Replies.{Session, new_session, fixed}
use cmp.Server.Handlers.Auth.{
  handle_auth_challenge, check_response, log_in, respond_to, handle_auth_response,
}
use cmp.Server.Handlers.Router.{handle_message}
use cmp.Server.Handlers.Router.History.{Run, Login, start, message, elsewhere, run-user, run-Login}
use cmp.Server.Handlers.Router.Challenges.{answer_once}
use cmp.Server.Handlers.Router.Unauthenticated.{handle_message-kept}
use cmp.Server.Handlers.Message.{handle_send, prepare_send}
use cmp.Server.Handlers.Message.Sending.{Sent, handle_send-Sent}
use cmp.Tests.Relay.{relay, users, world, envelope}

abbrev start_world : World
start_world = world users

-- Bob asks for a challenge.
abbrev asked : Session
asked = record (new_session 0) {
  pending_challenge = some (record { user_id = "bob"; nonce = 5 ∷ []; timestamp = 10 });
}

asked_lem :
    (handle_message relay 1 (new_session 0) (auth_challenge "bob") (5 ∷ []) 10 start_world).1
    ≡ asked
unfolding handle_message handle_auth_challenge user_exists new_session find
asked_lem = refl

abbrev bob_run :
    Run relay 1
      (new_session 0)
      start_world
      (record { user_id = "bob"; nonce = 5 ∷ []; timestamp = 10 } ∷ [])
      (handle_message relay 1
        (handle_message relay 1 (new_session 0) (auth_challenge "bob") (5 ∷ []) 10 start_world).1
        (auth_response "signature")
        []
        20
        start_world).1
      (handle_message relay 1
        (handle_message relay 1 (new_session 0) (auth_challenge "bob") (5 ∷ []) 10 start_world).1
        (auth_response "signature")
        []
        20
        start_world).2
bob_run = message _ _ start_world (auth_response "signature") [] 20 (
    elsewhere _ _ _ start_world (message [] _ start_world (auth_challenge "bob") (5 ∷ []) 10 start))

bob_logs_in :
    (handle_message relay 1
      (handle_message relay 1 (new_session 0) (auth_challenge "bob") (5 ∷ []) 10 start_world).1
      (auth_response "signature")
      []
      20
      start_world).1.authed_user
    ≡ some "bob"
unfolding handle_message handle_auth_challenge user_exists new_session find handle_auth_response
    respond_to check_response log_in fixed get_identity_key insert_connection
bob_logs_in = refl

run-Login_example : Login relay 1 0 start_world "bob"
run-Login_example = run-Login relay 1 0 start_world "bob" _ _ _ bob_run bob_logs_in

abbrev as_bob : Session
as_bob = record asked { authed_user = some "bob"; conn_id = some 1 }

run-user_example :
    (handle_message relay 1 as_bob (auth_challenge "alice") [] 30 start_world).1.authed_user
    ≡ some "bob"
run-user_example =
    run-user relay 1 as_bob start_world "bob"
      (message [] as_bob start_world (auth_challenge "alice") [] 30 start) refl

-- An answer that comes too late.
late :
    (handle_message relay 1 asked (auth_response "signature") [] 90 start_world).1.authed_user
    ≡ none
unfolding handle_message handle_auth_response respond_to check_response log_in new_session
late = refl

answer_once_example :
    handle_message relay 1
      (handle_message relay 1 asked (auth_response "signature") [] 90 start_world).1
      (auth_response "key")
      []
      91
      start_world
    ≡ (
      some (auth_failure "no pending challenge"),
      (handle_message relay 1 asked (auth_response "signature") [] 90 start_world).1,
      start_world,
    )
answer_once_example =
    answer_once relay 1 asked "signature" "key" [] 90 91 start_world start_world late

handle_message-kept_example :
    (handle_message relay 1 asked (auth_response "signature") [] 90 start_world).2 ≡ start_world
handle_message-kept_example =
    handle_message-kept relay 1 asked (auth_response "signature") [] 90 start_world late

-- Both users are online.
abbrev both_online : World
both_online = record start_world {
  online =
      ("bob", record { conn_id = 1; sender = 5; cancel = 50 })
      ∷ ("alice", record { conn_id = 2; sender = 6; cancel = 60 })
      ∷ [];
}

handle_send-Sent_example :
    Sent relay both_online "alice" "bob" "m1"
      (envelope 2)
      50
      (prepare_send relay "alice" "bob" "m1" (envelope 2) 50)
      (handle_send relay "alice" "bob" "m1" (envelope 2) 50 both_online)
handle_send-Sent_example = handle_send-Sent relay "alice" "bob" "m1" (envelope 2) 50 both_online
