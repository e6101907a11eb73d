-- ===== src/Tests/Connections.antt =====
-- The properties of the registry and of a connection's end, and of user ids, at a small relay.
use cmp.Base.{
  inl, inr, String, [], ◌∷◌, some, none, ◌≡◌, ◌≢◌, ◌↔◌, refl, arith, ap, ◌==◌, string_eq, false,
}
use cmp.Base.Bytes.{ascii}
use cmp.Base.HashMap.{get}
use cmp.Protocol.Types.{user_id}
use cmp.Protocol.Types.Valid.{Accepted, user_id_iff}
use cmp.Server.World.{World, ConnEntry}
use cmp.Server.Connection.{insert_connection}
use cmp.Server.Connection.Registry.{
  join, leave, run, abstract_run, owners, is_owner, run-owners, login_stays,
}
use cmp.Server.Replies.{Session}
use cmp.Server.Socket.{other, ended, connection_loop, handle_connection}
use cmp.Server.Socket.Ending.{displaced_no_effect, handle_connection-gone}
use cmp.Tests.Relay.{relay, users, world}

-- Bob's first connection has the number 1.
abbrev first : ConnEntry
first = record { conn_id = 1; sender = 7; cancel = 70 }

abbrev online : World
online = record (world users) { online = ("bob", first) ∷ []; next_conn_id = 2 }

abbrev bob : Session
bob = record {
  authed_user = some "bob";
  conn_id = some 1;
  pending_challenge = none;
  deliver_prekey_status = false;
  cancel = 70;
}

run-owners_example :
    owners (run relay (join "bob" 8 80 ∷ leave "bob" 1 ∷ []) online)
    ≡ abstract_run (join "bob" 8 80 ∷ leave "bob" 1 ∷ []) (owners online)
run-owners_example = run-owners relay (join "bob" 8 80 ∷ leave "bob" 1 ∷ []) online

not_bob : ◌≢◌ {A = String} "alice" "bob"
not_bob = λ e. ground (arith, ap (λ s. s == "bob") e)

login_stays_example :
    get "bob"
      (run relay
        (join "bob" 8 80 ∷ leave "bob" 1 ∷ join "alice" 9 90 ∷ leave "alice" 3 ∷ [])
        online).online
    ≡ some (record { conn_id = 2; sender = 8; cancel = 80 })
login_stays_example =
    login_stays relay "bob" 8 80 (leave "bob" 1 ∷ join "alice" 9 90 ∷ leave "alice" 3 ∷ []) online
      (inr (omega arith), (not_bob, (inl not_bob, tt)))

displaced_no_effect_example :
    handle_connection relay 7 bob (other ∷ ended ∷ []) (insert_connection relay "bob" 8 80 online).1
    ≡ (insert_connection relay "bob" 8 80 online).1
unfolding get
displaced_no_effect_example =
    displaced_no_effect relay "bob" 8 7 80 first bob (other ∷ ended ∷ []) online refl (omega arith)
      (refl, refl, refl)

handle_connection-gone_example :
    is_owner ((owners (handle_connection relay 7 bob (ended ∷ []) online)).owner "bob") 1 ≡ false
unfolding connection_loop
handle_connection-gone_example =
    handle_connection-gone relay 7 bob (ended ∷ []) online "bob" 1 refl refl

user_id_iff_example :
    (user_id "bob" ≡ some "bob") ↔ ((◌≡◌ {A = String} "bob" "bob") × Accepted (ascii "bob"))
user_id_iff_example = user_id_iff "bob" "bob"
