-- ===== src/Server/Connection/Registry.antt =====
-- server/src/connection.rs: the registry over time, and what it is to its users: a function from a
-- user to the connection that serves the user.
use cmp.Base.{
  ℕ, ◌+◌, String, Bool, true, false, ◌&&◌, List, [], ◌∷◌, Option, none, some, ◌≡◌, ◌≢◌, ◌⊎◌, arith,
  refl, ap, ap₂, Option-cases, inl, inr, if◌then◌else◌, ◌==◌, nat_eq, string_eq, ==-refl, ◌∙◌,
}
use mathlib.Core.Option
use mathlib.Core.Path.{fun_ext}
use cmp.Base.Rows.{All}
use cmp.Base.HashMap.{HashMap, get, insert, get-insert, get-remove}
use cmp.Protocol.Messages.{ServerMessage}
use cmp.Server.World.{World, Externals, ConnEntry}
use cmp.Server.Connection.{push, displace, insert_connection, send_to, remove_if_match}

-- What happens to the registry: a login on a channel with a watch channel, the end of a connection, a
-- message to a user or to a channel.
pub data Change : Type 0 where
  join : String → ℕ → ℕ → Change
  leave : String → ℕ → Change
  notify : String → ServerMessage → Change
  answer : Bool → ℕ → ServerMessage → Change

unfoldable pub change : Externals → Change → World → World
unfolding insert_connection remove_if_match send_to push
change e (join user tx cancel) w = (insert_connection e user tx cancel w).1
change e (leave user conn_id) w = remove_if_match user conn_id w
change e (notify user message) w = (send_to e user message w).1
change e (answer awaited tx message) w = (push e awaited tx message w).1

unfoldable pub run : Externals → List Change → World → World
unfolding change
run e [] w = w
run e (c ∷ cs) w = run e cs (change e c w)

pub insert_connection-online :
    (e : Externals) (user : String) (tx cancel : ℕ) (w : World)
    → (insert_connection e user tx cancel w).1.online
      ≡ insert user (record { conn_id = w.next_conn_id; sender = tx; cancel = cancel }) w.online
unfolding insert_connection displace push
insert_connection-online e user tx cancel w = ground arith

insert_connection-next :
    (e : Externals) (user : String) (tx cancel : ℕ) (w : World)
    → (insert_connection e user tx cancel w).1.next_conn_id ≡ w.next_conn_id + 1
unfolding insert_connection displace push
insert_connection-next e user tx cancel w = ground arith

send_to-online :
    (e : Externals) (user : String) (m : ServerMessage) (w : World)
    → ((send_to e user m w).1.online ≡ w.online)
      × ((send_to e user m w).1.next_conn_id ≡ w.next_conn_id)
unfolding send_to push
send_to-online e user m w = ground arith

-- The abstract registry: who serves a user, and the next number.
pub record Owners : Type 0 where
  pub owner : String → Option ℕ
  pub next : ℕ

abbrev pub is_owner : Option ℕ → ℕ → Bool
is_owner none id = false
is_owner (some i) id = i == id

unfoldable pub abstract_change : Change → Owners → Owners
abstract_change (join user tx cancel) o = record {
  owner = λ v. if user == v then some o.next else o.owner v;
  next = o.next + 1;
}
abstract_change (leave user conn_id) o = record o {
  owner = λ v. if user == v && is_owner (o.owner v) conn_id then none else o.owner v;
}
abstract_change (notify user message) o = o
abstract_change (answer awaited tx message) o = o

unfoldable pub abstract_run : List Change → Owners → Owners
unfolding abstract_change
abstract_run [] o = o
abstract_run (c ∷ cs) o = abstract_run cs (abstract_change c o)

abbrev pub owners : World → Owners
owners w = record {
  owner = λ v. Option.map (λ (c : ConnEntry). c.conn_id) (get v w.online);
  next = w.next_conn_id;
}

same_user :
    (user v : String) (m : HashMap String ConnEntry) → (user == v) ≡ true → get user m ≡ get v m
same_user user v m h = ap (λ u. get u m) (ground (arith, string_eq.equal_iff user v, h))

pub get-remove_if_match :
    (user v : String) (conn_id : ℕ) (w : World)
    → get v (remove_if_match user conn_id w).online ≡ (
        if user == v
          && is_owner (Option.map (λ (c : ConnEntry). c.conn_id) (get v w.online)) conn_id
        then none
        else get v w.online)
unfolding remove_if_match
get-remove_if_match user v conn_id w = elim (Option-cases (get user w.online)) [
  | inl absent ↦ ground (arith, absent, same_user user v w.online)
  | inr (c, present) ↦
      ground (arith, present, same_user user v w.online, get-remove user v w.online)
]

remove_if_match-next :
    (user : String) (conn_id : ℕ) (w : World)
    → (remove_if_match user conn_id w).next_conn_id ≡ w.next_conn_id
unfolding remove_if_match
remove_if_match-next user conn_id w = ground arith

-- The registry that the code keeps, entries and all, is the abstract one.
change-owner :
    (e : Externals) (c : Change) (w : World) (v : String)
    → (owners (change e c w)).owner v ≡ (abstract_change c (owners w)).owner v
unfolding change abstract_change
change-owner e (join user tx cancel) w v = ground (
  arith,
  insert_connection-online e user tx cancel w,
  get-insert user v (record { conn_id = w.next_conn_id; sender = tx; cancel = cancel }) w.online,
)
change-owner e (leave user conn_id) w v = ground (arith, get-remove_if_match user v conn_id w)
change-owner e (notify user m) w v = ground (arith, send_to-online e user m w)
change-owner e (answer awaited tx m) w v = refl

change-next :
    (e : Externals) (c : Change) (w : World)
    → (change e c w).next_conn_id ≡ (abstract_change c (owners w)).next
unfolding change abstract_change
change-next e (join user tx cancel) w = insert_connection-next e user tx cancel w
change-next e (leave user conn_id) w = remove_if_match-next user conn_id w
change-next e (notify user m) w = (send_to-online e user m w).1
change-next e (answer awaited tx m) w = refl

abbrev named : (String → Option ℕ) → ℕ → Owners
named f n = record { owner = f; next = n }

change-owners :
    (e : Externals) (c : Change) (w : World) → owners (change e c w) ≡ abstract_change c (owners w)
change-owners e c w = ap₂ named (fun_ext (change-owner e c w)) (change-next e c w)

-- The registry of the code, with its entries and channels, implements the abstract one: after any logins,
-- ends of connections and messages, each user is served by the connection that the abstract registry
-- names, or by none, and the next connection gets the same number.
pub run-owners :
    (e : Externals) (cs : List Change) (w : World)
    → owners (run e cs w) ≡ abstract_run cs (owners w)
unfolding run abstract_run
run-owners e [] w = refl
run-owners e (c ∷ cs) w =
    run-owners e cs (change e c w) ∙ ap (abstract_run cs) (change-owners e c w)

-- A change that spares the login of a user that got the number `id`: no newer login of the user, and
-- not the end of this very connection. Any other connection may end, newer ones too.
abbrev pub Spares : String → ℕ → Change → Type 0
Spares user id (join v tx cancel) = v ≢ user
Spares user id (leave v conn_id) = (v ≢ user) ⊎ (conn_id ≢ id)
Spares user id (notify v m) = Unit
Spares user id (answer awaited tx m) = Unit

change-get :
    (e : Externals) (c : Change) (w : World) (user : String) (entry : ConnEntry)
    → Spares user entry.conn_id c
    → get user w.online ≡ some entry
    → get user (change e c w).online ≡ some entry
unfolding change
change-get e (join v tx cancel) w user entry spared h = ground (
  arith,
  insert_connection-online e v tx cancel w,
  get-insert v user (record { conn_id = w.next_conn_id; sender = tx; cancel = cancel }) w.online,
  string_eq.equal_iff v user,
  spared,
  h,
)
change-get e (leave v conn_id) w user entry spared h = ground (
  arith,
  get-remove_if_match v user conn_id w,
  nat_eq.equal_iff entry.conn_id conn_id,
  string_eq.equal_iff v user,
  spared,
  h,
)
change-get e (notify v m) w user entry spared h = ground (arith, send_to-online e v m w, h)
change-get e (answer awaited tx m) w user entry spared h = h

run-get :
    (e : Externals) (cs : List Change) (w : World) (user : String) (entry : ConnEntry)
    → All (Spares user entry.conn_id) cs
    → get user w.online ≡ some entry
    → get user (run e cs w).online ≡ some entry
unfolding run
run-get e [] w user entry spared h = h
run-get e (c ∷ cs) w user entry spared h =
    run-get e cs (change e c w) user entry spared.1 (change-get e c w user entry spared.0 h)

-- A user who logs in stays reachable on the channel of this login, until a newer login of the user or
-- the end of this very connection: any other connection that ends, older or newer, of this user or
-- of another, logins of other users, and messages do not evict it.
pub login_stays :
    (e : Externals) (user : String) (tx cancel : ℕ) (cs : List Change) (w : World)
    → All (Spares user w.next_conn_id) cs
    → get user (run e (join user tx cancel ∷ cs) w).online
      ≡ some (record { conn_id = w.next_conn_id; sender = tx; cancel = cancel })
unfolding run change
login_stays e user tx cancel cs w spared =
    let entry : ConnEntry = record { conn_id = w.next_conn_id; sender = tx; cancel = cancel } in
    run-get e cs (insert_connection e user tx cancel w).1 user entry spared (
      ground (
        arith,
        insert_connection-online e user tx cancel w,
        get-insert user user entry w.online,
        ==-refl user,
      ))
