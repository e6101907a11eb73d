-- ===== src/Server/World.antt =====
-- server/src/state.rs and connection.rs: what the connections of the relay share, and what a handler
-- takes from third-party crates. A channel of tokio is a number. Every attempt to put a message
-- into one is logged with its answer; the answer itself, which depends on the receiver, is the
-- parameter `takes`, any function of the attempts so far.
use cmp.Base.{ℕ, String, Bool, List, Option}
use cmp.Base.Bytes.{Bytes}
use cmp.Base.HashMap.{HashMap}
use cmp.Protocol.Types.{MessageId, EncryptedEnvelope}
use cmp.Protocol.Messages.{ServerMessage, InboundMessage}
use cmp.Server.Db.{Db}
use cmp.Server.Fetch.{Pick}

-- `awaited` tells `send(..).await` from `try_send`.
pub record Attempt : Type 0 where
  pub awaited : Bool
  pub channel : ℕ
  pub message : ServerMessage
  pub taken : Bool

pub record ConnEntry : Type 0 where
  pub conn_id : ℕ
  pub sender : ℕ
  pub cancel : ℕ

-- `AppState`, with the static `NEXT_CONN_ID`, the log, and the watch channels that were set.
pub record World : Type 0 where
  pub db : Db
  pub server_id : String
  pub online : HashMap String ConnEntry
  pub next_conn_id : ℕ
  pub log : List Attempt
  pub cancelled : List ℕ

pub record Externals : Type 0 where
  -- base64's STANDARD engine, and `str::as_bytes`.
  pub b64_decode : String → Option Bytes
  pub b64_encode : Bytes → String
  pub utf8 : String → Bytes
  -- serde_json: an envelope as text and back, and the encoded lengths of a message and of a page.
  pub envelope_to_json : EncryptedEnvelope → Option String
  pub envelope_of_json : String → Option EncryptedEnvelope
  pub inbound_bytes : InboundMessage → Option ℕ
  pub page_bytes : List InboundMessage → Option ℕ
  -- `Uuid::parse_str`.
  pub parse_uuid : String → Option MessageId
  -- `VerifyingKey::from_bytes(..).is_ok()`, and `verify(message, signature).is_ok()`.
  pub valid_key : Bytes → Bool
  pub verify : Bytes → Bytes → Bytes → Bool
  -- `Sha256::digest`, and the row that SQLite gives.
  pub digest : String → Bytes
  pub pick : Pick
  pub takes : List Attempt → Bool → ℕ → ServerMessage → Bool
