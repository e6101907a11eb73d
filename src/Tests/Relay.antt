-- ===== src/Tests/Relay.antt =====
-- A small relay: the third-party functions that the handlers take, and some states.
use cmp.Base.{
  ℕ, ◌+◌, String, true, List, [], ◌∷◌, Option, none, some, ◌==◌, string_eq, if◌then◌else◌,
}
use cmp.Base.Bytes.{Bytes, ascii}
use cmp.Crypto.Kdf.{zeros}
use cmp.Protocol.Types.{EncryptedEnvelope, established}
use cmp.Protocol.Messages.{InboundMessage}
use cmp.Server.Db.{Db, empty}
use cmp.Server.World.{World, Externals}

abbrev pub decode : String → Option Bytes
decode s =
    if s == "signature" then some (zeros 64) else if s == "key" then some (zeros 32) else none

abbrev pub envelope : ℕ → EncryptedEnvelope
envelope version = record {
  version = version;
  header =
      established (record { ratchet_key = "key"; previous_chain_length = 0; message_number = 0 });
  ciphertext = "key";
}

abbrev pub of_json : String → Option EncryptedEnvelope
of_json s = if s == "two" then some (envelope 2) else none

-- An empty page takes 2 bytes, a message 10, and a separator 1.
abbrev pub page_size : List InboundMessage → ℕ
page_size [] = 2
page_size (m ∷ []) = 12
page_size (m ∷ (k ∷ ms)) = page_size (k ∷ ms) + 1 + 10

abbrev pub relay : Externals
relay = record {
  b64_decode = decode;
  b64_encode = λ b. "text";
  utf8 = ascii;
  envelope_to_json = λ v. some "two";
  envelope_of_json = of_json;
  inbound_bytes = λ m. some 10;
  page_bytes = λ ms. some (page_size ms);
  parse_uuid = λ s. some s;
  valid_key = λ k. true;
  verify = λ k m s. true;
  digest = ascii;
  pick = λ user rows. none;
  takes = λ log awaited channel m. true;
}

abbrev pub users : Db
users = record empty {
  users =
      record { user_id = "alice"; identity_key = zeros 32 }
      ∷ record { user_id = "bob"; identity_key = zeros 32 }
      ∷ [];
}

abbrev pub world : Db → World
world db = record {
  db = db;
  server_id = "relay";
  online = [];
  next_conn_id = 1;
  log = [];
  cancelled = [];
}
