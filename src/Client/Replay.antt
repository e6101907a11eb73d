-- ===== src/Client/Replay.antt =====
-- client/src/crypto_replay.rs: the record of the messages that were processed, by peer and message id.
use cmp.Base.{ℕ, ◌-◌, ◌*◌, String, Bool, true, ◌&&◌, [], ◌∷◌, Option, leb, if◌then◌else◌, is_some}
use cmp.Base.HashMap.{HashMap}
use cmp.Protocol.Types.{user_id}

pub record ProcessedMessage : Type 0 where
  pub pending_plaintext : Option String
  pub processed_at : ℕ

abbrev pub Processed : Type 0
Processed = HashMap String (HashMap String ProcessedMessage)

abbrev pub retention_secs : ℕ
retention_secs = 31 * 24 * 60 * 60

-- `messages.retain(..)`.
unfoldable pub retain_recent : ℕ → HashMap String ProcessedMessage → HashMap String ProcessedMessage
retain_recent cutoff [] = []
retain_recent cutoff ((id, m) ∷ messages) =
    let rest = retain_recent cutoff messages in
    if leb cutoff m.processed_at then (id, m) ∷ rest else rest

-- `if messages.is_empty()`: a peer without messages is dropped.
abbrev pub cons_unless_empty : String → HashMap String ProcessedMessage → Processed → Processed
cons_unless_empty peer [] rest = rest
cons_unless_empty peer (m ∷ ms) rest = (peer, m ∷ ms) ∷ rest

unfoldable pub prune_from : ℕ → Processed → Processed
unfolding retain_recent
prune_from cutoff [] = []
prune_from cutoff ((peer, messages) ∷ processed) =
    cons_unless_empty peer (retain_recent cutoff messages) (prune_from cutoff processed)

-- `saturating_sub` is the subtraction on ℕ.
unfoldable pub prune_processed : Processed → ℕ → Processed
unfolding prune_from
prune_processed processed now = prune_from (now - retention_secs) processed

-- Whether the names of the peers are user ids.
unfoldable pub validate_peer_ids : {T : Type 0} → HashMap String T → Bool
validate_peer_ids [] = true
validate_peer_ids ((peer_id, t) ∷ by_peer) = is_some (user_id peer_id) && validate_peer_ids by_peer
