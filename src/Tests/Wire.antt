-- ===== src/Tests/Wire.antt =====
-- The properties of the associated data and of the read receipts at concrete values.
use cmp.Base.{◌++◌, ◌≡◌, ◌≢◌, refl, ap, false, [], ◌∷◌, some, arith, ◌==◌, string_eq}
use cmp.Crypto.Kdf.{zeros}
use cmp.Crypto.Session.{RatchetHeader, authenticated_data}
use cmp.Protocol.Aad.{ratchet}
use cmp.Protocol.Aad.Injective.{
  PrekeyContext, IsContext, IsHeader, context, authenticated_data-injective,
  authenticated_data-separates,
}
use cmp.Server.Db.{Db, empty, ReceiptRow}
use cmp.Server.Receipts.Waiting.{
  Extends, unread, run_receipts, run_receipts-Extends, acknowledges, confirms, discards,
}

abbrev first_context : PrekeyContext
first_context = record {
  version = 1;
  identity_key = zeros 32;
  ephemeral_key = zeros 32;
  signed_prekey_id = 4;
  one_time_prekey_id = some 9;
}

abbrev first_header : RatchetHeader
first_header = record { ratchet_key = zeros 32; previous_chain_length = 0; message_number = 0 }

first_context-IsContext : IsContext first_context
first_context-IsContext = record {
  version = omega arith;
  identity_key = refl;
  ephemeral_key = refl;
  signed_prekey_id = omega arith;
  one_time_prekey_id = omega arith;
}

first_header-IsHeader : IsHeader first_header
first_header-IsHeader = record {
  ratchet_key = refl;
  previous_chain_length = omega arith;
  message_number = omega arith;
}

authenticated_data-injective_example :
    (first_context ≡ first_context) × (first_header ≡ first_header)
authenticated_data-injective_example =
    authenticated_data-injective first_context first_context first_header first_header
      first_context-IsContext first_context-IsContext first_header-IsHeader first_header-IsHeader
      refl

authenticated_data-separates_example :
    authenticated_data (context first_context) first_header ++ []
    ≢ authenticated_data (ratchet 1) first_header ++ 5 ∷ []
authenticated_data-separates_example =
    authenticated_data-separates first_context 1 first_header first_header [] (5 ∷ [])

abbrev receipt : ReceiptRow
receipt = record {
  receipt_id = "r1";
  recipient_id = "alice";
  sender_id = "bob";
  envelope = "read";
  acknowledged = false;
}

abbrev waiting_db : Db
waiting_db = record empty { receipts = receipt ∷ [] }

-- Bob confirms too early, and discards a receipt that is not his.
run_receipts-Extends_example : Extends (unread "alice" waiting_db) (
    unread "alice" (
      run_receipts
        (confirms "bob" ("r1" ∷ []) ∷ acknowledges "bob" ("r1" ∷ []) ∷ discards "bob" "r1" ∷ [])
        waiting_db))
run_receipts-Extends_example =
    run_receipts-Extends "alice"
      (confirms "bob" ("r1" ∷ []) ∷ acknowledges "bob" ("r1" ∷ []) ∷ discards "bob" "r1" ∷ [])
      waiting_db
      (
        λ e. ground (arith, ap (λ s. s == "bob") e),
        (λ e. ground (arith, ap (λ s. s == "bob") e), tt),
      )
