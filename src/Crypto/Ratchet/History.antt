-- ===== src/Crypto/Ratchet/History.antt =====
-- ratchet.rs: a session along a history of calls.
use cmp.Base.{List, [], ◌∷◌, arith, ◌≡◌}
use cmp.Base.Bytes.{Bytes}
use cmp.Crypto.Error.{ok}
use cmp.Crypto.Keys.{RatchetKeyPair}
use cmp.Crypto.Primitives.{Primitives}
use cmp.Crypto.Session.{RatchetHeader, SessionState}
use cmp.Crypto.Ratchet.{initialize_alice, initialize_bob, encrypt, decrypt}
use cmp.Crypto.Ratchet.Bounds.{IsValid, encrypt-IsValid, decrypt-IsValid}

-- A call on a session: its arguments, and for a decryption the draw for a new ratchet key.
pub data Call : Type 0 where
  encrypts : Bytes → Bytes → Call
  decrypts : Bytes → RatchetHeader → Bytes → Bytes → Call

module _ (p : Primitives) where
  abbrev pub after : Call → SessionState → SessionState
  after (encrypts plaintext envelope_aad) s = (encrypt p plaintext envelope_aad s).1
  after (decrypts secret header ciphertext envelope_aad) s =
      (decrypt p secret header ciphertext envelope_aad s).1

  unfoldable pub run : List Call → SessionState → SessionState
  run [] s = s
  run (c ∷ cs) s = run cs (after c s)

  after-IsValid : (c : Call) (s : SessionState) → IsValid s → IsValid (after c s)
  after-IsValid (encrypts plaintext aad) s v = encrypt-IsValid p plaintext aad s v
  after-IsValid (decrypts secret header ciphertext aad) s v =
      decrypt-IsValid p secret header ciphertext aad s v

  -- From a valid session every sequence of encryptions and decryptions, refused ones included and
  -- whatever headers a peer sends, leads to a session with at most `MAX_SKIP` stored keys, one for
  -- each message, and counters that fit `u32`.
  pub run-IsValid : (calls : List Call) (s : SessionState) → IsValid s → IsValid (run calls s)
  unfolding run
  run-IsValid [] s v = v
  run-IsValid (c ∷ cs) s v = run-IsValid cs (after c s) (after-IsValid c s v)

  pub initialize_bob-IsValid :
      (shared_secret : Bytes) (bob_ratchet : RatchetKeyPair)
      → IsValid (initialize_bob p shared_secret bob_ratchet)
  unfolding initialize_bob
  initialize_bob-IsValid shared_secret bob_ratchet = omega arith

  pub initialize_alice-IsValid :
      (secret shared_secret bob_public : Bytes) (s : SessionState)
      → initialize_alice p secret shared_secret bob_public ≡ ok s
      → IsValid s
  unfolding initialize_alice
  initialize_alice-IsValid secret shared_secret bob_public s e = ground arith
