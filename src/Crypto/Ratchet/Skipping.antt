-- ===== src/Crypto/Ratchet/Skipping.antt =====
-- ratchet.rs, `skip_message_keys`: the receiver of one sending chain skips ahead in it.
use cmp.Base.{
  ℕ, zero, suc, ◌+◌, ◌-◌, ◌≤◌, ◌<◌, ◌≡◌, refl, ap, subst, ℕ_discrete, none, some, arith, length,
  ◌⊎◌, pair_eq, list_eq, nat_eq, option_eq, ==-refl,
}
use cmp.Base.Bytes.{Bytes}
use cmp.Base.HashMap.{get, get-insert}
use cmp.Crypto.Error.{ok}
use cmp.Crypto.Primitives.{Primitives}
use cmp.Crypto.Kdf.{ChainKeyOutput, kdf_ck}
use cmp.Crypto.Session.{max_skip, SessionState}
use cmp.Crypto.Ratchet.{skip_loop, skip_with, skip_message_keys}
use cmp.Crypto.Ratchet.Bounds.{stored, skip_loop_frame, length-skip_loop-le}
use cmp.Crypto.Ratchet.Erasure.{get-skip_loop_other}

-- `chain` and `keys` are the chain keys and the message keys that `kdf_ck` derives one after the
-- other, from the first chain key of a sending chain on.
abbrev pub IsChain : Primitives → (ℕ → Bytes) → (ℕ → Bytes) → Type 0
IsChain p chain keys =
    (i : ℕ) → kdf_ck p (chain i) ≡ ok (record { chain_key = chain (i + 1); message_key = keys i })

-- The session receives the chain of the peer whose ratchet key is `pk`: it has the chain key of the
-- next message, and no keys of later ones.
pub record Tracks (chain : ℕ → Bytes) (pk : Bytes) (s : SessionState) : Type 0 where
  pub their : s.their_ratchet_key ≡ some pk
  pub receiving : s.receiving_chain_key ≡ some (chain s.recv_count)
  pub ahead : (i : ℕ) → s.recv_count ≤ i → get (pk, i) s.skipped ≡ none

-- Message `i` has not been received: it is ahead, or its key is stored.
abbrev pub Expects : (ℕ → Bytes) → Bytes → SessionState → ℕ → Type 0
Expects keys pk s i = (s.recv_count ≤ i) ⊎ (get (pk, i) s.skipped ≡ some (keys i))

module _ (p : Primitives) (chain keys : ℕ → Bytes) (links : IsChain p chain keys) (pk : Bytes) where
  abbrev at : ℕ → ChainKeyOutput
  at i = record { chain_key = chain (i + 1); message_key = keys i }

  skip_loop_result :
      (n i : ℕ) (s : SessionState) → (skip_loop p n i pk (chain i) s).0 ≡ ok (chain (i + n))
  unfolding skip_loop
  skip_loop_result zero i s = ground (arith, ap chain {x = i} {y = i + 0} (omega arith))
  skip_loop_result (suc n) i s = ground (
    arith,
    links i,
    skip_loop_result n (i + 1) (stored pk i (at i) s),
    ap chain {x = i + 1 + n} {y = i + suc n} (omega arith),
  )

  get-skip_loop :
      (n i : ℕ) (s : SessionState) (j : ℕ)
      → i ≤ j
      → j < i + n
      → get (pk, j) (skip_loop p n i pk (chain i) s).1.skipped ≡ some (keys j)
  unfolding skip_loop
  get-skip_loop zero i s j le lt = absurd (omega arith)
  get-skip_loop (suc n) i s j le lt = ground (
    arith,
    links i,
    get-skip_loop n (i + 1) (stored pk i (at i) s) j,
    get-skip_loop_other p n (i + 1) pk (chain (i + 1)) (stored pk i (at i) s) (pk, j),
    get-insert (pk, i) (pk, j) (keys i) s.skipped,
    ==-refl pk,
    ap keys {x = i} {y = j},
  )

  -- From `s` the skipping up to message `n` leads to `t`.
  pub record SkippedTo (n : ℕ) (s t : SessionState) : Type 0 where
    pub their : t.their_ratchet_key ≡ some pk
    pub receiving : t.receiving_chain_key ≡ some (chain n)
    pub count : t.recv_count ≡ s.recv_count
    pub between : (j : ℕ) → s.recv_count ≤ j → j < n → get (pk, j) t.skipped ≡ some (keys j)
    pub others :
        (j : ℕ) → (j < s.recv_count) ⊎ (n ≤ j) → get (pk, j) t.skipped ≡ get (pk, j) s.skipped
    pub size : length t.skipped ≤ length s.skipped + (n - s.recv_count)

  skip_with_lem :
      (n : ℕ) (s : SessionState)
      → Tracks chain pk s
      → s.recv_count ≤ n
      → (skip_with p (some pk) (some (chain s.recv_count)) s.recv_count n s).0 ≡ ok tt
  unfolding skip_with
  skip_with_lem n s tracks le = ground (arith, skip_loop_result (n - s.recv_count) s.recv_count s)

  skip_with-SkippedTo :
      (n : ℕ) (s : SessionState)
      → Tracks chain pk s
      → s.recv_count ≤ n
      → SkippedTo n s (skip_with p (some pk) (some (chain s.recv_count)) s.recv_count n s).1
  unfolding skip_with
  skip_with-SkippedTo n s tracks le =
      let k = n - s.recv_count in
      let done = skip_loop_result k s.recv_count s in
      let frame = skip_loop_frame p k s.recv_count pk (chain s.recv_count) s in
      record {
        their = ground (arith, done, frame, tracks.their);
        receiving = ground (arith, done, frame, ap chain {x = s.recv_count + k} {y = n});
        count = ground (arith, done, frame);
        between = λ j lo hi. ground (arith, done, get-skip_loop k s.recv_count s j);
        others = λ j h. ground (
          arith,
          done,
          h,
          get-skip_loop_other p k s.recv_count pk (chain s.recv_count) s (pk, j),
        );
        size = ground (arith, done, length-skip_loop-le p k s.recv_count pk (chain s.recv_count) s);
      }

  skip_message_keys_runs :
      (n : ℕ) (s : SessionState)
      → Tracks chain pk s
      → s.recv_count < n
      → n - s.recv_count + length s.skipped ≤ max_skip
      → skip_message_keys p s.recv_count n s
        ≡ skip_with p (some pk) (some (chain s.recv_count)) s.recv_count n s
  unfolding skip_message_keys
  skip_message_keys_runs n s tracks lt room = ground (arith, tracks.their, tracks.receiving)

  skip_message_keys_idle :
      (s : SessionState) → skip_message_keys p s.recv_count s.recv_count s ≡ (ok tt, s)
  unfolding skip_message_keys
  skip_message_keys_idle s = ground arith

  SkippedTo-refl : (s : SessionState) → Tracks chain pk s → SkippedTo s.recv_count s s
  SkippedTo-refl s tracks = record {
    their = tracks.their;
    receiving = tracks.receiving;
    count = refl;
    between = λ j lo hi. absurd (omega arith);
    others = λ j h. refl;
    size = omega arith;
  }

  -- The skipping succeeds, and what it leaves.
  abbrev pub Skips : ℕ → SessionState → Type 0
  Skips n s =
      ((skip_message_keys p s.recv_count n s).0 ≡ ok tt)
      × SkippedTo n s (skip_message_keys p s.recv_count n s).1

  pub skip_message_keys-Skips :
      (n : ℕ) (s : SessionState)
      → Tracks chain pk s
      → s.recv_count ≤ n
      → n - s.recv_count + length s.skipped ≤ max_skip
      → Skips n s
  skip_message_keys-Skips n s tracks le room = elim (ℕ_discrete s.recv_count n) [
    | yes e ↦
        subst (λ m. Skips m s) e (rw (skip_message_keys_idle s) (refl, SkippedTo-refl s tracks))
    | no ne ↦
        rw (skip_message_keys_runs n s tracks (omega arith) room)
          (skip_with_lem n s tracks le, skip_with-SkippedTo n s tracks le)
  ]
