-- ===== src/Client/Manager/Capacity.antt =====
-- crypto_mgr.rs and crypto_outbox.rs: the outbox stays within its limits.
use cmp.Base.{
  ℕ, suc, zero, ◌+◌, ◌≤◌, Bool, true, false, List, [], ◌∷◌, ◌++◌, Option, none, some, ◌≡◌, ◌⊎◌,
  arith, refl, ap, subst, sym, Bool-cases, Option-cases, inl, inr, length, length-append, ◌==◌,
  string_eq, list_eq,
}
use cmp.Protocol.Types.{UserId, MessageId}
use cmp.Client.Outbox.{
  Result, ok, err, PendingOutbound, message, read_receipt, pending_ack, read_receipt_ack,
  prekey_upload, signed_prekey_rotation, ciphertext_len, total_len, sealed_len, ensure_capacity,
  max_pending_outbound_items, max_pending_outbound_bytes,
}
use cmp.Client.Manager.{
  Manager, push_pending, when_ok, at, position, remove_at, insert_at, delete_at, confirm,
  is_message,
}
use cmp.Client.Manager.Encryption.{reject_at, reject_message}
use cmp.Client.Manager.Acknowledging.{acked_at, confirm_acked, expected_ids, is_ack}

-- At most 1000 entries, of 64 MiB together.
abbrev pub Within : List PendingOutbound → Type 0
Within pending =
    (length pending ≤ max_pending_outbound_items) × (total_len pending ≤ max_pending_outbound_bytes)

total_len-append :
    (xs ys : List PendingOutbound) → total_len (xs ++ ys) ≡ total_len xs + total_len ys
unfolding total_len
total_len-append [] ys = omega arith
total_len-append (x ∷ xs) ys = omega (arith, total_len-append xs ys)

remove_at-le :
    (i : ℕ) (xs : List PendingOutbound)
    → (length (remove_at i xs) ≤ length xs) × (total_len (remove_at i xs) ≤ total_len xs)
unfolding remove_at total_len
remove_at-le zero [] = (omega arith, omega arith)
remove_at-le (suc i) [] = (omega arith, omega arith)
remove_at-le zero (x ∷ xs) = (omega arith, omega arith)
remove_at-le (suc i) (x ∷ xs) =
    (omega (arith, (remove_at-le i xs).0), omega (arith, (remove_at-le i xs).1))

pub insert_at-remove_at :
    (i : ℕ) (xs : List PendingOutbound) (x : PendingOutbound)
    → at i xs ≡ some x
    → insert_at i x (remove_at i xs) ≡ xs
unfolding at remove_at insert_at
insert_at-remove_at zero [] x h = absurd (ground (arith, h))
insert_at-remove_at (suc i) [] x h = absurd (ground (arith, h))
insert_at-remove_at zero (y ∷ ys) x h = ground (arith, h)
insert_at-remove_at (suc i) (y ∷ ys) x h = ap (λ zs. y ∷ zs) (insert_at-remove_at i ys x h)

Within-remove : (i : ℕ) (xs : List PendingOutbound) → Within xs → Within (remove_at i xs)
Within-remove i xs h =
    (omega (arith, h.0, (remove_at-le i xs).0), omega (arith, h.1, (remove_at-le i xs).1))

pub push-Within :
    (pending : List PendingOutbound) (x : PendingOutbound) (n : ℕ)
    → ensure_capacity pending n ≡ ok tt
    → ciphertext_len x ≤ sealed_len n
    → Within (pending ++ x ∷ [])
unfolding ensure_capacity
push-Within pending x n room fits =
    let sum = total_len-append pending (x ∷ []) in
    let one : total_len (x ∷ []) ≡ ciphertext_len x = unfold total_len in omega arith in
    (ground (arith, room, length-append pending (x ∷ [])), ground (arith, room, fits, sum, one))

pub pushed-Within :
    (saved : Bool) (x : PendingOutbound) (n : ℕ) (m : Manager) (r : Result (Unit {0}))
    → ensure_capacity m.pending_outbound n ≡ r
    → ciphertext_len x ≤ sealed_len n
    → Within m.pending_outbound
    → Within (when_ok r (push_pending saved x m) m).1.pending_outbound
unfolding when_ok push_pending
pushed-Within saved x n m (err e) room fits h = h
pushed-Within false x n m (ok _) room fits h = h
pushed-Within true x n m (ok _) room fits h = push-Within m.pending_outbound x n room fits

pub queue-Within :
    (saved : Bool) (x : PendingOutbound) (n : ℕ) (m : Manager)
    → ciphertext_len x ≤ sealed_len n
    → Within m.pending_outbound
    → Within
        (when_ok
          (ensure_capacity m.pending_outbound n)
          (push_pending saved x m)
          m).1.pending_outbound
queue-Within saved x n m fits h = pushed-Within saved x n m _ refl fits h

delete_at-Within :
    (saved : Bool) (m : Manager) (i : ℕ) (o : Option PendingOutbound)
    → at i m.pending_outbound ≡ o
    → Within m.pending_outbound
    → Within (delete_at saved m i o).1.pending_outbound
unfolding delete_at
delete_at-Within saved m i none found h = h
delete_at-Within true m i (some x) found h = Within-remove i m.pending_outbound h
delete_at-Within false m i (some x) found h =
    subst Within (sym (insert_at-remove_at i m.pending_outbound x found)) h

pub confirm-Within :
    (saved : Bool) (p : PendingOutbound → Bool) (m : Manager)
    → Within m.pending_outbound
    → Within (confirm saved p m).1.pending_outbound
unfolding confirm
confirm-Within saved p m h =
    elim (position p m.pending_outbound)
      as (λ o.
        Within
          (elim o as (λ _. Bool × Manager) [
            | none ↦ (true, m)
            | some i ↦ delete_at saved m i (at i m.pending_outbound)
          ]).1.pending_outbound) [
            | none ↦ h
            | some i ↦ delete_at-Within saved m i (at i m.pending_outbound) refl h
          ]

acked_at-outbox :
    (saved : Bool) (ids : List MessageId) (m : Manager) (i : ℕ) (x : PendingOutbound)
    → at i m.pending_outbound ≡ some x
    → ((acked_at saved ids m i (some x)).1.pending_outbound ≡ m.pending_outbound)
      ⊎ ((acked_at saved ids m i (some x)).1.pending_outbound ≡ remove_at i m.pending_outbound)
unfolding acked_at
acked_at-outbox saved ids m i x found =
    let back = insert_at-remove_at i m.pending_outbound x found in
    elim (Option-cases (expected_ids x)) [
      | inl other ↦ inl (ground (arith, other))
      | inr (expected, e) ↦ elim (Bool-cases (expected == ids)) [
        | inr differ ↦ inl (ground (arith, e, differ))
        | inl same ↦ elim (Bool-cases saved) [
          | inl stored ↦ inr (ground (arith, e, same, stored))
          | inr full ↦ inl (ground (arith, e, same, full, back))
        ]
      ]
    ]

acked_at-Within :
    (saved : Bool) (ids : List MessageId) (m : Manager) (i : ℕ) (o : Option PendingOutbound)
    → at i m.pending_outbound ≡ o
    → Within m.pending_outbound
    → Within (acked_at saved ids m i o).1.pending_outbound
unfolding acked_at
acked_at-Within saved ids m i none found h = h
acked_at-Within saved ids m i (some x) found h = elim (acked_at-outbox saved ids m i x found) [
  | inl kept ↦ subst Within (sym kept) h
  | inr gone ↦ subst Within (sym gone) (Within-remove i m.pending_outbound h)
]

pub confirm_acked-Within :
    (saved : Bool) (id : MessageId) (ids : List MessageId) (m : Manager)
    → Within m.pending_outbound
    → Within (confirm_acked saved id ids m).1.pending_outbound
unfolding confirm_acked
confirm_acked-Within saved id ids m h =
    elim (position (is_ack id) m.pending_outbound)
      as (λ o.
        Within
          (elim o as (λ _. Bool × Manager) [
            | none ↦ (true, m)
            | some i ↦ acked_at saved ids m i (at i m.pending_outbound)
          ]).1.pending_outbound) [
            | none ↦ h
            | some i ↦ acked_at-Within saved ids m i (at i m.pending_outbound) refl h
          ]

reject_at-outbox :
    (saved : Bool) (m : Manager) (i : ℕ) (x : PendingOutbound)
    → at i m.pending_outbound ≡ some x
    → ((reject_at saved m i (some x)).1.pending_outbound ≡ m.pending_outbound)
      ⊎ ((reject_at saved m i (some x)).1.pending_outbound ≡ remove_at i m.pending_outbound)
unfolding reject_at
reject_at-outbox true m i (message to id v) found = inr refl
reject_at-outbox false m i (message to id v) found =
    inl (insert_at-remove_at i m.pending_outbound (message to id v) found)
reject_at-outbox saved m i (read_receipt _ _ _) found = inl refl
reject_at-outbox saved m i (pending_ack _ _) found = inl refl
reject_at-outbox saved m i (read_receipt_ack _ _) found = inl refl
reject_at-outbox saved m i (prekey_upload _ _) found = inl refl
reject_at-outbox saved m i (signed_prekey_rotation _ _ _ _) found = inl refl

reject_at-Within :
    (saved : Bool) (m : Manager) (i : ℕ) (o : Option PendingOutbound)
    → at i m.pending_outbound ≡ o
    → Within m.pending_outbound
    → Within (reject_at saved m i o).1.pending_outbound
reject_at-Within saved m i none found h = unfold reject_at in h
reject_at-Within saved m i (some x) found h = elim (reject_at-outbox saved m i x found) [
  | inl kept ↦ subst Within (sym kept) h
  | inr gone ↦ subst Within (sym gone) (Within-remove i m.pending_outbound h)
]

pub reject_message-Within :
    (saved : Bool) (id : MessageId) (m : Manager)
    → Within m.pending_outbound
    → Within (reject_message saved id m).1.pending_outbound
unfolding reject_message
reject_message-Within saved id m h =
    elim (position (is_message id) m.pending_outbound)
      as (λ o.
        Within
          (elim o as (λ _. Result (Option UserId) × Manager) [
            | none ↦ (ok none, m)
            | some i ↦ reject_at saved m i (at i m.pending_outbound)
          ]).1.pending_outbound) [
            | none ↦ h
            | some i ↦ reject_at-Within saved m i (at i m.pending_outbound) refl h
          ]
