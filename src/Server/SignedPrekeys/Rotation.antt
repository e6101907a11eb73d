-- ===== src/Server/SignedPrekeys/Rotation.antt =====
-- prekeys.rs, `rotate_signed_prekey`: the new key is served, the previous one is retained, and a
-- rotation that is sent again changes nothing.
use cmp.Base.{
  ℕ, ◌<◌, ◌≡◌, refl, String, Bool, true, false, not, ◌&&◌, List, [], ◌∷◌, ◌++◌, none, some, arith,
  inl, inr, leb, if◌then◌else◌, is_some, take, ◌==◌, ==-refl, string_eq, nat_eq, list_eq,
  Option-cases, Bool-cases,
}
use cmp.Base.Rows.{All, find, delete, exists, select, select-append, find-append, find-delete_other}
use cmp.Server.Db.{Db, SignedPrekeyRow, ok}
use cmp.Server.Queue.{signed_prekey_retained}
use cmp.Server.SignedPrekeys.{
  accepted, signed_by, is_signed_prekey, insert_desc, order_desc, first, get_signed_prekey, prune,
  store_signed_prekey, rotate_after, rotate_signed_prekey,
}

abbrev Under : ℕ → List SignedPrekeyRow → Type 0
Under n = All (λ (k : SignedPrekeyRow). k.key_id < n)

-- The newest key comes first.
order_desc-newest :
    (rows : List SignedPrekeyRow) (k : SignedPrekeyRow)
    → Under k.key_id rows
    → order_desc (rows ++ k ∷ []) ≡ k ∷ order_desc rows
unfolding order_desc insert_desc
order_desc-newest [] k under = refl
order_desc-newest (x ∷ rows) k under = ground (arith, order_desc-newest rows k under.1, under.0)

first-insert_desc :
    (x : SignedPrekeyRow) (rows : List SignedPrekeyRow)
    → first (insert_desc x rows)
      ≡ some (elim (first rows) [ none ↦ x | some t ↦ if leb t.key_id x.key_id then x else t ])
unfolding insert_desc
first-insert_desc x [] = refl
first-insert_desc x (t ∷ rows) = ground arith

-- All keys are under what the first of the ordered keys is under.
first-Under :
    (rows : List SignedPrekeyRow) (n : ℕ)
    → ((top : SignedPrekeyRow) → first (order_desc rows) ≡ some top → top.key_id < n)
    → Under n rows
unfolding order_desc
first-Under [] n under = tt
first-Under (x ∷ rows) n under = elim (Option-cases (first (order_desc rows))) [
  | inl e ↦ (
    under x (ground (arith, first-insert_desc x (order_desc rows), e)),
    first-Under rows n (λ top h. ground (arith, e, h)),
  )
  | inr (t, e) ↦
      let newest =
        under (if leb t.key_id x.key_id then x else t)
          (ground (arith, first-insert_desc x (order_desc rows), e)) in
      (ground (arith, newest), first-Under rows n (λ top h. ground (arith, e, h, newest)))
]

-- A row outside those that a deletion takes, and at the end, stays there.
delete-last :
    (p : SignedPrekeyRow → Bool) (rows : List SignedPrekeyRow) (k : SignedPrekeyRow)
    → p k ≡ false
    → delete p (rows ++ k ∷ []) ≡ delete p rows ++ k ∷ []
unfolding delete
delete-last p [] k keep = ground (arith, keep)
delete-last p (x ∷ rows) k keep = ground (arith, delete-last p rows k keep)

-- The first of the ordered keys is one of the rows.
find-first :
    (rows : List SignedPrekeyRow) (user : String) (top : SignedPrekeyRow)
    → first (order_desc (select (signed_by user) rows)) ≡ some top
    → is_some (find (is_signed_prekey user top.key_id) rows) ≡ true
unfolding order_desc find select
find-first [] user top h = ground (arith, h)
find-first (x ∷ rows) user top h = elim (Bool-cases (signed_by user x)) [
  | inr other ↦ ground (arith, h, other, find-first rows user top)
  | inl own ↦
      let sorted = order_desc (select (signed_by user) rows) in
      elim (Option-cases (first sorted)) [
        | inl e ↦ ground (arith, h, own, e, first-insert_desc x sorted, ==-refl x.key_id)
        | inr (t, e) ↦
            ground (
              arith,
              h,
              own,
              e,
              first-insert_desc x sorted,
              find-first rows user t,
              ==-refl x.key_id,
            )
      ]
]

Under-fresh :
    (rows : List SignedPrekeyRow) (user : String) (n : ℕ)
    → Under n (select (signed_by user) rows)
    → find (is_signed_prekey user n) rows ≡ none
unfolding find select
Under-fresh [] user n under = refl
Under-fresh (x ∷ rows) user n under =
    ground (arith, under, Under-fresh rows user n, nat_eq.equal_iff x.key_id n)

Under-delete :
    (p q : SignedPrekeyRow → Bool) (rows : List SignedPrekeyRow) (n : ℕ)
    → Under n (select q rows)
    → Under n (select q (delete p rows))
unfolding select delete
Under-delete p q [] n under = tt
Under-delete p q (x ∷ rows) n under = ground (arith, under, Under-delete p q rows n)

first-single :
    (rows : List SignedPrekeyRow) (top : SignedPrekeyRow)
    → first rows ≡ some top
    → take 1 rows ≡ top ∷ []
first-single [] top h = absurd (ground (arith, h))
first-single (x ∷ rows) top h = ground (arith, h)

-- The two newest keys of the user, once `k` is stored above the current key.
newest_two :
    (rows : List SignedPrekeyRow) (k current : SignedPrekeyRow)
    → first (order_desc (select (signed_by k.user_id) rows)) ≡ some current
    → Under k.key_id (select (signed_by k.user_id) rows)
    → take 2 (order_desc (select (signed_by k.user_id) (rows ++ k ∷ []))) ≡ k ∷ current ∷ []
unfolding select
newest_two rows k current top under = ground (
  arith,
  top,
  select-append (signed_by k.user_id) rows (k ∷ []),
  ==-refl k.user_id,
  order_desc-newest (select (signed_by k.user_id) rows) k under,
  first-single (order_desc (select (signed_by k.user_id) rows)) current,
)

-- What `prune` deletes once the two newest are `k` and `current`.
abbrev doomed : SignedPrekeyRow → SignedPrekeyRow → SignedPrekeyRow → Bool
doomed k current x =
    x.user_id == k.user_id
    && not (exists (λ (n : SignedPrekeyRow). n.key_id == x.key_id) (k ∷ current ∷ []))

pruned :
    (rows : List SignedPrekeyRow) (k current : SignedPrekeyRow)
    → first (order_desc (select (signed_by k.user_id) rows)) ≡ some current
    → Under k.key_id (select (signed_by k.user_id) rows)
    → prune k.user_id (rows ++ k ∷ []) ≡ delete (doomed k current) (rows ++ k ∷ [])
unfolding prune find
pruned rows k current top under = rw (newest_two rows k current top under) refl

-- The key that is current keeps its row.
current_stays :
    (rows : List SignedPrekeyRow) (k current : SignedPrekeyRow)
    → first (order_desc (select (signed_by k.user_id) rows)) ≡ some current
    → exists
        (is_signed_prekey k.user_id current.key_id)
        (delete (doomed k current) (rows ++ k ∷ []))
      ≡ true
unfolding find
current_stays rows k current top = ground (
  arith,
  find-delete_other (doomed k current) (is_signed_prekey k.user_id current.key_id) (rows ++ k ∷ [])
      (λ x h. ground (arith, h, nat_eq.equal_iff x.key_id current.key_id, ==-refl current.key_id)),
  find-append (is_signed_prekey k.user_id current.key_id) rows (k ∷ []),
  find-first rows k.user_id current top,
)

new_is_first :
    (rows : List SignedPrekeyRow) (k current : SignedPrekeyRow)
    → Under k.key_id (select (signed_by k.user_id) rows)
    → first (order_desc (select (signed_by k.user_id) (delete (doomed k current) (rows ++ k ∷ []))))
      ≡ some k
unfolding select find
new_is_first rows k current under = ground (
  arith,
  delete-last (doomed k current) rows k (ground (arith, ==-refl k.key_id)),
  select-append (signed_by k.user_id) (delete (doomed k current) rows) (k ∷ []),
  ==-refl k.user_id,
  order_desc-newest (select (signed_by k.user_id) (delete (doomed k current) rows)) k
      (Under-delete (doomed k current) (signed_by k.user_id) rows k.key_id under),
)

pub rotate_signed_prekey-retains :
    (db : Db) (k current : SignedPrekeyRow)
    → get_signed_prekey db k.user_id ≡ some current
    → current.key_id < k.key_id
    → let result = rotate_signed_prekey db k in
      (result.0 ≡ ok (accepted k.key_id))
      × (get_signed_prekey result.1 k.user_id ≡ some k)
      × (signed_prekey_retained result.1 k.user_id (some k.key_id) ≡ true)
      × (signed_prekey_retained result.1 k.user_id (some current.key_id) ≡ true)
unfolding rotate_signed_prekey rotate_after get_signed_prekey store_signed_prekey
    signed_prekey_retained
rotate_signed_prekey-retains db k current top above =
    let rows = db.signed_prekeys in
    let under =
      first-Under (select (signed_by k.user_id) rows) k.key_id
        (λ t h. ground (arith, top, h, above)) in
    let fresh = Under-fresh rows k.user_id k.key_id under in
    let pruned_rows = pruned rows k current top under in
    let served = new_is_first rows k current under in
    (
      ground (arith, top, fresh, above),
      ground (arith, top, fresh, above, pruned_rows, served),
      ground (
        arith,
        top,
        fresh,
        above,
        pruned_rows,
        served,
        find-first (delete (doomed k current) (rows ++ k ∷ [])) k.user_id k,
      ),
      ground (arith, top, fresh, above, pruned_rows, current_stays rows k current top),
    )

find_new :
    (rows : List SignedPrekeyRow) (k current : SignedPrekeyRow)
    → Under k.key_id (select (signed_by k.user_id) rows)
    → find (is_signed_prekey k.user_id k.key_id) (delete (doomed k current) (rows ++ k ∷ []))
      ≡ some k
unfolding find
find_new rows k current under = ground (
  arith,
  find-delete_other (doomed k current) (is_signed_prekey k.user_id k.key_id) (rows ++ k ∷ [])
      (λ x h. ground (arith, h, nat_eq.equal_iff x.key_id k.key_id, ==-refl k.key_id)),
  find-append (is_signed_prekey k.user_id k.key_id) rows (k ∷ []),
  Under-fresh rows k.user_id k.key_id under,
  ==-refl k.user_id,
  ==-refl k.key_id,
)

-- A rotation that is sent again, because its answer was lost, is accepted with the same answer and
-- changes nothing.
pub rotate_signed_prekey_again :
    (db : Db) (k current : SignedPrekeyRow)
    → get_signed_prekey db k.user_id ≡ some current
    → current.key_id < k.key_id
    → let after = (rotate_signed_prekey db k).1 in
      rotate_signed_prekey after k ≡ (ok (accepted k.key_id), after)
unfolding rotate_signed_prekey rotate_after get_signed_prekey store_signed_prekey
rotate_signed_prekey_again db k current top above =
    let rows = db.signed_prekeys in
    let under =
      first-Under (select (signed_by k.user_id) rows) k.key_id
        (λ t h. ground (arith, top, h, above)) in
    ground (
      arith,
      top,
      above,
      Under-fresh rows k.user_id k.key_id under,
      pruned rows k current top under,
      new_is_first rows k current under,
      find_new rows k current under,
      ==-refl k.key_id,
      ==-refl k.public_key,
      ==-refl k.signature,
    )
