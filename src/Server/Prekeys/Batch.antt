-- ===== src/Server/Prekeys/Batch.antt =====
-- prekeys.rs, `upload_prekeys`: what a batch adds to the table.
use cmp.Base.{
  ℕ, ◌≤◌, ◌≡◌, refl, ap₂, subst, String, List, [], ◌∷◌, ◌++◌, none, some, arith, ◌⊎◌, inl, inr,
  string_eq, nat_eq, Bool-cases, Option-cases, leb, if◌then◌else◌,
}
use cmp.Base.Bytes.{Bytes}
use cmp.Base.Rows.{find, count, count-append, count-eq-zero_of_find}
use cmp.Server.Db.{PrekeyRow}
use cmp.Server.Prekeys.{insert_prekeys, minimum_id, maximum_id, is_prekey}

-- The id is between the least and the greatest of the batch.
pub record Spans (key_id : ℕ) (batch : List (ℕ × Bytes)) : Type 0 where
  pub lowest : ℕ
  pub highest : ℕ
  pub minimum : minimum_id batch ≡ some lowest
  pub maximum : maximum_id batch ≡ some highest
  pub low : lowest ≤ key_id
  pub high : key_id ≤ highest

Spans-here :
    (key_id : ℕ) (key : Bytes) (batch : List (ℕ × Bytes)) → Spans key_id ((key_id, key) ∷ batch)
unfolding minimum_id maximum_id
Spans-here k key batch = elim (Option-cases (minimum_id batch)) [
  | inl e ↦ elim (Option-cases (maximum_id batch)) [
    | inl f ↦ record {
      lowest = k;
      highest = k;
      minimum = ground (arith, e);
      maximum = ground (arith, f);
      low = omega arith;
      high = omega arith;
    }
    | inr (hi, f) ↦ record {
      lowest = k;
      highest = if leb hi k then k else hi;
      minimum = ground (arith, e);
      maximum = ground (arith, f);
      low = omega arith;
      high = ground arith;
    }
  ]
  | inr (lo, e) ↦ elim (Option-cases (maximum_id batch)) [
    | inl f ↦ record {
      lowest = if leb k lo then k else lo;
      highest = k;
      minimum = ground (arith, e);
      maximum = ground (arith, f);
      low = ground arith;
      high = omega arith;
    }
    | inr (hi, f) ↦ record {
      lowest = if leb k lo then k else lo;
      highest = if leb hi k then k else hi;
      minimum = ground (arith, e);
      maximum = ground (arith, f);
      low = ground arith;
      high = ground arith;
    }
  ]
]

Spans-there :
    (id key_id : ℕ) (key : Bytes) (batch : List (ℕ × Bytes))
    → Spans id batch
    → Spans id ((key_id, key) ∷ batch)
unfolding minimum_id maximum_id
Spans-there id k key batch s = record {
  lowest = if leb k s.lowest then k else s.lowest;
  highest = if leb s.highest k then k else s.highest;
  minimum = ground (arith, s.minimum);
  maximum = ground (arith, s.maximum);
  low = ground (arith, s.low);
  high = ground (arith, s.high);
}

-- A pre-key that the batch adds was absent, is the user's, and is in the batch's span.
pub record Added (user : String) (batch : List (ℕ × Bytes)) (u : String) (k before after : ℕ)
    : Type 0 where
  pub same_user : user ≡ u
  pub absent : before ≡ 0
  pub present : after ≡ 1
  pub spans : Spans k batch

-- A row whose key is not in the table adds one to the count of that key, and to no other.
appended_cases :
    (rows : List PrekeyRow) (r : PrekeyRow) (u : String) (k : ℕ)
    → find (is_prekey r.user_id r.key_id) rows ≡ none
    → let before = count (is_prekey u k) rows in
      let after = count (is_prekey u k) (rows ++ r ∷ []) in
      (after ≡ before) ⊎ ((r.user_id ≡ u) × (r.key_id ≡ k) × (before ≡ 0) × (after ≡ 1))
unfolding count
appended_cases rows r u k absent =
    let missing = count-eq-zero_of_find (is_prekey r.user_id r.key_id) rows absent in
    let added = count-append (is_prekey u k) rows (r ∷ []) in
    elim (Bool-cases (is_prekey u k r)) [
      | inr other ↦ inl (ground (arith, added, other))
      | inl it ↦
          let user_same : r.user_id ≡ u =
            (string_eq.equal_iff r.user_id u).0 (ground (arith, it)) in
          let id_same : r.key_id ≡ k = (nat_eq.equal_iff r.key_id k).0 (ground (arith, it)) in
          let counts = ap₂ (λ (w : String) (i : ℕ). count (is_prekey w i) rows) user_same id_same in
          inr (
            user_same,
            id_same,
            omega (arith, missing, counts),
            ground (arith, added, it, missing, counts),
          )
    ]

pub insert_prekeys_cases :
    (user : String) (clock : ℕ) (batch : List (ℕ × Bytes)) (rows : List PrekeyRow) (u : String)
    (k : ℕ)
    → let before = count (is_prekey u k) rows in
      let after = count (is_prekey u k) (insert_prekeys user clock batch rows) in
      (after ≡ before) ⊎ Added user batch u k before after
unfolding insert_prekeys
insert_prekeys_cases user clock [] rows u k = inl refl
insert_prekeys_cases user clock ((key_id, key) ∷ batch) rows u k =
    let r : PrekeyRow = record {
      user_id = user;
      key_id = key_id;
      public_key = key;
      created_at = clock;
    } in
    let rest = insert_prekeys_cases user clock batch in
    elim (Option-cases (find (is_prekey user key_id) rows)) [
      | inr (old, e) ↦ elim (rest rows u k) [
        | inl same ↦ inl (ground (arith, e, same))
        | inr a ↦ inr (record {
          same_user = a.same_user;
          absent = a.absent;
          present = ground (arith, e, a.present);
          spans = Spans-there k key_id key batch a.spans;
        })
      ]
      | inl e ↦ elim (appended_cases rows r u k e) [
        | inl unchanged ↦ elim (rest (rows ++ r ∷ []) u k) [
          | inl same ↦ inl (ground (arith, e, same, unchanged))
          | inr a ↦ inr (record {
            same_user = a.same_user;
            absent = omega (arith, a.absent, unchanged);
            present = ground (arith, e, a.present);
            spans = Spans-there k key_id key batch a.spans;
          })
        ]
        | inr (user_same, id_same, before, after) ↦ inr (record {
          same_user = user_same;
          absent = before;
          present = elim (rest (rows ++ r ∷ []) u k) [
            | inl same ↦ ground (arith, e, same, after)
            | inr a ↦ absurd (omega (arith, a.absent, after))
          ];
          spans =
              subst (λ (i : ℕ). Spans i ((key_id, key) ∷ batch)) id_same
                (Spans-here key_id key batch);
        })
      ]
    ]

-- The least id of a batch is in its span.
pub Spans-lowest :
    (batch : List (ℕ × Bytes)) (lowest : ℕ) → minimum_id batch ≡ some lowest → Spans lowest batch
unfolding minimum_id
Spans-lowest [] lowest h = absurd (ground (arith, h))
Spans-lowest ((k, key) ∷ batch) lowest h =
    let s = Spans-here k key batch in
    record {
      lowest = lowest;
      highest = s.highest;
      minimum = h;
      maximum = s.maximum;
      low = omega arith;
      high = ground (arith, s.minimum, s.low, s.high);
    }
