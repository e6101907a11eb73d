-- ===== src/Protocol/Types/Valid.antt =====
-- types.rs: what `UserId::new` accepts.
use cmp.Base.{
  ℕ, ◌≡◌, ◌≤◌, ◌<◌, ◌≢◌, ◌↔◌, refl, String, true, false, List, [], ◌∷◌, some, arith, length, nat_eq,
  Bool-cases, inl, inr, ◌∙◌, ap, sym,
}
use cmp.Base.Bytes.{ascii}
use cmp.Base.Rows.{All}
use cmp.Protocol.Types.{
  user_id, all_whitespace, is_whitespace, utf8_length, is_ascii, has_control, has_separator,
  has_dots, starts_with_dot,
}

-- Printable ASCII without the slashes.
abbrev pub Plain : ℕ → Type 0
Plain c = (32 ≤ c) × (c < 127) × (c ≢ 47) × (c ≢ 92)

-- No two dots in a row.
abbrev pub NoDots : List ℕ → Type 0
NoDots [] = Unit
NoDots (c ∷ []) = Unit
NoDots (c ∷ d ∷ cs) = ((c ≡ 46 × d ≡ 46) → ⊥) × NoDots (d ∷ cs)

-- What the checks of `UserId::new` come to.
pub record Accepted (chars : List ℕ) : Type 0 where
  pub not_blank : All (λ c. c ≡ 32) chars → ⊥
  pub short : length chars ≤ 128
  pub plain : All Plain chars
  pub no_dots : NoDots chars

utf8_length_of_ascii : (cs : List ℕ) → is_ascii cs ≡ true → utf8_length cs ≡ length cs
unfolding is_ascii utf8_length
utf8_length_of_ascii [] h = refl
utf8_length_of_ascii (c ∷ cs) h = ground (arith, utf8_length_of_ascii cs)

Plain-of_checks :
    (cs : List ℕ)
    → is_ascii cs ≡ true
    → has_control cs ≡ false
    → has_separator cs ≡ false
    → All Plain cs
unfolding is_ascii has_control has_separator
Plain-of_checks [] a b s = tt
Plain-of_checks (c ∷ cs) a b s = (
  (
    ground (arith, a, b, s),
    ground (arith, a, b, s),
    λ e. ground (arith, s, e),
    λ e. ground (arith, s, e),
  ),
  Plain-of_checks cs (ground (arith, a)) (ground (arith, b)) (ground (arith, s)),
)

is_ascii_of_Plain : (cs : List ℕ) → All Plain cs → is_ascii cs ≡ true
unfolding is_ascii
is_ascii_of_Plain [] p = refl
is_ascii_of_Plain (c ∷ cs) p = ground (arith, p.0, is_ascii_of_Plain cs p.1)

has_control_of_Plain : (cs : List ℕ) → All Plain cs → has_control cs ≡ false
unfolding has_control
has_control_of_Plain [] p = refl
has_control_of_Plain (c ∷ cs) p = ground (arith, p.0, has_control_of_Plain cs p.1)

has_separator_of_Plain : (cs : List ℕ) → All Plain cs → has_separator cs ≡ false
unfolding has_separator
has_separator_of_Plain [] p = refl
has_separator_of_Plain (c ∷ cs) p = ground (arith, p.0, has_separator_of_Plain cs p.1)

NoDots-of_check : (cs : List ℕ) → has_dots cs ≡ false → NoDots cs
unfolding has_dots starts_with_dot
NoDots-of_check [] h = tt
NoDots-of_check (c ∷ []) h = tt
NoDots-of_check (c ∷ d ∷ cs) h =
    (λ e. ground (arith, h, e.0, e.1), NoDots-of_check (d ∷ cs) (ground (arith, h)))

has_dots_of_NoDots : (cs : List ℕ) → NoDots cs → has_dots cs ≡ false
unfolding has_dots starts_with_dot
has_dots_of_NoDots [] n = refl
has_dots_of_NoDots (c ∷ []) n = ground arith
has_dots_of_NoDots (c ∷ d ∷ cs) n = ground (arith, n.0, has_dots_of_NoDots (d ∷ cs) n.1)

blank_of_spaces : (cs : List ℕ) → All (λ c. c ≡ 32) cs → all_whitespace cs ≡ true
unfolding all_whitespace is_whitespace
blank_of_spaces [] s = refl
blank_of_spaces (c ∷ cs) s = ground (arith, s.0, blank_of_spaces cs s.1)

spaces_of_blank : (cs : List ℕ) → All Plain cs → all_whitespace cs ≡ true → All (λ c. c ≡ 32) cs
unfolding all_whitespace is_whitespace
spaces_of_blank [] p h = tt
spaces_of_blank (c ∷ cs) p h = (ground (arith, p.0, h), spaces_of_blank cs p.1 (ground (arith, h)))

Accepted-of_user_id : (id v : String) → user_id id ≡ some v → (v ≡ id) × Accepted (ascii id)
unfolding user_id
Accepted-of_user_id id v h =
    let cs = ascii id in
    let ascii_only : is_ascii cs ≡ true = ground (arith, h) in
    let plain = Plain-of_checks cs ascii_only (ground (arith, h)) (ground (arith, h)) in
    (
      ground (arith, h),
      record {
        not_blank = λ s. ground (arith, h, blank_of_spaces cs s);
        short = ground (arith, h, utf8_length_of_ascii cs ascii_only);
        plain = plain;
        no_dots = NoDots-of_check cs (ground (arith, h));
      },
    )

user_id_of_Accepted : (id : String) → Accepted (ascii id) → user_id id ≡ some id
unfolding user_id
user_id_of_Accepted id a =
    let cs = ascii id in
    elim (Bool-cases (all_whitespace cs)) [
      | inl blank ↦ absurd (a.not_blank (spaces_of_blank cs a.plain blank))
      | inr not_blank ↦ ground (
        arith,
        not_blank,
        a.short,
        is_ascii_of_Plain cs a.plain,
        utf8_length_of_ascii cs,
        has_control_of_Plain cs a.plain,
        has_separator_of_Plain cs a.plain,
        has_dots_of_NoDots cs a.no_dots,
      )
    ]

-- `UserId::new` accepts exactly the texts of at most 128 printable ASCII characters without slash
-- and backslash, without two dots in a row, and not of spaces alone; and it keeps the text.
pub user_id_iff : (id v : String) → (user_id id ≡ some v) ↔ ((v ≡ id) × Accepted (ascii id))
user_id_iff id v =
    (λ h. Accepted-of_user_id id v h, λ a. user_id_of_Accepted id a.1 ∙ ap some (sym a.0))
