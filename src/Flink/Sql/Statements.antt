-- ===== src/Flink/Sql/Statements.antt =====
-- The statements of a file are its lines but the comments, cut behind each line that ends in `;`.
use kafka_flink_click_house.Base.{
  ◌≡◌, refl, ◌⊎◌, inl, inr, true, false, Bool-cases, some, List, [], ◌∷◌, ◌++◌, map, Text, All, ℕ,
  eq-of-beq, ◌==◌, nat_eq, list_eq, and_iff, sym, ap, append-nil, append_assoc, ◌∙◌, subst,
}
use kafka_flink_click_house.Text.{
  strip, strip_by, lstrip_by, rstrip_by, before, is_space, is_blank, join,
}
use kafka_flink_click_house.Flink.Sql.{
  starts_comment, ends_statement, is_comment, is_end, any_text, split_statements,
}
use kafka_flink_click_house.Flink.Sql.Grouping.{
  IsStatement, kept, concat, split_statements-IsGrouped,
}

-- Only spaces.
abbrev pub IsBlank : Text → Type 0
IsBlank s = All (λ c. is_space c ≡ true) s

-- A semicolon with only spaces behind it.
abbrev pub IsEnd : Text → Type 0
IsEnd [] = ⊥
IsEnd (c ∷ s) = ((c ≡ 0x3b) × IsBlank s) ⊎ IsEnd s

-- Two dashes behind spaces.
abbrev pub IsComment : Text → Type 0
IsComment [] = ⊥
IsComment (c ∷ s) =
    ((is_space c ≡ true) × IsComment s) ⊎ ((rest : Text) × ((c ∷ s) ≡ 0x2d ∷ 0x2d ∷ rest))

before-nil : (c : ℕ) (r : Text) → before is_space c r ≡ [] → (is_space c ≡ true) × (r ≡ [])
before-nil c [] h = elim (Bool-cases (is_space c)) [
  | inl space ↦ (space, refl)
  | inr other ↦ let clash : c ∷ [] ≡ [] = (rw other at h) in cc
]
before-nil c (d ∷ r) h = cc

rstrip_by-nil : (s : Text) → rstrip_by is_space s ≡ [] → IsBlank s
unfolding rstrip_by
rstrip_by-nil [] h = tt
rstrip_by-nil (c ∷ s) h =
    let (space, rest) = before-nil c (rstrip_by is_space s) h in (space, rstrip_by-nil s rest)

rstrip_by_blank : (s : Text) → IsBlank s → rstrip_by is_space s ≡ []
unfolding rstrip_by
rstrip_by_blank [] h = refl
rstrip_by_blank (c ∷ s) (space, h) = rw (rstrip_by_blank s h, space) refl

strip-nil : (s : Text) → strip s ≡ [] → IsBlank s
unfolding strip strip_by lstrip_by
strip-nil [] h = tt
strip-nil (c ∷ s) h = elim (Bool-cases (is_space c)) [
  | inl space ↦ (space, strip-nil s (rw space at h))
  | inr other ↦ rstrip_by-nil (c ∷ s) (rw other at h)
]

ends-before :
    (c : ℕ) (r : Text)
    → ends_statement (before is_space c r) ≡ true
    → ((r ≡ []) × (c ≡ 0x3b)) ⊎ (ends_statement r ≡ true)
ends-before c [] h = elim (Bool-cases (is_space c)) [
  | inl space ↦ let clash : false ≡ true = (rw space at h) in cc
  | inr other ↦ inl (refl, eq-of-beq c 0x3b (rw other at h))
]
ends-before c (d ∷ r) h = inr h

before-ends :
    (c : ℕ) (r : Text) → ends_statement r ≡ true → ends_statement (before is_space c r) ≡ true
before-ends c [] h = cc
before-ends c (d ∷ r) h = h

is_end-IsEnd : (line : Text) → is_end line ≡ true → IsEnd line
unfolding is_end rstrip_by
is_end-IsEnd [] h = cc
is_end-IsEnd (c ∷ s) h = elim (ends-before c (rstrip_by is_space s) h) [
  | inl (rest, semicolon) ↦ inl (semicolon, rstrip_by-nil s rest)
  | inr more ↦ inr (is_end-IsEnd s more)
]

IsEnd-is_end : (line : Text) → IsEnd line → is_end line ≡ true
unfolding is_end rstrip_by
IsEnd-is_end [] h = elim h [ ]
IsEnd-is_end (c ∷ s) (inl (semicolon, blank)) = rw (rstrip_by_blank s blank, semicolon) refl
IsEnd-is_end (c ∷ s) (inr more) = before-ends c (rstrip_by is_space s) (IsEnd-is_end s more)

before-prefix : (c : ℕ) (r : Text) → (e : Text) × (before is_space c r ++ e ≡ c ∷ r)
before-prefix c [] = elim (Bool-cases (is_space c)) [
  | inl space ↦ (c ∷ [], rw space refl)
  | inr other ↦ ([], rw other refl)
]
before-prefix c (d ∷ r) = ([], ap (λ l. c ∷ d ∷ l) (append-nil r))

starts_comment-append : (s e : Text) → starts_comment s ≡ true → starts_comment (s ++ e) ≡ true
starts_comment-append [] e h = cc
starts_comment-append (a ∷ []) e h = cc
starts_comment-append (a ∷ b ∷ s) e h = h

rstrip_by-prefix : (s : Text) → (e : Text) × (rstrip_by is_space s ++ e ≡ s)
unfolding rstrip_by
rstrip_by-prefix [] = ([], refl)
rstrip_by-prefix (c ∷ s) =
    let r = rstrip_by is_space s in
    let (f, rest) = rstrip_by-prefix s in
    let (e, first) = before-prefix c r in
    (
      e ++ f,
      sym (append_assoc (before is_space c r) e f) ∙ ap (λ l. l ++ f) first ∙ ap (λ l. c ∷ l) rest,
    )

starts_comment-rstrip_by :
    (s : Text) → starts_comment (rstrip_by is_space s) ≡ true → starts_comment s ≡ true
starts_comment-rstrip_by s h =
    let (e, whole) = rstrip_by-prefix s in
    subst (λ t. starts_comment t ≡ true) whole (starts_comment-append (rstrip_by is_space s) e h)

dashes-before : (r : Text) → starts_comment (before is_space 0x2d (before is_space 0x2d r)) ≡ true
dashes-before [] = refl
dashes-before (c ∷ r) = refl

starts_comment-dashes :
    (s : Text) → starts_comment s ≡ true → (rest : Text) × (s ≡ 0x2d ∷ 0x2d ∷ rest)
starts_comment-dashes [] h = cc
starts_comment-dashes (a ∷ []) h = cc
starts_comment-dashes (a ∷ b ∷ s) h =
    let (x, y) = (and_iff (a == 0x2d) (b == 0x2d)).0 h in
    let first = eq-of-beq a 0x2d x in let second = eq-of-beq b 0x2d y in (s, cc)

is_comment-IsComment : (line : Text) → is_comment line ≡ true → IsComment line
unfolding is_comment strip strip_by lstrip_by
is_comment-IsComment [] h = cc
is_comment-IsComment (c ∷ s) h = elim (Bool-cases (is_space c)) [
  | inl space ↦ inl (space, is_comment-IsComment s (rw space at h))
  | inr other ↦
      inr (starts_comment-dashes (c ∷ s) (starts_comment-rstrip_by (c ∷ s) (rw other at h)))
]

IsComment-is_comment : (line : Text) → IsComment line → is_comment line ≡ true
unfolding is_comment strip strip_by lstrip_by rstrip_by
IsComment-is_comment [] h = elim h [ ]
IsComment-is_comment (c ∷ s) (inl (space, more)) = rw space (IsComment-is_comment s more)
IsComment-is_comment (c ∷ s) (inr (rest, dashes)) =
    subst (λ line. is_comment line ≡ true) (sym dashes) (dashes-before (rstrip_by is_space rest))

-- Some lines but those that are comments.
pub data IsWithout : List Text → List Text → Type 0 where
  no_lines : IsWithout [] []
  comment :
      {line : Text} {lines others : List Text}
      → IsComment line
      → IsWithout lines others
      → IsWithout (line ∷ lines) others
  other :
      {line : Text} {lines others : List Text}
      → ¬ IsComment line
      → IsWithout lines others
      → IsWithout (line ∷ lines) (line ∷ others)

kept-IsWithout : (lines : List Text) → IsWithout lines (kept lines)
kept-IsWithout [] = no_lines
kept-IsWithout (line ∷ lines) = elim (Bool-cases (is_comment line)) [
  | inl c ↦ rw c (comment (is_comment-IsComment line c) (kept-IsWithout lines))
  | inr c ↦ rw c (
      other (λ h. let clash : false ≡ true = sym c ∙ IsComment-is_comment line h in cc)
        (kept-IsWithout lines))
]

-- Lines of which the last one ends in a semicolon and no other does.
abbrev pub IsWhole : List Text → Type 0
IsWhole [] = ⊥
IsWhole (line ∷ []) = IsEnd line
IsWhole (line ∷ next ∷ lines) = (¬ IsEnd line) × IsWhole (next ∷ lines)

IsStatement-IsWhole : (lines : List Text) → IsStatement lines → IsWhole lines
IsStatement-IsWhole [] h = h
IsStatement-IsWhole (line ∷ []) h = is_end-IsEnd line h
IsStatement-IsWhole (line ∷ next ∷ lines) (unended, h) = (
  λ e. let clash : false ≡ true = sym unended ∙ IsEnd-is_end line e in cc,
  IsStatement-IsWhole (next ∷ lines) h,
)

All-IsWhole : (groups : List (List Text)) → All IsStatement groups → All IsWhole groups
All-IsWhole [] h = tt
All-IsWhole (g ∷ groups) (first, h) = (IsStatement-IsWhole g first, All-IsWhole groups h)

any_text-IsBlank : (tail : List Text) → any_text tail ≡ false → All IsBlank tail
unfolding is_blank
any_text-IsBlank [] h = tt
any_text-IsBlank (line ∷ tail) h = elim (Bool-cases (strip line == [])) [
  | inl blank ↦
      (strip-nil line (eq-of-beq (strip line) [] blank), any_text-IsBlank tail (rw blank at h))
  | inr text ↦ let clash : true ≡ false = (rw text at h) in cc
]

-- The lines of the statements, one behind the other, and blank lines at the end. The text of a
-- statement is its lines, joined and stripped.
pub record IsCut (lines : List Text) (statements : List Text) : Type 0 where
  pub groups : List (List Text)
  pub tail : List Text
  pub whole : lines ≡ concat groups ++ tail
  pub texts : map (λ group. strip (join 0x0a group)) groups ≡ statements
  pub ended : All IsWhole groups
  pub blank : All IsBlank tail

-- If a file is split, its lines but the comments, those that begin with two dashes or with spaces and
-- two dashes, are the lines of the statements, one behind the other, and lines of only spaces at the
-- end. A statement is the stripped text of its lines, of which the last has a semicolon with only
-- spaces behind it and no other has.
pub split_statements-IsCut :
    (lines statements : List Text)
    → split_statements lines ≡ some statements
    → (others : List Text) × IsWithout lines others × IsCut others statements
split_statements-IsCut lines statements h =
    let g = split_statements-IsGrouped lines statements h in
    (
      kept lines,
      kept-IsWithout lines,
      record {
        groups = g.groups;
        tail = g.tail;
        whole = g.whole;
        texts = g.texts;
        ended = All-IsWhole g.groups g.ended;
        blank = any_text-IsBlank g.tail g.blank;
      },
    )
