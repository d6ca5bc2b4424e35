-- ===== src/Flink/Sql/Literals.antt =====
-- A configured value cannot leave the SQL literal that it is put in.
use kafka_flink_click_house.Base.{
  ℕ, ◌≡◌, ◌≢◌, refl, sym, ap, ◌∙◌, false, Bool-cases, inl, inr, Option, none, some, [], ◌∷◌, ◌++◌,
  Text, ◌==◌, nat_eq, if◌then◌else◌, arith, eq-of-beq, beq_of_ne,
}
use kafka_flink_click_house.Text.{is_blank}
use kafka_flink_click_house.Flink.Sql.{replace_char, quote, escape}

-- How SQL reads on behind an opening quote: two quotes are one of the text, one ends it. The result
-- is the text, and what stands behind the literal.
abbrev pub push : ℕ → Option (Text × Text) → Option (Text × Text)
push c none = none
push c (some (s, rest)) = some (c ∷ s, rest)

abbrev pub at_quote : Text → Option (Text × Text) → Option (Text × Text)
at_quote [] doubled = some ([], [])
at_quote (d ∷ s) doubled = if d == quote then doubled else some ([], d ∷ s)

unfoldable pub read_literal : Text → Option (Text × Text)
read_literal [] = none
read_literal (c ∷ []) = if c == quote then some ([], []) else none
read_literal (c ∷ d ∷ s) =
    let doubled = push quote (read_literal s) in
    let plain = push c (read_literal (d ∷ s)) in
    if c == quote then (if d == quote then doubled else some ([], d ∷ s)) else plain

read_literal_plain :
    (c : ℕ) (s : Text) → (c == quote) ≡ false → read_literal (c ∷ s) ≡ push c (read_literal s)
unfolding read_literal
read_literal_plain c [] h = rw h refl
read_literal_plain c (d ∷ s) h = rw h refl

-- What stands behind a closing quote is not a quote.
abbrev pub IsOutside : Text → Type 0
IsOutside [] = Unit
IsOutside (d ∷ s) = d ≢ quote

read_literal_end : (rest : Text) → IsOutside rest → read_literal (quote ∷ rest) ≡ some ([], rest)
unfolding read_literal
read_literal_end [] h = refl
read_literal_end (d ∷ s) h = rw (beq_of_ne d quote h) refl

unfoldable pub doubled : (s : Text) → Text
doubled s = replace_char quote (quote ∷ quote ∷ []) s

pub read_literal-doubled :
    (s rest : Text) → IsOutside rest → read_literal (doubled s ++ (quote ∷ rest)) ≡ some (s, rest)
unfolding read_literal replace_char doubled
read_literal-doubled [] rest h = read_literal_end rest h
read_literal-doubled (c ∷ s) rest h = elim (Bool-cases (c == quote)) [
  | inl same ↦
      rw (same, read_literal-doubled s rest h)
        (ap (λ d. some (d ∷ s, rest)) (sym (eq-of-beq c quote same)))
  | inr other ↦ rw other (
      read_literal_plain c (doubled s ++ (quote ∷ rest)) other
      ∙ ap (push c) (read_literal-doubled s rest h))
]

-- An escaped value between quotes is read by SQL as the value itself, whatever it holds, and what
-- stands behind the literal, which is not another quote, stays outside it.
pub read_literal-escape :
    (value escaped rest : Text)
    → escape value ≡ some escaped
    → IsOutside rest
    → read_literal (escaped ++ (quote ∷ rest)) ≡ some (value, rest)
unfolding escape doubled
read_literal-escape value escaped rest h outside = elim (Bool-cases (is_blank value)) [
  | inl blank ↦ absurd (ground arith)
  | inr text ↦ rw (escaped_lem text h) (read_literal-doubled value rest outside)
]
  where
    escaped_lem :
        is_blank value ≡ false
        → escape value ≡ some escaped
        → escaped ≡ replace_char quote (quote ∷ quote ∷ []) value
    escaped_lem e k = ground arith
