-- ===== src/Flink/Sql.antt =====
-- sql.py: SQL text from the configuration, and its statements. The lines are those of `splitlines`.
pub mod Literals
pub mod Grouping
pub mod Statements
pub mod Tables
pub mod Login
use kafka_flink_click_house.Base.{
  ℕ, Bool, true, false, not, ◌||◌, ◌&&◌, Option, none, some, List, [], ◌∷◌, ◌++◌, Text, codes, ◌==◌,
  nat_eq, list_eq, if◌then◌else◌, contains,
}
use kafka_flink_click_house.Text.{strip, rstrip_by, is_space, is_blank, join}

-- `value.replace(old, new)` for one character.
unfoldable pub replace_char : ℕ → Text → Text → Text
replace_char old new [] = []
replace_char old new (c ∷ s) =
    let rest = replace_char old new s in if c == old then new ++ rest else c ∷ rest

abbrev pub quote : ℕ
quote = 0x27

-- `_escape`, where `none` is its `ValueError`.
unfoldable pub escape : Text → Option Text
unfolding replace_char
escape value = if is_blank value then none else some (replace_char quote (quote ∷ quote ∷ []) value)

-- `text.startswith("--")` and `text.endswith(";")`
abbrev pub starts_comment : Text → Bool
starts_comment (a ∷ b ∷ s) = a == 0x2d && b == 0x2d
starts_comment _ = false

abbrev pub ends_statement : Text → Bool
ends_statement [] = false
ends_statement (c ∷ []) = c == 0x3b
ends_statement (c ∷ d ∷ s) = ends_statement (d ∷ s)

-- The tests of a line.
unfoldable pub is_comment : Text → Bool
is_comment line = starts_comment (strip line)

unfoldable pub is_end : Text → Bool
is_end line = ends_statement (rstrip_by is_space line)

abbrev pub any_text : List Text → Bool
any_text [] = false
any_text (line ∷ lines) = not (is_blank line) || any_text lines

abbrev pub newline : ℕ
newline = 0x0a

abbrev pub put_first : Text → Option (List Text) → Option (List Text)
put_first statement none = none
put_first statement (some statements) = some (statement ∷ statements)

-- The loop of `split_statements`, from the lines in the buffer; `none` is its `ValueError`.
unfoldable pub statements_from : List Text → List Text → Option (List Text)
unfolding is_comment is_end
statements_from buffer [] = if any_text buffer then none else some []
statements_from buffer (line ∷ lines) =
    let skipped = statements_from buffer lines in
    let buffer' = buffer ++ (line ∷ []) in
    let ended = put_first (strip (join newline buffer')) (statements_from [] lines) in
    let more = statements_from buffer' lines in
    if is_comment line then skipped else if is_end line then ended else more

unfoldable pub split_statements : List Text → Option (List Text)
unfolding statements_from
split_statements lines = statements_from [] lines
