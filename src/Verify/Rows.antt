-- ===== src/Verify/Rows.antt =====
-- verify.py: what `main` makes of the rows and the hashes that it reads.
use kafka_flink_click_house.Base.{
  true, false, Option, List, [], ◌∷◌, Text, codes, nat_eq, list_eq, contains, if◌then◌else◌, ℤ, pos,
  Result, ok, err, ◌>>=◌, or_raise, length,
}
use kafka_flink_click_house.Text.{int, str}
use kafka_flink_click_house.Json.{
  Json, boolean, number, string, object, Members, no_members, member, find, iterate, set_member,
  TypeMismatch, attribute_error, type_error,
}
use kafka_flink_click_house.Accounting.{Accounting, reconcile_accounting}
use kafka_flink_click_house.Verify.{VerifyError}

pub data RunError (X : Type 0) : Type 0 where
  -- What `urlopen`, `json.load` or `subprocess.run` raises.
  service : X → RunError X
  key_error value_error : RunError X
  bad_type : TypeMismatch → RunError X
  -- "invalid reconciliation: …", a `RuntimeError`.
  unbalanced : RunError X
  failed : VerifyError → RunError X

-- The output of `HGETALL`, decoded: an object, a list of texts, or what cannot be made into pairs.
pub data HashReply : Type 0 where
  pairs : Members → HashReply
  flat : List Text → HashReply
  other : HashReply

module _ {X : Type 0} where
  abbrev pub or_type : {A : Type 0} → Result TypeMismatch A → Result (RunError X) A
  or_type (ok a) = ok a
  or_type (err e) = err (bad_type e)

  -- `reply["data"]`
  unfoldable pub data_of : Json → Result (RunError X) Json
  unfolding find
  data_of (object fields) = or_raise (find fields (codes "data")) key_error
  data_of _ = err (bad_type type_error)

  -- `int(value)`, where `truncated` is that of a number.
  unfoldable pub int_of : (Text → Option ℤ) → Json → Result (RunError X) ℤ
  int_of truncated (string s) = or_raise (int s) value_error
  int_of truncated (number n) = or_raise (truncated n) value_error
  int_of truncated (boolean true) = ok (pos 1)
  int_of truncated (boolean false) = ok (pos 0)
  int_of truncated _ = err (bad_type type_error)

  -- `{key: int(value) if key in fields else value for key, value in row.items()}`
  unfoldable pub integerize_row :
      (Text → Option ℤ) → List Text → Members → Result (RunError X) Members
  unfolding int_of
  integerize_row truncated fields no_members = ok no_members
  integerize_row truncated fields (member key value row) = do
    v ←
        if contains fields key
        then (do z ← int_of truncated value; ok (number (str z)))
        else ok value
    rest ← integerize_row truncated fields row
    ok (member key v rest)

  abbrev pub items_of : Json → Result (RunError X) Members
  items_of (object fields) = ok fields
  items_of _ = err (bad_type attribute_error)

  unfoldable pub integerize_rows :
      (Text → Option ℤ) → List Text → List Json → Result (RunError X) (List Members)
  unfolding integerize_row
  integerize_rows truncated fields [] = ok []
  integerize_rows truncated fields (row ∷ rows) = do
    items ← items_of row
    first ← integerize_row truncated fields items
    rest ← integerize_rows truncated fields rows
    ok (first ∷ rest)

  unfoldable pub integerize :
      (Text → Option ℤ) → Json → List Text → Result (RunError X) (List Members)
  unfolding integerize_rows iterate
  integerize truncated rows fields = do
    list ← or_type (iterate rows)
    integerize_rows truncated fields list

  -- `dict(zip(values[::2], values[1::2], strict=True))`
  unfoldable pub zip_pairs : List Text → Members → Result (RunError X) Members
  unfolding set_member
  zip_pairs [] fields = ok fields
  zip_pairs (key ∷ []) fields = err value_error
  zip_pairs (key ∷ value ∷ values) fields = zip_pairs values (set_member fields key (string value))

  unfoldable pub hash_of_reply : HashReply → Result (RunError X) Members
  unfolding zip_pairs
  hash_of_reply (pairs fields) = ok fields
  hash_of_reply (flat values) = zip_pairs values no_members
  hash_of_reply other = err (bad_type type_error)

-- The text that is compared with the quality types: what is no text is none of them.
abbrev pub text_of : Json → Text
text_of (string s) = s
text_of _ = []

module _ {X : Type 0} where
  -- `row["quality_type"]` of each row.
  unfoldable pub quality_types : List Members → Result (RunError X) (List Text)
  unfolding find
  quality_types [] = ok []
  quality_types (row ∷ rows) = do
    value ← or_raise (find row (codes "quality_type")) key_error
    rest ← quality_types rows
    ok (text_of value ∷ rest)

  -- The call of `reconcile_accounting`.
  unfoldable pub account :
      (Text → Text)
      → List (List Text)
      → List Members
      → List Members
      → Result (RunError X) Accounting
  unfolding quality_types reconcile_accounting
  account sha256 fixture raw quality = do
    types ← quality_types quality
    or_raise (reconcile_accounting sha256 fixture (length raw) types) unbalanced

  abbrev pub of_check : Result VerifyError (Unit {0}) → Result (RunError X) (Unit {0})
  of_check (ok _) = ok tt
  of_check (err e) = err (failed e)
