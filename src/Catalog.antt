-- ===== src/Catalog.antt =====
-- tools/taobao_catalog/generator.py: the category of each product, the one it is seen with most often.
-- The two tables of SQLite are lists, and its statements are functions on them.
pub mod Counting
pub mod Keys
pub mod Choice
pub mod Files
pub mod Prices
pub mod Products
use kafka_flink_click_house.Base.{
  ℕ, ◌+◌, true, false, not, ◌&&◌, ◌||◌, Bool, Option, none, some, List, [], ◌∷◌, ◌++◌, map, Text,
  contains, ◌==◌, nat_eq, list_eq, int_eq, if◌then◌else◌, ℤ, pos, ltb_ℤ, ltb, length,
}
use kafka_flink_click_house.Text.{strip, int}
use kafka_flink_click_house.Events.{behavior_types}
use kafka_flink_click_house.Replay.Reader.{iter_source_rows}

-- An item and a category.
abbrev pub Pair : Type 0
Pair = ℤ × ℤ

abbrev pub positive_key : ℤ → ℤ → ℤ → ℤ → Text → Option Pair
positive_key user item category time behavior =
    if not (ltb_ℤ (pos 0) user)
      || not (ltb_ℤ (pos 0) item)
      || not (ltb_ℤ (pos 0) category)
      || not (ltb_ℤ (pos 0) time)
      || not (contains behavior_types behavior)
    then none
    else some (item, category)

-- The four numbers, if `int` reads them all.
abbrev pub key_of_numbers : List (Option ℤ) → Text → Option Pair
key_of_numbers (some user ∷ some item ∷ some category ∷ some time ∷ []) behavior =
    positive_key user item category time behavior
key_of_numbers _ behavior = none

-- `_parse_catalog_key`
unfoldable pub parse_catalog_key : List Text → Option Pair
parse_catalog_key (user ∷ item ∷ category ∷ behavior ∷ time ∷ []) =
    key_of_numbers (map int (strip user ∷ strip item ∷ strip category ∷ strip time ∷ []))
      (strip behavior)
parse_catalog_key values = none

-- A row of `product_categories`.
pub record Observed : Type 0 where
  pub product_id : ℤ
  pub category_id : ℤ
  pub observations : ℕ

unfoldable pub is_pair : Pair → Pair → Bool
is_pair p q = p.0 == q.0 && p.1 == q.1

-- `INSERT … ON CONFLICT(product_id, category_id) DO UPDATE`, of one group.
unfoldable pub upsert : Pair → ℕ → List Observed → List Observed
unfolding is_pair
upsert p n [] = record { product_id = p.0; category_id = p.1; observations = n } ∷ []
upsert p n (o ∷ os) =
    let behind = upsert p n os in
    if is_pair p (o.product_id, o.category_id)
    then record o { observations = o.observations + n } ∷ os
    else o ∷ behind

-- `SELECT product_id, category_id, COUNT(*) … GROUP BY product_id, category_id`
unfoldable pub group : List Pair → List Observed
unfolding upsert
group [] = []
group (p ∷ incoming) = upsert p 1 (group incoming)

abbrev pub upsert_all : List Observed → List Observed → List Observed
upsert_all [] table = table
upsert_all (g ∷ groups) table =
    upsert_all groups (upsert (g.product_id, g.category_id) g.observations table)

-- The tables, the pending keys and the three counts.
pub record Generator : Type 0 where
  pub table : List Observed
  pub pending : List Pair
  pub source_rows : ℕ
  pub valid_source_rows : ℕ
  pub rejected_source_rows : ℕ

-- The three statements of `flush_pending`, which returns at once if nothing is pending.
unfoldable pub flush_table : List Pair → List Observed → List Observed
unfolding group
flush_table [] table = table
flush_table (p ∷ pending) table = upsert_all (group (p ∷ pending)) table

unfoldable pub flush_pending : Generator → Generator
unfolding flush_table
flush_pending g = record g { table = flush_table g.pending g.table; pending = [] }

-- The rows that SQLite takes at once.
abbrev pub batch_rows : ℕ
batch_rows = 10000

-- `if len(pending) == 10_000: flush_pending()`
unfoldable pub flush_full : Generator → Generator
unfolding flush_pending
flush_full g = if length g.pending == batch_rows then flush_pending g else g

-- The body of the loop over the rows, on the key of the row.
unfoldable pub count_row : Option Pair → Generator → Generator
unfolding flush_full
count_row none g = record g {
  source_rows = g.source_rows + 1;
  rejected_source_rows = g.rejected_source_rows + 1;
}
count_row (some p) g = flush_full (record g {
  source_rows = g.source_rows + 1;
  valid_source_rows = g.valid_source_rows + 1;
  pending = g.pending ++ (p ∷ []);
})

unfoldable pub count_rows : List (List Text) → Generator → Generator
unfolding count_row
count_rows [] g = flush_pending g
count_rows (values ∷ rows) g = count_rows rows (count_row (parse_catalog_key values) g)

abbrev pub empty : Generator
empty = record {
  table = [];
  pending = [];
  source_rows = 0;
  valid_source_rows = 0;
  rejected_source_rows = 0;
}

-- `generate_catalog` up to the writing of its files, on the rows of the source file.
unfoldable pub generate : List (List Text) → Generator
unfolding iter_source_rows count_rows
generate rows = count_rows (map (λ r. r.1) (iter_source_rows rows)) empty

-- `ORDER BY observations DESC, category_id ASC` within a product: whether a row comes in front.
abbrev pub is_preferred : Observed → Observed → Bool
is_preferred o q =
    ltb q.observations o.observations
    || (o.observations == q.observations && ltb_ℤ o.category_id q.category_id)

abbrev pub better : Observed → Option Observed → Observed
better o none = o
better o (some q) = if is_preferred q o then q else o

-- The row of a product whose `category_rank` is 1.
unfoldable pub top : ℤ → List Observed → Option Observed
top product [] = none
top product (o ∷ os) =
    let behind = top product os in
    if o.product_id == product then some (better o behind) else behind
