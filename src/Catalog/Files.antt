-- ===== src/Catalog/Files.antt =====
-- tools/taobao_catalog/generator.py: the catalog file and the manifest that are made of the counts.
use kafka_flink_click_house.Base.{
  ℕ, ◌+◌, ◌-◌, ◌/◌, ◌%◌, Option, none, some, List, [], ◌∷◌, ◌++◌, Text, codes, ◌==◌, nat_eq, int_eq,
  if◌then◌else◌, ℤ, pos, negsuc, ltb_ℤ, ltb, length,
}
use kafka_flink_click_house.Text.{str, join}
use kafka_flink_click_house.Catalog.{Observed, Generator, generate, top}

-- Python's `z % 50_000`.
abbrev pub mod_50000 : ℤ → ℕ
mod_50000 (pos n) = n % 50000
mod_50000 (negsuc n) = 49999 - n % 50000

-- A hundredth, as two digits.
abbrev pub two_digits : ℕ → Text
two_digits n = (b'0' + n / 10) ∷ (b'0' + n % 10) ∷ []

-- `_price`. The decimal numbers are exact, with two places.
unfoldable pub price : ℤ → Text
price product_id =
    let hundredths = mod_50000 product_id + 100 in
    str (pos (hundredths / 100)) ++ (b'.' ∷ two_digits (hundredths % 100))

pub record CatalogRow : Type 0 where
  pub product_id : ℤ
  pub category_id : ℤ
  pub product_name : Text
  pub row_price : Text
  pub is_active : Text
  pub updated_at : Text
  pub catalog_version : ℕ

unfoldable pub row_of : Observed → CatalogRow
unfolding price
row_of o = record {
  product_id = o.product_id;
  category_id = o.category_id;
  product_name = codes "Synthetic product " ++ str o.product_id;
  row_price = price o.product_id;
  is_active = codes "true";
  updated_at = codes "2026-01-01T00:00:00Z";
  catalog_version = 1;
}

-- The distinct products in order: `PARTITION BY product_id … ORDER BY product_id`.
unfoldable pub insert_id : ℤ → List ℤ → List ℤ
insert_id p [] = p ∷ []
insert_id p (q ∷ ids) =
    let behind = q ∷ insert_id p ids in
    if p == q then q ∷ ids else if ltb_ℤ p q then p ∷ q ∷ ids else behind

unfoldable pub product_ids : List Observed → List ℤ
unfolding insert_id
product_ids [] = []
product_ids (o ∷ table) = insert_id o.product_id (product_ids table)

abbrev pub put_row : Option Observed → List CatalogRow → List CatalogRow
put_row none rows = rows
put_row (some o) rows = row_of o ∷ rows

-- `WHERE category_rank = 1`
unfoldable pub rows_of : List ℤ → List Observed → List CatalogRow
unfolding top row_of
rows_of [] table = []
rows_of (p ∷ ids) table = put_row (top p table) (rows_of ids table)

unfoldable pub catalog_rows : List Observed → List CatalogRow
unfolding product_ids rows_of
catalog_rows table = rows_of (product_ids table) table

-- `SELECT product_id … GROUP BY product_id HAVING COUNT(*) > 1`
abbrev pub rows_with : ℤ → List Observed → ℕ
rows_with p [] = 0
rows_with p (o ∷ table) = (if p == o.product_id then 1 else 0) + rows_with p table

unfoldable pub count_conflicts : List ℤ → List Observed → ℕ
count_conflicts [] table = 0
count_conflicts (p ∷ ids) table =
    (if ltb 1 (rows_with p table) then 1 else 0) + count_conflicts ids table

-- The line that `csv.writer` makes: no field has a character that it quotes.
unfoldable pub csv_line : CatalogRow → Text
unfolding join
csv_line r =
    join b',' (
      str r.product_id
      ∷ str r.category_id
      ∷ r.product_name
      ∷ r.row_price
      ∷ r.is_active
      ∷ r.updated_at
      ∷ str (pos r.catalog_version)
      ∷ [])
    ++ (b'\n' ∷ [])

abbrev pub csv_lines : List CatalogRow → Text
csv_lines [] = []
csv_lines (r ∷ rows) = csv_line r ++ csv_lines rows

unfoldable pub catalog_text : List CatalogRow → Text
unfolding csv_line
catalog_text rows =
    codes "product_id,category_id,product_name,price,is_active,updated_at,catalog_version\n"
    ++ csv_lines rows

pub record CatalogManifest : Type 0 where
  pub source_rows : ℕ
  pub valid_source_rows : ℕ
  pub rejected_source_rows : ℕ
  pub unique_products : ℕ
  pub category_conflict_products : ℕ
  pub category_resolution_policy : Text
  pub catalog_sha256 : Text

unfoldable pub manifest_of : (Text → Text) → Generator → CatalogManifest
unfolding product_ids count_conflicts catalog_text catalog_rows
manifest_of sha256 g = record {
  source_rows = g.source_rows;
  valid_source_rows = g.valid_source_rows;
  rejected_source_rows = g.rejected_source_rows;
  unique_products = length (product_ids g.table);
  category_conflict_products = count_conflicts (product_ids g.table) g.table;
  category_resolution_policy = codes "most_frequent_then_lowest_category_id";
  catalog_sha256 = sha256 (catalog_text (catalog_rows g.table));
}

-- `generate_catalog`: the manifest and the catalog file, or `none` for the `FileNotFoundError` of a
-- source file that is missing.
unfoldable pub generate_catalog :
    (Text → Text) → Option (List (List Text)) → Option (CatalogManifest × Text)
unfolding generate manifest_of catalog_text catalog_rows
generate_catalog sha256 none = none
generate_catalog sha256 (some rows) =
    let g = generate rows in some (manifest_of sha256 g, catalog_text (catalog_rows g.table))
