-- ===== src/Tests/Products.antt =====
-- A catalog of one product, seen twice in one category and once in a lower one.
use kafka_flink_click_house.Base.{
  negsuc, ℕ, ◌*◌, ◌≤◌, ◌++◌, map, ◌+◌, ◌<◌, ◌≡◌, ◌⊎◌, refl, some, List, [], ◌∷◌, Text, codes, pos,
  ◌≤ℤ◌, arith, length,
}
use kafka_flink_click_house.Text.{strip, int, str}
use kafka_flink_click_house.Replay.Reader.{iter_source_rows}
use kafka_flink_click_house.Catalog.{Observed, generate, top, parse_catalog_key, is_pair}
use kafka_flink_click_house.Catalog.Counting.{total, occurrences, keys, data_rows, generate-total}
use kafka_flink_click_house.Catalog.Choice.{generate-top}
use kafka_flink_click_house.Catalog.Files.{generate_catalog, price, row_of, catalog_rows}
use kafka_flink_click_house.Catalog.Prices.{digit, price-Bounded}
use kafka_flink_click_house.Catalog.Products.{Ascending, find_row, catalog_rows-row_of}

abbrev row_in : Text → List Text
row_in category = codes "1" ∷ codes "8" ∷ category ∷ codes "pv" ∷ codes "10" ∷ []

abbrev rows : List (List Text)
rows =
    row_in (codes "5")
    ∷ row_in (codes "9")
    ∷ (codes "1" ∷ codes "8" ∷ codes "-9" ∷ codes "pv" ∷ codes "10" ∷ [])
    ∷ row_in (codes "9")
    ∷ []

generated :
    ((generate rows).table
      ≡ record { product_id = pos 8; category_id = pos 9; observations = 2 }
        ∷ record { product_id = pos 8; category_id = pos 5; observations = 1 }
        ∷ [])
    × ((generate rows).rejected_source_rows ≡ 1)
    × (top (pos 8) (generate rows).table
        ≡ some (record { product_id = pos 8; category_id = pos 9; observations = 2 }))
unfolding generate parse_catalog_key strip int top
generated = (refl, refl, refl)

generate-total_example :
    (total (pos 8, pos 9) (generate rows).table
      ≡ occurrences (pos 8, pos 9) (keys (data_rows rows)))
    × ((generate rows).source_rows ≡ length (data_rows rows))
    × ((generate rows).valid_source_rows ≡ length (keys (data_rows rows)))
    × ((generate rows).valid_source_rows + (generate rows).rejected_source_rows
        ≡ (generate rows).source_rows)
generate-total_example = generate-total rows (pos 8, pos 9)

seen_in_five : occurrences (pos 8, pos 5) (keys (data_rows rows)) ≡ 1
unfolding iter_source_rows parse_catalog_key strip int is_pair
seen_in_five = refl

generate-top_example :
    (o : Observed) × (top (pos 8) (generate rows).table ≡ some o)
    × (o.product_id ≡ pos 8)
    × (o.observations ≡ occurrences (pos 8, o.category_id) (keys (data_rows rows)))
    × ((occurrences (pos 8, pos 5) (keys (data_rows rows)) < o.observations)
        ⊎ ((occurrences (pos 8, pos 5) (keys (data_rows rows)) ≡ o.observations)
            × (o.category_id ≤ℤ pos 5)))
generate-top_example = generate-top rows (pos 8) (pos 5) (omega (arith, seen_in_five))

catalog_file :
    generate_catalog (λ text. codes "hash") (some rows)
    ≡ some (
      record {
        source_rows = 4;
        valid_source_rows = 3;
        rejected_source_rows = 1;
        unique_products = 1;
        category_conflict_products = 1;
        category_resolution_policy = codes "most_frequent_then_lowest_category_id";
        catalog_sha256 = codes "hash";
      },
      codes
          "product_id,category_id,product_name,price,is_active,updated_at,catalog_version\n8,9,Synthetic product 8,1.08,true,2026-01-01T00:00:00Z,1\n",
    )
unfolding generate_catalog parse_catalog_key strip int price str
catalog_file = refl

price-Bounded_example :
    (rest whole tens units : ℕ) × (price (negsuc 6)
      ≡ str (pos whole) ++ (b'.' ∷ digit tens ∷ digit units ∷ []))
    × (1 ≤ whole)
    × (whole ≤ 500)
    × (tens < 10)
    × (units < 10)
    × (100 * whole + 10 * tens + units ≡ rest + 100)
    × (rest < 50000)
    × (a b : ℕ) × (0 + 50000 * a ≡ 7 + 50000 * b + rest)
price-Bounded_example = price-Bounded (negsuc 6)

negative_price : price (negsuc 6) ≡ codes "500.93"
unfolding price str
negative_price = refl

highest_price : price (pos 149999) ≡ codes "500.99"
unfolding price str
highest_price = refl

catalog_rows-row_of_example :
    let catalog = catalog_rows (generate rows).table in
    Ascending (map (λ r. r.product_id) catalog)
    × ((o : Observed) × (find_row (pos 8) catalog ≡ some (row_of o))
        × (o.product_id ≡ pos 8)
        × (0 < occurrences (pos 8, o.category_id) (keys (data_rows rows)))
        × ((occurrences (pos 8, pos 5) (keys (data_rows rows))
              < occurrences (pos 8, o.category_id) (keys (data_rows rows)))
            ⊎ ((occurrences (pos 8, pos 5) (keys (data_rows rows))
                  ≡ occurrences (pos 8, o.category_id) (keys (data_rows rows)))
                × (o.category_id ≤ℤ pos 5))))
catalog_rows-row_of_example = catalog_rows-row_of rows (pos 8) (pos 5) (omega (arith, seen_in_five))
