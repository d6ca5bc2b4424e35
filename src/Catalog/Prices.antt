-- ===== src/Catalog/Prices.antt =====
-- generator.py: the prices of the catalog.
use kafka_flink_click_house.Base.{
  ℕ, ◌+◌, ◌-◌, ◌*◌, ◌/◌, ◌%◌, pos_part, neg_part, [], ◌≤◌, ◌<◌, ◌≡◌, refl, ◌∷◌, ◌++◌, ℤ, pos,
  negsuc, arith,
}
use kafka_flink_click_house.Text.{str}
use kafka_flink_click_house.Catalog.Files.{price}

-- A digit.
abbrev pub digit : ℕ → ℕ
digit n = b'0' + n

-- Let `rest` be what the product's number leaves divided by 50,000, which is not negative. The price
-- is written as a whole number, a point and two digits, and makes `rest` + 100 hundredths: the lowest
-- is 1.00 and the highest 500.99.
pub price-Bounded :
    (product_id : ℤ)
    → (rest whole tens units : ℕ) × (price product_id
        ≡ str (pos whole) ++ (b'.' ∷ digit tens ∷ digit units ∷ []))
      × (1 ≤ whole)
      × (whole ≤ 500)
      × (tens < 10)
      × (units < 10)
      × (100 * whole + 10 * tens + units ≡ rest + 100)
      × (rest < 50000)
      × (a b : ℕ) × (pos_part product_id + 50000 * a ≡ neg_part product_id + 50000 * b + rest)
unfolding price
price-Bounded (pos n) = (
  n % 50000,
  _,
  _,
  _,
  refl,
  omega arith,
  omega arith,
  omega arith,
  omega arith,
  omega arith,
  omega arith,
  0,
  n / 50000,
  omega arith,
)
price-Bounded (negsuc n) = (
  49999 - n % 50000,
  _,
  _,
  _,
  refl,
  omega arith,
  omega arith,
  omega arith,
  omega arith,
  omega arith,
  omega arith,
  n / 50000 + 1,
  0,
  omega arith,
)
