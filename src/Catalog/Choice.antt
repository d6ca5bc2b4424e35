-- ===== src/Catalog/Choice.antt =====
-- The category that the catalog gives a product: of those the file has it under, the most frequent
-- one, and the lowest of these.
use kafka_flink_click_house.Base.{
  ◌<◌, ◌≡◌, ◌≢◌, refl, sym, ap, ◌∙◌, subst, true, false, Bool-cases, ne_of_beq, Option-cases, ◌⊎◌,
  inl, inr, Option, none, some, List, [], ◌∷◌, Text, ◌==◌, nat_eq, int_eq, ℤ, ◌≤ℤ◌, arith,
}
use kafka_flink_click_house.Base.Int.{int_beq_iff}
use kafka_flink_click_house.Catalog.{Observed, generate, empty, is_preferred, better, top}
use kafka_flink_click_house.Catalog.Counting.{pair_of, occurrences, keys, data_rows, generate-total}
use kafka_flink_click_house.Catalog.Keys.{IsKeyed, count_rows-IsKeyed, In, total-In, find}

-- A row that another does not come in front of.
abbrev IsUnbeaten : Observed → Observed → Type 0
IsUnbeaten o r =
    (r.observations < o.observations)
    ⊎ ((r.observations ≡ o.observations) × (o.category_id ≤ℤ r.category_id))

is_preferred-true : (q o : Observed) → is_preferred q o ≡ true → IsUnbeaten q o
is_preferred-true q o h = ground arith

is_preferred-false : (q o : Observed) → is_preferred q o ≡ false → IsUnbeaten o q
is_preferred-false q o h = ground arith

IsUnbeaten-refl : (o : Observed) → IsUnbeaten o o
IsUnbeaten-refl o = ground arith

IsUnbeaten-trans : (a b c : Observed) → IsUnbeaten a b → IsUnbeaten b c → IsUnbeaten a c
IsUnbeaten-trans a b c h k = ground arith

-- The row of a product that no other row of it comes in front of, if it has one.
abbrev pub IsTop : ℤ → List Observed → Option Observed → Type 0
IsTop product t none = (r : Observed) → In r t → r.product_id ≢ product
IsTop product t (some o) =
    In o t
    × (o.product_id ≡ product)
    × ((r : Observed) → In r t → r.product_id ≡ product → IsUnbeaten o r)

better-true : (o q : Observed) → is_preferred q o ≡ true → better o (some q) ≡ q
better-true o q h = rw h refl

better-false : (o q : Observed) → is_preferred q o ≡ false → better o (some q) ≡ o
better-false o q h = rw h refl

better-IsTop :
    (product : ℤ) (o : Observed) (t : List Observed) (c : Option Observed)
    → o.product_id ≡ product
    → IsTop product t c
    → IsTop product (o ∷ t) (some (better o c))
better-IsTop product o t none e h = (
  inl refl,
  e,
  λ r i k. elim i [
    | inl s ↦ subst (IsUnbeaten o) (sym s) (IsUnbeaten-refl o)
    | inr j ↦ absurd (h r j k)
  ],
)
better-IsTop product o t (some q) e h = elim (Bool-cases (is_preferred q o)) [
  | inl before ↦
      subst (λ x. IsTop product (o ∷ t) (some x)) (sym (better-true o q before))
        (
          inr h.0,
          h.1,
          λ r i k. elim i [
            | inl s ↦ subst (IsUnbeaten q) (sym s) (is_preferred-true q o before)
            | inr j ↦ h.2 r j k
          ],
        )
  | inr after ↦
      subst (λ x. IsTop product (o ∷ t) (some x)) (sym (better-false o q after))
        (
          inl refl,
          e,
          λ r i k. elim i [
            | inl s ↦ subst (IsUnbeaten o) (sym s) (IsUnbeaten-refl o)
            | inr j ↦ IsUnbeaten-trans o q r (is_preferred-false q o after) (h.2 r j k)
          ],
        )
]

skip-IsTop :
    (product : ℤ) (o : Observed) (t : List Observed) (c : Option Observed)
    → o.product_id ≢ product
    → IsTop product t c
    → IsTop product (o ∷ t) c
skip-IsTop product o t none d h =
    λ r i. elim i [ inl s ↦ (λ k. d (ap (λ x. x.product_id) (sym s) ∙ k)) | inr j ↦ h r j ]
skip-IsTop product o t (some q) d h = (
  inr h.0,
  h.1,
  λ r i k. elim i [ inl s ↦ absurd (d (ap (λ x. x.product_id) (sym s) ∙ k)) | inr j ↦ h.2 r j k ],
)

pub top-IsTop : (product : ℤ) (t : List Observed) → IsTop product t (top product t)
unfolding top
top-IsTop product [] = λ r i. absurd i
top-IsTop product (o ∷ t) = elim (Bool-cases (o.product_id == product)) [
  | inl same ↦ rw same (
      better-IsTop product o t (top product t) ((int_beq_iff o.product_id product).0 same)
        (top-IsTop product t))
  | inr other ↦ rw other (
      skip-IsTop product o t (top product t) (ne_of_beq o.product_id product other)
        (top-IsTop product t))
]

generate-IsKeyed : (rows : List (List Text)) → IsKeyed (generate rows).table
unfolding generate
generate-IsKeyed rows = count_rows-IsKeyed (data_rows rows) empty tt

-- What a row of the table counts.
generate-In :
    (rows : List (List Text)) (o : Observed)
    → In o (generate rows).table
    → o.observations ≡ occurrences (pair_of o) (keys (data_rows rows))
generate-In rows o i =
    sym (total-In o (generate rows).table (generate-IsKeyed rows) i)
    ∙ (generate-total rows (pair_of o)).0

compared :
    (rows : List (List Text)) (product category : ℤ) (o r : Observed)
    → In r (generate rows).table
    → pair_of r ≡ (product, category)
    → IsUnbeaten o r
    → (occurrences (product, category) (keys (data_rows rows)) < o.observations)
      ⊎ ((occurrences (product, category) (keys (data_rows rows)) ≡ o.observations)
          × (o.category_id ≤ℤ category))
compared rows product category o r i e h =
    let counts = generate-In rows r i ∙ ap (λ p. occurrences p (keys (data_rows rows))) e in
    elim h [
      | inl fewer ↦ inl (omega (arith, counts))
      | inr (equal, low) ↦
          inr (omega (arith, counts), subst (λ c. o.category_id ≤ℤ c) (ap (λ p. p.1) e) low)
    ]

-- Of the categories that the valid rows of the file have a product under, the table's first row of
-- the product names the most frequent one, with how often it is there, and of several that are
-- equally frequent the lowest. There is such a row for each product that the valid rows have.
pub generate-top :
    (rows : List (List Text)) (product category : ℤ)
    → 0 < occurrences (product, category) (keys (data_rows rows))
    → (o : Observed) × (top product (generate rows).table ≡ some o)
      × (o.product_id ≡ product)
      × (o.observations ≡ occurrences (product, o.category_id) (keys (data_rows rows)))
      × ((occurrences (product, category) (keys (data_rows rows)) < o.observations)
          ⊎ ((occurrences (product, category) (keys (data_rows rows)) ≡ o.observations)
              × (o.category_id ≤ℤ category)))
generate-top rows product category h =
    let t = (generate rows).table in
    let (r, i, e) =
      find (product, category) t (omega (arith, (generate-total rows (product, category)).0)) in
    elim (Option-cases (top product t)) [
      | inl nothing ↦
          absurd (subst (IsTop product t) nothing (top-IsTop product t) r i (ap (λ p. p.0) e))
      | inr (o, first) ↦
          let (stands, same, best) = subst (IsTop product t) first (top-IsTop product t) in
          (
            o,
            first,
            same,
            generate-In rows o stands
                ∙ ap (λ x. occurrences (x, o.category_id) (keys (data_rows rows))) same,
            compared rows product category o r i e (best r i (ap (λ p. p.0) e)),
          )
    ]
