-- ===== src/Catalog/Products.antt =====
-- generator.py: the rows of the catalog file, one for each product and in order.
use kafka_flink_click_house.Base.{
  ◌<◌, ◌≡◌, ◌⊎◌, inl, inr, refl, sym, subst, Bool, true, false, Bool-cases, ◌||◌, Option, none,
  some, Option-cases, List, [], ◌∷◌, map, Text, ◌==◌, nat_eq, int_eq, eq_self, eq-of-beq, contains,
  if◌then◌else◌, ℤ, ◌≤ℤ◌, ltb_ℤ, All, arith, eq_of_parts,
}
use kafka_flink_click_house.Base.Int.{int_beq_iff}
use kafka_flink_click_house.Catalog.{Observed, generate, top}
use kafka_flink_click_house.Catalog.Counting.{occurrences, keys, data_rows}
use kafka_flink_click_house.Catalog.Keys.{In}
use kafka_flink_click_house.Catalog.Choice.{IsTop, top-IsTop, generate-top}
use kafka_flink_click_house.Catalog.Files.{
  CatalogRow, row_of, insert_id, product_ids, rows_of, catalog_rows,
}

-- Each is less than all behind it.
abbrev pub Ascending : List ℤ → Type 0
Ascending [] = Unit
Ascending (x ∷ xs) = All (λ y. ltb_ℤ x y ≡ true) xs × Ascending xs

ltb_ℤ-trans : (a b c : ℤ) → ltb_ℤ a b ≡ true → ltb_ℤ b c ≡ true → ltb_ℤ a c ≡ true
ltb_ℤ-trans a b c h k = ground arith

ltb_ℤ-flip : (a b : ℤ) → (a == b) ≡ false → ltb_ℤ a b ≡ false → ltb_ℤ b a ≡ true
ltb_ℤ-flip a b h k = ground (arith, eq_of_parts a b, int_beq_iff a b)

All-insert_id : (P : ℤ → Type 0) (p : ℤ) (ids : List ℤ) → P p → All P ids → All P (insert_id p ids)
unfolding insert_id
All-insert_id P p [] here all = (here, tt)
All-insert_id P p (q ∷ ids) here all = elim (Bool-cases (p == q)) [
  | inl same ↦ rw same all
  | inr other ↦ elim (Bool-cases (ltb_ℤ p q)) [
    | inl less ↦ rw (other, less) (here, all)
    | inr more ↦ rw (other, more) (all.0, All-insert_id P p ids here all.1)
  ]
]

All-below :
    (p q : ℤ) (ids : List ℤ)
    → ltb_ℤ p q ≡ true
    → All (λ y. ltb_ℤ q y ≡ true) ids
    → All (λ y. ltb_ℤ p y ≡ true) ids
All-below p q [] less all = tt
All-below p q (y ∷ ids) less all = (ltb_ℤ-trans p q y less all.0, All-below p q ids less all.1)

insert_id-Ascending : (p : ℤ) (ids : List ℤ) → Ascending ids → Ascending (insert_id p ids)
unfolding insert_id
insert_id-Ascending p [] h = (tt, tt)
insert_id-Ascending p (q ∷ ids) h = elim (Bool-cases (p == q)) [
  | inl same ↦ rw same h
  | inr other ↦ elim (Bool-cases (ltb_ℤ p q)) [
    | inl less ↦ rw (other, less) ((less, All-below p q ids less h.0), h)
    | inr more ↦
        rw (other, more)
          (
            All-insert_id (λ y. ltb_ℤ q y ≡ true) p ids (ltb_ℤ-flip p q other more) h.0,
            insert_id-Ascending p ids h.1,
          )
  ]
]

product_ids-Ascending : (t : List Observed) → Ascending (product_ids t)
unfolding product_ids
product_ids-Ascending [] = tt
product_ids-Ascending (o ∷ t) =
    insert_id-Ascending o.product_id (product_ids t) (product_ids-Ascending t)

or_true : (a b : Bool) → b ≡ true → (a || b) ≡ true
or_true true b h = refl
or_true false b h = h

or_left : (a b : Bool) → a ≡ false → (a || b) ≡ true → b ≡ true
or_left true b h k = cc
or_left false b h k = k

insert_id_self : (p : ℤ) (ids : List ℤ) → contains (insert_id p ids) p ≡ true
unfolding insert_id
insert_id_self p [] = rw (eq_self p) refl
insert_id_self p (q ∷ ids) = elim (Bool-cases (p == q)) [
  | inl same ↦ rw (same, contains) (rw same refl)
  | inr other ↦ elim (Bool-cases (ltb_ℤ p q)) [
    | inl less ↦ rw (other, less) (rw (eq_self p) refl)
    | inr more ↦ rw (other, more) (or_true (p == q) _ (insert_id_self p ids))
  ]
]

insert_id_other :
    (p q : ℤ) (ids : List ℤ) → contains ids q ≡ true → contains (insert_id p ids) q ≡ true
unfolding insert_id
insert_id_other p q [] h = cc
insert_id_other p q (r ∷ ids) h = elim (Bool-cases (p == r)) [
  | inl same ↦ rw same h
  | inr other ↦ elim (Bool-cases (ltb_ℤ p r)) [
    | inl less ↦ rw (other, less) (or_true (q == p) _ h)
    | inr more ↦
        rw (other, more)
          (elim (Bool-cases (q == r)) [
            | inl here ↦ rw here refl
            | inr there ↦ or_true (q == r) _ (insert_id_other p q ids (or_left (q == r) _ there h))
          ])
  ]
]

In-product_ids :
    (o : Observed) (t : List Observed) → In o t → contains (product_ids t) o.product_id ≡ true
unfolding product_ids
In-product_ids o [] i = absurd i
In-product_ids o (r ∷ t) (inl e) =
    subst (λ x. contains (insert_id r.product_id (product_ids t)) x.product_id ≡ true) (sym e)
      (insert_id_self r.product_id (product_ids t))
In-product_ids o (r ∷ t) (inr i) =
    insert_id_other r.product_id o.product_id (product_ids t) (In-product_ids o t i)

-- Every product of the catalog has a row in the table.
abbrev Present : List Observed → ℤ → Type 0
Present t p = (o : Observed) × In o t × (o.product_id ≡ p)

All-weaken : (P Q : ℤ → Type 0) → ((p : ℤ) → P p → Q p) → (ids : List ℤ) → All P ids → All Q ids
All-weaken P Q f [] h = tt
All-weaken P Q f (p ∷ ids) (a, h) = (f p a, All-weaken P Q f ids h)

product_ids-Present : (t : List Observed) → All (Present t) (product_ids t)
unfolding product_ids
product_ids-Present [] = tt
product_ids-Present (o ∷ t) =
    All-insert_id (Present (o ∷ t)) o.product_id (product_ids t) (o, inl refl, refl)
      (All-weaken (Present t) (Present (o ∷ t)) (λ p (r, i, e). (r, inr i, e)) (product_ids t)
        (product_ids-Present t))

-- The top row of a product that has rows.
top_row :
    (t : List Observed) (p : ℤ)
    → Present t p
    → (o : Observed) × (top p t ≡ some o) × IsTop p t (some o)
top_row t p (r, i, e) = elim (Option-cases (top p t)) [
  | inl nothing ↦ absurd (subst (IsTop p t) nothing (top-IsTop p t) r i e)
  | inr (o, first) ↦ (o, first, subst (IsTop p t) first (top-IsTop p t))
]

rows_of-ids :
    (ids : List ℤ) (t : List Observed)
    → All (Present t) ids
    → map (λ r. r.product_id) (rows_of ids t) ≡ ids
unfolding rows_of row_of
rows_of-ids [] t h = refl
rows_of-ids (p ∷ ids) t (here, h) =
    let (o, first, top_of) = top_row t p here in rw first (λ i. top_of.1 i ∷ rows_of-ids ids t h i)

-- The first row of a product.
unfoldable pub find_row : ℤ → List CatalogRow → Option CatalogRow
find_row p [] = none
find_row p (r ∷ rows) = let behind = find_row p rows in if p == r.product_id then some r else behind

find-rows_of :
    (p : ℤ) (ids : List ℤ) (t : List Observed) (o : Observed)
    → contains ids p ≡ true
    → All (Present t) ids
    → top p t ≡ some o
    → o.product_id ≡ p
    → find_row p (rows_of ids t) ≡ some (row_of o)
unfolding find_row rows_of row_of
find-rows_of p [] t o h all first same = cc
find-rows_of p (q ∷ ids) t o h all first same = elim (Bool-cases (p == q)) [
  | inl here ↦
      let first' = subst (λ x. top x t ≡ some o) (eq-of-beq p q here) first in
      let found = (int_beq_iff p o.product_id).1 (sym same) in rw first' (rw found refl)
  | inr there ↦
      let (r, first', top_of) = top_row t q all.0 in
      let other = subst (λ x. (p == x) ≡ false) (sym top_of.1) there in
      rw first' (rw other (find-rows_of p ids t o (or_left (p == q) _ there h) all.1 first same))
]

-- The catalog has one row for each product that the valid rows of the file have, in the order of the
-- products' numbers. Its category is one that the file has the product under, and no other category
-- is more frequent for the product, nor lower and as frequent.
pub catalog_rows-row_of :
    (rows : List (List Text)) (product category : ℤ)
    → 0 < occurrences (product, category) (keys (data_rows rows))
    → let catalog = catalog_rows (generate rows).table in
      let often = λ (c : ℤ). occurrences (product, c) (keys (data_rows rows)) in
      Ascending (map (λ r. r.product_id) catalog)
      × ((o : Observed) × (find_row product catalog ≡ some (row_of o))
          × (o.product_id ≡ product)
          × (0 < often o.category_id)
          × ((often category < often o.category_id)
              ⊎ ((often category ≡ often o.category_id) × (o.category_id ≤ℤ category))))
unfolding catalog_rows
catalog_rows-row_of rows product category seen =
    let t = (generate rows).table in
    let present = product_ids-Present t in
    let (o, first, same, counts, beats) = generate-top rows product category seen in
    let (stands, _, _) = subst (IsTop product t) first (top-IsTop product t) in
    let listed = subst (λ x. contains (product_ids t) x ≡ true) same (In-product_ids o t stands) in
    (
      subst Ascending (sym (rows_of-ids (product_ids t) t present)) (product_ids-Ascending t),
      (
        o,
        find-rows_of product (product_ids t) t o listed present first same,
        same,
        elim beats [ inl fewer ↦ omega (arith, counts) | inr (equal, _) ↦ omega (arith, counts) ],
        elim beats [
          | inl fewer ↦ inl (omega (arith, counts))
          | inr (equal, low) ↦ inr (omega (arith, counts), low)
        ],
      ),
    )
