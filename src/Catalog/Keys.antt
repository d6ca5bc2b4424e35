-- ===== src/Catalog/Keys.antt =====
-- The primary key of the table: no pair of a product and a category has two rows.
use kafka_flink_click_house.Base.{
  ℕ, ◌+◌, ◌<◌, ◌≡◌, ◌≢◌, refl, sym, ap, ◌∙◌, subst, false, Bool, Bool-cases, ◌⊎◌, inl, inr, Option,
  none, some, List, [], ◌∷◌, ◌++◌, Text, ◌==◌, nat_eq, int_eq, if◌then◌else◌, arith, All, length,
}
use kafka_flink_click_house.Catalog.{
  Pair, Observed, Generator, is_pair, upsert, upsert_all, group, flush_table, flush_pending,
  flush_full, count_row, count_rows, parse_catalog_key, batch_rows,
}
use kafka_flink_click_house.Catalog.Counting.{pair_of, is_pair_iff, total}

-- No row of the table has the key.
abbrev IsAbsent : Pair → List Observed → Type 0
IsAbsent p = All (λ o. pair_of o ≢ p)

-- The primary key of `product_categories`.
abbrev pub IsKeyed : List Observed → Type 0
IsKeyed [] = Unit
IsKeyed (o ∷ os) = IsAbsent (pair_of o) os × IsKeyed os

upsert-IsAbsent :
    (p q : Pair) (n : ℕ) (t : List Observed) → q ≢ p → IsAbsent p t → IsAbsent p (upsert q n t)
unfolding upsert
upsert-IsAbsent p q n [] d h = (d, tt)
upsert-IsAbsent p q n (o ∷ os) d h = elim (Bool-cases (is_pair q (pair_of o))) [
  | inl same ↦ rw same h
  | inr other ↦ rw other (h.0, upsert-IsAbsent p q n os d h.1)
]

differ : (p q : Pair) → is_pair p q ≡ false → p ≢ q
differ p q h e = ground (arith, is_pair_iff p q)

upsert-IsKeyed : (q : Pair) (n : ℕ) (t : List Observed) → IsKeyed t → IsKeyed (upsert q n t)
unfolding upsert
upsert-IsKeyed q n [] h = (tt, tt)
upsert-IsKeyed q n (o ∷ os) h = elim (Bool-cases (is_pair q (pair_of o))) [
  | inl same ↦ rw same h
  | inr other ↦ rw other (
    upsert-IsAbsent (pair_of o) q n os (differ q (pair_of o) other) h.0,
    upsert-IsKeyed q n os h.1,
  )
]

upsert_all-IsKeyed : (gs t : List Observed) → IsKeyed t → IsKeyed (upsert_all gs t)
upsert_all-IsKeyed [] t h = h
upsert_all-IsKeyed (g ∷ gs) t h =
    upsert_all-IsKeyed gs _ (upsert-IsKeyed (pair_of g) g.observations t h)

flush_table-IsKeyed : (ps : List Pair) (t : List Observed) → IsKeyed t → IsKeyed (flush_table ps t)
unfolding flush_table
flush_table-IsKeyed [] t h = h
flush_table-IsKeyed (p ∷ ps) t h = upsert_all-IsKeyed (group (p ∷ ps)) t h

flush_full-IsKeyed : (g : Generator) → IsKeyed g.table → IsKeyed (flush_full g).table
unfolding flush_full flush_pending
flush_full-IsKeyed g h = elim (Bool-cases (length g.pending == batch_rows)) [
  | inl full ↦ rw full (flush_table-IsKeyed g.pending g.table h)
  | inr room ↦ rw room h
]

count_row-IsKeyed :
    (k : Option Pair) (g : Generator) → IsKeyed g.table → IsKeyed (count_row k g).table
unfolding count_row
count_row-IsKeyed none g h = h
count_row-IsKeyed (some p) g h =
    flush_full-IsKeyed
      (record g {
        source_rows = g.source_rows + 1;
        valid_source_rows = g.valid_source_rows + 1;
        pending = g.pending ++ (p ∷ []);
      })
      h

pub count_rows-IsKeyed :
    (rows : List (List Text)) (g : Generator) → IsKeyed g.table → IsKeyed (count_rows rows g).table
unfolding count_rows flush_pending
count_rows-IsKeyed [] g h = flush_table-IsKeyed g.pending g.table h
count_rows-IsKeyed (values ∷ rows) g h =
    count_rows-IsKeyed rows _ (count_row-IsKeyed (parse_catalog_key values) g h)

-- A row stands in the table.
abbrev pub In : Observed → List Observed → Type 0
In o [] = ⊥
In o (q ∷ t) = (o ≡ q) ⊎ In o t

total-IsAbsent : (p : Pair) (t : List Observed) → IsAbsent p t → total p t ≡ 0
total-IsAbsent p [] h = refl
total-IsAbsent p (o ∷ os) h = elim (Bool-cases (is_pair p (pair_of o))) [
  | inl same ↦ absurd (h.0 (sym ((is_pair_iff p (pair_of o)).0 same)))
  | inr other ↦ rw other (omega (arith, total-IsAbsent p os h.1))
]

IsAbsent-In : (o : Observed) (p : Pair) (t : List Observed) → IsAbsent p t → In o t → pair_of o ≢ p
IsAbsent-In o p [] h i = absurd i
IsAbsent-In o p (q ∷ t) h (inl e) = λ k. h.0 (ap pair_of (sym e) ∙ k)
IsAbsent-In o p (q ∷ t) h (inr i) = IsAbsent-In o p t h.1 i

pub total-In :
    (o : Observed) (t : List Observed) → IsKeyed t → In o t → total (pair_of o) t ≡ o.observations
total-In o [] h i = absurd i
total-In o (q ∷ t) h (inl e) = rw ((is_pair_iff (pair_of o) (pair_of q)).1 (ap pair_of e)) (
    omega (
      arith,
      total-IsAbsent (pair_of o) t (subst (λ x. IsAbsent (pair_of x) t) (sym e) h.0),
      ap (λ x. x.observations) e,
    ))
total-In o (q ∷ t) h (inr i) = elim (Bool-cases (is_pair (pair_of o) (pair_of q))) [
  | inl same ↦
      absurd (IsAbsent-In o (pair_of q) t h.0 i ((is_pair_iff (pair_of o) (pair_of q)).0 same))
  | inr other ↦ rw other (omega (arith, total-In o t h.1 i))
]

behind : (b : Bool) (m n : ℕ) → b ≡ false → 0 < (if b then m else 0) + n → 0 < n
behind b m n e h = ground arith

-- A key that was counted has a row.
pub find :
    (p : Pair) (t : List Observed) → 0 < total p t → (o : Observed) × In o t × (pair_of o ≡ p)
find p [] h = absurd (omega arith)
find p (o ∷ t) h = elim (Bool-cases (is_pair p (pair_of o))) [
  | inl same ↦ (o, inl refl, sym ((is_pair_iff p (pair_of o)).0 same))
  | inr other ↦ let (q, i, e) = find p t (behind _ o.observations _ other h) in (q, inr i, e)
]
