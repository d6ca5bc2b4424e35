-- ===== src/Catalog/Counting.antt =====
-- What the table counts: each key of the file as often as it stands there, whatever the batches.
use kafka_flink_click_house.Base.{
  and_iff, ℕ, ◌+◌, ◌≡◌, refl, sym, ap, ◌∙◌, true, false, Bool, Bool-cases, Option, none, some, List,
  [], ◌∷◌, ◌++◌, map, Text, ◌==◌, nat_eq, int_eq, inl, inr, if◌then◌else◌, length, arith, ◌↔◌,
}
use kafka_flink_click_house.Base.Int.{int_beq_iff}
use kafka_flink_click_house.Replay.Reader.{iter_source_rows}
use kafka_flink_click_house.Catalog.{
  Pair, Observed, Generator, is_pair, upsert, group, upsert_all, flush_table, flush_pending,
  flush_full, count_row, count_rows, parse_catalog_key, generate, empty, batch_rows,
}

abbrev pub pair_of : Observed → Pair
pair_of o = (o.product_id, o.category_id)

pub is_pair_iff : (p q : Pair) → (is_pair p q ≡ true) ↔ (p ≡ q)
unfolding is_pair
is_pair_iff (a, b) (c, d) = (
  λ h.
      let (x, y) = (and_iff (a == c) (b == d)).0 h in
      λ i. ((int_beq_iff a c).0 x i, (int_beq_iff b d).0 y i),
  λ h. rw ((int_beq_iff a c).1 (ap (λ p. p.0) h), (int_beq_iff b d).1 (ap (λ p. p.1) h)) refl,
)

-- How often a key stands in a list, and what a table counts of it.
abbrev pub occurrences : Pair → List Pair → ℕ
occurrences p [] = 0
occurrences p (q ∷ qs) = (if is_pair p q then 1 else 0) + occurrences p qs

abbrev pub total : Pair → List Observed → ℕ
total p [] = 0
total p (o ∷ os) = (if is_pair p (pair_of o) then o.observations else 0) + total p os

abbrev weigh : Bool → ℕ → ℕ
weigh b n = if b then n else 0

added : (b : Bool) (m n r : ℕ) → weigh b (m + n) + r ≡ weigh b n + (weigh b m + r)
added true m n r = omega arith
added false m n r = omega arith

upsert-total :
    (q p : Pair) (n : ℕ) (t : List Observed)
    → total q (upsert p n t) ≡ weigh (is_pair q p) n + total q t
unfolding upsert
upsert-total q p n [] = refl
upsert-total q p n (o ∷ os) = elim (Bool-cases (is_pair p (pair_of o))) [
  | inl same ↦ rw same (
      added (is_pair q (pair_of o)) o.observations n (total q os)
      ∙ ap (λ x. weigh (is_pair q x) n + total q (o ∷ os))
          (sym ((is_pair_iff p (pair_of o)).0 same)))
  | inr other ↦ rw other (omega (arith, upsert-total q p n os))
]

group-total : (q : Pair) (ps : List Pair) → total q (group ps) ≡ occurrences q ps
unfolding group
group-total q [] = refl
group-total q (p ∷ ps) = omega (arith, upsert-total q p 1 (group ps), group-total q ps)

upsert_all-total :
    (q : Pair) (gs t : List Observed) → total q (upsert_all gs t) ≡ total q gs + total q t
upsert_all-total q [] t = omega arith
upsert_all-total q (g ∷ gs) t = omega (
  arith,
  upsert_all-total q gs (upsert (pair_of g) g.observations t),
  upsert-total q (pair_of g) g.observations t,
)

occurrences-append :
    (q : Pair) (ps rs : List Pair) → occurrences q (ps ++ rs) ≡ occurrences q ps + occurrences q rs
occurrences-append q [] rs = omega arith
occurrences-append q (p ∷ ps) rs = omega (arith, occurrences-append q ps rs)

flush_table-total :
    (q : Pair) (ps : List Pair) (table : List Observed)
    → total q (flush_table ps table) ≡ total q table + occurrences q ps
unfolding flush_table
flush_table-total q [] table = omega arith
flush_table-total q (p ∷ ps) table =
    omega (arith, upsert_all-total q (group (p ∷ ps)) table, group-total q (p ∷ ps))

-- What the generator has counted of a key, in the table and among the pending keys.
abbrev seen : Pair → Generator → ℕ
seen q g = total q g.table + occurrences q g.pending

flush_pending-seen : (q : Pair) (g : Generator) → total q (flush_pending g).table ≡ seen q g
unfolding flush_pending
flush_pending-seen q g = flush_table-total q g.pending g.table

flush_full-seen : (q : Pair) (g : Generator) → seen q (flush_full g) ≡ seen q g
unfolding flush_full flush_pending
flush_full-seen q g = elim (Bool-cases (length g.pending == batch_rows)) [
  | inl full ↦ rw full (omega (arith, flush_table-total q g.pending g.table))
  | inr room ↦ rw room refl
]

-- The key of a row, if it has one, in front of those of the rows behind it.
abbrev pub keep_key : Option Pair → List Pair → List Pair
keep_key none ps = ps
keep_key (some p) ps = p ∷ ps

abbrev pub keys : List (List Text) → List Pair
keys [] = []
keys (values ∷ rows) = keep_key (parse_catalog_key values) (keys rows)

count_row-seen :
    (q : Pair) (k : Option Pair) (g : Generator) (ps : List Pair)
    → seen q (count_row k g) + occurrences q ps ≡ seen q g + occurrences q (keep_key k ps)
unfolding count_row
count_row-seen q none g ps = refl
count_row-seen q (some p) g ps = omega (
  arith,
  flush_full-seen q (record g {
    source_rows = g.source_rows + 1;
    valid_source_rows = g.valid_source_rows + 1;
    pending = g.pending ++ (p ∷ []);
  }),
  occurrences-append q g.pending (p ∷ []),
)

count_rows-seen :
    (q : Pair) (rows : List (List Text)) (g : Generator)
    → total q (count_rows rows g).table ≡ seen q g + occurrences q (keys rows)
unfolding count_rows
count_rows-seen q [] g = omega (arith, flush_pending-seen q g)
count_rows-seen q (values ∷ rows) g = omega (
  arith,
  count_rows-seen q rows (count_row (parse_catalog_key values) g),
  count_row-seen q (parse_catalog_key values) g (keys rows),
)

-- The counts of some rows on top of others.
pub record Counted (before after : Generator) (rows valid : ℕ) : Type 0 where
  pub all_rows : after.source_rows ≡ before.source_rows + rows
  pub valid_rows : after.valid_source_rows ≡ before.valid_source_rows + valid
  pub split :
      after.valid_source_rows + after.rejected_source_rows + before.source_rows
      ≡ before.valid_source_rows + before.rejected_source_rows + after.source_rows

flush_full-Counted :
    (before g : Generator) (rows valid : ℕ)
    → Counted before g rows valid
    → Counted before (flush_full g) rows valid
unfolding flush_full flush_pending
flush_full-Counted before g rows valid h = elim (Bool-cases (length g.pending == batch_rows)) [
  | inl full ↦
      rw full (record { all_rows = h.all_rows; valid_rows = h.valid_rows; split = h.split })
  | inr room ↦ rw room h
]

count_row-Counted :
    (k : Option Pair) (g : Generator) → Counted g (count_row k g) 1 (length (keep_key k []))
unfolding count_row
count_row-Counted none g = record { all_rows = refl; valid_rows = omega arith; split = omega arith }
count_row-Counted (some p) g =
    flush_full-Counted g _ 1 1 (record { all_rows = refl; valid_rows = refl; split = omega arith })

length-keep_key :
    (k : Option Pair) (ps : List Pair) → length (keep_key k ps) ≡ length (keep_key k []) + length ps
length-keep_key none ps = omega arith
length-keep_key (some p) ps = omega arith

count_rows-Counted :
    (rows : List (List Text)) (g : Generator)
    → Counted g (count_rows rows g) (length rows) (length (keys rows))
unfolding count_rows flush_pending
count_rows-Counted [] g = record {
  all_rows = omega arith;
  valid_rows = omega arith;
  split = omega arith;
}
count_rows-Counted (values ∷ rows) g =
    let k = parse_catalog_key values in
    let first = count_row-Counted k g in
    let others = count_rows-Counted rows (count_row k g) in
    let kept = length-keep_key k (keys rows) in
    record {
      all_rows = omega (arith, first.all_rows, others.all_rows);
      valid_rows = omega (arith, first.valid_rows, others.valid_rows, kept);
      split = omega (arith, first.split, others.split);
    }

abbrev pub data_rows : List (List Text) → List (List Text)
data_rows rows = map (λ r. r.1) (iter_source_rows rows)

-- The table counts each pair of a product and a category as often as a valid data row of the file
-- has it, although rows are counted in batches. The manifest's counts are those of the data rows, of
-- the valid ones among them, and of the others.
pub generate-total :
    (rows : List (List Text)) (q : Pair)
    → (total q (generate rows).table ≡ occurrences q (keys (data_rows rows)))
      × ((generate rows).source_rows ≡ length (data_rows rows))
      × ((generate rows).valid_source_rows ≡ length (keys (data_rows rows)))
      × ((generate rows).valid_source_rows + (generate rows).rejected_source_rows
          ≡ (generate rows).source_rows)
unfolding generate
generate-total rows q =
    let counted = count_rows-Counted (data_rows rows) empty in
    (
      omega (arith, count_rows-seen q (data_rows rows) empty),
      omega (arith, counted.all_rows),
      omega (arith, counted.valid_rows),
      omega (arith, counted.split),
    )
