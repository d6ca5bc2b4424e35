-- ===== src/Verify/Sorting.antt =====
-- verify.py: the expected quality rows are sorted by their identifiers.
use mathlib.Core.List.{Perm}
use mathlib.Core.List.Perm
use kafka_flink_click_house.Base.{
  ◌≡◌, refl, true, false, Bool-cases, inl, inr, List, [], ◌∷◌, Text, nat_eq, list_eq, arith,
}
use kafka_flink_click_house.Json.{Json}
use kafka_flink_click_house.Verify.{text_ltb, insert_row, sort_rows}

-- No row is before the one in front of it.
abbrev pub IsSorted : List (Text × Json) → Type 0
IsSorted [] = Unit {0}
IsSorted (r ∷ []) = Unit {0}
IsSorted (r ∷ s ∷ rows) = (text_ltb s.0 r.0 ≡ false) × IsSorted (s ∷ rows)

text_ltb_asym : (s t : Text) → text_ltb s t ≡ true → text_ltb t s ≡ false
unfolding text_ltb
text_ltb_asym [] [] h = cc
text_ltb_asym [] (d ∷ t) h = refl
text_ltb_asym (c ∷ s) [] h = cc
text_ltb_asym (c ∷ s) (d ∷ t) h = ground (arith, text_ltb_asym s t)

insert_row-Perm :
    (r : Text × Json) (rows : List (Text × Json)) → Perm (insert_row r rows) (r ∷ rows)
unfolding insert_row
insert_row-Perm r [] = Perm.refl (r ∷ [])
insert_row-Perm r (s ∷ rows) = elim (Bool-cases (text_ltb s.0 r.0)) [
  | inl less ↦ rw less (Perm.trans (Perm.cons s (insert_row-Perm r rows)) (Perm.swap r s rows))
  | inr more ↦ rw more (Perm.refl _)
]

pub sort_rows-Perm : (rows : List (Text × Json)) → Perm (sort_rows rows) rows
unfolding sort_rows
sort_rows-Perm [] = Perm.refl []
sort_rows-Perm (r ∷ rows) =
    Perm.trans (insert_row-Perm r (sort_rows rows)) (Perm.cons r (sort_rows-Perm rows))

-- Behind a row that the inserted one is not before.
insert_row_under :
    (q r : Text × Json) (rows : List (Text × Json))
    → text_ltb r.0 q.0 ≡ false
    → IsSorted (q ∷ rows)
    → IsSorted (q ∷ insert_row r rows)
unfolding insert_row
insert_row_under q r [] h k = (h, tt)
insert_row_under q r (s ∷ rows) h k = elim (Bool-cases (text_ltb s.0 r.0)) [
  | inl less ↦ rw less (k.0, insert_row_under s r rows (text_ltb_asym s.0 r.0 less) k.1)
  | inr more ↦ rw more (h, (more, k.1))
]

insert_row-IsSorted :
    (r : Text × Json) (rows : List (Text × Json)) → IsSorted rows → IsSorted (insert_row r rows)
unfolding insert_row
insert_row-IsSorted r [] k = tt
insert_row-IsSorted r (s ∷ rows) k = elim (Bool-cases (text_ltb s.0 r.0)) [
  | inl less ↦ rw less (insert_row_under s r rows (text_ltb_asym s.0 r.0 less) k)
  | inr more ↦ rw more (more, k)
]

pub sort_rows-IsSorted : (rows : List (Text × Json)) → IsSorted (sort_rows rows)
unfolding sort_rows
sort_rows-IsSorted [] = tt
sort_rows-IsSorted (r ∷ rows) = insert_row-IsSorted r (sort_rows rows) (sort_rows-IsSorted rows)
