-- ===== src/Serving/Carts.antt =====
-- A cart that the materializer has written is read back whole, in the order of its products.
use mathlib.Core.List.{Perm}
use mathlib.Core.List.Perm
use kafka_flink_click_house.Base.{
  ◌≡◌, refl, ap, ◌∙◌, Bool-cases, List, [], ◌∷◌, map, Text, inl, inr, ℤ, ltb_ℤ, ◌≤ℤ◌, ◌≤◌, ok,
  arith, All, nat_eq,
}
use kafka_flink_click_house.Text.{int, str, split, max_str_digits}
use kafka_flink_click_house.Text.Decimal.{digits, int-str, IsApart, str-Free}
use kafka_flink_click_house.Text.Separated.{split-join}
use kafka_flink_click_house.Redis.{Redis}
use kafka_flink_click_house.Cart.{cart_key, cart_value, bar}
use kafka_flink_click_house.Serving.{CartItem, number, insert, sort, keyed, item_of, items_of, cart}

module _ {ℓ} {A : Type ℓ} (key : A → ℤ) where
  -- Each element is at most the next.
  abbrev pub IsSorted : List A → Type 0
  IsSorted [] = Unit
  IsSorted (a ∷ []) = Unit
  IsSorted (a ∷ b ∷ bs) = (key a ≤ℤ key b) × IsSorted (b ∷ bs)

  insert-Perm : (a : A) (bs : List A) → Perm (insert key a bs) (a ∷ bs)
  insert-Perm a [] = Perm.refl (a ∷ [])
  insert-Perm a (b ∷ bs) = elim (Bool-cases (ltb_ℤ (key b) (key a))) [
    | inl less ↦ rw less (Perm.trans (Perm.cons b (insert-Perm a bs)) (Perm.swap a b bs))
    | inr more ↦ rw more (Perm.refl _)
  ]

  sort-Perm : (bs : List A) → Perm (sort key bs) bs
  sort-Perm [] = Perm.refl []
  sort-Perm (b ∷ bs) = Perm.trans (insert-Perm b (sort key bs)) (Perm.cons b (sort-Perm bs))

  IsSorted-cons :
      (a b : A) (bs : List A) → key a ≤ℤ key b → IsSorted (b ∷ bs) → IsSorted (a ∷ b ∷ bs)
  IsSorted-cons a b bs h k = (h, k)

  -- Behind an element that is at most the one inserted.
  insert-IsSorted_under :
      (c a : A) (bs : List A) → key c ≤ℤ key a → IsSorted (c ∷ bs) → IsSorted (c ∷ insert key a bs)
  insert-IsSorted_under c a [] h k = (h, tt)
  insert-IsSorted_under c a (b ∷ bs) h k = elim (Bool-cases (ltb_ℤ (key b) (key a))) [
    | inl less ↦ rw less (k.0, insert-IsSorted_under b a bs (ground arith) k.1)
    | inr more ↦ rw more (h, (ground arith, k.1))
  ]

  insert-IsSorted : (a : A) (bs : List A) → IsSorted bs → IsSorted (insert key a bs)
  insert-IsSorted a [] k = tt
  insert-IsSorted a (b ∷ bs) k = elim (Bool-cases (ltb_ℤ (key b) (key a))) [
    | inl less ↦ rw less (insert-IsSorted_under b a bs (ground arith) k)
    | inr more ↦ rw more (ground arith, k)
  ]

  sort-IsSorted : (bs : List A) → IsSorted (sort key bs)
  sort-IsSorted [] = tt
  sort-IsSorted (b ∷ bs) = insert-IsSorted b (sort key bs) (sort-IsSorted bs)

-- To sort pictures by what their originals are sorted by.
module _ {A B : Type 0} (f : A → B) (key : B → ℤ) where
  insert-map :
      (a : A) (bs : List A) → insert key (f a) (map f bs) ≡ map f (insert (λ x. key (f x)) a bs)
  insert-map a [] = refl
  insert-map a (b ∷ bs) = elim (Bool-cases (ltb_ℤ (key (f b)) (key (f a)))) [
    | inl less ↦ rw less (ap (λ l. f b ∷ l) (insert-map a bs))
    | inr more ↦ rw more refl
  ]

  sort-map : (bs : List A) → sort key (map f bs) ≡ map f (sort (λ x. key (f x)) bs)
  sort-map [] = refl
  sort-map (b ∷ bs) = ap (insert key (f b)) (sort-map bs) ∙ insert-map b (sort (λ x. key (f x)) bs)

bar-IsApart : IsApart bar
bar-IsApart = (λ c h e. omega arith, λ e. omega arith)

-- Numbers that `int` reads: it refuses more than 4300 digits.
pub record IsReadable (i : CartItem) : Type 0 where
  pub product : digits i.product_id ≤ max_str_digits
  pub category : digits i.category_id ≤ max_str_digits
  pub added : digits i.added_at ≤ max_str_digits
  pub updated : digits i.last_updated_at ≤ max_str_digits

-- What the materializer writes of an item: its field and its value.
abbrev value_of : CartItem → Text
value_of i = cart_value i.category_id i.added_at i.last_updated_at

abbrev pub entry_of : CartItem → Text × Text
entry_of i = (str i.product_id, value_of i)

abbrev pair_of : CartItem → ℤ × Text
pair_of i = (i.product_id, value_of i)

split-value_of :
    (i : CartItem)
    → split bar (value_of i) ≡ str i.category_id ∷ str i.added_at ∷ str i.last_updated_at ∷ []
unfolding cart_value
split-value_of i =
    split-join bar (str i.category_id) (str i.added_at ∷ str i.last_updated_at ∷ [])
      (str-Free bar i.category_id bar-IsApart)
      (str-Free bar i.added_at bar-IsApart, (str-Free bar i.last_updated_at bar-IsApart, tt))

item_of-value_of :
    (i : CartItem) → IsReadable i → item_of i.product_id (map int (split bar (value_of i))) ≡ ok i
item_of-value_of i h =
    rw
      (
        split-value_of i,
        int-str i.category_id h.category,
        int-str i.added_at h.added,
        int-str i.last_updated_at h.updated,
      )
      refl

pub number-str : (z : ℤ) → digits z ≤ max_str_digits → number (str z) ≡ ok z
number-str z h = rw (int-str z h) refl

keyed-entries :
    (items : List CartItem)
    → All IsReadable items
    → keyed (map entry_of items) ≡ ok (map pair_of items)
unfolding keyed
keyed-entries [] h = refl
keyed-entries (i ∷ items) h = rw (number-str i.product_id h.0.product, keyed-entries items h.1) refl

items_of-pairs :
    (items : List CartItem) → All IsReadable items → items_of (map pair_of items) ≡ ok items
unfolding items_of
items_of-pairs [] h = refl
items_of-pairs (i ∷ items) h = rw (item_of-value_of i h.0, items_of-pairs items h.1) refl

abbrev by_product : CartItem → ℤ
by_product i = i.product_id

insert-All :
    (i : CartItem) (items : List CartItem)
    → IsReadable i
    → All IsReadable items
    → All IsReadable (insert by_product i items)
insert-All i [] h k = (h, k)
insert-All i (j ∷ items) h k = elim (Bool-cases (ltb_ℤ j.product_id i.product_id)) [
  | inl less ↦ rw less (k.0, insert-All i items h k.1)
  | inr more ↦ rw more (h, k)
]

sort-All : (items : List CartItem) → All IsReadable items → All IsReadable (sort by_product items)
sort-All [] h = h
sort-All (i ∷ items) h = insert-All i (sort by_product items) h.0 (sort-All items h.1)

-- If the hash of a user's cart holds the entries of some items as the materializer writes them, the
-- store returns just those items, sorted by product, with the time to live of the key. No number has
-- more than the 4300 digits that Python reads.
pub cart-entries :
    (R : Redis) (user_id : ℤ) (items : List CartItem) (s : R.State)
    → All IsReadable items
    → R.hgetall s (cart_key user_id) ≡ map entry_of items
    → (sorted : List CartItem) × (cart R user_id s
        ≡ ok (record {
          user_id = user_id;
          items = sorted;
          ttl_seconds = R.ttl s (cart_key user_id);
        }))
      × Perm sorted items
      × IsSorted (λ i. i.product_id) sorted
unfolding cart
cart-entries R user_id items s h e = (
  sort by_product items,
  rw
      (
        e,
        keyed-entries items h,
        sort-map pair_of (λ v. v.0) items,
        items_of-pairs (sort by_product items) (sort-All items h),
      )
      refl,
  sort-Perm by_product items,
  sort-IsSorted by_product items,
)
