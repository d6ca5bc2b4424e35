-- ===== src/Serving.antt =====
-- services/taobao_api/serving.py: the reads of Redis, and the routes of services/taobao_api/app.py
-- that they answer.
pub mod Carts
pub mod UserFeatures
use kafka_flink_click_house.Base.{
  Bool, true, false, not, Option, none, some, List, [], ◌∷◌, map, Text, codes, contains, nat_eq,
  list_eq, if◌then◌else◌, ℤ, pos, ltb_ℤ, Result, ok, err, ◌>>=◌, or_raise,
}
use kafka_flink_click_house.Base.Dict.{Dict}
use kafka_flink_click_house.Text.{int, split}
use kafka_flink_click_house.Redis.{Redis}
use kafka_flink_click_house.Features.{SnapshotError, feature_key}
use kafka_flink_click_house.Cart.{cart_key, bar}

-- The one exception of the reads, `ValueError`.
pub data ServingError : Type 0 where
  value_error : ServingError

-- `sorted(…, key=…)`: an element goes in front of those that are not smaller.
module _ {ℓ} {A : Type ℓ} (key : A → ℤ) where
  abbrev pub insert : A → List A → List A
  insert a [] = a ∷ []
  insert a (b ∷ bs) =
      let behind = insert a bs in if ltb_ℤ (key b) (key a) then b ∷ behind else a ∷ b ∷ bs

  abbrev pub sort : List A → List A
  sort [] = []
  sort (a ∷ rest) = insert a (sort rest)

pub record CartItem : Type 0 where
  pub product_id : ℤ
  pub category_id : ℤ
  pub added_at : ℤ
  pub last_updated_at : ℤ

pub record CartView : Type 0 where
  pub user_id : ℤ
  pub items : List CartItem
  pub ttl_seconds : ℤ

abbrev pub number : Text → Result ServingError ℤ
number s = or_raise (int s) value_error

-- The keys of the sort, beside the values.
unfoldable pub keyed : Dict Text Text → Result ServingError (List (ℤ × Text))
keyed [] = ok []
keyed ((item_id, value) ∷ values) = do
  id ← number item_id
  rest ← keyed values
  ok ((id, value) ∷ rest)

-- The assignment to three names, of the numbers between the bars.
abbrev pub item_of : ℤ → List (Option ℤ) → Result ServingError CartItem
item_of id (some category ∷ some added ∷ some updated ∷ []) = ok (record {
  product_id = id;
  category_id = category;
  added_at = added;
  last_updated_at = updated;
})
item_of id _ = err value_error

-- `for item_id, value in sorted(…)`
unfoldable pub items_of : List (ℤ × Text) → Result ServingError (List CartItem)
items_of [] = ok []
items_of ((id, value) ∷ values) = do
  item ← item_of id (map int (split bar value))
  rest ← items_of values
  ok (item ∷ rest)

-- The fields of a feature snapshot that are numbers.
abbrev pub integer_fields : List Text
integer_fields =
    codes "feature_version"
    ∷ codes "event_count"
    ∷ codes "pv_count"
    ∷ codes "cart_count"
    ∷ codes "fav_count"
    ∷ codes "buy_count"
    ∷ codes "distinct_items"
    ∷ []

pub data FeatureValue : Type 0 where
  a_number : ℤ → FeatureValue
  a_text : Text → FeatureValue

-- `int(value) if field in integer_fields else value`
unfoldable pub normalized_value : Text → Text → Result ServingError FeatureValue
normalized_value field value =
    if contains integer_fields field
    then (do z ← number value; ok (a_number z))
    else ok (a_text value)

unfoldable pub normalized : Dict Text Text → Result ServingError (Dict Text FeatureValue)
unfolding normalized_value
normalized [] = ok []
normalized ((field, value) ∷ values) = do
  v ← normalized_value field value
  rest ← normalized values
  ok ((field, v) ∷ rest)

pub record FeaturesView : Type 0 where
  pub user_id : ℤ
  pub available : Bool
  pub features : Option (Dict Text FeatureValue)
  pub ttl_seconds : ℤ

-- The view of the values of a key with their time to live.
unfoldable pub features_view : ℤ → ℤ → Dict Text Text → Result ServingError FeaturesView
unfolding normalized
features_view user_id ttl [] =
    ok (record { user_id = user_id; available = false; features = none; ttl_seconds = ttl })
features_view user_id ttl (first ∷ values) = do
  fields ← normalized (first ∷ values)
  ok (record { user_id = user_id; available = true; features = some fields; ttl_seconds = ttl })

-- What a read route answers: 422, 200 with the view, or 500.
pub data Answer {ℓ} (A : Type ℓ) : Type ℓ where
  unprocessable : Answer A
  found : A → Answer A
  server_error : Answer A

abbrev pub answer {ℓ} : {A : Type ℓ} → Result ServingError A → Answer A
answer (ok view) = found view
answer (err e) = server_error

-- The `ValueError` of `feature_key`.
abbrev pub key_or_raise : Result SnapshotError Text → Result ServingError Text
key_or_raise (ok key) = ok key
key_or_raise (err e) = err value_error

module _ (R : Redis) where
  unfoldable pub cart : ℤ → R.State → Result ServingError CartView
  unfolding keyed items_of cart_key
  cart user_id s = do
    values ← keyed (R.hgetall s (cart_key user_id))
    items ← items_of (sort (λ v. v.0) values)
    ok (record { user_id = user_id; items = items; ttl_seconds = R.ttl s (cart_key user_id) })

  unfoldable pub features : ℤ → R.State → Result ServingError FeaturesView
  unfolding features_view feature_key
  features user_id s = do
    key ← key_or_raise (feature_key user_id)
    features_view user_id (R.ttl s key) (R.hgetall s key)

  -- The routes `GET /v1/users/{user_id}/cart` and `GET /v1/users/{user_id}/features`.
  unfoldable pub cart_route : ℤ → R.State → Answer CartView
  unfolding cart
  cart_route user_id s =
      if not (ltb_ℤ (pos 0) user_id) then unprocessable else answer (cart user_id s)

  unfoldable pub features_route : ℤ → R.State → Answer FeaturesView
  unfolding features
  features_route user_id s =
      if not (ltb_ℤ (pos 0) user_id) then unprocessable else answer (features user_id s)
