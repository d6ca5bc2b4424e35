-- ===== src/Cart.antt =====
-- services/taobao_serving/redis_cart.py: the cart mutations of the compacted topic, in Redis.
pub mod Latest
pub mod Restarts
use kafka_flink_click_house.Base.{
  ℕ, false, Bool, Option, List, [], ◌∷◌, ◌++◌, Text, codes, ◌==◌, nat_eq, list_eq, if◌then◌else◌, ℤ,
  Result, ok, err, ◌>>=◌,
}
use kafka_flink_click_house.Base.Dict.{Dict}
use kafka_flink_click_house.Text.{str, join}
use kafka_flink_click_house.Redis.{Redis, Json, FieldError, field, int_field, str_of}

-- The exceptions of `apply_mutation`.
pub data CartError : Type 0 where
  bad_operation : Text → CartError
  bad_field : FieldError → CartError

abbrev pub checked {ℓ} : {A : Type ℓ} → Result FieldError A → Result CartError A
checked (ok a) = ok a
checked (err e) = err (bad_field e)

-- The key of a user's cart, and the value of an item in it.
unfoldable pub cart_key : ℤ → Text
cart_key user_id = codes "taobao:active_cart:{" ++ (str user_id ++ codes "}")

-- The separator `"|"`.
abbrev pub bar : ℕ
bar = 0x7c

unfoldable pub cart_value : ℤ → ℤ → ℤ → Text
cart_value category_id added_at_ms last_updated_at_ms =
    join bar (str category_id ∷ str added_at_ms ∷ str last_updated_at_ms ∷ [])

-- The writes of a mutation: a key, a field and a value, or a key and a field.
pub data Mutation : Type 0 where
  upsert : Text → Text → Text → Mutation
  delete : Text → Text → Mutation

-- The branch of "UPSERT" up to its writes.
unfoldable pub read_upsert : Dict Text Json → Text → Text → Result CartError Mutation
unfolding cart_value
read_upsert mutation key item = do
  category_id ← checked (int_field mutation (codes "category_id"))
  added_at_ms ← checked (int_field mutation (codes "added_at_ms"))
  last_updated_at_ms ← checked (int_field mutation (codes "last_updated_at_ms"))
  ok (upsert key item (cart_value category_id added_at_ms last_updated_at_ms))

-- `apply_mutation` up to its writes.
unfoldable pub read_mutation : Dict Text Json → Result CartError Mutation
unfolding read_upsert cart_key
read_mutation mutation = do
  operation ← checked (field mutation (codes "operation"))
  user_id ← checked (int_field mutation (codes "user_id"))
  item_id ← checked (int_field mutation (codes "item_id"))
  let key = cart_key user_id
  if str_of operation == codes "UPSERT"
      then read_upsert mutation key (str item_id)
      else if str_of operation == codes "DELETE"
      then ok (delete key (str item_id))
      else err (bad_operation (str_of operation))

module _ (R : Redis) (ttl_seconds : ℤ) where
  -- The calls of Redis.
  unfoldable pub perform : Mutation → R.State → R.State
  perform (upsert key item value) s = R.expire (R.hset s key item value) key ttl_seconds
  perform (delete key item) s = R.hdel s key item

  abbrev pub perform_read :
      Result CartError Mutation → R.State → Result CartError (Unit {0}) × R.State
  perform_read (ok m) s = (ok tt, perform m s)
  perform_read (err e) s = (err e, s)

  unfoldable pub apply_mutation : Dict Text Json → R.State → Result CartError (Unit {0}) × R.State
  unfolding perform
  apply_mutation mutation s = perform_read (read_mutation mutation) s
