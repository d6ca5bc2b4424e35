-- ===== src/Verify/Gathering.antt =====
-- verify.py: `main`, which asks ClickHouse and Redis, and checks what they answer.
pub mod Passing
use kafka_flink_click_house.Base.{
  ℕ, Bool, true, false, Option, none, some, List, [], ◌∷◌, ◌++◌, Text, codes, ◌==◌, nat_eq, list_eq,
  if◌then◌else◌, length, ℤ, Result, ok, err,
}
use kafka_flink_click_house.Base.Dict.{Dict, put}
use kafka_flink_click_house.Base.Exec.{Exec, continue, ◌>>=◌, ◌>>◌, pure}
use kafka_flink_click_house.Json.{
  Json, string, object, array, Elements, no_elements, element, Members, no_members, member, find,
  set_member, null, boolean, number,
}
use kafka_flink_click_house.Accounting.{Accounting, reconcile_accounting}
use kafka_flink_click_house.Verify.{VerifyError, Expected, Gathered, judge}
use kafka_flink_click_house.Verify.Rows.{RunError, account, of_check, integerize}
use kafka_flink_click_house.Verify.Services.{Services, given, clickhouse, redis_hash_key}

abbrev pub raw_sql : Text
raw_sql =
    codes
      "SELECT event_id,user_id,item_id,category_id,behavior_type,toUnixTimestamp64Milli(event_time) event_time_ms,source_sequence FROM raw_behavior_events_canonical ORDER BY source_sequence"

abbrev pub raw_fields : List Text
raw_fields =
    codes "user_id"
    ∷ codes "item_id"
    ∷ codes "category_id"
    ∷ codes "event_time_ms"
    ∷ codes "source_sequence"
    ∷ []

abbrev pub metrics_sql : Text
metrics_sql =
    codes
      "SELECT toUnixTimestamp64Milli(window_start) window_start,item_id,source_category_id,pv_count,cart_count,fav_count,buy_count,unique_users FROM item_metrics_1m_canonical ORDER BY window_start,item_id,source_category_id"

abbrev pub metrics_fields : List Text
metrics_fields =
    codes "window_start"
    ∷ codes "item_id"
    ∷ codes "source_category_id"
    ∷ codes "pv_count"
    ∷ codes "cart_count"
    ∷ codes "fav_count"
    ∷ codes "buy_count"
    ∷ codes "unique_users"
    ∷ []

abbrev pub features_sql : Text
features_sql =
    codes
      "SELECT feature_id,toUnixTimestamp64Milli(window_start) window_start,toUnixTimestamp64Milli(window_end) window_end,user_id,event_count,pv_count,cart_count,fav_count,buy_count,distinct_items,feature_version FROM user_features_1m_canonical ORDER BY window_start,user_id"

abbrev pub features_fields : List Text
features_fields =
    codes "window_start"
    ∷ codes "window_end"
    ∷ codes "user_id"
    ∷ codes "event_count"
    ∷ codes "pv_count"
    ∷ codes "cart_count"
    ∷ codes "fav_count"
    ∷ codes "buy_count"
    ∷ codes "distinct_items"
    ∷ codes "feature_version"
    ∷ []

abbrev pub quality_sql : Text
quality_sql =
    codes
      "SELECT quality_event_id,quality_type,event_id,replay_run_id,source_sequence,reason_code FROM stream_quality_events_canonical WHERE replay_run_id IN ('golden-a','golden-b') ORDER BY quality_event_id"

abbrev pub catalog_sql : Text
catalog_sql =
    codes
      "SELECT product_id,category_id,product_name,toString(price) price,is_active,catalog_version FROM product_catalog_current_canonical ORDER BY product_id"

abbrev pub catalog_fields : List Text
catalog_fields = codes "product_id" ∷ codes "category_id" ∷ codes "catalog_version" ∷ []

abbrev pub elements_of_rows : List Members → Elements
elements_of_rows [] = no_elements
elements_of_rows (row ∷ rows) = element (object row) (elements_of_rows rows)

-- The rows, as a list of `dict`s.
abbrev pub rows_json : List Members → Json
rows_json rows = array (elements_of_rows rows)

-- What is read of a user, and the time to live.
abbrev pub Hashes : Type 0
Hashes = Members × Dict Text ℤ

-- The text around the user in a key.
abbrev pub cart_key_of : Text → Text
cart_key_of user = codes "taobao:active_cart:{" ++ (user ++ codes "}")

abbrev pub features_key_of : Text → Text
features_key_of user = codes "taobao:features:user:{" ++ (user ++ codes "}")

module _ {X S : Type 0} (services : Services X S) (environment : Text → Option Text) where
  -- `for user_id in …`, over the keys of an object.
  unfoldable pub read_hashes : (Text → Text) → Members → Hashes → Exec (RunError X) S Hashes
  unfolding redis_hash_key set_member put
  read_hashes key_of no_members hashes = pure hashes
  read_hashes key_of (member user value users) (fields, ttls) = do
    (hash, ttl) ← redis_hash_key services (key_of user)
    read_hashes key_of users (set_member fields user (object hash), put ttls user ttl)

  unfoldable pub rows_of : Text → List Text → Exec (RunError X) S (List Members)
  unfolding clickhouse integerize
  rows_of sql fields = do
    rows ← clickhouse services environment sql
    given (integerize services.truncated rows fields)

  -- With `--with-catalog`.
  unfoldable pub read_catalog : Bool → Exec (RunError X) S (Option Json)
  unfolding rows_of
  read_catalog false = pure none
  read_catalog true = do rows ← rows_of catalog_sql catalog_fields; pure (some (rows_json rows))

  module _ (sha256 : Text → Text) (fixture : List (List Text)) where
    unfoldable pub gather : Bool → Expected → Exec (RunError X) S Gathered
    unfolding rows_of read_hashes read_catalog account
    gather with_catalog expected = do
      raw ← rows_of raw_sql raw_fields
      metrics ← rows_of metrics_sql metrics_fields
      user_features ← rows_of features_sql features_fields
      quality ← rows_of quality_sql (codes "source_sequence" ∷ [])
      (carts, cart_ttls) ← read_hashes cart_key_of expected.redis_active_carts (no_members, [])
      (features, feature_ttls) ←
          read_hashes features_key_of expected.redis_user_features (no_members, [])
      accounting ← given (account sha256 fixture raw quality)
      catalog ← read_catalog with_catalog
      pure (record {
        accounting = accounting;
        canonical_raw = rows_json raw;
        metrics = rows_json metrics;
        user_features = rows_json user_features;
        quality = rows_json quality;
        redis_active_carts = carts;
        redis_user_features = features;
        cart_ttls = cart_ttls;
        feature_ttls = feature_ttls;
        product_catalog = catalog;
      })

    -- `main`, up to the writing of what it returns: the snapshot and the counts.
    unfoldable pub main :
        (Text → Text → Bool) → Bool → Bool → Json → Expected → Exec (RunError X) S Gathered
    unfolding gather judge
    main number_eq with_catalog snapshot_only catalog expected = do
      actual ← gather with_catalog expected
      given (of_check (judge number_eq environment snapshot_only catalog expected actual))
      pure actual
