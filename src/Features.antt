-- ===== src/Features.antt =====
-- services/taobao_serving/redis_features.py: the newest feature snapshot of each user, in Redis.
pub mod Snapshots
pub mod Cells
pub mod Convergence
pub mod Topic
pub mod Restarts
use kafka_flink_click_house.Base.{
  ◌≡◌, refl, true, false, not, ◌||◌, Bool, Option, none, some, List, [], ◌∷◌, ◌++◌, Text, codes,
  ◌==◌, int_eq, if◌then◌else◌, ℤ, pos, ltb_ℤ, ◌+ℤ◌, Result, ok, err, ◌>>=◌, ◌>>◌, raise_if,
}
use kafka_flink_click_house.Base.Dict.{Dict}
use kafka_flink_click_house.Text.{str, strip}
use kafka_flink_click_house.Redis.{Redis, Lua, Json, FieldError, field, int_field, str_of}

-- The exceptions of `apply_feature_snapshot`.
pub data SnapshotError : Type 0 where
  bad_ttl bad_version blank_feature_id negative_counts wrong_total too_many_items : SnapshotError
  bad_user_id : SnapshotError
  bad_field : FieldError → SnapshotError
  script_error : SnapshotError

abbrev pub checked {ℓ} : {A : Type ℓ} → Result FieldError A → Result SnapshotError A
checked (ok a) = ok a
checked (err e) = err (bad_field e)

-- `feature_key`
unfoldable pub feature_key : ℤ → Result SnapshotError Text
feature_key user_id = do
  raise_if (not (ltb_ℤ (pos 0) user_id)) bad_user_id
  ok (codes "taobao:features:user:{" ++ (str user_id ++ codes "}"))

pub record Counts : Type 0 where
  pub event_count : ℤ
  pub pv_count : ℤ
  pub cart_count : ℤ
  pub fav_count : ℤ
  pub buy_count : ℤ
  pub distinct_items : ℤ

-- `{field: int(snapshot[field]) for field in _COUNT_FIELDS}`
unfoldable pub read_counts : Dict Text Json → Result FieldError Counts
read_counts snapshot = do
  event_count ← int_field snapshot (codes "event_count")
  pv_count ← int_field snapshot (codes "pv_count")
  cart_count ← int_field snapshot (codes "cart_count")
  fav_count ← int_field snapshot (codes "fav_count")
  buy_count ← int_field snapshot (codes "buy_count")
  distinct_items ← int_field snapshot (codes "distinct_items")
  ok (record {
    event_count = event_count;
    pv_count = pv_count;
    cart_count = cart_count;
    fav_count = fav_count;
    buy_count = buy_count;
    distinct_items = distinct_items;
  })

abbrev pub any_negative : Counts → Bool
any_negative c =
    ltb_ℤ c.event_count (pos 0)
    || ltb_ℤ c.pv_count (pos 0)
    || ltb_ℤ c.cart_count (pos 0)
    || ltb_ℤ c.fav_count (pos 0)
    || ltb_ℤ c.buy_count (pos 0)
    || ltb_ℤ c.distinct_items (pos 0)

abbrev pub behavior_total : Counts → ℤ
behavior_total c = c.pv_count +ℤ c.cart_count +ℤ c.fav_count +ℤ c.buy_count

-- The three guards on the counts.
unfoldable pub check_counts : Counts → Result SnapshotError (Unit {0})
check_counts counts = do
  raise_if (any_negative counts) negative_counts
  raise_if (not (counts.event_count == behavior_total counts)) wrong_total
  raise_if (ltb_ℤ counts.event_count counts.distinct_items) too_many_items

abbrev pub blank : Text → Bool
blank [] = true
blank (c ∷ s) = false

-- The arguments of the script.
pub record Snapshot : Type 0 where
  pub user_id : ℤ
  pub key : Text
  pub version : ℤ
  pub feature_id : Text
  pub window_start : Text
  pub window_end : Text
  pub counts : Counts
  pub ttl_seconds : ℤ

-- `apply_feature_snapshot` up to the call of the script.
unfoldable pub prepare : Dict Text Json → ℤ → Result SnapshotError Snapshot
prepare snapshot ttl_seconds = do
  raise_if (not (ltb_ℤ (pos 0) ttl_seconds)) bad_ttl
  user_id ← checked (int_field snapshot (codes "user_id"))
  version ← checked (int_field snapshot (codes "feature_version"))
  raise_if (not (ltb_ℤ (pos 0) version)) bad_version
  id_value ← checked (field snapshot (codes "feature_id"))
  let feature_id = strip (str_of id_value)
  raise_if (blank feature_id) blank_feature_id
  counts ← checked (read_counts snapshot)
  check_counts counts
  key ← feature_key user_id
  window_start ← checked (field snapshot (codes "window_start"))
  window_end ← checked (field snapshot (codes "window_end"))
  ok (record {
    user_id = user_id;
    key = key;
    version = version;
    feature_id = feature_id;
    window_start = str_of window_start;
    window_end = str_of window_end;
    counts = counts;
    ttl_seconds = ttl_seconds;
  })

-- The fields and values of the script's HSET, the numbers as the client sends them.
unfoldable pub hash_of : Snapshot → Dict Text Text
hash_of p =
    (codes "feature_version", str p.version)
    ∷ (codes "feature_id", p.feature_id)
    ∷ (codes "window_start", p.window_start)
    ∷ (codes "window_end", p.window_end)
    ∷ (codes "event_count", str p.counts.event_count)
    ∷ (codes "pv_count", str p.counts.pv_count)
    ∷ (codes "cart_count", str p.counts.cart_count)
    ∷ (codes "fav_count", str p.counts.fav_count)
    ∷ (codes "buy_count", str p.counts.buy_count)
    ∷ (codes "distinct_items", str p.counts.distinct_items)
    ∷ []

module _ (R : Redis) where
  -- HSET of several fields sets one behind the other.
  unfoldable pub hset_all : R.State → Text → Dict Text Text → R.State
  hset_all s key [] = s
  hset_all s key ((f, v) ∷ d) = hset_all (R.hset s key f v) key d

  -- The branch of the script that writes.
  unfoldable pub write_snapshot : Snapshot → R.State → R.State
  unfolding hset_all hash_of
  write_snapshot p s = R.expire (hset_all s p.key (hash_of p)) p.key p.ttl_seconds

module _ (R : Redis) (L : Lua) where
  -- The test `current and tonumber(current) >= tonumber(ARGV[1])`, where `none` is its error.
  unfoldable pub is_current : Option Text → Text → Option Bool
  is_current none version = some false
  is_current (some current) version = L.number_ge current version

  -- The two ways in which the script returns, and its error.
  unfoldable pub finish : Option Bool → Snapshot → R.State → Result SnapshotError Bool × R.State
  unfolding write_snapshot
  finish none p s = (err script_error, s)
  finish (some true) p s = (ok false, s)
  finish (some false) p s = (ok true, write_snapshot R p s)

  -- `_APPLY_FEATURE`
  unfoldable pub apply_feature : Snapshot → R.State → Result SnapshotError Bool × R.State
  unfolding is_current finish
  apply_feature p s =
      finish (is_current (R.hget s p.key (codes "feature_version")) (str p.version)) p s

  unfoldable pub apply_prepared :
      Result SnapshotError Snapshot → R.State → Result SnapshotError Bool × R.State
  unfolding apply_feature
  apply_prepared (err e) s = (err e, s)
  apply_prepared (ok p) s = apply_feature p s

  unfoldable pub apply_feature_snapshot :
      Dict Text Json → ℤ → R.State → Result SnapshotError Bool × R.State
  unfolding apply_prepared
  apply_feature_snapshot snapshot ttl_seconds s = apply_prepared (prepare snapshot ttl_seconds) s
