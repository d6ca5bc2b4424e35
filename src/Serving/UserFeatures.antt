-- ===== src/Serving/UserFeatures.antt =====
-- The features that the materializer has written are read back as the numbers and texts they were.
use kafka_flink_click_house.Base.{
  ◌≡◌, refl, ap, ◌∙◌, not, if◌then◌else◌, true, some, [], ◌∷◌, Text, codes, ℤ, pos, ◌≤ℤ◌, ◌≤◌, ok,
  arith, ltb_ℤ, nat_eq, list_eq, int_eq,
}
use kafka_flink_click_house.Base.Dict.{Dict}
use kafka_flink_click_house.Text.{max_str_digits}
use kafka_flink_click_house.Text.Decimal.{digits}
use kafka_flink_click_house.Redis.{Redis}
use kafka_flink_click_house.Features.{Snapshot, hash_of, feature_key}
use kafka_flink_click_house.Features.Snapshots.{key_of}
use kafka_flink_click_house.Serving.{
  FeatureValue, a_number, a_text, normalized, features_view, features, features_route, found,
  unprocessable, answer,
}
use kafka_flink_click_house.Serving.Carts.{number-str}

-- Numbers that `int` reads: it refuses more than 4300 digits.
pub record IsReadable (p : Snapshot) : Type 0 where
  pub version : digits p.version ≤ max_str_digits
  pub events : digits p.counts.event_count ≤ max_str_digits
  pub pvs : digits p.counts.pv_count ≤ max_str_digits
  pub carts : digits p.counts.cart_count ≤ max_str_digits
  pub favs : digits p.counts.fav_count ≤ max_str_digits
  pub buys : digits p.counts.buy_count ≤ max_str_digits
  pub items : digits p.counts.distinct_items ≤ max_str_digits

-- The fields of a snapshot as a caller of the API is to see them.
abbrev pub values_of : Snapshot → Dict Text FeatureValue
values_of p =
    (codes "feature_version", a_number p.version)
    ∷ (codes "feature_id", a_text p.feature_id)
    ∷ (codes "window_start", a_text p.window_start)
    ∷ (codes "window_end", a_text p.window_end)
    ∷ (codes "event_count", a_number p.counts.event_count)
    ∷ (codes "pv_count", a_number p.counts.pv_count)
    ∷ (codes "cart_count", a_number p.counts.cart_count)
    ∷ (codes "fav_count", a_number p.counts.fav_count)
    ∷ (codes "buy_count", a_number p.counts.buy_count)
    ∷ (codes "distinct_items", a_number p.counts.distinct_items)
    ∷ []

normalized-hash_of : (p : Snapshot) → IsReadable p → normalized (hash_of p) ≡ ok (values_of p)
unfolding normalized hash_of
normalized-hash_of p h =
    rw
      (
        number-str p.version h.version,
        number-str p.counts.event_count h.events,
        number-str p.counts.pv_count h.pvs,
        number-str p.counts.cart_count h.carts,
        number-str p.counts.fav_count h.favs,
        number-str p.counts.buy_count h.buys,
        number-str p.counts.distinct_items h.items,
      )
      refl

feature_key-key_of : (user_id : ℤ) → pos 1 ≤ℤ user_id → feature_key user_id ≡ ok (key_of user_id)
unfolding feature_key
feature_key-key_of user_id h = ground arith

features_view-hash_of :
    (user_id ttl : ℤ) (p : Snapshot)
    → IsReadable p
    → features_view user_id ttl (hash_of p)
      ≡ ok (record {
        user_id = user_id;
        available = true;
        features = some (values_of p);
        ttl_seconds = ttl;
      })
unfolding features_view hash_of
features_view-hash_of user_id ttl p k = rw (normalized-hash_of p k) refl

features-hash_of :
    (R : Redis) (user_id : ℤ) (p : Snapshot) (s : R.State)
    → pos 1 ≤ℤ user_id
    → IsReadable p
    → R.hgetall s (key_of user_id) ≡ hash_of p
    → features R user_id s
      ≡ ok (record {
        user_id = user_id;
        available = true;
        features = some (values_of p);
        ttl_seconds = R.ttl s (key_of user_id);
      })
unfolding features
features-hash_of R user_id p s h k e =
    rw (feature_key-key_of user_id h, e)
      (features_view-hash_of user_id (R.ttl s (key_of user_id)) p k)

positive : (z : ℤ) → pos 1 ≤ℤ z → ltb_ℤ (pos 0) z ≡ true
positive z h = ground arith

-- Let a user's number be positive, and no number of a snapshot longer than the 4300 digits that
-- Python reads. If the key of the user holds the ten fields of a snapshot as the script writes them, the route
-- answers 200 with them, the seven numbers as numbers, and with the time to live of the key.
pub features_route-hash_of :
    (R : Redis) (user_id : ℤ) (p : Snapshot) (s : R.State)
    → pos 1 ≤ℤ user_id
    → IsReadable p
    → R.hgetall s (key_of user_id) ≡ hash_of p
    → features_route R user_id s
      ≡ found (record {
        user_id = user_id;
        available = true;
        features = some (values_of p);
        ttl_seconds = R.ttl s (key_of user_id);
      })
unfolding features_route
features_route-hash_of R user_id p s h k e =
    ap (λ b. if not b then unprocessable else answer (features R user_id s)) (positive user_id h)
    ∙ ap answer (features-hash_of R user_id p s h k e)
