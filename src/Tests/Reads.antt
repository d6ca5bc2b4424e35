-- ===== src/Tests/Reads.antt =====
-- What the API reads of a server with one cart of two items, and of one with a feature snapshot.
use mathlib.Core.List.{Perm}
use kafka_flink_click_house.Base.{◌≡◌, refl, true, some, List, [], ◌∷◌, codes, pos, ok, arith}
use kafka_flink_click_house.Text.{str, join, int, split}
use kafka_flink_click_house.Redis.Memory.{memory, Server, run_memory}
use kafka_flink_click_house.Cart.{cart_key, cart_value}
use kafka_flink_click_house.Features.{Snapshot, hash_of}
use kafka_flink_click_house.Features.Snapshots.{key_of}
use kafka_flink_click_house.Serving.{CartItem, cart, features_route, found}
use kafka_flink_click_house.Serving.Carts.{IsSorted, cart-entries}
use kafka_flink_click_house.Serving.UserFeatures.{values_of, features_route-hash_of}

abbrev late_product : CartItem
late_product = record {
  product_id = pos 20;
  category_id = pos 3;
  added_at = pos 4;
  last_updated_at = pos 5;
}

abbrev early_product : CartItem
early_product = record {
  product_id = pos 8;
  category_id = pos 9;
  added_at = pos 10;
  last_updated_at = pos 11;
}

-- In the order of the texts, "20" comes in front of "8".
abbrev carts : Server
carts = record {
  hashes =
      (
        codes "taobao:active_cart:{7}",
        (codes "20", codes "3|4|5") ∷ (codes "8", codes "9|10|11") ∷ [],
      )
      ∷ [];
  times = (codes "taobao:active_cart:{7}", pos 60) ∷ [];
}

cart_test :
    cart memory (pos 7) carts
    ≡ ok (record {
      user_id = pos 7;
      items = early_product ∷ late_product ∷ [];
      ttl_seconds = pos 60;
    })
unfolding cart run_memory str int split
cart_test = refl

cart-entries_example :
    (sorted : List CartItem) × (cart memory (pos 7) carts
      ≡ ok (record {
        user_id = pos 7;
        items = sorted;
        ttl_seconds = memory.ttl carts (cart_key (pos 7));
      }))
    × Perm sorted (late_product ∷ early_product ∷ [])
    × IsSorted (λ i. i.product_id) sorted
unfolding run_memory str cart_key cart_value join
cart-entries_example =
    cart-entries memory (pos 7) (late_product ∷ early_product ∷ []) carts
      (
        record {
          product = omega arith;
          category = omega arith;
          added = omega arith;
          updated = omega arith;
        },
        (
          record {
            product = omega arith;
            category = omega arith;
            added = omega arith;
            updated = omega arith;
          },
          tt,
        ),
      )
      refl

abbrev snapshot : Snapshot
snapshot = record {
  user_id = pos 7;
  key = codes "taobao:features:user:{7}";
  version = pos 60000;
  feature_id = codes "a";
  window_start = codes "s";
  window_end = codes "e";
  counts = record {
    event_count = pos 3;
    pv_count = pos 2;
    cart_count = pos 1;
    fav_count = pos 0;
    buy_count = pos 0;
    distinct_items = pos 2;
  };
  ttl_seconds = pos 100;
}

abbrev users : Server
users = record {
  hashes = (codes "taobao:features:user:{7}", hash_of snapshot) ∷ [];
  times = (codes "taobao:features:user:{7}", pos 100) ∷ [];
}

features_route-hash_of_example :
    features_route memory (pos 7) users
    ≡ found (record {
      user_id = pos 7;
      available = true;
      features = some (values_of snapshot);
      ttl_seconds = memory.ttl users (key_of (pos 7));
    })
unfolding run_memory str
features_route-hash_of_example =
    features_route-hash_of memory (pos 7) snapshot users (omega arith)
      (record {
        version = omega arith;
        events = omega arith;
        pvs = omega arith;
        carts = omega arith;
        favs = omega arith;
        buys = omega arith;
        items = omega arith;
      })
      refl
