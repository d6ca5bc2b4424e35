-- ===== src/Tests/Carts.antt =====
-- A cart of one item that is added and removed, by a materializer that stops once in between.
use kafka_flink_click_house.Base.{
  ◌≡◌, refl, none, some, Option, List, [], ◌∷◌, Text, codes, ◌==◌, nat_eq, list_eq, if◌then◌else◌,
  pos, arith,
}
use kafka_flink_click_house.Base.Dict.{Dict}
use kafka_flink_click_house.Text.{str, join}
use kafka_flink_click_house.Redis.{Json, num, text, int_field, str_of}
use kafka_flink_click_house.Redis.Memory.{memory, memory-IsLawful, empty, run_memory}
use kafka_flink_click_house.Consumer.{iterate, write}
use kafka_flink_click_house.Consumer.Runs.{System, starts, goes_on, handles, stops}
use kafka_flink_click_house.Cart.{CartError, apply_mutation, read_mutation, cart_key}
use kafka_flink_click_house.Cart.Latest.{last_value}
use kafka_flink_click_house.Cart.Restarts.{Reaches, Reaches-last_value}

abbrev added : Dict Text Json
added =
    (codes "operation", text (codes "UPSERT"))
    ∷ (codes "user_id", num (pos 7))
    ∷ (codes "item_id", num (pos 8))
    ∷ (codes "category_id", num (pos 9))
    ∷ (codes "added_at_ms", num (pos 10))
    ∷ (codes "last_updated_at_ms", num (pos 11))
    ∷ []

abbrev removed : Dict Text Json
removed =
    (codes "operation", text (codes "DELETE"))
    ∷ (codes "user_id", num (pos 7))
    ∷ (codes "item_id", num (pos 8))
    ∷ []

-- Two messages, in place of their JSON.
abbrev loads : Text → Option (Dict Text Json)
loads v = if v == codes "added" then some added else some removed

abbrev topic : List (Option Text)
topic = some (codes "added") ∷ []

abbrev key : Text
key = codes "taobao:active_cart:{7}"

-- Written, not committed, started again at offset 0, and handled again.
abbrev stopped : System memory.State
stopped = record {
  process = record {
    store =
        (write CartError memory.State (Unit {0}) loads (apply_mutation memory (pos 60))
          (codes "added") empty).1;
    committed = 0;
  };
  seen = [];
  rest = topic;
}

abbrev finished : System memory.State
finished = record {
  process = record {
    store =
        (write CartError memory.State (Unit {0}) loads (apply_mutation memory (pos 60))
          (codes "added") stopped.process.store).1;
    committed = 1;
  };
  seen = topic;
  rest = [];
}

finished-Reaches :
    Reaches memory memory-IsLawful (pos 60) (omega arith) loads empty key (codes "8") topic finished
unfolding write iterate apply_mutation read_mutation int_field str_of run_memory str
finished-Reaches =
    goes_on (goes_on starts (stops (codes "added") [] refl refl))
      (handles (some (codes "added")) [] refl refl)

item_added : memory.hget finished.process.store key (codes "8") ≡ some (codes "9|10|11")
unfolding write apply_mutation read_mutation int_field str_of run_memory str join cart_key
item_added = refl

Reaches-last_value_example :
    memory.hget finished.process.store key (codes "8") ≡ last_value loads topic key (codes "8") none
unfolding run_memory
Reaches-last_value_example =
    Reaches-last_value memory memory-IsLawful (pos 60) (omega arith) loads empty key (codes "8")
      topic finished finished-Reaches refl
