-- ===== src/Consumer.antt =====
-- The loops of the two materializers, `main` in services/taobao_serving/redis_cart.py and in
-- services/taobao_serving/redis_features.py. They differ in what they do with a tombstone.
pub mod Runs
pub mod Progress
pub mod Startup
use kafka_flink_click_house.Base.{
  ℕ, ◌+◌, Bool, Option, none, some, Text, not, if◌then◌else◌, ℤ, pos, ltb_ℤ, Result, ok, err, ◌>>=◌,
  ◌>>◌, raise_if, or_raise,
}
use kafka_flink_click_house.Base.Dict.{Dict}
use kafka_flink_click_house.Text.{int}
use kafka_flink_click_house.Redis.{Json}

-- What `consumer.poll` brings: nothing, an error, or a message's offset and value.
pub data Polled : Type 0 where
  idle : Polled
  failed : Text → Polled
  received : ℕ → Option Text → Polled

-- What ends the loop.
pub data ConsumerError (E : Type 0) : Type 0 where
  consumer_failed : Text → ConsumerError E
  bad_json : ConsumerError E
  refused : E → ConsumerError E

pub data TtlError : Type 0 where
  bad_number not_positive : TtlError

-- The time to live of the environment, with its guard.
unfoldable pub read_ttl : Option Text → Text → Result TtlError ℤ
read_ttl setting default = do
  ttl_seconds ← or_raise (int (elim setting [ none ↦ default | some v ↦ v ])) bad_number
  raise_if (not (ltb_ℤ (pos 0) ttl_seconds)) not_positive
  ok ttl_seconds

-- The server, and the offset that the group has committed, the next one to read after a restart.
pub record Process (S : Type 0) : Type 0 where
  pub store : S
  pub committed : ℕ

-- `consumer.commit(message=message, asynchronous=False)`
unfoldable pub commit : {S : Type 0} → ℕ → Process S → Process S
commit offset p = record p { committed = offset + 1 }

-- The parameters are `json.loads`, where `none` is its error, and the function that the loop calls.
module _ (E S A : Type 0) (loads : Text → Option (Dict Text Json))
    (apply : Dict Text Json → S → Result E A × S) where
  abbrev pub applied : Result E A × S → Result (ConsumerError E) (Unit {0}) × S
  applied (ok _, s) = (ok tt, s)
  applied (err e, s) = (err (refused e), s)

  abbrev pub write_message : Option (Dict Text Json) → S → Result (ConsumerError E) (Unit {0}) × S
  write_message none s = (err bad_json, s)
  write_message (some message) s = applied (apply message s)

  -- `apply(redis_client, json.loads(message.value()), ttl_seconds)`
  unfoldable pub write : Text → S → Result (ConsumerError E) (Unit {0}) × S
  write value s = write_message (loads value) s

  abbrev pub then_commit :
      ℕ
      → Result (ConsumerError E) (Unit {0}) × S
      → Process S
      → Result (ConsumerError E) (Unit {0}) × Process S
  then_commit offset (ok _, s) p = (ok tt, commit offset (record p { store = s }))
  then_commit offset (err e, s) p = (err e, record p { store = s })

  -- One turn of `while True`.
  unfoldable pub iterate :
      Bool → Polled → Process S → Result (ConsumerError E) (Unit {0}) × Process S
  unfolding write commit
  iterate commits_tombstones idle p = (ok tt, p)
  iterate commits_tombstones (failed error) p = (err (consumer_failed error), p)
  iterate commits_tombstones (received offset none) p =
      (ok tt, if commits_tombstones then commit offset p else p)
  iterate commits_tombstones (received offset (some value)) p =
      then_commit offset (write value p.store) p
