-- ===== src/Redis.antt =====
-- The Redis commands that the materializers and the store call, over an unknown server, with what
-- the code relies on. `Memory` is a server that has the laws.
mod Message
pub mod Memory
unfoldable pub use Message.*
use kafka_flink_click_house.Base.{
  ◌≡◌, ◌≢◌, Bool, true, ◌&&◌, Option, none, some, ◌≤◌, ◌<◌, ℕ, ◌^◌, Text, ◌==◌, nat_eq, list_eq,
  leb, if◌then◌else◌, ℤ, pos, ◌≤ℤ◌,
}
use kafka_flink_click_house.Base.Dict
use kafka_flink_click_house.Base.Dict.{Dict}
use kafka_flink_click_house.Text.{str_nat}

pub record Redis : Type 1 where
  pub State : Type 0
  pub hget : State → Text → Text → Option Text
  pub hgetall : State → Text → Dict Text Text
  pub ttl : State → Text → ℤ
  pub hset : State → Text → Text → Text → State
  pub hdel : State → Text → Text → State
  pub expire : State → Text → ℤ → State

-- What the commands do, as documented. No key expires between two commands that follow each other.
pub record IsLawful (R : Redis) : Type 0 where
  pub hget-hset :
      (s : R.State) (k f v j g : Text)
      → R.hget (R.hset s k f v) j g ≡ (if j == k && g == f then some v else R.hget s j g)
  pub hget-hdel :
      (s : R.State) (k f j g : Text)
      → R.hget (R.hdel s k f) j g ≡ (if j == k && g == f then none else R.hget s j g)
  pub hget-expire :
      (s : R.State) (k : Text) (t : ℤ) (j g : Text)
      → pos 1 ≤ℤ t
      → R.hget (R.expire s k t) j g ≡ R.hget s j g
  pub ttl-expire :
      (s : R.State) (k : Text) (t : ℤ) (f : Text)
      → pos 1 ≤ℤ t
      → R.hget s k f ≢ none
      → R.ttl (R.expire s k t) k ≡ t
  pub get-hgetall : (s : R.State) (k f : Text) → Dict.get (R.hgetall s k) f ≡ R.hget s k f

-- Lua's `tonumber(a) >= tonumber(b)`, where `none` is the error of a comparison with `nil`. Lua's
-- numbers are doubles, which hold the whole numbers below 2^53 exactly.
pub record Lua : Type 0 where
  pub number_ge : Text → Text → Option Bool
  pub number_ge-str_nat :
      (m n : ℕ) → m < 2 ^ 53 → n < 2 ^ 53 → number_ge (str_nat m) (str_nat n) ≡ some (leb n m)
