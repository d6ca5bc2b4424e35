-- ===== src/Cart/Latest.antt =====
-- A cart in Redis holds the last value of each item, whenever the materializer has caught up, however
-- often it was stopped and started again on the way.
use kafka_flink_click_house.Base.{
  ℕ, ◌≡◌, refl, ap, ◌∙◌, false, ◌&&◌, Bool, Bool-cases, Option, none, some, List, [], ◌∷◌, ◌++◌,
  ◌⊎◌, inl, inr, Text, ◌==◌, nat_eq, list_eq, if◌then◌else◌, ℤ, pos, ◌≤ℤ◌, Result, ok, err,
}
use kafka_flink_click_house.Base.Dict.{Dict}
use kafka_flink_click_house.Redis.{Redis, IsLawful, Json}
use kafka_flink_click_house.Consumer.{
  Process, ConsumerError, applied, write, write_message, then_commit, iterate, received, commit,
}
use kafka_flink_click_house.Cart.{
  CartError, Mutation, upsert, delete, read_mutation, perform, perform_read, apply_mutation,
}

-- The specification of a mutation: the field that it sets or removes, and what stands there then.
abbrev pub is_field : Mutation → Text → Text → Bool
is_field (upsert key item value) j g = j == key && g == item
is_field (delete key item) j g = j == key && g == item

abbrev pub value_of : Mutation → Option Text
value_of (upsert key item value) = some value
value_of (delete key item) = none

abbrev pub updated : Option Mutation → Text → Text → Option Text → Option Text
updated none j g old = old
updated (some m) j g old = if is_field m j g then value_of m else old

-- The mutation of a message, if it has one.
abbrev pub accepted : Result CartError Mutation → Option Mutation
accepted (ok m) = some m
accepted (err e) = none

abbrev pub mutation_in : Option (Dict Text Json) → Option Mutation
mutation_in none = none
mutation_in (some message) = accepted (read_mutation message)

module _ (loads : Text → Option (Dict Text Json)) where
  abbrev pub mutation_of : Option Text → Option Mutation
  mutation_of none = none
  mutation_of (some value) = mutation_in (loads value)

  -- The specification of a topic: what a field holds behind its messages, each applied once.
  abbrev pub last_value : List (Option Text) → Text → Text → Option Text → Option Text
  last_value [] j g old = old
  last_value (message ∷ topic) j g old =
      last_value topic j g (updated (mutation_of message) j g old)

  pub last_value-append :
      (xs ys : List (Option Text)) (j g : Text) (old : Option Text)
      → last_value (xs ++ ys) j g old ≡ last_value ys j g (last_value xs j g old)
  last_value-append [] ys j g old = refl
  last_value-append (x ∷ xs) ys j g old = last_value-append xs ys j g _

-- A mutation sets a field whatever stands there, or leaves it.
pub updated-cases :
    (m : Option Mutation) (j g : Text)
    → ((v : Option Text) → updated m j g v ≡ v)
      ⊎ ((v w : Option Text) → updated m j g v ≡ updated m j g w)
updated-cases none j g = inl (λ v. refl)
updated-cases (some m) j g = elim (Bool-cases (is_field m j g)) [
  | inl hit ↦ inr (λ v w. rw hit refl)
  | inr miss ↦ inl (λ v. rw miss refl)
]

module _ (R : Redis) (laws : IsLawful R) (ttl_seconds : ℤ) (lives : pos 1 ≤ℤ ttl_seconds) where
  pub perform-updated :
      (m : Mutation) (s : R.State) (j g : Text)
      → R.hget (perform R ttl_seconds m s) j g ≡ updated (some m) j g (R.hget s j g)
  unfolding perform
  perform-updated (upsert key item value) s j g =
      laws.hget-expire (R.hset s key item value) key ttl_seconds j g lives
      ∙ laws.hget-hset s key item value j g
  perform-updated (delete key item) s j g = laws.hget-hdel s key item j g

  module _ (loads : Text → Option (Dict Text Json)) where
    perform_read-updated :
        (r : Result CartError Mutation) (s : R.State) (j g : Text)
        → R.hget
            (applied CartError R.State
              (Unit {0})
              loads
              (apply_mutation R ttl_seconds)
              (perform_read R ttl_seconds r s)).1
            j
            g
          ≡ updated (accepted r) j g (R.hget s j g)
    perform_read-updated (ok m) s j g = perform-updated m s j g
    perform_read-updated (err e) s j g = refl

    abbrev written : Text → R.State → Result (ConsumerError CartError) (Unit {0}) × R.State
    written = write CartError R.State (Unit {0}) loads (apply_mutation R ttl_seconds)

    write_message-updated :
        (o : Option (Dict Text Json)) (s : R.State) (j g : Text)
        → R.hget
            (write_message CartError R.State (Unit {0}) loads (apply_mutation R ttl_seconds) o s).1
            j
            g
          ≡ updated (mutation_in o) j g (R.hget s j g)
    unfolding apply_mutation
    write_message-updated none s j g = refl
    write_message-updated (some message) s j g = perform_read-updated (read_mutation message) s j g

    pub write-updated :
        (value : Text) (s : R.State) (j g : Text)
        → R.hget (written value s).1 j g
          ≡ updated (mutation_of loads (some value)) j g (R.hget s j g)
    unfolding write
    write-updated value s j g = write_message-updated (loads value) s j g

    then_commit-store :
        (offset : ℕ) (r : Result (ConsumerError CartError) (Unit {0}) × R.State)
        (p : Process R.State)
        → (then_commit CartError R.State
            (Unit {0})
            loads
            (apply_mutation R ttl_seconds)
            offset
            r
            p).1.store
          ≡ r.1
    unfolding commit
    then_commit-store offset (ok _, s) p = refl
    then_commit-store offset (err e, s) p = refl

    abbrev turned :
        ℕ
        → Option Text
        → Process R.State
        → Result (ConsumerError CartError) (Unit {0}) × Process R.State
    turned offset message =
        iterate CartError R.State (Unit {0}) loads (apply_mutation R ttl_seconds) false
          (received offset message)

    pub iterate-updated :
        (offset : ℕ) (message : Option Text) (p : Process R.State) (j g : Text)
        → R.hget (turned offset message p).1.store j g
          ≡ updated (mutation_of loads message) j g (R.hget p.store j g)
    unfolding iterate
    iterate-updated offset none p j g = refl
    iterate-updated offset (some value) p j g =
        ap (λ s. R.hget s j g) (then_commit-store offset (written value p.store) p)
        ∙ write-updated value p.store j g
