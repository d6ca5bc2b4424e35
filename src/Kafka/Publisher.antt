-- ===== src/Kafka/Publisher.antt =====
-- `KafkaEventPublisher`, over an unknown producer.
pub mod Delivery
use kafka_flink_click_house.Base.{
  ℕ, not, Option, none, some, List, [], ◌∷◌, ◌++◌, Text, ◌==◌, nat_eq, if◌then◌else◌, Result, ok,
  err,
}
use kafka_flink_click_house.Text.{str, is_blank}
use kafka_flink_click_house.Events.{UserBehaviorEvent}

-- The classes of exceptions that the callers tell apart.
pub data ExceptionClass : Type 0 where
  value_error runtime_error os_error other_error : ExceptionClass

pub data PublishError : Type 0 where
  -- "Kafka flush timed out with … message(s) pending", a `RuntimeError`.
  flush_timed_out : ℕ → PublishError
  -- "Kafka delivery failed: …", a `RuntimeError`.
  delivery_failed : Text → PublishError
  -- What `produce` raises itself.
  producer_error : ExceptionClass → PublishError

-- `ProducerLike`: the client library's producer. `poll` and `flush` call the delivery callbacks, in
-- the order of the reports: `none` for an acknowledged message, or the text of the error. `flush`
-- returns how many messages are still pending.
pub record Producer : Type 1 where
  pub State : Type 0
  pub produce : Text → Text → UserBehaviorEvent → State → Result ExceptionClass (Unit {0}) × State
  pub poll : State → List (Option Text) × State
  pub flush : State → ℕ × List (Option Text) × State

unfoldable pub kafka_key : UserBehaviorEvent → Text
kafka_key event = str event.user_id

-- The callback `delivered`, called for each report.
unfoldable pub delivered : List Text → List (Option Text) → List Text
delivered errors [] = errors
delivered errors (none ∷ reports) = delivered errors reports
delivered errors (some error ∷ reports) = delivered (errors ++ (error ∷ [])) reports

-- The end of `close`.
unfoldable pub confirm : ℕ → List Text → Result PublishError (Unit {0})
confirm remaining errors =
    if not (remaining == 0)
    then err (flush_timed_out remaining)
    else elim errors [ [] ↦ ok tt | error ∷ _ ↦ err (delivery_failed error) ]

module _ (P : Producer) where
  pub record KafkaEventPublisher : Type 0 where
    pub topic : Text
    pub delivery_errors : List Text
    pub producer : P.State

  -- `__init__`, where `none` is the `ValueError` "topic must not be blank".
  unfoldable pub create : P.State → Text → Option KafkaEventPublisher
  create producer topic =
      if is_blank topic
      then none
      else some (record { topic = topic; delivery_errors = []; producer = producer })

  -- `publish` behind the call of `produce`: with no exception, the producer is polled.
  unfoldable pub after_produce :
      KafkaEventPublisher
      → Result ExceptionClass (Unit {0})
      → P.State
      → Result PublishError (Unit {0}) × KafkaEventPublisher
  unfolding delivered
  after_produce self (err raised) q = (err (producer_error raised), record self { producer = q })
  after_produce self (ok _) q =
      let (reports, q') = P.poll q in
      (
        ok tt,
        record self { delivery_errors = delivered self.delivery_errors reports; producer = q' },
      )

  unfoldable pub publish :
      UserBehaviorEvent → KafkaEventPublisher → Result PublishError (Unit {0}) × KafkaEventPublisher
  unfolding after_produce
  publish event self =
      let (queued, q) = P.produce self.topic (kafka_key event) event self.producer in
      after_produce self queued q

  unfoldable pub close : KafkaEventPublisher → Result PublishError (Unit {0}) × KafkaEventPublisher
  unfolding delivered confirm
  close self =
      let (remaining, reports, q) = P.flush self.producer in
      let errors = delivered self.delivery_errors reports in
      (confirm remaining errors, record self { delivery_errors = errors; producer = q })

  -- `publish_confirmed` behind the call of `publish`.
  unfoldable pub then_close :
      Result PublishError (Unit {0})
      → KafkaEventPublisher
      → Result PublishError (Unit {0}) × KafkaEventPublisher
  unfolding close
  then_close (err e) self = (err e, self)
  then_close (ok _) self = close self

  unfoldable pub publish_confirmed :
      UserBehaviorEvent → KafkaEventPublisher → Result PublishError (Unit {0}) × KafkaEventPublisher
  unfolding publish then_close
  publish_confirmed event self =
      let (published, self') = publish event self in then_close published self'
