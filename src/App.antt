-- ===== src/App.antt =====
-- services/taobao_api/app.py: the route `POST /v1/events`. The read routes stand with the store that
-- they read (Serving).
pub mod Ingest
use kafka_flink_click_house.Base.{Text, List, [], ◌∷◌, Result, ok, err}
use kafka_flink_click_house.Ingestion.{BehaviorEventRequest, RequestError, validated_event}
use kafka_flink_click_house.Kafka.Publisher.{
  Producer, KafkaEventPublisher, PublishError, ExceptionClass, value_error, runtime_error, os_error,
  other_error, flush_timed_out, delivery_failed, producer_error, publish_confirmed,
}

-- What a caller sees: the status, with what the body tells.
pub data Response : Type 0 where
  -- 202, with the event id.
  accepted : Text → Response
  -- 422, for a `ValueError` of the validation.
  unprocessable : RequestError → Response
  -- 422, for a `ValueError` of the publisher.
  unprocessable_publish : Response
  -- 503, for a `RuntimeError`.
  unavailable : Response
  -- 500, for an exception that the route does not catch.
  server_error : Response

unfoldable pub respond : Text → Result PublishError (Unit {0}) → Response
respond event_id (ok _) = accepted event_id
respond event_id (err (flush_timed_out n)) = unavailable
respond event_id (err (delivery_failed e)) = unavailable
respond event_id (err (producer_error value_error)) = unprocessable_publish
respond event_id (err (producer_error runtime_error)) = unavailable
respond event_id (err (producer_error os_error)) = server_error
respond event_id (err (producer_error other_error)) = server_error

module _ (sha256 : Text → Text) (P : Producer) where
  unfoldable pub ingest :
      BehaviorEventRequest → KafkaEventPublisher P → Response × KafkaEventPublisher P
  unfolding respond
  ingest request publisher = elim (validated_event sha256 request) [
    | err e ↦ (unprocessable e, publisher)
    | ok event ↦
        let (published, publisher') = publish_confirmed P event publisher in
        (respond event.event_id published, publisher')
  ]

  -- The publisher after the requests of a process, one behind the other.
  abbrev pub ingest_all : List BehaviorEventRequest → KafkaEventPublisher P → KafkaEventPublisher P
  ingest_all [] publisher = publisher
  ingest_all (r ∷ requests) publisher = ingest_all requests (ingest r publisher).1
