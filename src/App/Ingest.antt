-- ===== src/App/Ingest.antt =====
-- What the ingress route answers, and what it leaves in the publisher.
use kafka_flink_click_house.Base.{
  ◌≡◌, ◌≢◌, ◌↔◌, refl, sym, ap, ◌∙◌, subst, List, [], ◌∷◌, Text, Result, ok, err, Result-cases, inl,
  inr,
}
use kafka_flink_click_house.Events.{UserBehaviorEvent}
use kafka_flink_click_house.Ingestion.{BehaviorEventRequest, RequestError, validated_event}
use kafka_flink_click_house.Kafka.Publisher.{
  Producer, KafkaEventPublisher, PublishError, flush_timed_out, delivery_failed, producer_error,
  value_error, runtime_error, os_error, other_error, publish_confirmed,
}
use kafka_flink_click_house.Kafka.Publisher.Delivery.{
  IsConfirmed, publish_confirmed_iff, Call, confirming, perform_all, publish_confirmed_poisoned,
}
use kafka_flink_click_house.App.{accepted, unprocessable, respond, ingest, ingest_all}

respond-accepted :
    (event_id id : Text) (r : Result PublishError (Unit {0}))
    → (respond event_id r ≡ accepted id) ↔ ((r ≡ ok tt) × (event_id ≡ id))
unfolding respond
respond-accepted event_id id (ok _) = (λ h. (refl, cc), λ h. cc (h.1))
respond-accepted event_id id (err (flush_timed_out n)) = (λ h. cc, λ h. cc (h.0))
respond-accepted event_id id (err (delivery_failed e)) = (λ h. cc, λ h. cc (h.0))
respond-accepted event_id id (err (producer_error value_error)) = (λ h. cc, λ h. cc (h.0))
respond-accepted event_id id (err (producer_error runtime_error)) = (λ h. cc, λ h. cc (h.0))
respond-accepted event_id id (err (producer_error os_error)) = (λ h. cc, λ h. cc (h.0))
respond-accepted event_id id (err (producer_error other_error)) = (λ h. cc, λ h. cc (h.0))

module _ (sha256 : Text → Text) (P : Producer) where
  ingest_valid :
      (r : BehaviorEventRequest) (publisher : KafkaEventPublisher P) (e : UserBehaviorEvent)
      → validated_event sha256 r ≡ ok e
      → ingest sha256 P r publisher ≡ (
        respond e.event_id (publish_confirmed P e publisher).0,
        (publish_confirmed P e publisher).1,
      )
  unfolding ingest
  ingest_valid r publisher e h = rw (h, ingest)

  ingest_invalid :
      (r : BehaviorEventRequest) (publisher : KafkaEventPublisher P) (x : RequestError)
      → validated_event sha256 r ≡ err x
      → ingest sha256 P r publisher ≡ (unprocessable x, publisher)
  unfolding ingest
  ingest_invalid r publisher x h = rw (h, ingest)

  -- A request is answered 202 exactly if it is valid and its event's publication is confirmed, and
  -- the answer gives the event's own id.
  pub ingest-accepted_iff :
      (r : BehaviorEventRequest) (publisher : KafkaEventPublisher P) (id : Text)
      → ((ingest sha256 P r publisher).0 ≡ accepted id) ↔ (
          (e : UserBehaviorEvent) × (validated_event sha256 r ≡ ok e)
          × IsConfirmed P e publisher
          × (e.event_id ≡ id))
  ingest-accepted_iff r publisher id = (
    λ h. elim (Result-cases (validated_event sha256 r)) [
      | inl (e, valid) ↦
          let (confirmed, same) =
            (respond-accepted e.event_id id _).0
              (sym (ap (λ p. p.0) (ingest_valid r publisher e valid)) ∙ h) in
          (e, valid, (publish_confirmed_iff P e publisher).0 confirmed, same)
      | inr (x, invalid) ↦
          absurd (rejected x (sym (ap (λ p. p.0) (ingest_invalid r publisher x invalid)) ∙ h))
    ],
    λ (e, valid, confirmed, same).
        ap (λ p. p.0) (ingest_valid r publisher e valid)
        ∙ (respond-accepted e.event_id id _).1
            ((publish_confirmed_iff P e publisher).1 confirmed, same),
  )
    where
      rejected : (x : RequestError) → unprocessable x ≡ accepted id → ⊥
      rejected x h = cc

  respond-ne-unprocessable :
      (event_id : Text) (x : RequestError) (r : Result PublishError (Unit {0}))
      → respond event_id r ≢ unprocessable x
  unfolding respond
  respond-ne-unprocessable event_id x (ok _) h = cc
  respond-ne-unprocessable event_id x (err (flush_timed_out n)) h = cc
  respond-ne-unprocessable event_id x (err (delivery_failed e)) h = cc
  respond-ne-unprocessable event_id x (err (producer_error value_error)) h = cc
  respond-ne-unprocessable event_id x (err (producer_error runtime_error)) h = cc
  respond-ne-unprocessable event_id x (err (producer_error os_error)) h = cc
  respond-ne-unprocessable event_id x (err (producer_error other_error)) h = cc

  -- A request is answered 422 with an error of the validation exactly if the validation raises it;
  -- then nothing is published: the publisher and its producer are as they were.
  pub ingest-unprocessable_iff :
      (r : BehaviorEventRequest) (publisher : KafkaEventPublisher P) (x : RequestError)
      → ((ingest sha256 P r publisher).0 ≡ unprocessable x)
        ↔ ((validated_event sha256 r ≡ err x) × ((ingest sha256 P r publisher).1 ≡ publisher))
  ingest-unprocessable_iff r publisher x = (
    λ h. elim (Result-cases (validated_event sha256 r)) [
      | inl (e, valid) ↦ absurd (
          respond-ne-unprocessable e.event_id x _
            (sym (ap (λ p. p.0) (ingest_valid r publisher e valid)) ∙ h))
      | inr (y, invalid) ↦
          let e = ingest_invalid r publisher y invalid in
          (invalid ∙ same x y (sym (ap (λ p. p.0) e) ∙ h), ap (λ p. p.1) e)
    ],
    λ h. ap (λ p. p.0) (ingest_invalid r publisher x h.0),
  )
    where
      same :
          (x y : RequestError)
          → unprocessable y ≡ unprocessable x
          → ◌≡◌ {A = Result RequestError UserBehaviorEvent} (err y) (err x)
      same x y h = cc

  -- The publication of a request, if it is valid.
  abbrev calls_for : Result RequestError UserBehaviorEvent → List Call → List Call
  calls_for (ok e) calls = confirming e ∷ calls
  calls_for (err x) calls = calls

  abbrev calls_of : List BehaviorEventRequest → List Call
  calls_of [] = []
  calls_of (r ∷ requests) = calls_for (validated_event sha256 r) (calls_of requests)

  ingest_all-perform_all :
      (requests : List BehaviorEventRequest) (publisher : KafkaEventPublisher P)
      → ingest_all sha256 P requests publisher ≡ perform_all P (calls_of requests) publisher
  ingest_all-perform_all [] publisher = refl
  ingest_all-perform_all (r ∷ requests) publisher = elim (Result-cases (validated_event sha256 r)) [
    | inl (e, valid) ↦
        rw (valid, ingest_valid r publisher e valid) (ingest_all-perform_all requests _)
    | inr (x, invalid) ↦
        rw (invalid, ingest_invalid r publisher x invalid)
          (ingest_all-perform_all requests publisher)
  ]

  -- Once one delivery has failed, the process answers 202 to no request, whatever requests came in
  -- between and whatever Kafka reports of the request's own message.
  pub ingest_poisoned :
      (requests : List BehaviorEventRequest) (r : BehaviorEventRequest)
      (publisher : KafkaEventPublisher P) (id : Text)
      → publisher.delivery_errors ≢ []
      → (ingest sha256 P r (ingest_all sha256 P requests publisher)).0 ≢ accepted id
  ingest_poisoned requests r publisher id failed h =
      let (e, valid, c, same) = (ingest-accepted_iff r _ id).0 h in
      publish_confirmed_poisoned P (calls_of requests) e publisher failed (
        subst (λ p. (publish_confirmed P e p).0 ≡ ok tt) (ingest_all-perform_all requests publisher)
          ((publish_confirmed_iff P e _).1 c))
