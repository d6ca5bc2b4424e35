-- ===== src/Tests/Publishing.antt =====
-- The publisher, its settings and the route, with a producer whose reports are fixed in advance.
use kafka_flink_click_house.Base.{
  ◌≡◌, ◌≢◌, ◌↔◌, ◌⊎◌, refl, Option, none, some, List, [], ◌∷◌, Text, codes, ok, err, pos, negsuc,
}
use kafka_flink_click_house.Base.Dict.{Dict}
use kafka_flink_click_house.Text.{is_blank}
use kafka_flink_click_house.Events.{UserBehaviorEvent, deterministic_event_id}
use kafka_flink_click_house.Kafka.Settings.{settings, kafka_security_options}
use kafka_flink_click_house.Kafka.Settings.Laws.{
  IsPlain, IsLogin, IsJaas, kafka_security_options_iff,
}
use kafka_flink_click_house.Kafka.Publisher.{
  Producer, KafkaEventPublisher, publish_confirmed, close,
}
use kafka_flink_click_house.Kafka.Publisher.Delivery.{
  failures, IsConfirmed, publish_confirmed_iff, publishing, confirming, closing, perform_all,
  publish_confirmed_poisoned, close_reports,
}
use kafka_flink_click_house.Ingestion.{BehaviorEventRequest, validated_event, bad_event_time}
use kafka_flink_click_house.App.{accepted, unprocessable, unavailable, ingest, ingest_all}
use kafka_flink_click_house.App.Ingest.{
  ingest-accepted_iff, ingest-unprocessable_iff, ingest_poisoned,
}

-- Every message is taken, and each flush brings the next report.
abbrev broker : Producer
broker = record {
  State = List (Option Text);
  produce = λ topic key event reports. (ok tt, reports);
  poll = λ reports. ([], reports);
  flush = λ reports. elim reports [ [] ↦ (0, [], []) | r ∷ rest ↦ (0, r ∷ [], rest) ];
}

abbrev publisher : List (Option Text) → KafkaEventPublisher broker
publisher reports = record { topic = codes "behavior"; delivery_errors = []; producer = reports }

abbrev failed_publisher : KafkaEventPublisher broker
failed_publisher = record {
  topic = codes "behavior";
  delivery_errors = codes "down" ∷ [];
  producer = [];
}

abbrev hash : Text → Text
hash s = codes "id"

abbrev request : BehaviorEventRequest
request = record {
  event_id = none;
  user_id = pos 1;
  item_id = pos 2;
  category_id = pos 3;
  behavior_type = codes "pv";
  event_time_ms = pos 5000;
  source_sequence = pos 0;
  replay_run_id = codes "run";
}

abbrev event : UserBehaviorEvent
event = record {
  event_id = codes "id";
  user_id = pos 1;
  item_id = pos 2;
  category_id = pos 3;
  behavior_type = codes "pv";
  event_time_ms = pos 5000;
  source_sequence = pos 0;
  replay_run_id = codes "run";
}

failed-Nonempty : (codes "down" ∷ []) ≢ []
failed-Nonempty h = cc

-- A message that Kafka acknowledges, behind one that it does not: both are answered 503.
forgotten_success :
    let first = ingest hash broker request (publisher (some (codes "down") ∷ none ∷ [])) in
    (first.0 ≡ unavailable) × ((ingest hash broker request first.1).0 ≡ unavailable)
unfolding ingest publish_confirmed validated_event is_blank
forgotten_success = (refl, refl)

publish_confirmed_iff_example :
    ((publish_confirmed broker event (publisher [])).0 ≡ ok tt)
    ↔ IsConfirmed broker event (publisher [])
publish_confirmed_iff_example = publish_confirmed_iff broker event (publisher [])

still_refused :
    (publish_confirmed broker event
      (perform_all broker (publishing event ∷ closing ∷ confirming event ∷ []) failed_publisher)).0
    ≢ ok tt
still_refused =
    publish_confirmed_poisoned broker (publishing event ∷ closing ∷ confirming event ∷ []) event
      failed_publisher failed-Nonempty

all_delivered :
    (close broker
      (perform_all broker (publishing event ∷ publishing event ∷ []) (publisher (none ∷ [])))).0
    ≡ ok tt
unfolding close publish_confirmed
all_delivered = refl

closed_reports :
    let last =
      perform_all broker (publishing event ∷ publishing event ∷ []) (publisher (none ∷ [])) in
    ((publisher (none ∷ [])).delivery_errors ≡ [])
    × (last.delivery_errors ≡ [])
    × (failures (broker.flush last.producer).1 ≡ [])
    × ((broker.flush last.producer).0 ≡ 0)
closed_reports =
    close_reports broker (publishing event ∷ publishing event ∷ []) (publisher (none ∷ []))
      all_delivered

ingest-accepted_iff_example :
    ((ingest hash broker request (publisher [])).0 ≡ accepted (codes "id")) ↔ (
      (e : UserBehaviorEvent) × (validated_event hash request ≡ ok e)
      × IsConfirmed broker e (publisher [])
      × (e.event_id ≡ codes "id"))
ingest-accepted_iff_example = ingest-accepted_iff hash broker request (publisher []) (codes "id")

first_request_taken : (ingest hash broker request (publisher [])).0 ≡ accepted (codes "id")
unfolding ingest publish_confirmed validated_event is_blank deterministic_event_id
first_request_taken = refl

abbrev early_request : BehaviorEventRequest
early_request = record request { event_time_ms = negsuc 4 }

ingest-unprocessable_iff_example :
    ((ingest hash broker early_request (publisher [])).0 ≡ unprocessable bad_event_time) ↔ (
      (validated_event hash early_request ≡ err bad_event_time)
      × ((ingest hash broker early_request (publisher [])).1 ≡ publisher []))
ingest-unprocessable_iff_example =
    ingest-unprocessable_iff hash broker early_request (publisher []) bad_event_time

ingest_poisoned_example :
    (ingest hash broker request
      (ingest_all hash broker (early_request ∷ request ∷ []) failed_publisher)).0
    ≢ accepted (codes "id")
ingest_poisoned_example =
    ingest_poisoned hash broker (early_request ∷ request ∷ []) request failed_publisher (codes "id")
      failed-Nonempty

-- An environment of no variables, and one with a username and no password.
abbrev nothing_set : Text → Option Text
nothing_set name = none

kafka_security_options_iff_example :
    let s = settings (λ t. t) nothing_set in
    let o : Dict Text Text = (codes "security.protocol", codes "PLAINTEXT") ∷ [] in
    (kafka_security_options (λ t. t) nothing_set ≡ ok o) ↔ (IsPlain s o ⊎ IsLogin s o ⊎ IsJaas s o)
kafka_security_options_iff_example =
    kafka_security_options_iff (λ t. t) nothing_set
      ((codes "security.protocol", codes "PLAINTEXT") ∷ [])
