-- ===== src/Tests/Ingress.antt =====
-- Events, rows and requests. The hash of the runs is the text itself.
use kafka_flink_click_house.Base.{
  ◌≡◌, ◌≢◌, ◌↔◌, ◌⊎◌, refl, none, List, [], ◌∷◌, ◌++◌, Text, codes, arith, pos, negsuc, ok, err,
  times_thousand,
}
use kafka_flink_click_house.Text.{strip, is_blank, int, str, join}
use kafka_flink_click_house.Events.{
  UserBehaviorEvent, Source, deterministic_event_id, parse_event, canonical, unknown_behavior,
  wrong_columns, negative_sequence, blank_run_id, not_integers,
}
use kafka_flink_click_house.Events.Identity.{Collision, deterministic_event_id-eq}
use kafka_flink_click_house.Events.Rows.{RowDenotes, parse_event_iff}
use kafka_flink_click_house.Events.Replays.{
  Padded, parse_event-Padded, parse_event-replay, parse_event-IsValid, IsValid, IsReadable, row_of,
  parse_event-row_of,
}
use kafka_flink_click_house.Ingestion.{
  BehaviorEventRequest, validated_event, source_of_request, bad_event_time,
}
use kafka_flink_click_house.Ingestion.Requests.{
  Accepts, validated_event_iff, request_of, validated_event-request_of, validated_event_identity,
  validated_event_unchecked,
}

abbrev hash : Text → Text
hash s = s

abbrev row : List Text
row = codes "1" ∷ codes "2" ∷ codes "3" ∷ codes "pv" ∷ codes "1511544070" ∷ []

abbrev run : Text
run = codes "golden-a"

abbrev source : Source
source = record {
  user_id = pos 1;
  item_id = pos 2;
  category_id = pos 3;
  behavior_type = codes "pv";
  timestamp = pos 1511544070;
  source_sequence = pos 0;
}

abbrev event : UserBehaviorEvent
event = record {
  event_id = deterministic_event_id hash source;
  user_id = pos 1;
  item_id = pos 2;
  category_id = pos 3;
  behavior_type = codes "pv";
  event_time_ms = pos 1511544070000;
  source_sequence = pos 0;
  replay_run_id = run;
}

canonical_test :
    deterministic_event_id hash source
    ≡ codes "1"
      ++ (31 ∷ codes "2")
      ++ (31 ∷ codes "3")
      ++ (31 ∷ codes "pv")
      ++ (31 ∷ codes "1511544070")
      ++ (31 ∷ codes "0")
unfolding deterministic_event_id canonical str join
canonical_test = refl

accepted_row : parse_event hash row (pos 0) run ≡ ok event
unfolding parse_event int strip is_blank times_thousand
accepted_row = refl

-- The errors, in the order in which they are looked for.
rejected_rows :
    (parse_event hash (codes "1" ∷ []) (negsuc 0) [] ≡ err (wrong_columns 1))
    × (parse_event hash row (negsuc 0) [] ≡ err negative_sequence)
    × (parse_event hash row (pos 0) (codes " ") ≡ err blank_run_id)
    × (parse_event hash
          (codes "x" ∷ codes "2" ∷ codes "3" ∷ codes "view" ∷ codes "4" ∷ [])
          (pos 0)
          run
        ≡ err not_integers)
    × (parse_event hash
          (codes "1" ∷ codes "2" ∷ codes "3" ∷ codes "view" ∷ codes "4" ∷ [])
          (pos 0)
          run
        ≡ err (unknown_behavior (codes "view")))
unfolding parse_event int strip is_blank
rejected_rows = (refl, refl, refl, refl, refl)

deterministic_event_id-eq_example : (source ≡ source) ⊎ Collision hash
deterministic_event_id-eq_example = deterministic_event_id-eq hash source source refl

parse_event_iff_example :
    (parse_event hash row (pos 0) run ≡ ok event) ↔ RowDenotes hash row (pos 0) run event
parse_event_iff_example = parse_event_iff hash row (pos 0) run event

abbrev padded : List Text
padded = codes " 1" ∷ codes "2" ∷ codes "3 " ∷ codes "pv" ∷ codes "1511544070" ∷ []

padded-Padded : Padded row padded
padded-Padded = (
  (codes " ", [], (refl, tt), tt, refl),
  (
    ([], [], tt, tt, refl),
    (([], codes " ", tt, (refl, tt), refl), (([], [], tt, tt, refl), (([], [], tt, tt, refl), tt))),
  ),
)

row_of_padding : parse_event hash padded (pos 0) run ≡ parse_event hash row (pos 0) run
row_of_padding = parse_event-Padded hash row padded (pos 0) run padded-Padded

other_run_named : strip (codes "golden-b") ≢ []
unfolding strip
other_run_named h = cc

replayed_row :
    parse_event hash row (pos 0) (codes "golden-b")
    ≡ ok (record event { replay_run_id = codes "golden-b" })
replayed_row =
    parse_event-replay hash row (pos 0) run (codes "golden-b") event other_run_named accepted_row

first_row-IsValid : IsValid hash event
first_row-IsValid = parse_event-IsValid hash row (pos 0) run event accepted_row

event-IsReadable : IsReadable hash event
unfolding str
event-IsReadable = omega arith

printed_row : parse_event hash (row_of hash event) (pos 0) run ≡ ok event
printed_row =
    parse_event-row_of hash event (parse_event-IsValid hash row (pos 0) run event accepted_row)
      event-IsReadable

abbrev request : BehaviorEventRequest
request = record {
  event_id = none;
  user_id = pos 1;
  item_id = pos 2;
  category_id = pos 3;
  behavior_type = codes "pv";
  event_time_ms = pos 1511544070000;
  source_sequence = pos 0;
  replay_run_id = run;
}

accepted_request : validated_event hash request ≡ ok event
unfolding validated_event is_blank
accepted_request = refl

validated_event_iff_example : (validated_event hash request ≡ ok event) ↔ Accepts hash request event
validated_event_iff_example = validated_event_iff hash request event

validated_event-request_of_example : validated_event hash (request_of hash event) ≡ ok event
validated_event-request_of_example =
    validated_event-request_of hash row (pos 0) run event accepted_row

request_identity : (source_of_request request ≡ source_of_request request) ⊎ Collision hash
request_identity =
    validated_event_identity hash request request event event accepted_request accepted_request refl

-- An event of user -5 and of a behavior that Flink does not know.
unchecked_request :
    (e' : UserBehaviorEvent) × (validated_event hash (record request {
      user_id = negsuc 4;
      item_id = pos 0;
      category_id = pos 0;
      behavior_type = codes "steal";
    })
      ≡ ok e')
    × (e'.user_id ≡ negsuc 4)
    × (e'.behavior_type ≡ codes "steal")
unchecked_request =
    validated_event_unchecked hash request event (negsuc 4) (pos 0) (pos 0) (codes "steal") refl
      accepted_request

-- A row from before the epoch is published to Kafka, and refused by the API.
abbrev old_row : List Text
old_row = codes "1" ∷ codes "2" ∷ codes "3" ∷ codes "pv" ∷ codes "-1" ∷ []

abbrev old_event : UserBehaviorEvent
old_event = record event {
  event_id = deterministic_event_id hash (record source { timestamp = negsuc 0 });
  event_time_ms = negsuc 999;
}

old_row_accepted : parse_event hash old_row (pos 0) run ≡ ok old_event
unfolding parse_event int strip is_blank times_thousand
old_row_accepted = refl

old_event_refused : validated_event hash (request_of hash old_event) ≡ err bad_event_time
old_event_refused = validated_event-request_of hash old_row (pos 0) run old_event old_row_accepted
