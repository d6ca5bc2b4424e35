-- ===== src/Ingestion.antt =====
-- services/taobao_api/ingestion.py: the event that the HTTP boundary makes of a request body. The
-- body has passed pydantic's strict types, so a request is a record of them.
pub mod Requests
use kafka_flink_click_house.Base.{
  true, not, ◌||◌, Option, none, some, Text, ◌==◌, nat_eq, list_eq, ℤ, pos, ltb_ℤ, div_thousand,
  mod_thousand, Bool, false, Result, ok, ◌>>=◌, ◌>>◌, raise_if,
}
use kafka_flink_click_house.Text.{is_blank}
use kafka_flink_click_house.Events.{UserBehaviorEvent, Source, deterministic_event_id}

pub record BehaviorEventRequest : Type 0 where
  pub event_id : Option Text
  pub user_id : ℤ
  pub item_id : ℤ
  pub category_id : ℤ
  pub behavior_type : Text
  pub event_time_ms : ℤ
  pub source_sequence : ℤ
  pub replay_run_id : Text

-- The `ValueError`s of `validated_event`.
pub data RequestError : Type 0 where
  bad_event_time negative_sequence blank_run_id event_id_mismatch : RequestError

abbrev pub source_of_request : BehaviorEventRequest → Source
source_of_request r = record {
  user_id = r.user_id;
  item_id = r.item_id;
  category_id = r.category_id;
  behavior_type = r.behavior_type;
  timestamp = div_thousand r.event_time_ms;
  source_sequence = r.source_sequence;
}

-- `self.event_id is not None and self.event_id != expected`
abbrev pub is_other : Option Text → Text → Bool
is_other none expected = false
is_other (some given) expected = not (given == expected)

module _ (sha256 : Text → Text) where
  unfoldable pub validated_event : BehaviorEventRequest → Result RequestError UserBehaviorEvent
  validated_event r = do
    raise_if (ltb_ℤ r.event_time_ms (pos 0) || not (mod_thousand r.event_time_ms == 0))
        bad_event_time
    raise_if (ltb_ℤ r.source_sequence (pos 0)) negative_sequence
    raise_if (is_blank r.replay_run_id) blank_run_id
    let expected = deterministic_event_id sha256 (source_of_request r)
    raise_if (is_other r.event_id expected) event_id_mismatch
    ok (record {
      event_id = expected;
      user_id = r.user_id;
      item_id = r.item_id;
      category_id = r.category_id;
      behavior_type = r.behavior_type;
      event_time_ms = r.event_time_ms;
      source_sequence = r.source_sequence;
      replay_run_id = r.replay_run_id;
    })
