-- ===== src/Events.antt =====
-- libs/taobao_events/contracts.py: the event that every ingress client publishes, its identity, and
-- the contract of one CSV row. The laws are in the modules below.
pub mod Identity
pub mod Replays
pub mod Rows
use kafka_flink_click_house.Base.{
  ℕ, not, List, [], ◌∷◌, map, Text, codes, ◌==◌, nat_eq, list_eq, contains, length, ℤ, pos, ltb_ℤ,
  times_thousand, Result, ok, err, ◌>>=◌, ◌>>◌, raise_if, or_raise,
}
use kafka_flink_click_house.Text.{strip, is_blank, int, str, join}

-- `BEHAVIOR_TYPES`
abbrev pub behavior_types : List Text
behavior_types = codes "pv" ∷ codes "cart" ∷ codes "fav" ∷ codes "buy" ∷ []

-- `FIELD_NAMES`
abbrev pub field_names : List Text
field_names =
    codes "user_id"
    ∷ codes "item_id"
    ∷ codes "category_id"
    ∷ codes "behavior_type"
    ∷ codes "timestamp"
    ∷ []

-- `RowValidationError`, by what is wrong with the row.
pub data RowValidationError : Type 0 where
  wrong_columns : ℕ → RowValidationError
  negative_sequence : RowValidationError
  blank_run_id : RowValidationError
  not_integers : RowValidationError
  unknown_behavior : Text → RowValidationError

pub record UserBehaviorEvent : Type 0 where
  pub event_id : Text
  pub user_id : ℤ
  pub item_id : ℤ
  pub category_id : ℤ
  pub behavior_type : Text
  pub event_time_ms : ℤ
  pub source_sequence : ℤ
  pub replay_run_id : Text

-- What the identity of an event is made of: the arguments of `deterministic_event_id`.
pub record Source : Type 0 where
  pub user_id : ℤ
  pub item_id : ℤ
  pub category_id : ℤ
  pub behavior_type : Text
  pub timestamp : ℤ
  pub source_sequence : ℤ

-- The separator `"\x1f"`.
abbrev pub unit_separator : ℕ
unit_separator = 0x1f

-- The text that `deterministic_event_id` hashes.
unfoldable pub canonical : Source → Text
canonical s = join unit_separator (
    str s.user_id
    ∷ str s.item_id
    ∷ str s.category_id
    ∷ s.behavior_type
    ∷ str s.timestamp
    ∷ str s.source_sequence
    ∷ [])

-- The parameter is `sha256(text.encode("utf-8")).hexdigest()`.
module _ (sha256 : Text → Text) where
  unfoldable pub deterministic_event_id : Source → Text
  deterministic_event_id s = sha256 (canonical s)

  -- The part of `parse_event` behind the three guards, on the stripped values.
  unfoldable pub parse_values : ℤ → Text → List Text → Result RowValidationError UserBehaviorEvent
  parse_values sequence run_id (user ∷ item ∷ category ∷ behavior ∷ time ∷ []) = do
    user_id ← or_raise (int user) not_integers
    item_id ← or_raise (int item) not_integers
    category_id ← or_raise (int category) not_integers
    timestamp ← or_raise (int time) not_integers
    raise_if (not (contains behavior_types behavior)) (unknown_behavior behavior)
    ok (record {
      event_id = deterministic_event_id (record {
        user_id = user_id;
        item_id = item_id;
        category_id = category_id;
        behavior_type = behavior;
        timestamp = timestamp;
        source_sequence = sequence;
      });
      user_id = user_id;
      item_id = item_id;
      category_id = category_id;
      behavior_type = behavior;
      event_time_ms = times_thousand timestamp;
      source_sequence = sequence;
      replay_run_id = run_id;
    })
  parse_values sequence run_id values = err (wrong_columns (length values))

  unfoldable pub parse_event : List Text → ℤ → Text → Result RowValidationError UserBehaviorEvent
  unfolding parse_values
  parse_event values sequence run_id = do
    raise_if (not (length values == length field_names)) (wrong_columns (length values))
    raise_if (ltb_ℤ sequence (pos 0)) negative_sequence
    raise_if (is_blank run_id) blank_run_id
    parse_values sequence run_id (map strip values)
