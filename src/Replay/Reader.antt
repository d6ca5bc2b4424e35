-- ===== src/Replay/Reader.antt =====
-- reader.py: the rows of a file, and their events in batches. The rows are those that `csv.reader`
-- yields of the file.
pub mod Batches
pub mod Splits
use kafka_flink_click_house.Base.{
  ℕ, zero, suc, ◌+◌, true, false, ◌&&◌, not, Bool, Option, none, some, List, [], ◌∷◌, ◌++◌, map,
  Text, ◌==◌, nat_eq, list_eq, if◌then◌else◌, ℤ, pos, negsuc, ltb_ℤ, int_eq, Result, ok, err,
}
use kafka_flink_click_house.Text.{strip}
use kafka_flink_click_house.Events.{UserBehaviorEvent, RowValidationError, parse_event, field_names}

-- A rejected row. The reason is the exception, not its text.
pub record ParseIssue : Type 0 where
  pub source_sequence : ℕ
  pub raw_values : List Text
  pub reason : RowValidationError

pub record ReplayBatch : Type 0 where
  pub events : List UserBehaviorEvent
  pub issues : List ParseIssue
  pub source_rows : ℕ

-- The loop of `iter_source_rows`: whether the next row is the first, and its sequence number.
unfoldable pub rows_from : Bool → ℕ → List (List Text) → List (ℕ × List Text)
rows_from first_row sequence [] = []
rows_from first_row sequence (row ∷ rows) =
    let skipped = rows_from false sequence rows in
    let yielded = (sequence, row) ∷ rows_from false (sequence + 1) rows in
    if first_row && map strip row == field_names then skipped else yielded

unfoldable pub iter_source_rows : List (List Text) → List (ℕ × List Text)
unfolding rows_from
iter_source_rows rows = rows_from true 0 rows

-- Nothing collected.
abbrev pub no_rows : ReplayBatch
no_rows = record { events = []; issues = []; source_rows = 0 }

-- What `try … except RowValidationError` adds to the lists.
unfoldable pub collect :
    ReplayBatch → ℕ → List Text → Result RowValidationError UserBehaviorEvent → ReplayBatch
collect b sequence values (ok e) = record b {
  events = b.events ++ (e ∷ []);
  source_rows = b.source_rows + 1;
}
collect b sequence values (err reason) = record b {
  issues =
      b.issues
      ++ (record { source_sequence = sequence; raw_values = values; reason = reason } ∷ []);
  source_rows = b.source_rows + 1;
}

module _ (sha256 : Text → Text) (replay_run_id : Text) where
  unfoldable pub add_row : ReplayBatch → ℕ × List Text → ReplayBatch
  unfolding collect
  add_row b (sequence, values) =
      collect b sequence values (parse_event sha256 values (pos sequence) replay_run_id)

  -- The loop of `iter_event_batches`, from what is collected.
  unfoldable pub batches_from : ℤ → ReplayBatch → List (ℕ × List Text) → List ReplayBatch
  unfolding add_row
  batches_from size b [] = if b.source_rows == 0 then [] else b ∷ []
  batches_from size b (row ∷ rows) =
      let b' = add_row b row in
      let full = b' ∷ batches_from size no_rows rows in
      let more = batches_from size b' rows in if pos b'.source_rows == size then full else more

  -- `none` is the `ValueError` "batch_size must be positive".
  unfoldable pub iter_event_batches : List (List Text) → ℤ → Option (List ReplayBatch)
  unfolding iter_source_rows batches_from
  iter_event_batches rows batch_size =
      if ltb_ℤ (pos 0) batch_size
      then some (batches_from batch_size no_rows (iter_source_rows rows))
      else none
