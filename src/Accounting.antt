-- ===== src/Accounting.antt =====
-- scripts/verify.py: `reconcile_accounting`, which balances the two replays of the fixture with what
-- ClickHouse holds.
pub mod Balance
use kafka_flink_click_house.Base.{
  ℕ, ◌+◌, ◌||◌, Option, none, some, List, [], ◌∷◌, Text, codes, ◌==◌, nat_eq, list_eq,
  if◌then◌else◌, ℤ, pos, ltb_ℤ, ◌-ℤ◌, length,
}
use kafka_flink_click_house.Replay.Reader.{ReplayBatch, iter_event_batches}

-- `REPLAY_RUN_IDS`
abbrev pub replay_run_ids : List Text
replay_run_ids = codes "golden-a" ∷ codes "golden-b" ∷ []

-- The sums of the loops.
pub record Sums : Type 0 where
  pub source_rows : ℕ
  pub decoded : ℕ
  pub producer_rejected : ℕ

unfoldable pub add_batches : List ReplayBatch → Sums → Sums
add_batches [] sums = sums
add_batches (b ∷ bs) sums = add_batches bs (record {
  source_rows = sums.source_rows + b.source_rows;
  decoded = sums.decoded + length b.events;
  producer_rejected = sums.producer_rejected + length b.issues;
})

-- `sum(row["quality_type"] == name for row in quality)`, of the column.
unfoldable pub count_type : Text → List Text → ℕ
count_type name [] = 0
count_type name (t ∷ types) =
    let rest = count_type name types in if t == name then rest + 1 else rest

-- The counts that are returned. The names that stand for the same number are left out.
pub record Accounting : Type 0 where
  pub replay_attempts : ℕ
  pub source_rows : ℕ
  pub decoded : ℕ
  pub invalid : ℕ
  pub valid : ℤ
  pub duplicate : ℤ
  pub accepted_unique : ℕ
  pub on_time : ℤ
  pub late_for_aggregation : ℕ
  pub producer_rejected : ℕ

module _ (sha256 : Text → Text) (rows : List (List Text)) where
  -- The loops over the runs, in batches of 100; the size is positive, so none is refused.
  unfoldable pub add_runs : List Text → Sums → Option Sums
  unfolding add_batches
  add_runs [] sums = some sums
  add_runs (run_id ∷ run_ids) sums = elim (iter_event_batches sha256 run_id rows (pos 100)) [
    | none ↦ none
    | some bs ↦ add_runs run_ids (add_batches bs sums)
  ]

  -- The part behind the loops, where `none` is the `RuntimeError`.
  unfoldable pub balance : ℕ → List Text → Sums → Option Accounting
  unfolding count_type
  balance canonical quality sums =
      let invalid = count_type (codes "INVALID") quality in
      let late = count_type (codes "LATE") quality in
      let valid = pos sums.decoded -ℤ pos invalid in
      let duplicate = valid -ℤ pos canonical in
      if ltb_ℤ duplicate (pos 0) || ltb_ℤ (pos canonical) (pos late)
      then none
      else some (record {
        replay_attempts = length replay_run_ids;
        source_rows = sums.source_rows;
        decoded = sums.decoded;
        invalid = invalid;
        valid = valid;
        duplicate = duplicate;
        accepted_unique = canonical;
        on_time = pos canonical -ℤ pos late;
        late_for_aggregation = late;
        producer_rejected = sums.producer_rejected;
      })

  abbrev pub no_sums : Sums
  no_sums = record { source_rows = 0; decoded = 0; producer_rejected = 0 }

  abbrev pub balance_of : ℕ → List Text → Option Sums → Option Accounting
  balance_of canonical quality none = none
  balance_of canonical quality (some sums) = balance canonical quality sums

  -- The arguments are the number of canonical events and the column of quality types.
  unfoldable pub reconcile_accounting : ℕ → List Text → Option Accounting
  unfolding add_runs balance
  reconcile_accounting canonical quality =
      balance_of canonical quality (add_runs replay_run_ids no_sums)
