-- ===== src/Tests/Totals.antt =====
-- The accounting of a fixture of one good row and one bad one, of which the second run is duplicate.
use kafka_flink_click_house.Base.{◌≡◌, refl, some, List, [], ◌∷◌, Text, codes, pos, ◌+ℤ◌, ◌-ℤ◌}
use kafka_flink_click_house.Text.{strip, int, is_blank}
use kafka_flink_click_house.Events.{parse_event}
use kafka_flink_click_house.Replay.Reader.{iter_event_batches}
use kafka_flink_click_house.Accounting.{Accounting, reconcile_accounting}
use kafka_flink_click_house.Accounting.Balance.{IsBalanced, reconcile_accounting-IsBalanced}

abbrev hash : Text → Text
hash s = codes "id"

abbrev rows : List (List Text)
rows = (codes "1" ∷ codes "2" ∷ codes "3" ∷ codes "pv" ∷ codes "10" ∷ []) ∷ (codes "1" ∷ []) ∷ []

abbrev totals : Accounting
totals = record {
  replay_attempts = 2;
  source_rows = 4;
  decoded = 2;
  invalid = 1;
  valid = pos 1;
  duplicate = pos 0;
  accepted_unique = 1;
  on_time = pos 0;
  late_for_aggregation = 1;
  producer_rejected = 2;
}

returned : reconcile_accounting hash rows 1 (codes "LATE" ∷ codes "INVALID" ∷ []) ≡ some totals
unfolding reconcile_accounting iter_event_batches parse_event strip int is_blank ◌-ℤ◌ ◌+ℤ◌
returned = refl

reconcile_accounting-IsBalanced_example :
    IsBalanced hash rows 1 (codes "LATE" ∷ codes "INVALID" ∷ []) totals
reconcile_accounting-IsBalanced_example =
    reconcile_accounting-IsBalanced hash rows 1 (codes "LATE" ∷ codes "INVALID" ∷ []) totals
      returned
