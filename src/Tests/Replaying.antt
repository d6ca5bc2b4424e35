-- ===== src/Tests/Replaying.antt =====
-- A file of a header, a good row and a bad one, read in batches and replayed by a client that counts.
use kafka_flink_click_house.Base.{
  inr, err, none, true, some, ℕ, ◌+◌, ◌*◌, ◌≤◌, ◌<◌, ◌≡◌, refl, none, some, List, [], ◌∷◌, Text,
  codes, ℤ, pos, ok, arith, length, All, ltb_ℤ, times_thousand, ◌+ℤ◌, ◌-ℤ◌, map,
}
use kafka_flink_click_house.Text.{strip, int, is_blank}
use kafka_flink_click_house.Events.{parse_event}
use kafka_flink_click_house.Replay.Reader.{ReplayBatch, iter_source_rows, iter_event_batches}
use kafka_flink_click_house.Replay.Reader.Batches.{
  all_events, all_issues, all_rows, accepted, rejected, IsCounted, IsFilled,
}
use kafka_flink_click_house.Replay.Reader.Splits.{iter_event_batches-IsSplit}
use kafka_flink_click_house.Replay.Player.{raised, Floats, Callbacks, ReplayStats, replay_file}
use kafka_flink_click_house.Replay.Player.Timing.{IsPaceable}
use kafka_flink_click_house.Replay.Player.Order.{Record, recorder, replay_file-recorder}
use kafka_flink_click_house.Replay.Player.Stats.{replay_file-stats}

abbrev hash : Text → Text
hash s = codes "id"

abbrev run : Text
run = codes "run"

abbrev rows : List (List Text)
rows =
    (codes "user_id"
      ∷ codes "item_id"
      ∷ codes "category_id"
      ∷ codes "behavior_type"
      ∷ codes "timestamp"
      ∷ [])
    ∷ (codes "1" ∷ codes "2" ∷ codes "3" ∷ codes "pv" ∷ codes "10" ∷ [])
    ∷ (codes "1" ∷ [])
    ∷ (codes "4" ∷ codes "5" ∷ codes "6" ∷ codes "buy" ∷ codes "12" ∷ [])
    ∷ []

data_rows :
    iter_source_rows rows
    ≡ (0, codes "1" ∷ codes "2" ∷ codes "3" ∷ codes "pv" ∷ codes "10" ∷ [])
      ∷ (1, codes "1" ∷ [])
      ∷ (2, codes "4" ∷ codes "5" ∷ codes "6" ∷ codes "buy" ∷ codes "12" ∷ [])
      ∷ []
unfolding iter_source_rows strip
data_rows = refl

two_batches :
    (bs : List ReplayBatch) × (iter_event_batches hash run rows (pos 2) ≡ some bs)
    × (map (λ b. b.source_rows) bs ≡ 2 ∷ 1 ∷ [])
unfolding iter_event_batches strip int is_blank parse_event
two_batches = (_, refl, refl)

iter_event_batches-IsSplit_example :
    (bs : List ReplayBatch) × (iter_event_batches hash run rows (pos 2) ≡ some bs)
    × (all_events bs ≡ accepted hash run (iter_source_rows rows))
    × (all_issues bs ≡ rejected hash run (iter_source_rows rows))
    × (all_rows bs ≡ length (iter_source_rows rows))
    × IsFilled 2 bs
    × All IsCounted bs
iter_event_batches-IsSplit_example = iter_event_batches-IsSplit hash run rows 2 (omega arith)

-- Whole numbers in place of floating-point ones: enough for a speed of one.
abbrev whole : Floats
whole = record {
  Float = ℤ;
  zero = pos 0;
  seconds = λ ms. some ms;
  add = λ a b. a +ℤ b;
  sub = λ a b. a -ℤ b;
  div = λ a b. a;
  is_negative = λ a. ltb_ℤ a (pos 0);
  is_positive = λ a. ltb_ℤ (pos 0) a;
}

-- A client that counts what is emitted. Its clock stands still.
abbrev client : Callbacks whole Text ℕ
client = record {
  emit = λ event n. (ok tt, n + 1);
  on_invalid = none;
  monotonic = λ n. (pos 0, n);
  sleep = λ delay n. (ok tt, n);
  overflow = codes "OverflowError";
}

abbrev stats : ReplayStats
stats = record { source_rows = 3; emitted_events = 2; invalid_rows = 1; batches = 2 }

replayed : replay_file whole Text ℕ client (pos 1) hash run rows (pos 2) 0 ≡ (ok stats, 2)
unfolding replay_file iter_event_batches strip int is_blank parse_event ◌-ℤ◌ ◌+ℤ◌ times_thousand
replayed = refl

replay_file-stats_example :
    (3 ≡ length (iter_source_rows rows))
    × (2 ≡ length (accepted hash run (iter_source_rows rows)))
    × (1 ≡ length (rejected hash run (iter_source_rows rows)))
    × (2 + 1 ≡ 3)
    × (3 ≤ 2 * 2)
    × (2 * 2 < 3 + 2)
replay_file-stats_example =
    replay_file-stats whole Text ℕ client (pos 1) hash run rows 2 0 stats (omega arith)
      (rw replayed refl)

paceable :
    IsPaceable whole
      (pos 1)
      Record
      (λ r. pos 0)
      (λ delay. true)
      (accepted hash run (iter_source_rows rows))
unfolding strip int is_blank parse_event ◌-ℤ◌ ◌+ℤ◌ times_thousand iter_source_rows
paceable = record {
  low = pos 0;
  high = pos 1000000;
  within = ((omega arith, omega arith), ((omega arith, omega arith), tt));
  offsets = λ z _ _. (z, refl, λ j k _. refl);
}

-- A time that no float holds ends the replay with the `OverflowError`.
overflows :
    let small : Floats = record whole { seconds = λ ms. none } in
    (replay_file small Text ℕ
      (record {
        emit = λ event n. (ok tt, n + 1);
        on_invalid = none;
        monotonic = λ n. (pos 0, n);
        sleep = λ delay n. (ok tt, n);
        overflow = codes "OverflowError";
      })
      (pos 1)
      hash
      run
      rows
      (pos 2)
      0).0
    ≡ err (raised (codes "OverflowError"))
unfolding replay_file iter_event_batches strip int is_blank parse_event ◌-ℤ◌ ◌+ℤ◌ times_thousand
overflows = refl

replay_file-recorder_example :
    (s : ReplayStats) × (replay_file whole Text Record
        (recorder whole Text (codes "overflow") (λ r. pos 0) (pos 1))
        (pos 1)
        hash
        run
        rows
        (pos 2)
        ([], [])
      ≡ (
        ok s,
        (accepted hash run (iter_source_rows rows), rejected hash run (iter_source_rows rows)),
      ))
replay_file-recorder_example =
    replay_file-recorder whole Text (codes "overflow") (λ r. pos 0) (pos 1) hash run rows 2
      (omega arith) refl (inr paceable)
