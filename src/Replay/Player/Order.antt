-- ===== src/Replay/Player/Order.antt =====
-- What a client that records its calls has at the end of a replay.
use kafka_flink_click_house.Base.{
  ℕ, ◌<◌, ◌≡◌, refl, sym, ◌∙◌, false, true, ◌⊎◌, some, List, [], ◌∷◌, ◌++◌, append-nil, Text, pos,
  ok,
}
use kafka_flink_click_house.Base.Exec.{Exec}
use kafka_flink_click_house.Events.{UserBehaviorEvent}
use kafka_flink_click_house.Replay.Reader.{ParseIssue, iter_source_rows}
use kafka_flink_click_house.Replay.Reader.Batches.{accepted, rejected}
use kafka_flink_click_house.Replay.Player.Returns.{IsTotal, replay_file_returns}
use kafka_flink_click_house.Replay.Player.Timing.{IsPaceable, IsClocked}
use kafka_flink_click_house.Replay.Player.Observed.{
  IsObserved, flat-single, replay_file-events, replay_file-issues,
}
use kafka_flink_click_house.Replay.Player.{ReplayStats, Floats, Callbacks, replay_file}

-- The events emitted and the issues reported.
abbrev pub Record : Type 0
Record = List UserBehaviorEvent × List ParseIssue

module _ (F : Floats) (X : Type 0) (overflow : X) (now : Record → F.Float) (speed : F.Float) where
  -- It raises nothing, and neither its clock nor its sleep changes what it has recorded.
  abbrev pub recorder : Callbacks F X Record
  recorder = record {
    emit = λ event r. (ok tt, (r.0 ++ (event ∷ []), r.1));
    on_invalid = some (λ issue r. (ok tt, (r.0, r.1 ++ (issue ∷ []))));
    monotonic = λ r. (now r, r);
    sleep = λ delay r. (ok tt, r);
    overflow = overflow;
  }

  abbrev rejects : ParseIssue → Exec X Record (Unit {0})
  rejects issue r = (ok tt, (r.0, r.1 ++ (issue ∷ [])))

  recorder-IsTotal : IsTotal F X Record recorder rejects
  recorder-IsTotal = record {
    emits = λ event r. refl;
    rejects = λ issue r. refl;
    on_invalid = refl;
  }

  recorder-IsClocked : IsClocked F X Record recorder speed Record now (λ delay. true)
  recorder-IsClocked = record { clock = λ r. (r, refl); sleeps = λ delay r _. refl }

  events-IsObserved :
      IsObserved F X Record UserBehaviorEvent recorder speed rejects
        (λ r. r.0)
        (λ e. e ∷ [])
        (λ i. [])
  events-IsObserved = record {
    emits = λ event r _. refl;
    rejects = λ issue r _. sym (append-nil r.0);
    on_invalid = refl;
    clock = λ r. refl;
    rest = λ delay r. refl;
  }

  issues-IsObserved :
      IsObserved F X Record ParseIssue recorder speed rejects (λ r. r.1) (λ e. []) (λ i. i ∷ [])
  issues-IsObserved = record {
    emits = λ event r _. sym (append-nil r.1);
    rejects = λ issue r _. refl;
    on_invalid = refl;
    clock = λ r. refl;
    rest = λ delay r. refl;
  }

  -- A client that records its calls, and raises nothing, gets all of the file, whatever the size of
  -- the batches and the clock: without a speed, or with a positive one and a file whose events lie so
  -- close that each offset between them is a float, the replay ends with statistics, each event that
  -- `parse_event` makes of a data row was emitted once and in the order of the file, and each other
  -- row was reported once and in order.
  pub replay_file-recorder :
      (sha256 : Text → Text) (run_id : Text) (rows : List (List Text)) (size : ℕ)
      → 0 < size
      → F.is_negative speed ≡ false
      → (F.is_positive speed ≡ false)
        ⊎ IsPaceable F speed Record now
            (λ delay. true)
            (accepted sha256 run_id (iter_source_rows rows))
      → (stats : ReplayStats) × (replay_file F X Record recorder speed sha256 run_id rows
            (pos size)
            ([], [])
          ≡ (
            ok stats,
            (
              accepted sha256 run_id (iter_source_rows rows),
              rejected sha256 run_id (iter_source_rows rows),
            ),
          ))
  replay_file-recorder sha256 run_id rows size positive fine paceable =
      let (stats, returned) =
        replay_file_returns F X Record recorder speed rejects recorder-IsTotal sha256 run_id rows
          size ([], []) Record now (λ delay. true) recorder-IsClocked positive fine paceable in
      let events =
        replay_file-events F X Record UserBehaviorEvent recorder speed rejects _ _ _
          events-IsObserved sha256 run_id rows (pos size) ([], []) stats returned (λ i. refl)
        ∙ flat-single _ in
      let issues =
        replay_file-issues F X Record ParseIssue recorder speed rejects _ _ _ issues-IsObserved
          sha256 run_id rows (pos size) ([], []) stats returned (λ e. refl)
        ∙ flat-single _ in
      (stats, λ i. (returned i, (events i, issues i)))
