-- ===== src/Replay/Player.antt =====
-- replay.py: the loop that hands each batch to its callbacks, at the pace of the events' times.
pub mod Stats
pub mod Order
pub mod Timing
pub mod Returns
pub mod Kept
pub mod Observed
use kafka_flink_click_house.Base.{
  ℕ, ◌+◌, true, false, not, Bool, Option, none, some, List, [], ◌∷◌, List, Text, if◌then◌else◌, ℤ,
  pos, ltb_ℤ, ◌-ℤ◌, Result, ok, err, length,
}
use kafka_flink_click_house.Base.Exec.{Exec, continue, ◌>>=◌, ◌>>◌, pure, raise}
use kafka_flink_click_house.Events.{UserBehaviorEvent}
use kafka_flink_click_house.Replay.Reader.{ParseIssue, ReplayBatch, iter_event_batches}

pub record ReplayStats : Type 0 where
  pub source_rows : ℕ
  pub emitted_events : ℕ
  pub invalid_rows : ℕ
  pub batches : ℕ

-- Floating-point numbers: what `replay_file` computes with them. `seconds` is `ms / 1_000`, where
-- `none` is the `OverflowError` of a quotient that no float can hold.
pub record Floats : Type 1 where
  pub Float : Type 0
  pub zero : Float
  pub seconds : ℤ → Option Float
  pub add : Float → Float → Float
  pub sub : Float → Float → Float
  pub div : Float → Float → Float
  pub is_negative : Float → Bool
  pub is_positive : Float → Bool

-- The exceptions: the two `ValueError`s, or what a callback raises.
pub data ReplayError (X : Type 0) : Type 0 where
  negative_speed bad_batch_size : ReplayError X
  raised : X → ReplayError X

-- `max(0, z)`
abbrev pub at_least_zero : ℤ → ℤ
at_least_zero z = if ltb_ℤ (pos 0) z then z else pos 0

module _ (F : Floats) where
  -- When the replay started: the first event's own time, and the clock then.
  pub record Pacing : Type 0 where
    pub first_event_time_ms : Option ℤ
    pub replay_started : F.Float

module _ (F : Floats) (X S : Type 0) where
  -- The callbacks, over whatever they change, and the `OverflowError` among the exceptions.
  -- `monotonic` raises nothing; `time.sleep` refuses a time that is too long.
  pub record Callbacks : Type 0 where
    pub emit : UserBehaviorEvent → Exec X S (Unit {0})
    pub on_invalid : Option (ParseIssue → Exec X S (Unit {0}))
    pub monotonic : S → F.Float × S
    pub sleep : F.Float → Exec X S (Unit {0})
    pub overflow : X

  module _ (c : Callbacks) (speed : F.Float) where
    -- `if delay > 0: sleep(delay)`
    unfoldable pub wait : F.Float → Exec X S (Unit {0})
    wait delay s = if F.is_positive delay then c.sleep delay s else (ok tt, s)

    -- How long it is to an event's time, from when the replay started and what the clock shows.
    abbrev pub delay_of : F.Float → F.Float → F.Float → F.Float
    delay_of started offset now = F.sub (F.add started (F.div offset speed)) now

    -- The branch `speed > 0`, with the offset of the event.
    unfoldable pub pace_by : Option F.Float → Pacing F → Exec X S (Pacing F)
    unfolding wait
    pace_by none pacing s = (err c.overflow, s)
    pace_by (some offset) pacing s =
        let (now, s') = c.monotonic s in
        continue (wait (delay_of pacing.replay_started offset now) s').0
          (wait (delay_of pacing.replay_started offset now) s').1 (λ _. pure pacing)

    -- The branches in front of `emit`.
    unfoldable pub pace : UserBehaviorEvent → Pacing F → Exec X S (Pacing F)
    unfolding pace_by
    pace event pacing s = elim pacing.first_event_time_ms [
      | none ↦
          let (now, s') = c.monotonic s in
          (ok (record { first_event_time_ms = some event.event_time_ms; replay_started = now }), s')
      | some first ↦
          let offset = F.seconds (at_least_zero (event.event_time_ms -ℤ first)) in
          if F.is_positive speed then pace_by offset pacing s else (ok pacing, s)
    ]

    -- `for issue in batch.issues: on_invalid(issue)`
    unfoldable pub report :
        (ParseIssue → Exec X S (Unit {0})) → List ParseIssue → Exec X S (Unit {0})
    report on_invalid [] = pure tt
    report on_invalid (issue ∷ issues) = do on_invalid issue; report on_invalid issues

    unfoldable pub report_all : List ParseIssue → Exec X S (Unit {0})
    unfolding report
    report_all issues = elim c.on_invalid [
      | none ↦ pure tt
      | some on_invalid ↦ report on_invalid issues
    ]

    -- `for event in batch.events`, from a pace and a count of emitted events.
    unfoldable pub emit_all : List UserBehaviorEvent → Pacing F → ℕ → Exec X S (Pacing F × ℕ)
    unfolding pace
    emit_all [] pacing emitted = pure (pacing, emitted)
    emit_all (event ∷ events) pacing emitted = do
      pacing' ← pace event pacing
      c.emit event
      emit_all events pacing' (emitted + 1)

    -- `for batch in iter_event_batches(...)`
    unfoldable pub play : List ReplayBatch → Pacing F → ReplayStats → Exec X S ReplayStats
    unfolding emit_all report_all
    play [] pacing stats = pure stats
    play (batch ∷ batches) pacing stats = do
      report_all batch.issues
      (pacing', emitted) ← emit_all batch.events pacing stats.emitted_events
      play batches pacing' (record {
        source_rows = stats.source_rows + batch.source_rows;
        emitted_events = emitted;
        invalid_rows = stats.invalid_rows + length batch.issues;
        batches = stats.batches + 1;
      })

    abbrev pub raising : Result X ReplayStats × S → Result (ReplayError X) ReplayStats × S
    raising (ok stats, s) = (ok stats, s)
    raising (err x, s) = (err (raised x), s)

    abbrev pub start : Pacing F
    start = record { first_event_time_ms = none; replay_started = F.zero }

    abbrev pub no_stats : ReplayStats
    no_stats = record { source_rows = 0; emitted_events = 0; invalid_rows = 0; batches = 0 }

    unfoldable pub replay_file :
        (Text → Text) → Text → List (List Text) → ℤ → Exec (ReplayError X) S ReplayStats
    unfolding iter_event_batches play
    replay_file sha256 replay_run_id rows batch_size s =
        if F.is_negative speed
        then (err negative_speed, s)
        else elim (iter_event_batches sha256 replay_run_id rows batch_size) [
          | none ↦ (err bad_batch_size, s)
          | some batches ↦ raising (play batches start no_stats s)
        ]
