-- ===== src/Replay/Player/Kept.antt =====
-- What a replay leaves as it was, whether it returns or raises.
use kafka_flink_click_house.Base.{
  refl, ℕ, ◌+◌, ◌≡◌, Bool-cases, Option, none, some, Option-cases, List, [], ◌∷◌, Text, ℤ, Result,
  ok, err, inl, inr,
}
use kafka_flink_click_house.Base.Exec.{Exec, continue, pure}
use kafka_flink_click_house.Events.{UserBehaviorEvent}
use kafka_flink_click_house.Replay.Reader.{ParseIssue, ReplayBatch, iter_event_batches}
use kafka_flink_click_house.Replay.Player.{
  ReplayStats, Floats, Callbacks, Pacing, wait, delay_of, pace_by, pace, report, report_all,
  emit_all, play, start, no_stats, raising, replay_file,
}

-- A predicate that a chain of calls keeps, if each does.
pub continue_keeps :
    {E S A B : Type 0} (K : S → Type 0) (r : Result E A) (s : S) (f : A → Exec E S B)
    → K s
    → ((a : A) → r ≡ ok a → K (f a s).1)
    → K (continue r s f).1
continue_keeps K (ok a) s f k rest = rest a refl
continue_keeps K (err e) s f k rest = k

module _ (F : Floats) (X S : Type 0) (c : Callbacks F X S) (speed : F.Float) (K : S → Type 0)
    (reject : ParseIssue → Exec X S (Unit {0})) where
  -- Each callback keeps it.
  pub record IsKept : Type 0 where
    pub emits : (event : UserBehaviorEvent) (s : S) → K s → K (c.emit event s).1
    pub rejects : (issue : ParseIssue) (s : S) → K s → K (reject issue s).1
    pub on_invalid : c.on_invalid ≡ some reject
    pub clock : (s : S) → K s → K (c.monotonic s).1
    pub rest : (delay : F.Float) (s : S) → K s → K (c.sleep delay s).1

  module _ (laws : IsKept) where
    wait-K : (delay : F.Float) (s : S) → K s → K (wait F X S c speed delay s).1
    unfolding wait
    wait-K delay s k = elim (Bool-cases (F.is_positive delay)) [
      | inl late ↦ rw late (laws.rest delay s k)
      | inr early ↦ rw early k
    ]

    pace_by-K :
        (offset : Option F.Float) (p : Pacing F) (s : S)
        → K s
        → K (pace_by F X S c speed offset p s).1
    unfolding pace_by
    pace_by-K none p s k = k
    pace_by-K (some offset) p s k =
        let (now, s') = c.monotonic s in
        let k' = wait-K (delay_of F X S c speed p.replay_started offset now) s' (laws.clock s k) in
        continue_keeps K _ _ (λ _. pure p) k' λ _ _. k'

    pace-K :
        (event : UserBehaviorEvent) (first : Option ℤ) (started : F.Float) (s : S)
        → K s
        → K
            (pace F X S c speed event
              (record { first_event_time_ms = first; replay_started = started })
              s).1
    unfolding pace
    pace-K event none started s k = laws.clock s k
    pace-K event (some t) started s k = elim (Bool-cases (F.is_positive speed)) [
      | inl paced ↦ rw paced (pace_by-K _ _ s k)
      | inr free ↦ rw free k
    ]

    report-K : (issues : List ParseIssue) (s : S) → K s → K (report F X S c speed reject issues s).1
    unfolding report
    report-K [] s k = k
    report-K (i ∷ issues) s k =
        let k' = laws.rejects i s k in
        continue_keeps K (reject i s).0 (reject i s).1 _ k' λ _ _. report-K issues (reject i s).1 k'

    report_all-K :
        (issues : List ParseIssue) (s : S) → K s → K (report_all F X S c speed issues s).1
    unfolding report_all
    report_all-K issues s k = rw (laws.on_invalid) (report-K issues s k)

    emit_all-K :
        (events : List UserBehaviorEvent) (p : Pacing F) (n : ℕ) (s : S)
        → K s
        → K (emit_all F X S c speed events p n s).1
    unfolding emit_all
    emit_all-K [] p n s k = k
    emit_all-K (e ∷ events) p n s k =
        let (q, s') = pace F X S c speed e p s in
        let k₁ = pace-K e p.first_event_time_ms p.replay_started s k in
        continue_keeps K q s' _ k₁ λ q' _.
          let k₂ = laws.emits e s' k₁ in
          continue_keeps K (c.emit e s').0 (c.emit e s').1 _ k₂
            λ _ _. emit_all-K events q' (n + 1) (c.emit e s').1 k₂

    play-K :
        (bs : List ReplayBatch) (p : Pacing F) (stats : ReplayStats) (s : S)
        → K s
        → K (play F X S c speed bs p stats s).1
    unfolding play
    play-K [] p stats s k = k
    play-K (b ∷ bs) p stats s k =
        let (reported, s₁) = report_all F X S c speed b.issues s in
        let k₁ = report_all-K b.issues s k in
        continue_keeps K reported s₁ _ k₁ λ _ _.
          let (emitted, s₂) = emit_all F X S c speed b.events p stats.emitted_events s₁ in
          let k₂ = emit_all-K b.events p stats.emitted_events s₁ k₁ in
          continue_keeps K emitted s₂ _ k₂ λ (p', n) _. play-K bs p' _ s₂ k₂

    raising-K : (r : Result X ReplayStats × S) → K r.1 → K (raising F X S c speed r).1
    raising-K (ok stats, s) k = k
    raising-K (err x, s) k = k

    -- A replay keeps what its callbacks keep, whether it returns or raises.
    pub replay_file-K :
        (sha256 : Text → Text) (run_id : Text) (rows : List (List Text)) (size : ℤ) (s : S)
        → K s
        → K (replay_file F X S c speed sha256 run_id rows size s).1
    unfolding replay_file
    replay_file-K sha256 run_id rows size s k = elim (Bool-cases (F.is_negative speed)) [
      | inl negative ↦ rw negative k
      | inr fine ↦ elim (Option-cases (iter_event_batches sha256 run_id rows size)) [
        | inl bad ↦ rw (fine, bad) k
        | inr (bs, split) ↦
            rw (fine, split)
              (raising-K _ (play-K bs (start F X S c speed) (no_stats F X S c speed) s k))
      ]
    ]
