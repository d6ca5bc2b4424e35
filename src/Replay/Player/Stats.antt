-- ===== src/Replay/Player/Stats.antt =====
-- What `replay_file` counts, whatever its callbacks do.
use kafka_flink_click_house.Base.{
  ℕ, ◌+◌, ◌*◌, ◌≤◌, ◌<◌, ◌≡◌, ap, Bool-cases, some, List, [], ◌∷◌, Text, arith, ℤ, pos, Result, ok,
  err, inl, inr, length, length-append, All,
}
use kafka_flink_click_house.Base.Exec.{continue-eq-ok}
use kafka_flink_click_house.Events.{UserBehaviorEvent}
use kafka_flink_click_house.Replay.Reader.{ReplayBatch, iter_source_rows, iter_event_batches}
use kafka_flink_click_house.Replay.Reader.Batches.{
  all_events, all_issues, all_rows, accepted, rejected, IsCounted, IsFilled,
}
use kafka_flink_click_house.Replay.Reader.Splits.{iter_event_batches-IsSplit}
use kafka_flink_click_house.Replay.Player.{
  ReplayStats, Floats, Callbacks, Pacing, pace, report_all, emit_all, play, start, no_stats,
  raising, replay_file,
}

-- The number of batches is the number of rows over the size, rounded up.
filled_count :
    (size : ℕ) (bs : List ReplayBatch)
    → 0 < size
    → IsFilled size bs
    → (all_rows bs ≤ size * length bs) × (size * length bs < all_rows bs + size)
filled_count size [] positive h = (omega arith, omega arith)
filled_count size (b ∷ []) positive h = (omega arith, omega arith)
filled_count size (b ∷ c ∷ bs) positive h =
    let (low, high) = filled_count size (c ∷ bs) positive h.1 in (omega arith, omega arith)

-- Statistics that count some batches on top of others.
pub record Counts (before after : ReplayStats) (bs : List ReplayBatch) : Type 0 where
  pub source_rows : after.source_rows ≡ before.source_rows + all_rows bs
  pub emitted_events : after.emitted_events ≡ before.emitted_events + length (all_events bs)
  pub invalid_rows : after.invalid_rows ≡ before.invalid_rows + length (all_issues bs)
  pub batches : after.batches ≡ before.batches + length bs

counted_rows :
    (bs : List ReplayBatch)
    → All IsCounted bs
    → all_rows bs ≡ length (all_events bs) + length (all_issues bs)
counted_rows [] h = omega arith
counted_rows (b ∷ bs) h = omega (
  arith,
  h.0,
  counted_rows bs h.1,
  length-append b.events (all_events bs),
  length-append b.issues (all_issues bs),
)

module _ (F : Floats) (X S : Type 0) (c : Callbacks F X S) (speed : F.Float) where
  emit_all-count :
      (events : List UserBehaviorEvent) (p p' : Pacing F) (n m : ℕ) (s : S)
      → (emit_all F X S c speed events p n s).0 ≡ ok (p', m)
      → m ≡ n + length events
  unfolding emit_all
  emit_all-count [] p p' n m s h = ground arith
  emit_all-count (e ∷ events) p p' n m s h =
      let (q, s₁) = pace F X S c speed e p s in
      let (q', _, h₁) = continue-eq-ok q s₁ _ (p', m) h in
      let (_, _, rest) = continue-eq-ok (c.emit e s₁).0 (c.emit e s₁).1 _ (p', m) h₁ in
      omega (arith, emit_all-count events q' p' (n + 1) m (c.emit e s₁).1 rest)

  play-Counts :
      (bs : List ReplayBatch) (p : Pacing F) (before after : ReplayStats) (s : S)
      → (play F X S c speed bs p before s).0 ≡ ok after
      → Counts before after bs
  unfolding play
  play-Counts [] p before after s h = ground arith
  play-Counts (b ∷ bs) p before after s h =
      let reported = report_all F X S c speed b.issues s in
      let (_, _, h₁) = continue-eq-ok reported.0 reported.1 _ after h in
      let emitted = emit_all F X S c speed b.events p before.emitted_events reported.1 in
      let ((p', n), counted, h₂) = continue-eq-ok emitted.0 emitted.1 _ after h₁ in
      let rest = play-Counts bs p' _ after emitted.1 h₂ in
      let emits = emit_all-count b.events p p' before.emitted_events n reported.1 counted in
      record {
        source_rows = omega (arith, rest.source_rows);
        emitted_events =
            omega (arith, rest.emitted_events, emits, length-append b.events (all_events bs));
        invalid_rows = omega (arith, rest.invalid_rows, length-append b.issues (all_issues bs));
        batches = omega (arith, rest.batches);
      }

  raising-eq-ok :
      (r : Result X ReplayStats × S) (stats : ReplayStats)
      → (raising F X S c speed r).0 ≡ ok stats
      → r.0 ≡ ok stats
  raising-eq-ok (ok x, s) stats h = cc
  raising-eq-ok (err x, s) stats h = cc

  played :
      (sha256 : Text → Text) (run_id : Text) (rows : List (List Text)) (size : ℤ) (s : S)
      (bs : List ReplayBatch) (stats : ReplayStats)
      → iter_event_batches sha256 run_id rows size ≡ some bs
      → (replay_file F X S c speed sha256 run_id rows size s).0 ≡ ok stats
      → (play F X S c speed bs (start F X S c speed) (no_stats F X S c speed) s).0 ≡ ok stats
  unfolding replay_file
  played sha256 run_id rows size s bs stats split h = elim (Bool-cases (F.is_negative speed)) [
    | inl negative ↦ absurd (ground arith)
    | inr fine ↦ raising-eq-ok _ stats (rw (fine, split) at h)
  ]

  -- If a replay ends with statistics, they count what the file holds, whatever the callbacks did:
  -- each data row once, the accepted ones as emitted and the others as invalid, and the batches of
  -- `size` rows that they fill, the last one perhaps in part.
  pub replay_file-stats :
      (sha256 : Text → Text) (run_id : Text) (rows : List (List Text)) (size : ℕ) (s : S)
      (stats : ReplayStats)
      → 0 < size
      → (replay_file F X S c speed sha256 run_id rows (pos size) s).0 ≡ ok stats
      → (stats.source_rows ≡ length (iter_source_rows rows))
        × (stats.emitted_events ≡ length (accepted sha256 run_id (iter_source_rows rows)))
        × (stats.invalid_rows ≡ length (rejected sha256 run_id (iter_source_rows rows)))
        × (stats.emitted_events + stats.invalid_rows ≡ stats.source_rows)
        × (stats.source_rows ≤ size * stats.batches)
        × (size * stats.batches < stats.source_rows + size)
  replay_file-stats sha256 run_id rows size s stats positive h =
      let (bs, split, events, issues, kept, filled, counted) =
        iter_event_batches-IsSplit sha256 run_id rows size positive in
      let n =
        play-Counts bs (start F X S c speed) (no_stats F X S c speed) stats s
          (played sha256 run_id rows (pos size) s bs stats split h) in
      let (low, high) = filled_count size bs positive filled in
      let all_emitted = ap length events in
      let all_invalid = ap length issues in
      let total = counted_rows bs counted in
      (
        omega (arith, n.source_rows, kept),
        omega (arith, n.emitted_events, all_emitted),
        omega (arith, n.invalid_rows, all_invalid),
        omega (arith, n.source_rows, n.emitted_events, n.invalid_rows, total),
        rw n.batches (omega (arith, n.source_rows, low)),
        rw n.batches (omega (arith, n.source_rows, high)),
      )
