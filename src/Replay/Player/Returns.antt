-- ===== src/Replay/Player/Returns.antt =====
-- When a replay returns, and what it ran then.
use kafka_flink_click_house.Base.{
  ℕ, zero, suc, ◌+◌, ◌<◌, ◌≡◌, refl, sym, ap, ◌∙◌, true, false, Bool-cases, none, some,
  Option-cases, List, [], ◌∷◌, Text, ℤ, pos, negsuc, Result, ok, err, inl, inr, ◌⊎◌, arith, Bool,
  subst, All, All-split, All-of-each,
}
use kafka_flink_click_house.Base.Exec.{Exec, continue_ok}
use kafka_flink_click_house.Events.{UserBehaviorEvent}
use kafka_flink_click_house.Replay.Reader.{
  ParseIssue, ReplayBatch, iter_event_batches, iter_source_rows,
}
use kafka_flink_click_house.Replay.Reader.Batches.{all_events, accepted}
use kafka_flink_click_house.Replay.Player.Timing.{
  IsPaceable, IsClocked, Paces, free-Paces, paceable-Paces,
}
use kafka_flink_click_house.Replay.Reader.Splits.{iter_event_batches-IsSplit}
use kafka_flink_click_house.Replay.Player.{
  ReplayStats, Floats, Callbacks, Pacing, pace, report, report_all, emit_all, play, negative_speed,
  bad_batch_size, start, no_stats, raising, replay_file,
}

-- A batch size with which batches are made.
pub positive_size :
    (sha256 : Text → Text) (run_id : Text) (rows : List (List Text)) (size : ℤ)
    (bs : List ReplayBatch)
    → iter_event_batches sha256 run_id rows size ≡ some bs
    → (n : ℕ) × (size ≡ pos n) × (0 < n)
unfolding iter_event_batches
positive_size sha256 run_id rows (pos zero) bs h = cc
positive_size sha256 run_id rows (pos (suc n)) bs h = (suc n, refl, omega arith)
positive_size sha256 run_id rows (negsuc n) bs h = ground (arith, h)

module _ (F : Floats) (X S : Type 0) (c : Callbacks F X S) (speed : F.Float) where
  raising-ok :
      (r : Result X ReplayStats × S) (stats : ReplayStats)
      → (raising F X S c speed r).0 ≡ ok stats
      → (r.0 ≡ ok stats) × ((raising F X S c speed r).1 ≡ r.1)
  raising-ok (ok x, s) stats h = (cc, refl)
  raising-ok (err e, s) stats h = cc

  ok-raising :
      (r : Result X ReplayStats × S) (stats : ReplayStats)
      → r.0 ≡ ok stats
      → (raising F X S c speed r).0 ≡ ok stats
  ok-raising (ok x, s) stats h = cc
  ok-raising (err e, s) stats h = cc

  -- The run of the batches behind the guards.
  abbrev pub played : List ReplayBatch → S → Result X ReplayStats × S
  played bs s = play F X S c speed bs (start F X S c speed) (no_stats F X S c speed) s

  abbrev pub Played : (Text → Text) → Text → List (List Text) → ℤ → S → ReplayStats → Type 0
  Played sha256 run_id rows size s stats =
      (bs : List ReplayBatch) × (iter_event_batches sha256 run_id rows size ≡ some bs)
      × ((played bs s).0 ≡ ok stats)
      × ((replay_file F X S c speed sha256 run_id rows size s).1 ≡ (played bs s).1)

  module _ (sha256 : Text → Text) (run_id : Text) (rows : List (List Text)) (size : ℤ) (s : S) where
    replay_negative :
        F.is_negative speed ≡ true
        → replay_file F X S c speed sha256 run_id rows size s ≡ (err negative_speed, s)
    unfolding replay_file
    replay_negative negative = rw negative refl

    replay_bad :
        F.is_negative speed ≡ false
        → iter_event_batches sha256 run_id rows size ≡ none
        → replay_file F X S c speed sha256 run_id rows size s ≡ (err bad_batch_size, s)
    unfolding replay_file
    replay_bad fine bad = rw (fine, bad) refl

    pub replay_run :
        (bs : List ReplayBatch)
        → F.is_negative speed ≡ false
        → iter_event_batches sha256 run_id rows size ≡ some bs
        → replay_file F X S c speed sha256 run_id rows size s ≡ raising F X S c speed (played bs s)
    unfolding replay_file
    replay_run bs fine split = rw (fine, split) refl

    pub replay_file-Played :
        (stats : ReplayStats)
        → (replay_file F X S c speed sha256 run_id rows size s).0 ≡ ok stats
        → Played sha256 run_id rows size s stats
    replay_file-Played stats h = elim (Bool-cases (F.is_negative speed)) [
      | inl negative ↦ cc (sym (ap (λ x. x.0) (replay_negative negative)) ∙ h)
      | inr fine ↦ elim (Option-cases (iter_event_batches sha256 run_id rows size)) [
        | inl bad ↦ cc (sym (ap (λ x. x.0) (replay_bad fine bad)) ∙ h)
        | inr (bs, split) ↦
            let run = replay_run bs fine split in
            let (returned, left) = raising-ok (played bs s) stats (sym (ap (λ x. x.0) run) ∙ h) in
            (bs, split, returned, ap (λ x. x.1) run ∙ left)
      ]
    ]

-- Callbacks that raise nothing.
pub record IsTotal (F : Floats) (X S : Type 0) (c : Callbacks F X S)
    (reject : ParseIssue → Exec X S (Unit {0})) : Type 0 where
  pub emits : (event : UserBehaviorEvent) (s : S) → (c.emit event s).0 ≡ ok tt
  pub rejects : (issue : ParseIssue) (s : S) → (reject issue s).0 ≡ ok tt
  pub on_invalid : c.on_invalid ≡ some reject

module _ (F : Floats) (X S : Type 0) (c : Callbacks F X S) (speed : F.Float)
    (reject : ParseIssue → Exec X S (Unit {0})) (t : IsTotal F X S c reject) where
  report-ok : (issues : List ParseIssue) (s : S) → (report F X S c speed reject issues s).0 ≡ ok tt
  unfolding report
  report-ok [] s = refl
  report-ok (i ∷ issues) s =
      ap (λ x. x.0) (continue_ok (reject i s).0 (reject i s).1 _ tt (t.rejects i s))
      ∙ report-ok issues (reject i s).1

  report_all-ok : (issues : List ParseIssue) (s : S) → (report_all F X S c speed issues s).0 ≡ ok tt
  unfolding report_all
  report_all-ok issues s = rw (t.on_invalid) (report-ok issues s)

  module _ (G : UserBehaviorEvent → Type 0) (K : Pacing F → Type 0)
      (paced : Paces F X S c speed G K) where
    emit_all-ok :
        (events : List UserBehaviorEvent) (p : Pacing F) (n : ℕ) (s : S)
        → All G events
        → K p
        → (after : Pacing F × ℕ) × ((emit_all F X S c speed events p n s).0 ≡ ok after) × K after.0
    unfolding emit_all
    emit_all-ok [] p n s g k = ((p, n), refl, k)
    emit_all-ok (e ∷ events) p n s (g, more) k =
        let (q, paces, k') = paced.paces e p s g k in
        let (paced_to, s') = pace F X S c speed e p s in
        let (after, h, kept) = emit_all-ok events q (n + 1) (c.emit e s').1 more k' in
        (
          after,
          ap (λ x. x.0)
                (continue_ok paced_to s' _ q paces
                  ∙ continue_ok (c.emit e s').0 (c.emit e s').1 _ tt (t.emits e s'))
              ∙ h,
          kept,
        )

    play-ok :
        (bs : List ReplayBatch) (p : Pacing F) (stats : ReplayStats) (s : S)
        → All G (all_events bs)
        → K p
        → (after : ReplayStats) × ((play F X S c speed bs p stats s).0 ≡ ok after)
    unfolding play
    play-ok [] p stats s g k = (stats, refl)
    play-ok (b ∷ bs) p stats s g k =
        let (here, there) = All-split G b.events (all_events bs) g in
        let (reported, s₁) = report_all F X S c speed b.issues s in
        let (emitted, s₂) = emit_all F X S c speed b.events p stats.emitted_events s₁ in
        let ((p', n), e, k') = emit_all-ok b.events p stats.emitted_events s₁ here k in
        let (after, h) = play-ok bs p' _ s₂ there k' in
        (
          after,
          ap (λ x. x.0)
                (continue_ok reported s₁ _ tt (report_all-ok b.issues s)
                  ∙ continue_ok emitted s₂ _ (p', n) e)
              ∙ h,
        )

    -- With a positive batch size and a speed that is not negative, a replay whose callbacks and pace
    -- raise nothing returns.
    replay_file-ok :
        (sha256 : Text → Text) (run_id : Text) (rows : List (List Text)) (size : ℕ) (s : S)
        → 0 < size
        → F.is_negative speed ≡ false
        → All G (accepted sha256 run_id (iter_source_rows rows))
        → K (start F X S c speed)
        → (stats : ReplayStats) × ((replay_file F X S c speed sha256 run_id rows (pos size) s).0
            ≡ ok stats)
    replay_file-ok sha256 run_id rows size s positive fine g k =
        let (bs, split, events, _, _, _, _) =
          iter_event_batches-IsSplit sha256 run_id rows size positive in
        let (stats, h) =
          play-ok bs (start F X S c speed) (no_stats F X S c speed) s (subst (All G) (sym events) g)
            k in
        (
          stats,
          ap (λ x. x.0) (replay_run F X S c speed sha256 run_id rows (pos size) s bs fine split)
              ∙ ok-raising F X S c speed (played F X S c speed bs s) stats h,
        )

  -- And the pace raises nothing without a speed, or with times that can be slept.
  pub replay_file_returns :
      (sha256 : Text → Text) (run_id : Text) (rows : List (List Text)) (size : ℕ) (s : S)
      (T : Type 0) (now : T → F.Float) (can_sleep : F.Float → Bool)
      → IsClocked F X S c speed T now can_sleep
      → 0 < size
      → F.is_negative speed ≡ false
      → (F.is_positive speed ≡ false)
        ⊎ IsPaceable F speed T now can_sleep (accepted sha256 run_id (iter_source_rows rows))
      → (stats : ReplayStats) × ((replay_file F X S c speed sha256 run_id rows (pos size) s).0
          ≡ ok stats)
  replay_file_returns sha256 run_id rows size s T now can_sleep clocked positive fine paceable =
      elim (Bool-cases (F.is_positive speed)) [
        | inr free ↦
            replay_file-ok _ _ (free-Paces F X S c speed free) sha256 run_id rows size s positive
              fine (All-of-each (λ e. Unit {0}) (λ e. tt) _) tt
        | inl fast ↦ elim paceable [
          | inl free ↦ cc
          | inr h ↦
              replay_file-ok _ _ (paceable-Paces F X S c speed T now can_sleep clocked _ h fast)
                sha256 run_id rows size s positive fine h.within tt
        ]
      ]
