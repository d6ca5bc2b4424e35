-- ===== src/Replay/Player/Observed.antt =====
-- What a replay leaves in a client that raises or keeps state: lemmas on any part of the client's
-- state that its callbacks extend in a known way.
use kafka_flink_click_house.Base.{
  map, ℕ, ◌+◌, ◌≡◌, refl, sym, ap, ◌∙◌, Bool-cases, Option, none, some, List, [], ◌∷◌, ◌++◌,
  append_assoc, append-nil, Text, ℤ, ok, inl, inr,
}
use kafka_flink_click_house.Base.Exec.{Exec, continue_returns, pure}
use kafka_flink_click_house.Events.{UserBehaviorEvent}
use kafka_flink_click_house.Replay.Reader.{ParseIssue, ReplayBatch, iter_source_rows}
use kafka_flink_click_house.Replay.Reader.Batches.{all_events, all_issues, accepted, rejected}
use kafka_flink_click_house.Replay.Reader.Splits.{iter_event_batches-IsSplit}
use kafka_flink_click_house.Replay.Player.Returns.{replay_file-Played, positive_size}
use kafka_flink_click_house.Replay.Player.Kept.{continue_keeps}
use kafka_flink_click_house.Replay.Player.{
  ReplayStats, Floats, Callbacks, Pacing, wait, delay_of, pace_by, pace, report, report_all,
  emit_all, play, start, no_stats, replay_file,
}

-- `f` of each element, one behind the other.
abbrev pub flat : {A B : Type 0} → (A → List B) → List A → List B
flat f [] = []
flat f (x ∷ xs) = f x ++ flat f xs

pub flat-single : {A : Type 0} (xs : List A) → flat (λ x. x ∷ []) xs ≡ xs
flat-single [] = refl
flat-single (x ∷ xs) = ap (λ l. x ∷ l) (flat-single xs)

pub flat-map : {A B : Type 0} (f : A → B) (xs : List A) → flat (λ x. f x ∷ []) xs ≡ map f xs
flat-map f [] = refl
flat-map f (x ∷ xs) = ap (λ l. f x ∷ l) (flat-map f xs)

flat-nil : {A B : Type 0} (f : A → List B) → ((a : A) → f a ≡ []) → (xs : List A) → flat f xs ≡ []
flat-nil f quiet [] = refl
flat-nil f quiet (x ∷ xs) = ap (λ l. l ++ flat f xs) (quiet x) ∙ flat-nil f quiet xs

flat-append :
    {A B : Type 0} (f : A → List B) (xs ys : List A) → flat f (xs ++ ys) ≡ flat f xs ++ flat f ys
flat-append f [] ys = refl
flat-append f (x ∷ xs) ys =
    ap (λ l. f x ++ l) (flat-append f xs ys) ∙ sym (append_assoc (f x) (flat f xs) (flat f ys))

module _ (F : Floats) (X S A : Type 0) (c : Callbacks F X S) (speed : F.Float) where
  -- A list in the client's state, which each call that returns extends.
  pub record IsObserved (reject : ParseIssue → Exec X S (Unit {0})) (observe : S → List A)
      (of_event : UserBehaviorEvent → List A) (of_issue : ParseIssue → List A) : Type 0 where
    pub emits :
        (event : UserBehaviorEvent) (s : S)
        → (c.emit event s).0 ≡ ok tt
        → observe (c.emit event s).1 ≡ observe s ++ of_event event
    pub rejects :
        (issue : ParseIssue) (s : S)
        → (reject issue s).0 ≡ ok tt
        → observe (reject issue s).1 ≡ observe s ++ of_issue issue
    pub on_invalid : c.on_invalid ≡ some reject
    pub clock : (s : S) → observe (c.monotonic s).1 ≡ observe s
    pub rest : (delay : F.Float) (s : S) → observe (c.sleep delay s).1 ≡ observe s

  module _ (reject : ParseIssue → Exec X S (Unit {0})) (observe : S → List A)
      (of_event : UserBehaviorEvent → List A) (of_issue : ParseIssue → List A)
      (laws : IsObserved reject observe of_event of_issue) where
    -- What the batches leave.
    abbrev pub log : List ReplayBatch → List A
    log [] = []
    log (b ∷ bs) = (flat of_issue b.issues ++ flat of_event b.events) ++ log bs

    wait-observed : (delay : F.Float) (s : S) → observe (wait F X S c speed delay s).1 ≡ observe s
    unfolding wait
    wait-observed delay s = elim (Bool-cases (F.is_positive delay)) [
      | inl late ↦ rw late (laws.rest delay s)
      | inr early ↦ rw early refl
    ]

    pace_by-observed :
        (offset : Option F.Float) (p : Pacing F) (s : S)
        → observe (pace_by F X S c speed offset p s).1 ≡ observe s
    unfolding pace_by
    pace_by-observed none p s = refl
    pace_by-observed (some offset) p s =
        let (now, s') = c.monotonic s in
        let delay = delay_of F X S c speed p.replay_started offset now in
        continue_keeps (λ t. observe t ≡ observe s) _ _ (λ _. pure p)
          (wait-observed delay s' ∙ laws.clock s) λ _ _. wait-observed delay s' ∙ laws.clock s

    pace-observed :
        (event : UserBehaviorEvent) (first : Option ℤ) (started : F.Float) (s : S)
        → observe
            (pace F X S c speed event
              (record { first_event_time_ms = first; replay_started = started })
              s).1
          ≡ observe s
    unfolding pace
    pace-observed event none started s = laws.clock s
    pace-observed event (some t) started s = elim (Bool-cases (F.is_positive speed)) [
      | inl paced ↦ rw paced (pace_by-observed _ _ s)
      | inr free ↦ rw free refl
    ]

    report-observed :
        (issues : List ParseIssue) (s : S)
        → (report F X S c speed reject issues s).0 ≡ ok tt
        → observe (report F X S c speed reject issues s).1 ≡ observe s ++ flat of_issue issues
    unfolding report
    report-observed [] s h = sym (append-nil (observe s))
    report-observed (i ∷ issues) s h =
        let (_, first, then, same) = continue_returns (reject i s).0 (reject i s).1 _ tt h in
        ap (λ x. observe x.1) same
        ∙ report-observed issues (reject i s).1 then
        ∙ ap (λ l. l ++ flat of_issue issues) (laws.rejects i s first)
        ∙ append_assoc (observe s) (of_issue i) (flat of_issue issues)

    report_all-observed :
        (issues : List ParseIssue) (s : S)
        → (report_all F X S c speed issues s).0 ≡ ok tt
        → observe (report_all F X S c speed issues s).1 ≡ observe s ++ flat of_issue issues
    unfolding report_all
    report_all-observed issues s = rw (laws.on_invalid) (report-observed issues s)

    emit_all-observed :
        (events : List UserBehaviorEvent) (p : Pacing F) (n : ℕ) (s : S) (after : Pacing F × ℕ)
        → (emit_all F X S c speed events p n s).0 ≡ ok after
        → observe (emit_all F X S c speed events p n s).1 ≡ observe s ++ flat of_event events
    unfolding emit_all
    emit_all-observed [] p n s after h = sym (append-nil (observe s))
    emit_all-observed (e ∷ events) p n s after h =
        let (q, s') = pace F X S c speed e p s in
        let (q', paced, h₁, same₁) = continue_returns q s' _ after h in
        let (_, first, then, same) = continue_returns (c.emit e s').0 (c.emit e s').1 _ after h₁ in
        ap (λ x. observe x.1) (same₁ ∙ same)
        ∙ emit_all-observed events q' (n + 1) (c.emit e s').1 after then
        ∙ ap (λ l. l ++ flat of_event events)
            (laws.emits e s' first
              ∙ ap (λ l. l ++ of_event e)
                  (pace-observed e p.first_event_time_ms p.replay_started s))
        ∙ append_assoc (observe s) (of_event e) (flat of_event events)

    play-observed :
        (bs : List ReplayBatch) (p : Pacing F) (stats after : ReplayStats) (s : S)
        → (play F X S c speed bs p stats s).0 ≡ ok after
        → observe (play F X S c speed bs p stats s).1 ≡ observe s ++ log bs
    unfolding play
    play-observed [] p stats after s h = sym (append-nil (observe s))
    play-observed (b ∷ bs) p stats after s h =
        let (reported, s₁) = report_all F X S c speed b.issues s in
        let (_, first, then, same) = continue_returns reported s₁ _ after h in
        let (emitted, s₂) = emit_all F X S c speed b.events p stats.emitted_events s₁ in
        let ((p', n), second, then', same') = continue_returns emitted s₂ _ after then in
        ap (λ x. observe x.1) (same ∙ same')
        ∙ play-observed bs p' _ after s₂ then'
        ∙ ap (λ l. l ++ log bs)
            (emit_all-observed b.events p stats.emitted_events s₁ (p', n) second
              ∙ ap (λ l. l ++ flat of_event b.events) (report_all-observed b.issues s first)
              ∙ append_assoc (observe s) (flat of_issue b.issues) (flat of_event b.events))
        ∙ append_assoc (observe s) (flat of_issue b.issues ++ flat of_event b.events) (log bs)

    -- A replay that returns leaves what its events leave, if rejected rows leave nothing, and what
    -- those leave if events leave nothing.
    log-events :
        ((i : ParseIssue) → of_issue i ≡ [])
        → (bs : List ReplayBatch) → log bs ≡ flat of_event (all_events bs)
    log-events quiet [] = refl
    log-events quiet (b ∷ bs) =
        ap (λ l. (l ++ flat of_event b.events) ++ log bs) (flat-nil of_issue quiet b.issues)
        ∙ ap (λ l. flat of_event b.events ++ l) (log-events quiet bs)
        ∙ sym (flat-append of_event b.events (all_events bs))

    log-issues :
        ((e : UserBehaviorEvent) → of_event e ≡ [])
        → (bs : List ReplayBatch) → log bs ≡ flat of_issue (all_issues bs)
    log-issues quiet [] = refl
    log-issues quiet (b ∷ bs) =
        ap (λ l. (flat of_issue b.issues ++ l) ++ log bs) (flat-nil of_event quiet b.events)
        ∙ ap (λ l. l ++ log bs) (append-nil (flat of_issue b.issues))
        ∙ ap (λ l. flat of_issue b.issues ++ l) (log-issues quiet bs)
        ∙ sym (flat-append of_issue b.issues (all_issues bs))

    module _ (sha256 : Text → Text) (run_id : Text) (rows : List (List Text)) (size : ℤ) (s : S)
        (stats : ReplayStats)
        (returned : (replay_file F X S c speed sha256 run_id rows size s).0 ≡ ok stats) where
      replay_file-log :
          (bs : List ReplayBatch) × (all_events bs ≡ accepted sha256 run_id (iter_source_rows rows))
          × (all_issues bs ≡ rejected sha256 run_id (iter_source_rows rows))
          × (observe (replay_file F X S c speed sha256 run_id rows size s).1 ≡ observe s ++ log bs)
      replay_file-log =
          let (bs, split, ran, left) =
            replay_file-Played F X S c speed sha256 run_id rows size s stats returned in
          let (n, size_n, positive) = positive_size sha256 run_id rows size bs split in
          let (bs', split', events, issues, _, _, _) =
            iter_event_batches-IsSplit sha256 run_id rows n positive in
          let same : bs ≡ bs' = cc (split, split', size_n) in
          (
            bs,
            ap all_events same ∙ events,
            ap all_issues same ∙ issues,
            ap observe left
                ∙ play-observed bs (start F X S c speed) (no_stats F X S c speed) stats s ran,
          )

      pub replay_file-events :
          ((i : ParseIssue) → of_issue i ≡ [])
          → observe (replay_file F X S c speed sha256 run_id rows size s).1
            ≡ observe s ++ flat of_event (accepted sha256 run_id (iter_source_rows rows))
      replay_file-events quiet =
          let (bs, events, _, left) = replay_file-log in
          left ∙ ap (λ l. observe s ++ l) (log-events quiet bs ∙ ap (flat of_event) events)

      pub replay_file-issues :
          ((e : UserBehaviorEvent) → of_event e ≡ [])
          → observe (replay_file F X S c speed sha256 run_id rows size s).1
            ≡ observe s ++ flat of_issue (rejected sha256 run_id (iter_source_rows rows))
      replay_file-issues quiet =
          let (bs, _, issues, left) = replay_file-log in
          left ∙ ap (λ l. observe s ++ l) (log-issues quiet bs ∙ ap (flat of_issue) issues)
