-- ===== src/Replay/Reader/Splits.antt =====
-- The batches hold the rows of the file, each once and in order, whatever their size.
use kafka_flink_click_house.Base.{
  ℕ, ◌+◌, ◌<◌, ◌≡◌, refl, sym, ap, ◌∙◌, true, false, Bool-cases, none, some, List, [], ◌∷◌, ◌++◌,
  append-nil, Text, ◌==◌, nat_eq, list_eq, ℤ, pos, int_eq, inl, inr, length, lt→ltb, ◌≤ℤ◌, ◌↔◌,
  arith, All,
}
use kafka_flink_click_house.Replay.Reader.Batches.{
  all_events, all_issues, all_rows, accepted, rejected, collect-events, collect-issues,
  collect-rows, IsCounted, collect-IsCounted, IsCounted-empty, IsFilled, IsFilled-cons,
}
use kafka_flink_click_house.Events.{parse_event}
use kafka_flink_click_house.Replay.Reader.{
  ReplayBatch, iter_source_rows, no_rows, collect, add_row, batches_from, iter_event_batches,
}

module _ (sha256 : Text → Text) (run_id : Text) where
  -- What the batches of some rows hold, behind what is collected.
  pub record IsSplit (size : ℕ) (b : ReplayBatch) (rows : List (ℕ × List Text))
      (bs : List ReplayBatch) : Type 0 where
    pub events : all_events bs ≡ b.events ++ accepted sha256 run_id rows
    pub issues : all_issues bs ≡ b.issues ++ rejected sha256 run_id rows
    pub rows_kept : all_rows bs ≡ b.source_rows + length rows
    pub filled : IsFilled size bs
    pub counted : All IsCounted bs

  IsSplit-end :
      (size : ℕ) (b : ReplayBatch)
      → IsCounted b
      → b.source_rows < size
      → IsSplit size b [] (batches_from sha256 run_id (pos size) b [])
  unfolding batches_from
  IsSplit-end size b counted room = elim (Bool-cases (b.source_rows == 0)) [
    | inl zero_rows ↦
        let (events, issues) = IsCounted-empty b counted (ground arith) in
        rw zero_rows (record {
          events = sym (append-nil b.events ∙ events);
          issues = sym (append-nil b.issues ∙ issues);
          rows_kept = ground arith;
          filled = tt;
          counted = tt;
        })
    | inr some_rows ↦ rw some_rows (record {
      events = refl;
      issues = refl;
      rows_kept = refl;
      filled = (ground arith, omega arith);
      counted = (counted, tt);
    })
  ]

  IsSplit-full :
      (size : ℕ) (b : ReplayBatch) (n : ℕ) (row : List Text) (rows : List (ℕ × List Text))
      (bs : List ReplayBatch)
      → 0 < size
      → IsCounted b
      → (add_row sha256 run_id b (n, row)).source_rows ≡ size
      → IsSplit size no_rows rows bs
      → IsSplit size b ((n, row) ∷ rows) (add_row sha256 run_id b (n, row) ∷ bs)
  unfolding add_row
  IsSplit-full size b n row rows bs positive counted full h =
      let r = parse_event sha256 row (pos n) run_id in
      let b' = collect b n row r in
      record {
        events =
            ap (λ l. b'.events ++ l) h.events
            ∙ collect-events b n row r (accepted sha256 run_id rows);
        issues =
            ap (λ l. b'.issues ++ l) h.issues
            ∙ collect-issues b n row r (rejected sha256 run_id rows);
        rows_kept = omega (arith, h.rows_kept, collect-rows b n row r);
        filled = IsFilled-cons size b' bs positive full h.filled;
        counted = (collect-IsCounted b n row r counted, h.counted);
      }

  IsSplit-more :
      (size : ℕ) (b : ReplayBatch) (n : ℕ) (row : List Text) (rows : List (ℕ × List Text))
      (bs : List ReplayBatch)
      → IsSplit size (add_row sha256 run_id b (n, row)) rows bs
      → IsSplit size b ((n, row) ∷ rows) bs
  unfolding add_row
  IsSplit-more size b n row rows bs h =
      let r = parse_event sha256 row (pos n) run_id in
      record {
        events = h.events ∙ collect-events b n row r (accepted sha256 run_id rows);
        issues = h.issues ∙ collect-issues b n row r (rejected sha256 run_id rows);
        rows_kept = omega (arith, h.rows_kept, collect-rows b n row r);
        filled = h.filled;
        counted = h.counted;
      }

  add_row-IsCounted :
      (b : ReplayBatch) (n : ℕ) (row : List Text)
      → IsCounted b
      → IsCounted (add_row sha256 run_id b (n, row))
  unfolding add_row
  add_row-IsCounted b n row h = collect-IsCounted b n row _ h

  add_row-rows :
      (b : ReplayBatch) (n : ℕ) (row : List Text)
      → (add_row sha256 run_id b (n, row)).source_rows ≡ b.source_rows + 1
  unfolding add_row
  add_row-rows b n row = collect-rows b n row _

  batches_from_full :
      (size : ℕ) (b : ReplayBatch) (row : ℕ × List Text) (rows : List (ℕ × List Text))
      → ((add_row sha256 run_id b row).source_rows == size) ≡ true
      → batches_from sha256 run_id (pos size) b (row ∷ rows)
        ≡ add_row sha256 run_id b row ∷ batches_from sha256 run_id (pos size) no_rows rows
  unfolding batches_from
  batches_from_full size b row rows h = rw h

  batches_from_more :
      (size : ℕ) (b : ReplayBatch) (row : ℕ × List Text) (rows : List (ℕ × List Text))
      → ((add_row sha256 run_id b row).source_rows == size) ≡ false
      → batches_from sha256 run_id (pos size) b (row ∷ rows)
        ≡ batches_from sha256 run_id (pos size) (add_row sha256 run_id b row) rows
  unfolding batches_from
  batches_from_more size b row rows h = rw h

  batches_from-IsSplit :
      (rows : List (ℕ × List Text)) (size : ℕ) (b : ReplayBatch)
      → IsCounted b
      → b.source_rows < size
      → IsSplit size b rows (batches_from sha256 run_id (pos size) b rows)
  batches_from-IsSplit [] size b counted room = IsSplit-end size b counted room
  batches_from-IsSplit ((n, row) ∷ rows) size b counted room =
      let b' = add_row sha256 run_id b (n, row) in
      let grown = add_row-rows b n row in
      elim (Bool-cases (b'.source_rows == size)) [
        | inl full ↦ rw (batches_from_full size b (n, row) rows full) (
            IsSplit-full size b n row rows _ (omega arith) counted (ground arith)
              (batches_from-IsSplit rows size no_rows refl (omega arith)))
        | inr more ↦ rw (batches_from_more size b (n, row) rows more) (
            IsSplit-more size b n row rows _ (
              batches_from-IsSplit rows size b' (add_row-IsCounted b n row counted) (ground arith)))
      ]

  -- With a positive size the reader returns batches. One behind the other they hold the events of
  -- the rows that `parse_event` accepts and the issues of the others, each once and in the order of
  -- the file, whatever the size. Every batch but the last has exactly `size` rows, the last has at
  -- least one and at most `size`, and each counts its events and its issues.
  pub iter_event_batches-IsSplit :
      (rows : List (List Text)) (size : ℕ)
      → 0 < size
      → (bs : List ReplayBatch) × (iter_event_batches sha256 run_id rows (pos size) ≡ some bs)
        × (all_events bs ≡ accepted sha256 run_id (iter_source_rows rows))
        × (all_issues bs ≡ rejected sha256 run_id (iter_source_rows rows))
        × (all_rows bs ≡ length (iter_source_rows rows))
        × IsFilled size bs
        × All IsCounted bs
  iter_event_batches-IsSplit rows size positive =
      let h = batches_from-IsSplit (iter_source_rows rows) size no_rows refl positive in
      (
        batches_from sha256 run_id (pos size) no_rows (iter_source_rows rows),
        positive_size,
        h.events,
        h.issues,
        omega (arith, h.rows_kept),
        h.filled,
        h.counted,
      )
    where
      positive_size :
          iter_event_batches sha256 run_id rows (pos size)
          ≡ some (batches_from sha256 run_id (pos size) no_rows (iter_source_rows rows))
      positive_size = unfold iter_event_batches in rw (lt→ltb (0 + 0) (size + 0) (omega arith))

  -- A size that is not positive is refused, whatever the file.
  pub iter_event_batches_refused :
      (rows : List (List Text)) (size : ℤ)
      → (iter_event_batches sha256 run_id rows size ≡ none) ↔ (size ≤ℤ pos 0)
  unfolding iter_event_batches
  iter_event_batches_refused rows size = (λ h. ground arith, λ h. ground arith)
