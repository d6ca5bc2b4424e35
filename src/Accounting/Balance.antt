-- ===== src/Accounting/Balance.antt =====
-- The accounting that is returned balances, whatever ClickHouse holds.
use kafka_flink_click_house.Base.{
  list_beq_iff, Bool-cases, inl, inr, sym, ◌∙◌, beq_of_ne, ne_of_beq, if◌then◌else◌, codes, ◌==◌,
  list_eq, ℕ, ◌+◌, ◌*◌, ◌≤◌, ◌≡◌, refl, ap, Option, none, some, List, [], ◌∷◌, Text, arith, pos,
  ◌≤ℤ◌, ◌+ℤ◌, ◌-ℤ◌, length, length-append, int_laws, nat_eq,
}
use kafka_flink_click_house.Replay.Reader.{ReplayBatch, iter_source_rows}
use kafka_flink_click_house.Replay.Reader.Batches.{
  all_events, all_issues, all_rows, accepted, rejected,
}
use kafka_flink_click_house.Replay.Reader.Splits.{iter_event_batches-IsSplit}
use kafka_flink_click_house.Accounting.{
  count_type, Sums, Accounting, add_batches, add_runs, balance, reconcile_accounting, no_sums,
  replay_run_ids, balance_of,
}

-- Sums that count some more rows, events and issues.
record Grown (before after : Sums) (rows events issues : ℕ) : Type 0 where
  source_rows : after.source_rows ≡ before.source_rows + rows
  decoded : after.decoded ≡ before.decoded + events
  producer_rejected : after.producer_rejected ≡ before.producer_rejected + issues

add_batches-Grown :
    (bs : List ReplayBatch) (sums : Sums)
    → Grown sums
        (add_batches bs sums)
        (all_rows bs)
        (length (all_events bs))
        (length (all_issues bs))
unfolding add_batches
add_batches-Grown [] sums = record {
  source_rows = omega arith;
  decoded = omega arith;
  producer_rejected = omega arith;
}
add_batches-Grown (b ∷ bs) sums =
    let h = add_batches-Grown bs (record {
      source_rows = sums.source_rows + b.source_rows;
      decoded = sums.decoded + length b.events;
      producer_rejected = sums.producer_rejected + length b.issues;
    }) in
    record {
      source_rows = omega (arith, h.source_rows);
      decoded = omega (arith, h.decoded, length-append b.events (all_events bs));
      producer_rejected =
          omega (arith, h.producer_rejected, length-append b.issues (all_issues bs));
    }

module _ (sha256 : Text → Text) (rows : List (List Text)) where
  abbrev pub fixture : List (ℕ × List Text)
  fixture = iter_source_rows rows

  abbrev rows_of : List Text → ℕ
  rows_of [] = 0
  rows_of (run_id ∷ run_ids) = length fixture + rows_of run_ids

  -- The events that are made of the file in the runs, and the rows that are rejected in them.
  abbrev pub events_of : List Text → ℕ
  events_of [] = 0
  events_of (run_id ∷ run_ids) = length (accepted sha256 run_id fixture) + events_of run_ids

  abbrev pub issues_of : List Text → ℕ
  issues_of [] = 0
  issues_of (run_id ∷ run_ids) = length (rejected sha256 run_id fixture) + issues_of run_ids

  add_runs-Grown :
      (run_ids : List Text) (before after : Sums)
      → add_runs sha256 rows run_ids before ≡ some after
      → Grown before after (rows_of run_ids) (events_of run_ids) (issues_of run_ids)
  unfolding add_runs
  add_runs-Grown [] before after h = record {
    source_rows = ground arith;
    decoded = ground arith;
    producer_rejected = ground arith;
  }
  add_runs-Grown (run_id ∷ run_ids) before after h =
      let (bs, split, events, issues, kept, _, _) =
        iter_event_batches-IsSplit sha256 run_id rows 100 (omega arith) in
      let first = add_batches-Grown bs before in
      let others =
        add_runs-Grown run_ids (add_batches bs before) after (rw (split, add_runs) at h) in
      let all_emitted = ap length events in
      let all_invalid = ap length issues in
      record {
        source_rows = omega (arith, first.source_rows, kept, others.source_rows);
        decoded = omega (arith, first.decoded, others.decoded, all_emitted);
        producer_rejected =
            omega (arith, first.producer_rejected, others.producer_rejected, all_invalid);
      }

  -- How often a text occurs.
  abbrev pub occurrences : Text → List Text → ℕ
  occurrences name [] = 0
  occurrences name (t ∷ texts) = (if name == t then 1 else 0) + occurrences name texts

  count_type-occurrences :
      (name : Text) (types : List Text) → count_type name types ≡ occurrences name types
  unfolding count_type
  count_type-occurrences name [] = refl
  count_type-occurrences name (t ∷ types) =
      let both = list_beq_iff t name in
      let other = list_beq_iff name t in
      elim (Bool-cases (t == name)) [
        | inl same ↦
            rw (same, other.1 (sym (both.0 same)), count_type-occurrences name types) (omega arith)
        | inr differs ↦
            rw
              (
                differs,
                beq_of_ne name t (λ e. ne_of_beq t name differs (sym e)),
                count_type-occurrences name types,
              )
              (omega arith)
      ]

  -- What is returned, of so many canonical events and of this column of quality types.
  pub record IsBalanced (canonical : ℕ) (quality : List Text) (a : Accounting) : Type 0 where
    pub attempts : a.replay_attempts ≡ 2
    pub canonical_events : a.accepted_unique ≡ canonical
    pub invalid_events : a.invalid ≡ occurrences (codes "INVALID") quality
    pub late_events : a.late_for_aggregation ≡ occurrences (codes "LATE") quality
    pub rows_read : a.source_rows ≡ 2 * length fixture
    pub decoded : a.decoded ≡ events_of replay_run_ids
    pub rejected : a.producer_rejected ≡ issues_of replay_run_ids
    pub events : pos a.decoded ≡ (pos a.invalid +ℤ pos a.accepted_unique) +ℤ a.duplicate
    pub valid : a.valid ≡ pos a.accepted_unique +ℤ a.duplicate
    pub duplicates : pos 0 ≤ℤ a.duplicate
    pub timely : pos a.accepted_unique ≡ a.on_time +ℤ pos a.late_for_aggregation
    pub on_times : pos 0 ≤ℤ a.on_time

  balance-IsBalanced :
      (canonical : ℕ) (quality : List Text) (sums : Sums) (a : Accounting)
      → Grown
          (no_sums sha256 rows)
          sums
          (rows_of replay_run_ids)
          (events_of replay_run_ids)
          (issues_of replay_run_ids)
      → balance sha256 rows canonical quality sums ≡ some a
      → IsBalanced canonical quality a
  unfolding balance
  balance-IsBalanced canonical quality sums a g h =
      let d : a.decoded ≡ sums.decoded = ground arith in
      let c : a.accepted_unique ≡ canonical = ground arith in
      let v : a.valid ≡ pos a.decoded -ℤ pos a.invalid = ground arith in
      let u : a.duplicate ≡ a.valid -ℤ pos a.accepted_unique = ground arith in
      let o : a.on_time ≡ pos a.accepted_unique -ℤ pos a.late_for_aggregation = ground arith in
      let e : pos 0 ≤ℤ a.duplicate = ground arith in
      let l : a.late_for_aggregation ≤ a.accepted_unique = ground arith in
      let i : a.invalid ≡ count_type (codes "INVALID") quality = ground arith in
      let t : a.late_for_aggregation ≡ count_type (codes "LATE") quality = ground arith in
      let n : a.replay_attempts ≡ 2 = ground arith in
      record {
        attempts = n;
        canonical_events = c;
        invalid_events = i ∙ count_type-occurrences (codes "INVALID") quality;
        late_events = t ∙ count_type-occurrences (codes "LATE") quality;
        rows_read = ground (arith, g.source_rows);
        decoded = ground (arith, g.decoded);
        rejected = ground (arith, g.producer_rejected);
        events = grind (int_laws, v, u);
        valid = grind (int_laws, u);
        duplicates = e;
        timely = grind (int_laws, o);
        on_times = grind (int_laws, o, l);
      }

  balance_of-IsBalanced :
      (canonical : ℕ) (quality : List Text) (o : Option Sums) (a : Accounting)
      → ((sums : Sums)
          → o ≡ some sums
          → Grown
              (no_sums sha256 rows)
              sums
              (rows_of replay_run_ids)
              (events_of replay_run_ids)
              (issues_of replay_run_ids))
      → balance_of sha256 rows canonical quality o ≡ some a
      → IsBalanced canonical quality a
  balance_of-IsBalanced canonical quality none a g h = cc
  balance_of-IsBalanced canonical quality (some sums) a g h =
      balance-IsBalanced canonical quality sums a (g sums refl) h

  -- If the accounting is returned, it counts each data row of the fixture twice, once for each run,
  -- and the decoded and the rejected ones as `parse_event` tells them; the canonical events are those
  -- that were given; and the invalid and the late ones are as many as the quality types "INVALID" and
  -- "LATE". What is left of the decoded events without the invalid and the canonical ones is the
  -- number of duplicates, and what is left of the canonical ones without the late ones is the number
  -- of those on time; neither is negative.
  pub reconcile_accounting-IsBalanced :
      (canonical : ℕ) (quality : List Text) (a : Accounting)
      → reconcile_accounting sha256 rows canonical quality ≡ some a
      → IsBalanced canonical quality a
  unfolding reconcile_accounting
  reconcile_accounting-IsBalanced canonical quality a h =
      balance_of-IsBalanced canonical quality
        (add_runs sha256 rows replay_run_ids (no_sums sha256 rows)) a
        (λ sums e. add_runs-Grown replay_run_ids (no_sums sha256 rows) sums e) h
