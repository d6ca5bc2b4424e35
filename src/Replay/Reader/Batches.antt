-- ===== src/Replay/Reader/Batches.antt =====
-- What a batch collects, and what the batches of a file are to hold: the events and the issues of
-- its rows in order.
use kafka_flink_click_house.Base.{
  ℕ, ◌+◌, ◌≤◌, ◌<◌, ◌≡◌, refl, List, [], ◌∷◌, ◌++◌, append_assoc, Text, nat_eq, list_eq, pos,
  int_eq, Result, ok, err, length, length-append, arith,
}
use kafka_flink_click_house.Events.{UserBehaviorEvent, RowValidationError, parse_event}
use kafka_flink_click_house.Replay.Reader.{ParseIssue, ReplayBatch, collect}

-- One list behind the other, of each batch.
abbrev pub all_events : List ReplayBatch → List UserBehaviorEvent
all_events [] = []
all_events (b ∷ bs) = b.events ++ all_events bs

abbrev pub all_issues : List ReplayBatch → List ParseIssue
all_issues [] = []
all_issues (b ∷ bs) = b.issues ++ all_issues bs

abbrev pub all_rows : List ReplayBatch → ℕ
all_rows [] = 0
all_rows (b ∷ bs) = b.source_rows + all_rows bs

-- What one row adds to the events, and what to the issues.
abbrev pub keep_event :
    Result RowValidationError UserBehaviorEvent → List UserBehaviorEvent → List UserBehaviorEvent
keep_event (ok e) events = e ∷ events
keep_event (err x) events = events

abbrev pub keep_issue :
    ℕ → List Text → Result RowValidationError UserBehaviorEvent → List ParseIssue → List ParseIssue
keep_issue sequence values (ok e) issues = issues
keep_issue sequence values (err x) issues =
    record { source_sequence = sequence; raw_values = values; reason = x } ∷ issues

-- What a batch holds, with what comes behind it.
pub collect-events :
    (b : ReplayBatch) (n : ℕ) (row : List Text) (r : Result RowValidationError UserBehaviorEvent)
    (rest : List UserBehaviorEvent)
    → (collect b n row r).events ++ rest ≡ b.events ++ keep_event r rest
unfolding collect
collect-events b n row (ok e) rest = append_assoc b.events (e ∷ []) rest
collect-events b n row (err x) rest = refl

pub collect-issues :
    (b : ReplayBatch) (n : ℕ) (row : List Text) (r : Result RowValidationError UserBehaviorEvent)
    (rest : List ParseIssue)
    → (collect b n row r).issues ++ rest ≡ b.issues ++ keep_issue n row r rest
unfolding collect
collect-issues b n row (ok e) rest = refl
collect-issues b n row (err x) rest = append_assoc b.issues _ rest

pub collect-rows :
    (b : ReplayBatch) (n : ℕ) (row : List Text) (r : Result RowValidationError UserBehaviorEvent)
    → (collect b n row r).source_rows ≡ b.source_rows + 1
unfolding collect
collect-rows b n row (ok e) = refl
collect-rows b n row (err x) = refl

-- The rows of a batch are its events and its issues.
abbrev pub IsCounted : ReplayBatch → Type 0
IsCounted b = b.source_rows ≡ length b.events + length b.issues

pub collect-IsCounted :
    (b : ReplayBatch) (n : ℕ) (row : List Text) (r : Result RowValidationError UserBehaviorEvent)
    → IsCounted b
    → IsCounted (collect b n row r)
unfolding collect
collect-IsCounted b n row (ok e) h = omega (arith, length-append b.events (e ∷ []))
collect-IsCounted b n row (err x) h = omega (
  arith,
  length-append b.issues (record { source_sequence = n; raw_values = row; reason = x } ∷ []),
)

length-eq-zero {ℓ} : {A : Type ℓ} (xs : List A) → length xs ≡ 0 → xs ≡ []
length-eq-zero [] h = refl
length-eq-zero (x ∷ xs) h = absurd (omega arith)

pub IsCounted-empty :
    (b : ReplayBatch) → IsCounted b → b.source_rows ≡ 0 → (b.events ≡ []) × (b.issues ≡ [])
IsCounted-empty b h z =
    (length-eq-zero b.events (omega arith), length-eq-zero b.issues (omega arith))

-- Every batch but the last is full, and the last holds a row.
abbrev pub IsFilled : ℕ → List ReplayBatch → Type 0
IsFilled size [] = Unit
IsFilled size (b ∷ []) = (0 < b.source_rows) × (b.source_rows ≤ size)
IsFilled size (b ∷ c ∷ bs) = (b.source_rows ≡ size) × IsFilled size (c ∷ bs)

pub IsFilled-cons :
    (size : ℕ) (b : ReplayBatch) (bs : List ReplayBatch)
    → 0 < size
    → b.source_rows ≡ size
    → IsFilled size bs
    → IsFilled size (b ∷ bs)
IsFilled-cons size b [] pos_size e h = (omega arith, omega arith)
IsFilled-cons size b (c ∷ bs) pos_size e h = (e, h)

module _ (sha256 : Text → Text) (run_id : Text) where
  -- The events of the rows that `parse_event` accepts, and the issues of those that it rejects.
  abbrev pub accepted : List (ℕ × List Text) → List UserBehaviorEvent
  accepted [] = []
  accepted ((n, row) ∷ rows) = keep_event (parse_event sha256 row (pos n) run_id) (accepted rows)

  abbrev pub rejected : List (ℕ × List Text) → List ParseIssue
  rejected [] = []
  rejected ((n, row) ∷ rows) =
      keep_issue n row (parse_event sha256 row (pos n) run_id) (rejected rows)
