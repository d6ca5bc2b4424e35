-- ===== src/Events/Rows.antt =====
-- `parse_event`: which rows it accepts, what it makes of them, and what does not matter to it.
use kafka_flink_click_house.Base.{
  ◌≡◌, ◌≢◌, ◌↔◌, ◌⊎◌, inl, inr, true, false, some, List, [], ◌∷◌, Text, codes, arith, ne_of_beq,
  beq_of_ne, list_beq_iff, Option-cases, ◌≤ℤ◌, list_eq, nat_eq, contains, ℤ, pos, ltb_ℤ,
  times_thousand, div_thousand, ok,
}
use kafka_flink_click_house.Text.{strip, is_blank, int}
use kafka_flink_click_house.Events.{
  UserBehaviorEvent, Source, deterministic_event_id, parse_event, behavior_types,
}

-- The source of an event: its fields, with the time in seconds.
abbrev pub source_of : UserBehaviorEvent → Source
source_of e = record {
  user_id = e.user_id;
  item_id = e.item_id;
  category_id = e.category_id;
  behavior_type = e.behavior_type;
  timestamp = div_thousand e.event_time_ms;
  source_sequence = e.source_sequence;
}

-- A text is one of the four behaviors.
abbrev pub IsBehavior : Text → Type 0
IsBehavior b = (b ≡ codes "pv") ⊎ (b ≡ codes "cart") ⊎ (b ≡ codes "fav") ⊎ (b ≡ codes "buy")

pub contains_iff_IsBehavior : (b : Text) → (contains behavior_types b ≡ true) ↔ IsBehavior b
contains_iff_IsBehavior b = (
  λ h. ground (
    arith,
    list_beq_iff b (codes "pv"),
    list_beq_iff b (codes "cart"),
    list_beq_iff b (codes "fav"),
    list_beq_iff b (codes "buy"),
  ),
  λ h. ground (
    arith,
    list_beq_iff b (codes "pv"),
    list_beq_iff b (codes "cart"),
    list_beq_iff b (codes "fav"),
    list_beq_iff b (codes "buy"),
  ),
)

pub is_blank-eq-false : (s : Text) → (is_blank s ≡ false) ↔ (strip s ≢ [])
unfolding is_blank
is_blank-eq-false s = (λ h. ne_of_beq (strip s) [] h, λ h. beq_of_ne (strip s) [] h)

module _ (sha256 : Text → Text) where
  -- What a row of five columns must satisfy, and what the event of it holds.
  pub record Denotes (user item category behavior time : Text) (sequence : ℤ) (run_id : Text)
      (e : UserBehaviorEvent) : Type 0 where
    pub timestamp : ℤ
    pub reads_user : int (strip user) ≡ some e.user_id
    pub reads_item : int (strip item) ≡ some e.item_id
    pub reads_category : int (strip category) ≡ some e.category_id
    pub reads_time : int (strip time) ≡ some timestamp
    pub behavior_type : e.behavior_type ≡ strip behavior
    pub known : IsBehavior (strip behavior)
    pub milliseconds : e.event_time_ms ≡ times_thousand timestamp
    pub sequence_kept : e.source_sequence ≡ sequence
    pub run_kept : e.replay_run_id ≡ run_id
    pub in_order : pos 0 ≤ℤ sequence
    pub named : strip run_id ≢ []
    pub identity :
        e.event_id
        ≡ deterministic_event_id sha256 (record {
          user_id = e.user_id;
          item_id = e.item_id;
          category_id = e.category_id;
          behavior_type = e.behavior_type;
          timestamp = timestamp;
          source_sequence = sequence;
        })

  in_order-ltb_ℤ : (z : ℤ) → pos 0 ≤ℤ z → ltb_ℤ z (pos 0) ≡ false
  in_order-ltb_ℤ z h = ground arith

  pub Denotes-parse_event :
      {u i c b t : Text} {sequence : ℤ} {run_id : Text} {e : UserBehaviorEvent}
      → Denotes u i c b t sequence run_id e
      → parse_event sha256 (u ∷ i ∷ c ∷ b ∷ t ∷ []) sequence run_id ≡ ok e
  unfolding parse_event
  Denotes-parse_event {b} {sequence} {run_id} d =
      rw
        (
          in_order-ltb_ℤ sequence d.in_order,
          (is_blank-eq-false run_id).1 d.named,
          d.reads_user,
          d.reads_item,
          d.reads_category,
          d.reads_time,
          (contains_iff_IsBehavior (strip b)).1 d.known,
        )
        (cc (d.identity, d.milliseconds, d.sequence_kept, d.run_kept, d.behavior_type))

  pub parse_event-Denotes :
      (u i c b t : Text) (sequence : ℤ) (run_id : Text) (e : UserBehaviorEvent)
      → parse_event sha256 (u ∷ i ∷ c ∷ b ∷ t ∷ []) sequence run_id ≡ ok e
      → Denotes u i c b t sequence run_id e
  unfolding parse_event
  parse_event-Denotes u i c b t sequence run_id e h = elim (Option-cases (int (strip t))) [
    | inl unread ↦ absurd (ground arith)
    | inr (timestamp, read) ↦ record {
      timestamp = timestamp;
      reads_user = ground arith;
      reads_item = ground arith;
      reads_category = ground arith;
      reads_time = read;
      behavior_type = ground arith;
      known = (contains_iff_IsBehavior (strip b)).0 (ground arith);
      milliseconds = ground arith;
      sequence_kept = ground arith;
      run_kept = ground arith;
      in_order = ground arith;
      named = (is_blank-eq-false run_id).0 (ground arith);
      identity = ground arith;
    }
  ]

  -- What a row of any length must satisfy.
  abbrev pub RowDenotes : List Text → ℤ → Text → UserBehaviorEvent → Type 0
  RowDenotes (u ∷ i ∷ c ∷ b ∷ t ∷ []) sequence run_id e = Denotes u i c b t sequence run_id e
  RowDenotes _ _ _ _ = ⊥

  -- `parse_event` returns an event exactly for the rows of five columns whose stripped values are
  -- four integers and a known behavior, at a sequence number that is not negative and under a run
  -- id that is not blank; and it is the one event whose fields these are.
  pub parse_event_iff :
      (values : List Text) (sequence : ℤ) (run_id : Text) (e : UserBehaviorEvent)
      → (parse_event sha256 values sequence run_id ≡ ok e) ↔ RowDenotes values sequence run_id e
  unfolding parse_event
  parse_event_iff (u ∷ i ∷ c ∷ b ∷ t ∷ []) sequence run_id e =
      (parse_event-Denotes u i c b t sequence run_id e, Denotes-parse_event)
  parse_event_iff [] sequence run_id e = (λ h. cc, λ h. absurd h)
  parse_event_iff (_ ∷ []) sequence run_id e = (λ h. cc, λ h. absurd h)
  parse_event_iff (_ ∷ _ ∷ []) sequence run_id e = (λ h. cc, λ h. absurd h)
  parse_event_iff (_ ∷ _ ∷ _ ∷ []) sequence run_id e = (λ h. cc, λ h. absurd h)
  parse_event_iff (_ ∷ _ ∷ _ ∷ _ ∷ []) sequence run_id e = (λ h. cc, λ h. absurd h)
  parse_event_iff (_ ∷ _ ∷ _ ∷ _ ∷ _ ∷ _ ∷ values) sequence run_id e =
      (λ h. absurd (ground arith), λ h. absurd h)
