-- ===== src/Events/Replays.antt =====
-- What does not matter to `parse_event`: the run that replays the row and white space round its
-- values; and the row that an event is written as.
use kafka_flink_click_house.Base.{
  ◌≤◌, ◌≡◌, ◌≢◌, refl, sym, ap, ◌∙◌, inl, inr, true, suc, List, [], ◌∷◌, ◌++◌, map, Text, arith,
  All, list_eq, nat_eq, length, ℤ, pos, ◌≤ℤ◌, times_thousand, div_thousand, ok, subst,
}
use kafka_flink_click_house.Base.Int.{div_thousand-times_thousand}
use kafka_flink_click_house.Text.{strip, int, str, is_space, max_str_digits}
use kafka_flink_click_house.Text.Strip.{strip_padded}
use kafka_flink_click_house.Text.Decimal.{int-str, strip-str, digits}
use kafka_flink_click_house.Events.{
  UserBehaviorEvent, deterministic_event_id, parse_event, parse_values,
}
use kafka_flink_click_house.Events.Rows.{
  Denotes, RowDenotes, parse_event_iff, source_of, IsBehavior, Denotes-parse_event,
  is_blank-eq-false,
}

-- Each value of the second row is that of the first with white space round it.
abbrev pub Padded : List Text → List Text → Type 0
Padded [] [] = Unit
Padded (v ∷ vs) (w ∷ ws) =
    ((before : Text) × (behind : Text) × All (λ c. is_space c ≡ true) before
      × All (λ c. is_space c ≡ true) behind
      × (w ≡ before ++ (v ++ behind)))
    × Padded vs ws
Padded _ _ = ⊥

map-strip-Padded : (vs ws : List Text) → Padded vs ws → map strip ws ≡ map strip vs
map-strip-Padded [] [] p = refl
map-strip-Padded [] (w ∷ ws) p = absurd p
map-strip-Padded (v ∷ vs) [] p = absurd p
map-strip-Padded (v ∷ vs) (w ∷ ws) ((a, b, ha, hb, e), p) =
    cc (ap strip e, strip_padded a b v ha hb, map-strip-Padded vs ws p)

length-Padded : (vs ws : List Text) → Padded vs ws → length ws ≡ length vs
length-Padded [] [] p = refl
length-Padded [] (w ∷ ws) p = absurd p
length-Padded (v ∷ vs) [] p = absurd p
length-Padded (v ∷ vs) (w ∷ ws) (_, p) = ap suc (length-Padded vs ws p)

module _ (sha256 : Text → Text) where
  -- White space round the values of a row changes neither the event nor the rejection.
  pub parse_event-Padded :
      (vs ws : List Text) (sequence : ℤ) (run_id : Text)
      → Padded vs ws
      → parse_event sha256 ws sequence run_id ≡ parse_event sha256 vs sequence run_id
  unfolding parse_event
  parse_event-Padded vs ws sequence run_id p = rw (length-Padded vs ws p, map-strip-Padded vs ws p)

  replay_values :
      (values : List Text) (sequence : ℤ) (r s : Text) (e : UserBehaviorEvent)
      → parse_values sha256 sequence r values ≡ ok e
      → parse_values sha256 sequence s values ≡ ok (record e { replay_run_id = s })
  unfolding parse_values
  replay_values (u ∷ i ∷ c ∷ b ∷ t ∷ []) sequence r s e h = ground arith
  replay_values _ sequence r s e h = cc

  -- A row that one replay run accepts is accepted by every other with a name, as the same event
  -- with the same `event_id`: the two events differ in `replay_run_id` only.
  pub parse_event-replay :
      (values : List Text) (sequence : ℤ) (r s : Text) (e : UserBehaviorEvent)
      → strip s ≢ []
      → parse_event sha256 values sequence r ≡ ok e
      → parse_event sha256 values sequence s ≡ ok (record e { replay_run_id = s })
  unfolding parse_event
  parse_event-replay values sequence r s e named h =
      ground (arith, (is_blank-eq-false s).1 named, replay_values (map strip values) sequence r s e)

  -- What every event of the replay client satisfies.
  pub record IsValid (e : UserBehaviorEvent) : Type 0 where
    pub behavior : IsBehavior e.behavior_type
    pub seconds : times_thousand (div_thousand e.event_time_ms) ≡ e.event_time_ms
    pub in_order : pos 0 ≤ℤ e.source_sequence
    pub named : strip e.replay_run_id ≢ []
    pub identity : e.event_id ≡ deterministic_event_id sha256 (source_of e)

  Denotes-IsValid :
      {u i c b t : Text} {sequence : ℤ} {run_id : Text} {e : UserBehaviorEvent}
      → Denotes sha256 u i c b t sequence run_id e
      → IsValid e
  Denotes-IsValid {e} d =
      let seconds : div_thousand e.event_time_ms ≡ d.timestamp =
        ap div_thousand d.milliseconds ∙ div_thousand-times_thousand d.timestamp in
      record {
        behavior = subst IsBehavior (sym d.behavior_type) d.known;
        seconds = ap times_thousand seconds ∙ sym d.milliseconds;
        in_order = subst (λ z. pos 0 ≤ℤ z) (sym d.sequence_kept) d.in_order;
        named = subst (λ s. strip s ≢ []) (sym d.run_kept) d.named;
        identity = cc (d.identity, d.sequence_kept, seconds);
      }

  -- Whatever the row, an event that `parse_event` returns has a known behavior, a time in whole
  -- seconds, a sequence number that is not negative, a run id that is not blank, and the identity
  -- of its own fields.
  pub parse_event-IsValid :
      (values : List Text) (sequence : ℤ) (run_id : Text) (e : UserBehaviorEvent)
      → parse_event sha256 values sequence run_id ≡ ok e
      → IsValid e
  parse_event-IsValid values sequence run_id e h =
      RowDenotes-IsValid values ((parse_event_iff sha256 values sequence run_id e).0 h)
    where
      RowDenotes-IsValid :
          (values : List Text) → RowDenotes sha256 values sequence run_id e → IsValid e
      RowDenotes-IsValid (u ∷ i ∷ c ∷ b ∷ t ∷ []) d = Denotes-IsValid d
      RowDenotes-IsValid _ d = absurd d

  -- An event whose numbers Python's `int` reads.
  pub record IsReadable (e : UserBehaviorEvent) : Type 0 where
    pub user_digits : digits e.user_id ≤ max_str_digits
    pub item_digits : digits e.item_id ≤ max_str_digits
    pub category_digits : digits e.category_id ≤ max_str_digits
    pub time_digits : digits (div_thousand e.event_time_ms) ≤ max_str_digits

  -- The CSV row of an event.
  abbrev pub row_of : UserBehaviorEvent → List Text
  row_of e =
      str e.user_id
      ∷ str e.item_id
      ∷ str e.category_id
      ∷ e.behavior_type
      ∷ str (div_thousand e.event_time_ms)
      ∷ []

  strip-IsBehavior : (b : Text) → IsBehavior b → strip b ≡ b
  unfolding strip
  strip-IsBehavior b (inl p) = rw p
  strip-IsBehavior b (inr (inl p)) = rw p
  strip-IsBehavior b (inr (inr (inl p))) = rw p
  strip-IsBehavior b (inr (inr (inr p))) = rw p

  -- Every valid event of readable numbers is read back from its row, its sequence number and its run id.
  pub parse_event-row_of :
      (e : UserBehaviorEvent)
      → IsValid e
      → IsReadable e
      → parse_event sha256 (row_of e) e.source_sequence e.replay_run_id ≡ ok e
  parse_event-row_of e p q =
      let kept = strip-IsBehavior e.behavior_type p.behavior in
      Denotes-parse_event sha256 (record {
        timestamp = div_thousand e.event_time_ms;
        reads_user = ap int (strip-str e.user_id) ∙ int-str e.user_id q.user_digits;
        reads_item = ap int (strip-str e.item_id) ∙ int-str e.item_id q.item_digits;
        reads_category = ap int (strip-str e.category_id) ∙ int-str e.category_id q.category_digits;
        reads_time = ap int (strip-str _) ∙ int-str (div_thousand e.event_time_ms) q.time_digits;
        behavior_type = sym kept;
        known = subst IsBehavior (sym kept) p.behavior;
        milliseconds = sym p.seconds;
        sequence_kept = refl;
        run_kept = refl;
        in_order = p.in_order;
        named = p.named;
        identity = p.identity;
      })
