-- ===== src/Ingestion/Requests.antt =====
-- `validated_event`: which requests it accepts, and that it agrees with the replay client.
use kafka_flink_click_house.Base.{
  ◌≡◌, ◌≢◌, ◌↔◌, ◌⊎◌, refl, sym, ap, ◌∙◌, Option, none, some, List, [], Text, arith, nat_eq,
  list_eq, list_beq_iff, ℤ, pos, ◌≤ℤ◌, ltb_ℤ, div_thousand, mod_thousand, times_thousand, ok, err,
  if◌then◌else◌, Bool-cases, inl, inr, false,
}
use kafka_flink_click_house.Base.Int.{mod_thousand-times_thousand}
use kafka_flink_click_house.Text.{strip}
use kafka_flink_click_house.Events.{UserBehaviorEvent, deterministic_event_id, parse_event}
use kafka_flink_click_house.Events.Identity.{Collision, deterministic_event_id-eq}
use kafka_flink_click_house.Events.Rows.{is_blank-eq-false}
use kafka_flink_click_house.Events.Replays.{parse_event-IsValid}
use kafka_flink_click_house.Ingestion.{
  BehaviorEventRequest, bad_event_time, source_of_request, is_other, validated_event,
}

module _ (sha256 : Text → Text) where
  -- What a request must satisfy, and what the event of it holds.
  pub record Accepts (r : BehaviorEventRequest) (e : UserBehaviorEvent) : Type 0 where
    pub not_before_epoch : pos 0 ≤ℤ r.event_time_ms
    pub whole_second : mod_thousand r.event_time_ms ≡ 0
    pub in_order : pos 0 ≤ℤ r.source_sequence
    pub named : strip r.replay_run_id ≢ []
    pub no_other_id : (r.event_id ≡ none) ⊎ (r.event_id ≡ some e.event_id)
    pub identity : e.event_id ≡ deterministic_event_id sha256 (source_of_request r)
    pub user_id : e.user_id ≡ r.user_id
    pub item_id : e.item_id ≡ r.item_id
    pub category_id : e.category_id ≡ r.category_id
    pub behavior_type : e.behavior_type ≡ r.behavior_type
    pub event_time_ms : e.event_time_ms ≡ r.event_time_ms
    pub source_sequence : e.source_sequence ≡ r.source_sequence
    pub replay_run_id : e.replay_run_id ≡ r.replay_run_id

  is_other_lem :
      (o : Option Text) (expected : Text)
      → (is_other o expected ≡ false) ↔ ((o ≡ none) ⊎ (o ≡ some expected))
  is_other_lem none expected = (λ h. inl refl, λ h. refl)
  is_other_lem (some given) expected = (
    λ h. ground (arith, list_beq_iff given expected),
    λ h. ground (arith, list_beq_iff given expected),
  )

  -- A request is accepted exactly if its time is a whole second not before the epoch, its sequence
  -- number is not negative, its run id is not blank, and it gives no event id but the recomputed
  -- one; the event has that id and the fields of the request.
  pub validated_event_iff :
      (r : BehaviorEventRequest) (e : UserBehaviorEvent)
      → (validated_event sha256 r ≡ ok e) ↔ Accepts r e
  unfolding validated_event
  validated_event_iff r e =
      let expected = deterministic_event_id sha256 (source_of_request r) in
      (
        λ h. record {
          not_before_epoch = ground arith;
          whole_second = ground arith;
          in_order = ground arith;
          named = (is_blank-eq-false r.replay_run_id).0 (ground arith);
          no_other_id = ground (arith, is_other_lem r.event_id expected);
          identity = ground arith;
          user_id = ground arith;
          item_id = ground arith;
          category_id = ground arith;
          behavior_type = ground arith;
          event_time_ms = ground arith;
          source_sequence = ground arith;
          replay_run_id = ground arith;
        },
        λ a. ground (
          arith,
          (is_blank-eq-false r.replay_run_id).1 a.named,
          is_other_lem r.event_id expected,
        ),
      )

  -- The request that the replay client posts for an event.
  abbrev pub request_of : UserBehaviorEvent → BehaviorEventRequest
  request_of e = record {
    event_id = some e.event_id;
    user_id = e.user_id;
    item_id = e.item_id;
    category_id = e.category_id;
    behavior_type = e.behavior_type;
    event_time_ms = e.event_time_ms;
    source_sequence = e.source_sequence;
    replay_run_id = e.replay_run_id;
  }

  mod_thousand_of_seconds : (z : ℤ) → times_thousand (div_thousand z) ≡ z → mod_thousand z ≡ 0
  mod_thousand_of_seconds z h =
      ap mod_thousand (sym h) ∙ mod_thousand-times_thousand (div_thousand z)

  -- The two ingress paths agree. The API makes of an event that the replay client posts the same
  -- event, if its time is not before the epoch, and rejects it if not.
  pub validated_event-request_of :
      (values : List Text) (sequence : ℤ) (run_id : Text) (e : UserBehaviorEvent)
      → parse_event sha256 values sequence run_id ≡ ok e
      → validated_event sha256 (request_of e)
        ≡ (if ltb_ℤ e.event_time_ms (pos 0) then err bad_event_time else ok e)
  validated_event-request_of values sequence run_id e h =
      let v = parse_event-IsValid sha256 values sequence run_id e h in
      elim (Bool-cases (ltb_ℤ e.event_time_ms (pos 0))) [
        | inl early ↦ rw early (unfold validated_event in rw early)
        | inr fine ↦ rw fine (
            (validated_event_iff (request_of e) e).1 (record {
              not_before_epoch = ground arith;
              whole_second = mod_thousand_of_seconds e.event_time_ms v.seconds;
              in_order = v.in_order;
              named = v.named;
              no_other_id = inr refl;
              identity = v.identity;
              user_id = refl;
              item_id = refl;
              category_id = refl;
              behavior_type = refl;
              event_time_ms = refl;
              source_sequence = refl;
              replay_run_id = refl;
            }))
      ]

  -- A caller cannot choose an identity: two accepted requests have one event id only if all six
  -- source fields agree, or if two texts collide under the hash.
  pub validated_event_identity :
      (r s : BehaviorEventRequest) (d e : UserBehaviorEvent)
      → validated_event sha256 r ≡ ok d
      → validated_event sha256 s ≡ ok e
      → d.event_id ≡ e.event_id
      → (source_of_request r ≡ source_of_request s) ⊎ Collision sha256
  validated_event_identity r s d e hr hs same =
      deterministic_event_id-eq sha256 (source_of_request r) (source_of_request s) (
        sym ((validated_event_iff r d).0 hr).identity
        ∙ same
        ∙ ((validated_event_iff s e).0 hs).identity)

  -- `validated_event` checks neither the three identifiers nor the behavior: an accepted request
  -- that gives no event id stays accepted with any other values of them.
  pub validated_event_unchecked :
      (r : BehaviorEventRequest) (e : UserBehaviorEvent) (user item category : ℤ) (behavior : Text)
      → r.event_id ≡ none
      → validated_event sha256 r ≡ ok e
      → (e' : UserBehaviorEvent) × (validated_event sha256 (record r {
        user_id = user;
        item_id = item;
        category_id = category;
        behavior_type = behavior;
      })
          ≡ ok e')
        × (e'.user_id ≡ user)
        × (e'.behavior_type ≡ behavior)
  validated_event_unchecked r e user item category behavior no_id h =
      let a = (validated_event_iff r e).0 h in
      let r' = record r {
        user_id = user;
        item_id = item;
        category_id = category;
        behavior_type = behavior;
      } in
      let e' = record e {
        event_id = deterministic_event_id sha256 (source_of_request r');
        user_id = user;
        item_id = item;
        category_id = category;
        behavior_type = behavior;
      } in
      (
        e',
        (validated_event_iff r' e').1 (record {
          not_before_epoch = a.not_before_epoch;
          whole_second = a.whole_second;
          in_order = a.in_order;
          named = a.named;
          no_other_id = inl no_id;
          identity = refl;
          user_id = refl;
          item_id = refl;
          category_id = refl;
          behavior_type = refl;
          event_time_ms = a.event_time_ms;
          source_sequence = a.source_sequence;
          replay_run_id = a.replay_run_id;
        }),
        refl,
        refl,
      )
