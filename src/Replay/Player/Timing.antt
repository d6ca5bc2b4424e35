-- ===== src/Replay/Player/Timing.antt =====
-- replay.py: when the pace of a replay raises nothing. `ms / 1_000` overflows for times of about 310
-- digits, and `time.sleep` refuses a time that is too long.
use kafka_flink_click_house.Base.{
  ◌≡◌, refl, ap, sym, subst, Bool, true, false, Bool-cases, inl, inr, Option, none, some, List, All,
  ℤ, pos, ◌≤ℤ◌, ◌-ℤ◌, -ℤ_parts, arith, ok,
}
use kafka_flink_click_house.Base.Exec.{continue_ok}
use kafka_flink_click_house.Events.{UserBehaviorEvent}
use kafka_flink_click_house.Replay.Player.{
  Floats, Callbacks, Pacing, at_least_zero, wait, delay_of, pace_by, pace,
}

-- A time between two times.
abbrev pub IsWithin : ℤ → ℤ → UserBehaviorEvent → Type 0
IsWithin low high event = (low ≤ℤ event.event_time_ms) × (event.event_time_ms ≤ℤ high)

-- The events lie between two times; an offset between these is a float; and the process may sleep for
-- each delay that is computed with it, whatever the clock shows.
pub record IsPaceable (F : Floats) (speed : F.Float) (T : Type 0) (now : T → F.Float)
    (can_sleep : F.Float → Bool) (events : List UserBehaviorEvent) : Type 0 where
  pub low : ℤ
  pub high : ℤ
  pub within : All (IsWithin low high) events
  pub offsets :
      (z : ℤ)
      → pos 0 ≤ℤ z
      → z ≤ℤ (high -ℤ low)
      → (offset : F.Float) × (F.seconds z ≡ some offset)
        × ((j k : T)
            → let delay = F.sub (F.add (now j) (F.div offset speed)) (now k) in
              F.is_positive delay ≡ true → can_sleep delay ≡ true)

offset-IsWithin :
    (low high t first : ℤ)
    → (low ≤ℤ t) × (t ≤ℤ high)
    → (low ≤ℤ first) × (first ≤ℤ high)
    → (pos 0 ≤ℤ at_least_zero (t -ℤ first)) × (at_least_zero (t -ℤ first) ≤ℤ (high -ℤ low))
offset-IsWithin low high t first (a, b) (c, d) =
    let x = -ℤ_parts t first in
    let y = -ℤ_parts high low in
    (ground (arith, x, y, a, b, c, d), ground (arith, x, y, a, b, c, d))

module _ (F : Floats) (X S : Type 0) (c : Callbacks F X S) (speed : F.Float) where
  -- A property of events and one of the pace with which it raises nothing.
  pub record Paces (G : UserBehaviorEvent → Type 0) (K : Pacing F → Type 0) : Type 0 where
    pub paces :
        (event : UserBehaviorEvent) (p : Pacing F) (s : S)
        → G event
        → K p
        → (q : Pacing F) × ((pace F X S c speed event p s).0 ≡ ok q) × K q

  -- Without a speed.
  pub free-Paces : F.is_positive speed ≡ false → Paces (λ e. Unit {0}) (λ p. Unit {0})
  unfolding pace
  free-Paces free = record {
    paces = λ event p s _ _. go event p.first_event_time_ms p.replay_started s;
  }
    where
      go :
          (event : UserBehaviorEvent) (first : Option ℤ) (started : F.Float) (s : S)
          → (q : Pacing F) × ((pace F X S c speed event
                (record { first_event_time_ms = first; replay_started = started })
                s).0
              ≡ ok q)
            × Unit {0}
      go event none started s = (_, refl, tt)
      go event (some t) started s =
          (record { first_event_time_ms = some t; replay_started = started }, rw free refl, tt)

  module _ (T : Type 0) (now : T → F.Float) (can_sleep : F.Float → Bool) where
    -- The clock shows one of the values, and the sleep raises nothing if the time may be slept.
    pub record IsClocked : Type 0 where
      pub clock : (s : S) → (j : T) × ((c.monotonic s).0 ≡ now j)
      pub sleeps : (delay : F.Float) (s : S) → can_sleep delay ≡ true → (c.sleep delay s).0 ≡ ok tt

    module _ (clocked : IsClocked) (events : List UserBehaviorEvent)
        (h : IsPaceable F speed T now can_sleep events) where
      -- The replay has not begun, or at one of the times.
      abbrev Begun : Option ℤ → F.Float → Type 0
      Begun none started = Unit {0}
      Begun (some t) started = ((h.low ≤ℤ t) × (t ≤ℤ h.high)) × ((j : T) × (started ≡ now j))

      wait-ok :
          (delay : F.Float) (s : S)
          → (F.is_positive delay ≡ true → can_sleep delay ≡ true)
          → (wait F X S c speed delay s).0 ≡ ok tt
      unfolding wait
      wait-ok delay s may = elim (Bool-cases (F.is_positive delay)) [
        | inl late ↦ rw late (clocked.sleeps delay s (may late))
        | inr early ↦ rw early refl
      ]

      pace_by-ok :
          (t : ℤ) (j : T) (z : ℤ) (s : S)
          → pos 0 ≤ℤ z
          → z ≤ℤ (h.high -ℤ h.low)
          → let p : Pacing F = record { first_event_time_ms = some t; replay_started = now j } in
            (pace_by F X S c speed (F.seconds z) p s).0 ≡ ok p
      unfolding pace_by
      pace_by-ok t j z s least most =
          let (offset, seconds, may) = h.offsets z least most in
          let (k, shows) = clocked.clock s in
          let s' = (c.monotonic s).1 in
          let delay = delay_of F X S c speed (now j) offset (c.monotonic s).0 in
          let waits = wait-ok delay s' (
            subst
              (λ n.
                let d = F.sub (F.add (now j) (F.div offset speed)) n in
                F.is_positive d ≡ true → can_sleep d ≡ true)
              (sym shows) (may j k)) in
          rw seconds (ap (λ x. x.0) (continue_ok _ (wait F X S c speed delay s').1 _ tt waits))

      paceable-pace :
          (event : UserBehaviorEvent) (first : Option ℤ) (started : F.Float) (s : S)
          → IsWithin h.low h.high event
          → Begun first started
          → F.is_positive speed ≡ true
          → let p : Pacing F = record { first_event_time_ms = first; replay_started = started } in
            (q : Pacing F) × ((pace F X S c speed event p s).0 ≡ ok q)
            × Begun q.first_event_time_ms q.replay_started
      unfolding pace
      paceable-pace event none started s within _ fast = (_, refl, (within, clocked.clock s))
      paceable-pace event (some t) started s within (seen, (j, shown)) fast =
          let (least, most) = offset-IsWithin h.low h.high event.event_time_ms t within seen in
          let z = at_least_zero (event.event_time_ms -ℤ t) in
          (
            record { first_event_time_ms = some t; replay_started = started },
            rw (fast, shown) (pace_by-ok t j z s least most),
            (seen, (j, shown)),
          )

      pub paceable-Paces :
          F.is_positive speed ≡ true
          → Paces (IsWithin h.low h.high) (λ p. Begun p.first_event_time_ms p.replay_started)
      paceable-Paces fast = record {
        paces =
            λ event p s g k. paceable-pace event p.first_event_time_ms p.replay_started s g k fast;
      }
