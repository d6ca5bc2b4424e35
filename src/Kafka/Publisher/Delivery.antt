-- ===== src/Kafka/Publisher/Delivery.antt =====
-- What the publisher tells its callers of deliveries: no failure is lost, and none is forgotten.
use kafka_flink_click_house.Base.{
  ℕ, ◌≡◌, ◌≢◌, ◌↔◌, refl, sym, ap, ◌∙◌, Option, none, some, List, [], ◌∷◌, ◌++◌, append_assoc,
  append-nil, arith, Text, nat_eq, Result, ok, err,
}
use kafka_flink_click_house.Events.{UserBehaviorEvent}
use kafka_flink_click_house.Kafka.Publisher.{
  PublishError, ExceptionClass, Producer, KafkaEventPublisher, delivered, confirm, publish, close,
  after_produce, then_close, publish_confirmed, kafka_key,
}

-- The errors among the reports.
abbrev pub failures : List (Option Text) → List Text
failures [] = []
failures (none ∷ reports) = failures reports
failures (some error ∷ reports) = error ∷ failures reports

delivered-failures :
    (errors : List Text) (reports : List (Option Text))
    → delivered errors reports ≡ errors ++ failures reports
unfolding delivered
delivered-failures errors [] = sym (append-nil errors)
delivered-failures errors (none ∷ reports) = delivered-failures errors reports
delivered-failures errors (some error ∷ reports) =
    delivered-failures (errors ++ (error ∷ [])) reports ∙ append_assoc errors (error ∷ []) _

append-eq-nil : (xs ys : List Text) → xs ++ ys ≡ [] → (xs ≡ []) × (ys ≡ [])
append-eq-nil [] ys h = (refl, h)
append-eq-nil (x ∷ xs) ys h = cc

confirm_iff :
    (remaining : ℕ) (errors : List Text)
    → (confirm remaining errors ≡ ok tt) ↔ ((remaining ≡ 0) × (errors ≡ []))
unfolding confirm
confirm_iff remaining errors = (λ h. ground arith, λ h. ground arith)

confirm-append :
    (remaining : ℕ) (old polled flushed : List Text)
    → (confirm remaining ((old ++ polled) ++ flushed) ≡ ok tt)
      ↔ ((remaining ≡ 0) × (old ≡ []) × (polled ≡ []) × (flushed ≡ []))
confirm-append remaining [] [] flushed = (
  λ h. let (r, f) = (confirm_iff remaining flushed).0 h in (r, refl, refl, f),
  λ h. (confirm_iff remaining flushed).1 (h.0, h.3),
)
confirm-append remaining [] (x ∷ polled) flushed =
    (λ h. let (_, f) = (confirm_iff remaining _).0 h in cc, λ h. cc (h.2))
confirm-append remaining (x ∷ old) polled flushed =
    (λ h. let (_, f) = (confirm_iff remaining _).0 h in cc, λ h. cc (h.1))

module _ (P : Producer) (self : KafkaEventPublisher P) where
  confirmed_after_produce :
      (r : Result ExceptionClass (Unit {0})) (q : P.State)
      → let polled = P.poll q in
        let flushed = P.flush polled.1 in
        let (published, self') = after_produce P self r q in
        ((then_close P published self').0 ≡ ok tt) ↔ (
          (r ≡ ok tt)
          × (flushed.0 ≡ 0)
          × (self.delivery_errors ≡ [])
          × (failures polled.0 ≡ [])
          × (failures flushed.1 ≡ []))
  unfolding after_produce then_close
  confirmed_after_produce (err x) q = (λ h. cc, λ h. cc (h.0))
  confirmed_after_produce (ok _) q =
      let polled = P.poll q in
      let flushed = P.flush polled.1 in
      let errors = ap (confirm flushed.0) (
        delivered-failures _ flushed.1
        ∙ ap (λ l. l ++ failures flushed.1) (delivered-failures self.delivery_errors polled.0)) in
      let law =
        confirm-append flushed.0 self.delivery_errors (failures polled.0) (failures flushed.1) in
      (
        λ h. let p = law.0 (sym errors ∙ h) in (refl, p.0, p.1, p.2, p.3),
        λ h. errors ∙ law.1 (h.1, h.2, h.3, h.4),
      )

module _ (P : Producer) (event : UserBehaviorEvent) (self : KafkaEventPublisher P) where
  -- The producer after it took the message, and after it was polled.
  abbrev pub queued : Result ExceptionClass (Unit {0}) × P.State
  queued = P.produce self.topic (kafka_key event) event self.producer

  abbrev pub polled : List (Option Text) × P.State
  polled = P.poll queued.1

  abbrev pub flushed : ℕ × List (Option Text) × P.State
  flushed = P.flush polled.1

  -- What a confirmed publication means: the producer took the message, nothing is pending, and no
  -- delivery has failed, before or now.
  pub record IsConfirmed : Type 0 where
    pub taken : queued.0 ≡ ok tt
    pub none_pending : flushed.0 ≡ 0
    pub none_failed_before : self.delivery_errors ≡ []
    pub none_failed_polled : failures polled.0 ≡ []
    pub none_failed_flushed : failures flushed.1 ≡ []

  -- `publish_confirmed` returns exactly if the producer took the message, the flush left nothing
  -- pending, neither the poll nor the flush reported a failure, and no call before them did.
  pub publish_confirmed_iff : ((publish_confirmed P event self).0 ≡ ok tt) ↔ IsConfirmed
  unfolding publish_confirmed
  publish_confirmed_iff =
      let law = confirmed_after_produce P self queued.0 queued.1 in
      (
        λ h.
            let c = law.0 h in
            record {
              taken = c.0;
              none_pending = c.1;
              none_failed_before = c.2;
              none_failed_polled = c.3;
              none_failed_flushed = c.4;
            },
        λ c. law.1 (
          c.taken, c.none_pending, c.none_failed_before, c.none_failed_polled,
          c.none_failed_flushed,
        ),
      )

-- The calls of a publisher's methods, in the order in which they are made.
pub data Call : Type 0 where
  publishing confirming : UserBehaviorEvent → Call
  closing : Call

module _ (P : Producer) where
  abbrev pub perform : Call → KafkaEventPublisher P → KafkaEventPublisher P
  perform (publishing event) self = (publish P event self).1
  perform (confirming event) self = (publish_confirmed P event self).1
  perform closing self = (close P self).1

  abbrev pub perform_all : List Call → KafkaEventPublisher P → KafkaEventPublisher P
  perform_all [] self = self
  perform_all (c ∷ calls) self = perform_all calls (perform c self)

  -- The errors of the second state extend those of the first.
  abbrev Extends : KafkaEventPublisher P → KafkaEventPublisher P → Type 0
  Extends self next = (new : List Text) × (next.delivery_errors ≡ self.delivery_errors ++ new)

  Extends-trans : (a b c : KafkaEventPublisher P) → Extends a b → Extends b c → Extends a c
  Extends-trans a b c (xs, p) (ys, q) =
      (xs ++ ys, q ∙ ap (λ l. l ++ ys) p ∙ append_assoc a.delivery_errors xs ys)

  after_produce-Extends :
      (self : KafkaEventPublisher P) (r : Result ExceptionClass (Unit {0})) (q : P.State)
      → Extends self (after_produce P self r q).1
  unfolding after_produce
  after_produce-Extends self (ok _) q =
      (failures (P.poll q).0, delivered-failures self.delivery_errors (P.poll q).0)
  after_produce-Extends self (err x) q = ([], sym (append-nil self.delivery_errors))

  publish-Extends :
      (event : UserBehaviorEvent) (self : KafkaEventPublisher P)
      → Extends self (publish P event self).1
  unfolding publish
  publish-Extends event self =
      after_produce-Extends self (queued P event self).0 (queued P event self).1

  close-Extends : (self : KafkaEventPublisher P) → Extends self (close P self).1
  unfolding close
  close-Extends self =
      let reports = (P.flush self.producer).1 in
      (failures reports, delivered-failures self.delivery_errors reports)

  then_close-Extends :
      (r : Result PublishError (Unit {0})) (self : KafkaEventPublisher P)
      → Extends self (then_close P r self).1
  unfolding then_close
  then_close-Extends (err e) self = ([], sym (append-nil self.delivery_errors))
  then_close-Extends (ok _) self = close-Extends self

  publish_confirmed-Extends :
      (event : UserBehaviorEvent) (self : KafkaEventPublisher P)
      → Extends self (publish_confirmed P event self).1
  unfolding publish_confirmed
  publish_confirmed-Extends event self =
      let (published, self') = publish P event self in
      Extends-trans self self' (then_close P published self').1 (publish-Extends event self)
        (then_close-Extends published self')

  perform-Extends : (c : Call) (self : KafkaEventPublisher P) → Extends self (perform c self)
  perform-Extends (publishing event) self = publish-Extends event self
  perform-Extends (confirming event) self = publish_confirmed-Extends event self
  perform-Extends closing self = close-Extends self

  perform_all-Extends :
      (calls : List Call) (self : KafkaEventPublisher P) → Extends self (perform_all calls self)
  perform_all-Extends [] self = ([], sym (append-nil self.delivery_errors))
  perform_all-Extends (c ∷ calls) self =
      Extends-trans self (perform c self) (perform_all calls (perform c self))
        (perform-Extends c self) (perform_all-Extends calls (perform c self))

  -- Once one delivery has failed, no later publication is confirmed, whatever was called in between
  -- and whatever Kafka reports of it.
  pub publish_confirmed_poisoned :
      (calls : List Call) (event : UserBehaviorEvent) (self : KafkaEventPublisher P)
      → self.delivery_errors ≢ []
      → (publish_confirmed P event (perform_all calls self)).0 ≢ ok tt
  publish_confirmed_poisoned calls event self failed h =
      let (new, e) = perform_all-Extends calls self in
      let c = (publish_confirmed_iff P event (perform_all calls self)).0 h in
      failed (append-eq-nil self.delivery_errors new (sym e ∙ c.none_failed_before)).0

  pub confirmed_close :
      (self : KafkaEventPublisher P)
      → (close P self).0 ≡ ok tt
      → ((P.flush self.producer).0 ≡ 0)
        × (self.delivery_errors ≡ [])
        × (failures (P.flush self.producer).1 ≡ [])
  unfolding close
  confirmed_close self h =
      let reports = (P.flush self.producer).1 in
      let (pending, no_errors) =
        (confirm_iff (P.flush self.producer).0 (delivered self.delivery_errors reports)).0 h in
      let (old, new) =
        append-eq-nil self.delivery_errors (failures reports)
          (sym (delivered-failures self.delivery_errors reports) ∙ no_errors) in
      (pending, old, new)

  -- No failed delivery is lost: if `close` returns at the end of any calls, no delivery had failed
  -- before them or during them, none failed in the flush, and nothing is pending.
  pub close_reports :
      (calls : List Call) (self : KafkaEventPublisher P)
      → (close P (perform_all calls self)).0 ≡ ok tt
      → (self.delivery_errors ≡ [])
        × ((perform_all calls self).delivery_errors ≡ [])
        × (failures (P.flush (perform_all calls self).producer).1 ≡ [])
        × ((P.flush (perform_all calls self).producer).0 ≡ 0)
  close_reports calls self h =
      let last = perform_all calls self in
      let (pending, none_before, none_now) = confirmed_close last h in
      let (new, e) = perform_all-Extends calls self in
      (
        (append-eq-nil self.delivery_errors new (sym e ∙ none_before)).0,
        none_before,
        none_now,
        pending,
      )
