-- ===== src/Cli/Delivered.antt =====
-- cli.py: what was published when a command that publishes returns.
use kafka_flink_click_house.Base.{
  false, ◌≡◌, refl, sym, ap, ◌∙◌, Option, none, some, List, [], ◌∷◌, ◌++◌, append-nil, map, Text,
  codes, nat_eq, list_eq, Result, ok, err, >>=-eq-ok,
}
use kafka_flink_click_house.Base.Dict.{get}
use kafka_flink_click_house.Base.Exec.{Exec, continue_returns}
use kafka_flink_click_house.Events.{UserBehaviorEvent}
use kafka_flink_click_house.Kafka.Publisher.{
  Producer, KafkaEventPublisher, ExceptionClass, kafka_key, publish, after_produce, close,
}
use kafka_flink_click_house.Kafka.Publisher.Delivery.{failures, confirmed_close}
use kafka_flink_click_house.Kafka.Building.{ClientLibrary}
use kafka_flink_click_house.Replay.Reader.{ParseIssue, iter_source_rows}
use kafka_flink_click_house.Replay.Reader.Batches.{accepted}
use kafka_flink_click_house.Replay.Player.{Floats, ReplayStats}
use kafka_flink_click_house.Replay.Player.Observed.{flat-map, replay_file-events}
use kafka_flink_click_house.Cli.{Arguments, KafkaOptions}
use kafka_flink_click_house.Cli.Disk.{World, Handle, content_of}
use kafka_flink_click_house.Cli.Errors.{CliError, publishing, raise_as-ok, of_replay}
use kafka_flink_click_house.Cli.Host.{Host}
use kafka_flink_click_house.Cli.Checks.{validate, create_publisher}
use kafka_flink_click_house.Cli.Commands.{
  open_invalid, on_publisher, reject, callbacks, run_replay, deliver, publish_with, publish_command,
  monotonic, sleep,
}
use kafka_flink_click_house.Cli.Kept.{open_invalid-Apart, validate-IsApart}

module _ (F : Floats) (host : Host F) where
  -- The events that `parse_event` makes of the rows of the input file.
  abbrev pub input_events : Arguments F → World F → List UserBehaviorEvent
  input_events args w =
      accepted host.sha256 args.run_id
        (iter_source_rows (host.csv (content_of (get w.files (host.names.resolve args.input)))))

  module _ {Q A : Type 0} (emit : UserBehaviorEvent → Exec CliError (Q × World F) (Unit {0}))
      (observe : Q → List A) (of_event : UserBehaviorEvent → A)
      (emits : (event : UserBehaviorEvent) (s : Q × World F)
        → (emit event s).0 ≡ ok tt
        → observe (emit event s).1.0 ≡ observe s.0 ++ (of_event event ∷ [])) where
    reject-publisher :
        (handle : Option Handle) (issue : ParseIssue) (s : Q × World F)
        → (reject F host handle issue s).1.0 ≡ s.0
    unfolding reject
    reject-publisher none issue s = refl
    reject-publisher (some h) issue s = refl

    run_replay-published :
        (args : Arguments F) (handle : Option Handle) (s : Q × World F) (stats : ReplayStats)
        → (run_replay F host args emit handle s).0 ≡ ok stats
        → observe (run_replay F host args emit handle s).1.0
          ≡ observe s.0 ++ map of_event (input_events args s.1)
    unfolding run_replay monotonic sleep
    run_replay-published args handle s stats h =
        let rows = host.csv (content_of (get s.1.files (host.names.resolve args.input))) in
        replay_file-events F CliError (Q × World F) A (callbacks F host emit handle) args.speed
          (reject F host handle) (λ t. observe t.0) (λ e. of_event e ∷ []) (λ i. [])
          (record {
            emits = emits;
            rejects = λ issue t _.
                ap observe (reject-publisher handle issue t) ∙ sym (append-nil (observe t.0));
            on_invalid = refl;
            clock = λ t. refl;
            rest = λ delay t. refl;
          })
          host.sha256 args.run_id rows args.batch_size s stats (raise_as-ok of_replay _ stats h)
          (λ i. refl)
        ∙ ap (λ l. observe s.0 ++ l) (flat-map of_event (input_events args s.1))

    -- A delivery that returns: what was published before the publisher was closed, and the end.
    pub deliver-published :
        (close_publisher : Exec CliError (Q × World F) (Unit {0})) (args : Arguments F)
        (s : Q × World F) (stats : ReplayStats)
        → (let w' = (open_invalid F host args.invalid_output args.force s.1).1 in
            get w'.files (host.names.resolve args.input)
            ≡ get s.1.files (host.names.resolve args.input))
        → (deliver F host emit close_publisher args s).0 ≡ ok stats
        → (t : Q × World F) × (observe t.0 ≡ observe s.0 ++ map of_event (input_events args s.1))
          × ((close_publisher t).0 ≡ ok tt)
          × ((deliver F host emit close_publisher args s).1 ≡ (close_publisher t).1)
    unfolding deliver
    deliver-published close_publisher args s stats kept h =
        let (opened, w) = open_invalid F host args.invalid_output args.force s.1 in
        let (handle, _, h₁, e₁) = continue_returns opened (s.0, w) _ stats h in
        let (played, t) = run_replay F host args emit handle (s.0, w) in
        let (stats', ran, h₂, e₂) = continue_returns played t _ stats h₁ in
        let (closed, u) = close_publisher t in
        let (_, done, h₃, e₃) = continue_returns closed u (λ _ v. (ok stats', v)) stats h₂ in
        (
          t,
          run_replay-published args handle (s.0, w) stats' ran
              ∙ ap
                  (λ c.
                    observe s.0
                    ++ map of_event (
                        accepted host.sha256 args.run_id
                          (iter_source_rows (host.csv (content_of c)))))
                  kept,
          done,
          ap (λ x. x.1) (e₁ ∙ e₂ ∙ e₃),
        )

-- A message that a producer took: its key and its event.
pub record Message : Type 0 where
  pub key : Text
  pub event : UserBehaviorEvent

abbrev pub message_of : UserBehaviorEvent → Message
message_of event = record { key = kafka_key event; event = event }

-- A producer that keeps what it took, in order.
pub record Journal (P : Producer) : Type 0 where
  pub taken : P.State → List Message
  pub took :
      (topic key : Text) (event : UserBehaviorEvent) (q : P.State)
      → (P.produce topic key event q).0 ≡ ok tt
      → taken (P.produce topic key event q).1
        ≡ taken q ++ (record { key = key; event = event } ∷ [])
  pub polled : (q : P.State) → taken (P.poll q).1 ≡ taken q

module _ (P : Producer) (J : Journal P) where
  after_produce-taken :
      (self : KafkaEventPublisher P) (r : Result ExceptionClass (Unit {0})) (q : P.State)
      → (after_produce P self r q).0 ≡ ok tt
      → (r ≡ ok tt) × (J.taken (after_produce P self r q).1.producer ≡ J.taken q)
  unfolding after_produce
  after_produce-taken self (ok _) q h = (refl, J.polled q)
  after_produce-taken self (err x) q h = cc

  publish-taken :
      (event : UserBehaviorEvent) (self : KafkaEventPublisher P)
      → (publish P event self).0 ≡ ok tt
      → J.taken (publish P event self).1.producer ≡ J.taken self.producer ++ (message_of event ∷ [])
  unfolding publish
  publish-taken event self h =
      let (queued, q) = P.produce self.topic (kafka_key event) event self.producer in
      let (given, same) = after_produce-taken self queued q h in
      same ∙ J.took self.topic (kafka_key event) event self.producer given

  module _ (F : Floats) (host : Host F) (library : Option (ClientLibrary P.State)) where
    -- All of the input file reached Kafka: in the order of the file each event was given to the
    -- producer that was created, with its key, and at the end nothing was pending and no delivery
    -- had failed.
    pub record IsDelivered (options : KafkaOptions) (args : Arguments F) (w : World F)
        (end : Option (KafkaEventPublisher P)) : Type 0 where
      pub created : KafkaEventPublisher P
      pub creation : create_publisher F host P library options args w ≡ ok created
      pub last : KafkaEventPublisher P
      pub closed : end ≡ some (close P last).1
      pub taken :
          J.taken last.producer
          ≡ J.taken created.producer ++ map message_of (input_events F host args w)
      pub none_pending : (P.flush last.producer).0 ≡ 0
      pub none_failed : last.delivery_errors ≡ []
      pub none_failed_flushed : failures (P.flush last.producer).1 ≡ []

    publish_with-taken :
        (created : Result CliError (KafkaEventPublisher P)) (args : Arguments F) (w : World F)
        (stats : ReplayStats)
        → ((publisher : KafkaEventPublisher P)
            → created ≡ ok publisher
            → let w' = (open_invalid F host args.invalid_output args.force w).1 in
              get w'.files (host.names.resolve args.input)
              ≡ get w.files (host.names.resolve args.input))
        → (publish_with F host P library created args w).0 ≡ ok stats
        → (publisher : KafkaEventPublisher P) × (last : KafkaEventPublisher P) × (created
            ≡ ok publisher)
          × ((publish_with F host P library created args w).1.0 ≡ some (close P last).1)
          × (J.taken last.producer
              ≡ J.taken publisher.producer ++ map message_of (input_events F host args w))
          × ((close P last).0 ≡ ok tt)
    unfolding publish_with
    publish_with-taken (err e) args w stats kept h = cc
    publish_with-taken (ok publisher) args w stats kept h =
        let (t, taken, closed, end) =
          deliver-published F host (λ event. on_publisher F host publishing (publish P event))
            (λ self. J.taken self.producer) message_of
            (λ event s e. publish-taken event s.0 (raise_as-ok publishing _ tt e))
            (on_publisher F host publishing (close P)) args (publisher, w) stats
            (kept publisher refl) h in
        (publisher, t.0, refl, ap (λ s. some s.0) end, taken, raise_as-ok publishing _ tt closed)

    -- If the command `publish` returns, all of the input file has reached Kafka: each event that
    -- `parse_event` makes of its rows was given to the producer, in the order of the file and with
    -- the key of its user, nothing is pending, and no delivery has failed. The empty path must not
    -- be one that can be opened for writing.
    pub publish_command-IsDelivered :
        (options : KafkaOptions) (args : Arguments F) (w : World F) (stats : ReplayStats)
        → host.names.is_writable [] ≡ false
        → (publish_command F host P library options args w).0 ≡ ok stats
        → IsDelivered options args w (publish_command F host P library options args w).1.0
    unfolding publish_command create_publisher
    publish_command-IsDelivered options args w stats cwd h =
        let created = create_publisher F host P library options args w in
        let kept = λ (publisher : KafkaEventPublisher P) (e : created ≡ ok publisher).
          let (_, valid, _) = >>=-eq-ok (validate F host args (codes "-") w) _ e in
          let apart =
            (validate-IsApart F host cwd (host.names.resolve args.input) none args (codes "-") w
              refl valid).1 in
          (open_invalid-Apart F host cwd (host.names.resolve args.input) none args.invalid_output
            args.force w apart).0 in
        let (publisher, last, creation, end, taken, closed) =
          publish_with-taken created args w stats kept h in
        let (pending, errors, flushed) = confirmed_close P last closed in
        record {
          created = publisher;
          creation = creation;
          last = last;
          closed = end;
          taken = taken;
          none_pending = pending;
          none_failed = errors;
          none_failed_flushed = flushed;
        }
