-- ===== src/Cli/Commands.antt =====
-- cli.py: `main` with its three commands.
use kafka_flink_click_house.Base.{
  if◌then◌else◌, nat_eq, list_eq, ◌+◌, ◌++◌, Option, none, some, [], ◌∷◌, Bool, Text, codes, Result,
  ok, err,
}
use kafka_flink_click_house.Base.Dict.{get}
use kafka_flink_click_house.Base.Exec.{Exec, continue, ◌>>=◌, ◌>>◌, pure}
use kafka_flink_click_house.Events.{UserBehaviorEvent}
use kafka_flink_click_house.Kafka.Publisher.{Producer, KafkaEventPublisher, publish, close}
use kafka_flink_click_house.Kafka.Building.{ClientLibrary}
use kafka_flink_click_house.Replay.Reader.{ParseIssue}
use kafka_flink_click_house.Replay.Player.{ReplayStats, Floats, Callbacks, replay_file}
use kafka_flink_click_house.Cli.{Arguments, KafkaOptions, Command, http}
use kafka_flink_click_house.Cli.Http.{Service, create_http, publish_http, close_http}
use kafka_flink_click_house.Cli.Disk.{
  accepted_line, rejected_line, World, Handle, content_of, open_output, write,
}
use kafka_flink_click_house.Cli.Errors.{
  CliError, overflow, opening, bad_endpoint, posting, publishing, Exit, exit_of, raise_as, present,
  of_replay,
}
use kafka_flink_click_house.Cli.Host.{Host}
use kafka_flink_click_house.Cli.Checks.{validate, create_publisher}

abbrev pub handle_of : Result CliError Handle → Result CliError (Option Handle)
handle_of (ok handle) = ok (some handle)
handle_of (err e) = err e

module _ (F : Floats) (host : Host F) where
  -- The clock and the sleep of a replay. The clock may show anything.
  unfoldable pub monotonic : World F → F.Float × World F
  monotonic w = (host.now w.readings, record w { readings = w.readings + 1 })

  unfoldable pub sleep : F.Float → Exec CliError (World F) (Unit {0})
  sleep delay w =
      if host.can_sleep delay
      then (ok tt, record w { slept = w.slept ++ (delay ∷ []) })
      else (err overflow, w)

  -- `_open_output(...) if args.invalid_output else None`
  unfoldable pub open_invalid : Option Text → Bool → Exec CliError (World F) (Option Handle)
  unfolding open_output
  open_invalid none force w = (ok none, w)
  open_invalid (some []) force w = (ok none, w)
  open_invalid (some (c ∷ path)) force w =
      let (opened, w') = open_output F host.names (c ∷ path) force w in
      (handle_of (raise_as opening opened), w')

  -- Beside the files, a command keeps the state `Q` of its publisher.
  module _ {Q : Type 0} where
    -- A call of the publisher, and one of the file system.
    abbrev pub on_publisher :
        {E A : Type 0} → (E → CliError) → Exec E Q A → Exec CliError (Q × World F) A
    on_publisher f m (q, w) = let (r, q') = m q in (raise_as f r, (q', w))

    abbrev pub on_world : {A : Type 0} → Exec CliError (World F) A → Exec CliError (Q × World F) A
    on_world m (q, w) = let (r, w') = m w in (r, (q, w'))

    -- `reject`: the function that each command hands to the replay.
    unfoldable pub reject : Option Handle → ParseIssue → Exec CliError (Q × World F) (Unit {0})
    unfolding write
    reject none issue s = (ok tt, s)
    reject (some handle) issue (q, w) =
        (ok tt, (q, write F host.names handle (rejected_line issue) w))

    abbrev pub callbacks :
        (UserBehaviorEvent → Exec CliError (Q × World F) (Unit {0}))
        → Option Handle
        → Callbacks F CliError (Q × World F)
    callbacks emit invalid = record {
      emit = emit;
      on_invalid = some (reject invalid);
      monotonic = λ (q, w). let (t, w') = monotonic w in (t, (q, w'));
      sleep = λ delay. on_world (sleep delay);
      overflow = overflow;
    }

    -- The call of `replay_file`.
    unfoldable pub run_replay :
        Arguments F
        → (UserBehaviorEvent → Exec CliError (Q × World F) (Unit {0}))
        → Option Handle
        → Exec CliError (Q × World F) ReplayStats
    unfolding replay_file
    run_replay args emit invalid (q, w) =
        let rows = host.csv (content_of (get w.files (host.names.resolve args.input))) in
        let (result, s) =
          replay_file F CliError (Q × World F) (callbacks emit invalid) args.speed host.sha256
            args.run_id rows args.batch_size (q, w) in
        (raise_as of_replay result, s)

    -- What the two commands that publish do behind their checks. The calls of the publisher are the
    -- arguments.
    unfoldable pub deliver :
        (UserBehaviorEvent → Exec CliError (Q × World F) (Unit {0}))
        → Exec CliError (Q × World F) (Unit {0})
        → Arguments F
        → Exec CliError (Q × World F) ReplayStats
    unfolding open_invalid run_replay
    deliver emit close_publisher args = do
      invalid ← on_world (open_invalid args.invalid_output args.force)
      stats ← run_replay args emit invalid
      close_publisher
      pure stats

  -- "http", with the state of the service.
  module _ (H : Service) where
    unfoldable pub http_command : Text → Arguments F → Exec CliError (H.State × World F) ReplayStats
    unfolding validate create_http publish_http close_http deliver
    http_command endpoint args (q, w) =
        let checked = validate F host args (codes "-") w in
        continue checked (q, w)
          λ _ s. continue (present bad_endpoint (create_http endpoint)) s λ url.
            deliver (λ event. on_publisher posting (publish_http H url event))
              (on_publisher posting (close_http H url)) args

  -- "publish", with the client library. The publisher is a part of the end, if it was created.
  module _ (P : Producer) (library : Option (ClientLibrary P.State)) where
    -- With the publisher, or what its creation raised.
    unfoldable pub publish_with :
        Result CliError (KafkaEventPublisher P)
        → Arguments F
        → World F
        → Result CliError ReplayStats × (Option (KafkaEventPublisher P) × World F)
    unfolding publish close deliver
    publish_with (err e) args w = (err e, (none, w))
    publish_with (ok publisher) args w =
        let (result, (publisher', w')) =
          deliver (λ event. on_publisher publishing (publish P event))
            (on_publisher publishing (close P)) args (publisher, w) in
        (result, (some publisher', w'))

    unfoldable pub publish_command :
        KafkaOptions
        → Arguments F
        → World F
        → Result CliError ReplayStats × (Option (KafkaEventPublisher P) × World F)
    unfolding create_publisher publish_with
    publish_command options args w =
        publish_with (create_publisher F host P library options args w) args w

  -- The `emit` of "replay".
  unfoldable pub emit_to :
      Handle → UserBehaviorEvent → Exec CliError (Unit {0} × World F) (Unit {0})
  unfolding write
  emit_to handle event (q, w) = (ok tt, (q, write F host.names handle (accepted_line event) w))

  unfoldable pub open_accepted : Text → Bool → Exec CliError (World F) Handle
  unfolding open_output
  open_accepted path force w =
      let (opened, w') = open_output F host.names path force w in (raise_as opening opened, w')

  -- "replay"
  unfoldable pub replay_command :
      Text → Arguments F → Exec CliError (Unit {0} × World F) ReplayStats
  unfolding validate open_accepted open_invalid run_replay emit_to
  replay_command path args (q, w) =
      continue (validate F host args path w) (q, w)
        λ _. do
          output ← on_world (open_accepted path args.force)
          invalid ← on_world (open_invalid args.invalid_output args.force)
          run_replay args (emit_to output) invalid

  module _ (H : Service) (P : Producer) (library : Option (ClientLibrary P.State)) where
    -- The branches of `main`: the end of the process and the files.
    unfoldable pub run_command : Command → Arguments F → H.State → World F → Exit × World F
    unfolding exit_of http_command publish_command replay_command
    run_command (http endpoint) args q w =
        let (result, (q', w')) = http_command H endpoint args (q, w) in (exit_of result, w')
    run_command (Command.publish options) args q w =
        let (result, (publisher, w')) = publish_command P library options args w in
        (exit_of result, w')
    run_command (Command.replay path) args q w =
        let (result, (q', w')) = replay_command path args (tt, w) in (exit_of result, w')

    -- `main`, where `q` is the state of the service.
    unfoldable pub main : Arguments F → H.State → World F → Exit × World F
    unfolding run_command
    main args q w = run_command args.command args q w
