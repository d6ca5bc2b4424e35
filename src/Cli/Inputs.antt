-- ===== src/Cli/Inputs.antt =====
-- cli.py: no command writes to its input file.
use kafka_flink_click_house.Base.{
  false, ◌≡◌, refl, ◌∙◌, Option, some, List, [], Text, codes, nat_eq, list_eq, Result, ok, err,
  >>=-eq-ok,
}
use kafka_flink_click_house.Base.Dict.{get}
use kafka_flink_click_house.Kafka.Publisher.{Producer, KafkaEventPublisher, publish, close}
use kafka_flink_click_house.Kafka.Building.{ClientLibrary}
use kafka_flink_click_house.Replay.Player.{Floats}
use kafka_flink_click_house.Replay.Player.Kept.{continue_keeps}
use kafka_flink_click_house.Cli.{Arguments, Command, KafkaOptions, http}
use kafka_flink_click_house.Cli.Http.{Service, create_http, publish_http, close_http}
use kafka_flink_click_house.Cli.Disk.{Line, World}
use kafka_flink_click_house.Cli.Errors.{
  CliError, opening, posting, publishing, bad_endpoint, present, raise_as-ok,
}
use kafka_flink_click_house.Cli.Handles.{IsApart, open_output-Apart, write-Apart}
use kafka_flink_click_house.Cli.Host.{Host}
use kafka_flink_click_house.Cli.Checks.{validate, create_publisher}
use kafka_flink_click_house.Cli.Commands.{
  open_invalid, open_accepted, on_publisher, http_command, publish_with, publish_command, emit_to,
  replay_command, run_command, main,
}
use kafka_flink_click_house.Cli.Kept.{
  Keeps, open_invalid-Apart, run_replay-Keeps, deliver-Keeps, validate-IsApart,
}

module _ (F : Floats) (host : Host F) (cwd : host.names.is_writable [] ≡ false) (key : Text)
    (content : Option (List Line)) where
  module _ (args : Arguments F) (is_key : key ≡ host.names.resolve args.input) where
    http_command-Keeps :
        (H : Service) (endpoint : Text) (s : H.State × World F)
        → Keeps F host cwd key content s
        → Keeps F host cwd key content (http_command F host H endpoint args s).1
    unfolding http_command
    http_command-Keeps H endpoint s k =
        let checked = validate F host args (codes "-") s.1 in
        continue_keeps (Keeps F host cwd key content) checked s _ k λ _ valid.
          let (_, apart) =
            validate-IsApart F host cwd key content args (codes "-") s.1 is_key valid in
          continue_keeps (Keeps F host cwd key content)
            (present bad_endpoint (create_http endpoint)) s _ k
            λ url _.
              deliver-Keeps F host cwd key content
                (λ event. on_publisher F host posting (publish_http H url event)) (λ event t k'. k')
                (on_publisher F host posting (close_http H url)) (λ t k'. k') args s apart k

    publish_with-Keeps :
        (P : Producer) (library : Option (ClientLibrary P.State))
        (created : Result CliError (KafkaEventPublisher P)) (w : World F)
        → ((publisher : KafkaEventPublisher P)
            → created ≡ ok publisher
            → (path : Text) → args.invalid_output ≡ some path
            → IsApart F host.names key path)
        → get w.files key ≡ content
        → get (publish_with F host P library created args w).1.1.files key ≡ content
    unfolding publish_with
    publish_with-Keeps P library (err e) w apart k = k
    publish_with-Keeps P library (ok publisher) w apart k =
        deliver-Keeps F host cwd key content
          (λ event. on_publisher F host publishing (publish P event)) (λ event t k'. k')
          (on_publisher F host publishing (close P)) (λ t k'. k') args (publisher, w)
          (apart publisher refl) k

    publish_command-Keeps :
        (P : Producer) (library : Option (ClientLibrary P.State)) (options : KafkaOptions)
        (w : World F)
        → get w.files key ≡ content
        → get (publish_command F host P library options args w).1.1.files key ≡ content
    unfolding publish_command create_publisher
    publish_command-Keeps P library options w k =
        publish_with-Keeps P library (create_publisher F host P library options args w) w
          (λ publisher created.
            let (_, valid, _) = >>=-eq-ok (validate F host args (codes "-") w) _ created in
            (validate-IsApart F host cwd key content args (codes "-") w is_key valid).1)
          k

    replay_command-Keeps :
        (path : Text) (s : Unit {0} × World F)
        → Keeps F host cwd key content s
        → Keeps F host cwd key content (replay_command F host path args s).1
    unfolding replay_command open_accepted emit_to
    replay_command-Keeps path s k =
        continue_keeps (Keeps F host cwd key content) (validate F host args path s.1) s _ k
          λ _ valid.
            let (output_apart, apart) =
              validate-IsApart F host cwd key content args path s.1 is_key valid in
            let (same₁, handles₁) =
              open_output-Apart F host.names key path args.force s.1 cwd output_apart in
            let (opened₁, w₁) = open_accepted F host path args.force s.1 in
            let k₁ : get w₁.files key ≡ content = same₁ ∙ k in
            continue_keeps (Keeps F host cwd key content) opened₁ (s.0, w₁) _ k₁
              λ output e₁.
                let (same₂, handles₂) =
                  open_invalid-Apart F host cwd key content args.invalid_output args.force w₁
                    apart in
                let (opened₂, w₂) = open_invalid F host args.invalid_output args.force w₁ in
                let k₂ : get w₂.files key ≡ content = same₂ ∙ k₁ in
                continue_keeps (Keeps F host cwd key content) opened₂ (s.0, w₂) _ k₂
                  λ invalid e₂.
                    run_replay-Keeps F host cwd key content (emit_to F host output)
                      (λ event t k'.
                        write-Apart F host.names key output _ t.1
                          (handles₁ output (raise_as-ok opening _ output e₁))
                        ∙ k')
                      args invalid (s.0, w₂) (handles₂ invalid e₂) k₂

    run_command-Keeps :
        (H : Service) (P : Producer) (library : Option (ClientLibrary P.State)) (c : Command)
        (q : H.State) (w : World F)
        → get w.files key ≡ content
        → get (run_command F host H P library c args q w).1.files key ≡ content
    unfolding run_command
    run_command-Keeps H P library (http endpoint) q w k = http_command-Keeps H endpoint (q, w) k
    run_command-Keeps H P library (Command.publish options) q w k =
        publish_command-Keeps P library options w k
    run_command-Keeps H P library (Command.replay path) q w k = replay_command-Keeps path (tt, w) k

module _ (F : Floats) (host : Host F) (H : Service) (P : Producer)
    (library : Option (ClientLibrary P.State)) where
  -- Whatever the command, its arguments and its end, the input file holds what it held, if the empty
  -- path, which names the working directory, cannot be opened for writing.
  pub main-input :
      (args : Arguments F) (q : H.State) (w : World F)
      → host.names.is_writable [] ≡ false
      → get (main F host H P library args q w).1.files (host.names.resolve args.input)
        ≡ get w.files (host.names.resolve args.input)
  unfolding main
  main-input args q w cwd =
      run_command-Keeps F host cwd (host.names.resolve args.input)
        (get w.files (host.names.resolve args.input)) args refl H P library args.command q w refl
