-- ===== src/Cli/Checks.antt =====
-- cli.py: what a command does before it opens a file: the checks, and the creation of the Kafka
-- publisher.
use kafka_flink_click_house.Base.{Option, Text, codes, Result, ◌>>=◌, ◌>>◌}
use kafka_flink_click_house.Kafka.Publisher.{Producer, KafkaEventPublisher, create}
use kafka_flink_click_house.Kafka.Building.{ClientLibrary, build_schema_registry_producer}
use kafka_flink_click_house.Replay.Player.{Floats}
use kafka_flink_click_house.Cli.{Arguments, KafkaOptions}
use kafka_flink_click_house.Cli.Disk.{World}
use kafka_flink_click_house.Cli.Errors.{CliError, blank_topic, building, raise_as, present}
use kafka_flink_click_house.Cli.Host.{Host}
use kafka_flink_click_house.Cli.Paths.{validate_input, validate_outputs}

module _ (F : Floats) (host : Host F) where
  -- `_validate_input` and `_validate_outputs` of one command.
  unfoldable pub validate : Arguments F → Text → World F → Result CliError (Unit {0})
  unfolding validate_input validate_outputs
  validate args output w = do
    validate_input F host.names args.input w
    validate_outputs F host.names args.input output args.invalid_output args.force w

  -- "publish", up to the creation of the publisher.
  unfoldable pub create_publisher :
      (P : Producer)
      → Option (ClientLibrary P.State)
      → KafkaOptions
      → Arguments F
      → World F
      → Result CliError (KafkaEventPublisher P)
  unfolding validate build_schema_registry_producer create
  create_publisher P library options args w = do
    validate args (codes "-") w
    producer ← raise_as building (
        build_schema_registry_producer library host.upper host.environment options.bootstrap_servers
          options.schema_registry_url (host.read_schema options.schema))
    present blank_topic (create P producer options.topic)
