-- ===== src/Cli.antt =====
-- clients/taobao_replay: the command line, cli.py, and its HTTP publisher, http.py. The arguments
-- are those that argparse makes of the command line.
pub mod Http
pub mod Disk
pub mod Errors
pub mod Paths
pub mod Host
pub mod Checks
pub mod Commands
pub mod Handles
pub mod Listed
pub mod Outputs
pub mod Kept
pub mod Asleep
pub mod Inputs
pub mod Written
pub mod Opened
pub mod Replayed
pub mod Delivered
pub mod Posted
use kafka_flink_click_house.Base.{Bool, false, Option, none, Text, codes, ℤ, pos}
use kafka_flink_click_house.Kafka.Settings.{get_or}
use kafka_flink_click_house.Replay.Player.{Floats}

pub record KafkaOptions : Type 0 where
  pub bootstrap_servers : Text
  pub schema_registry_url : Text
  pub topic : Text
  pub schema : Text

pub data Command : Type 0 where
  -- With the output path.
  replay : Text → Command
  publish : KafkaOptions → Command
  -- With the endpoint.
  http : Text → Command

pub record Arguments (F : Floats) : Type 0 where
  pub command : Command
  pub input : Text
  pub run_id : Text
  pub batch_size : ℤ
  pub speed : F.Float
  pub invalid_output : Option Text
  pub force : Bool

module _ (F : Floats) (environment : Text → Option Text) (input : Text) where
  -- The arguments of a command line that gives the command and the input only.
  abbrev defaults : Command → Text → Arguments F
  defaults command run_id = record {
    command = command;
    input = input;
    run_id = run_id;
    batch_size = pos 1000;
    speed = F.zero;
    invalid_output = none;
    force = false;
  }

  unfoldable pub replay_defaults : Arguments F
  replay_defaults = defaults (replay (codes "-")) (codes "local-run")

  unfoldable pub publish_defaults : Arguments F
  publish_defaults =
      defaults
        (publish (record {
          bootstrap_servers =
              get_or environment (codes "KAFKA_BOOTSTRAP_SERVERS") (codes "localhost:9092");
          schema_registry_url =
              get_or environment (codes "SCHEMA_REGISTRY_URL") (codes "http://localhost:8081");
          topic = get_or environment (codes "KAFKA_TOPIC") (codes "user-behavior-events");
          schema = codes "schemas/user-behavior-event.avsc";
        }))
        (codes "kafka-run")

  unfoldable pub http_defaults : Arguments F
  http_defaults =
      defaults
        (http
          (get_or environment (codes "EVENT_API_URL") (codes "http://localhost:8000/v1/events")))
        (codes "http-run")
