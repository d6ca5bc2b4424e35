-- ===== src/Cli/Host.antt =====
-- What stands outside the command line.
use kafka_flink_click_house.Base.{ℕ, Bool, Option, List, Text, Result}
use kafka_flink_click_house.Json.{Json}
use kafka_flink_click_house.Kafka.Publisher.{ExceptionClass}
use kafka_flink_click_house.Replay.Player.{Floats}
use kafka_flink_click_house.Cli.Disk.{Line, Names}

-- What the process finds: the names of its file system, what its clock shows, the rows that
-- `csv.reader` yields of a file, the environment, and the parsed schema file, or the exception.
pub record Host (F : Floats) : Type 0 where
  pub names : Names
  pub now : ℕ → F.Float
  -- Whether `time.sleep` takes a time, or raises an `OverflowError`.
  pub can_sleep : F.Float → Bool
  pub csv : List Line → List (List Text)
  pub sha256 : Text → Text
  pub upper : Text → Text
  pub environment : Text → Option Text
  pub read_schema : Text → Result ExceptionClass Json
