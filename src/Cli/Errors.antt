-- ===== src/Cli/Errors.antt =====
-- cli.py: how the commands fail, and how the process ends.
use kafka_flink_click_house.Base.{◌≡◌, Option, none, some, Text, Result, ok, err}
use kafka_flink_click_house.Kafka.Publisher.{
  ExceptionClass, value_error, runtime_error, os_error, other_error, PublishError, producer_error,
}
use kafka_flink_click_house.Kafka.Building.{BuildError, bad_schema, client_error}
use kafka_flink_click_house.Replay.Player.{
  ReplayStats, ReplayError, negative_speed, bad_batch_size, raised,
}
use kafka_flink_click_house.Cli.Http.{HttpError}
use kafka_flink_click_house.Cli.Disk.{OpenError}

pub data CliError : Type 0 where
  -- What `_validate_input` and `_validate_outputs` tell `parser.error`.
  no_input overwrites_input same_outputs : CliError
  output_exists : Text → CliError
  -- The exceptions.
  opening : OpenError → CliError
  bad_endpoint blank_topic bad_speed bad_batch : CliError
  building : BuildError → CliError
  posting : HttpError → CliError
  publishing : PublishError → CliError
  -- The `OverflowError` of a time that no float holds or that is too long to sleep.
  overflow : CliError

-- How the process ends: with the statistics on its standard error and the status 0, with an error
-- of argparse and the status 2, or with an exception.
pub data Exit : Type 0 where
  returned : ReplayStats → Exit
  usage_error : CliError → Exit
  uncaught : CliError → Exit

-- `except (OSError, RuntimeError, ValueError)` of an exception that a library raises.
abbrev pub caught_class : ExceptionClass → CliError → Exit
caught_class value_error = usage_error
caught_class runtime_error = usage_error
caught_class os_error = usage_error
caught_class other_error = uncaught

unfoldable pub exit_of : Result CliError ReplayStats → Exit
exit_of (ok stats) = returned stats
exit_of (err (building (bad_schema x))) = caught_class x (building (bad_schema x))
exit_of (err (building (client_error x))) = caught_class x (building (client_error x))
exit_of (err (publishing (producer_error x))) = caught_class x (publishing (producer_error x))
exit_of (err overflow) = uncaught overflow
exit_of (err e) = usage_error e

abbrev pub raise_as : {E A : Type 0} → (E → CliError) → Result E A → Result CliError A
raise_as f (ok a) = ok a
raise_as f (err e) = err (f e)

abbrev pub present : {A : Type 0} → CliError → Option A → Result CliError A
present e none = err e
present e (some a) = ok a

abbrev pub of_replay : ReplayError CliError → CliError
of_replay negative_speed = bad_speed
of_replay bad_batch_size = bad_batch
of_replay (raised e) = e

pub raise_as-ok :
    {E A : Type 0} (f : E → CliError) (r : Result E A) (a : A) → raise_as f r ≡ ok a → r ≡ ok a
raise_as-ok f (ok b) a h = cc
raise_as-ok f (err x) a h = cc
