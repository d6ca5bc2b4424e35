-- ===== src/Cli/Replayed.antt =====
-- cli.py: the command `replay` from its checks to the files that it leaves.
use kafka_flink_click_house.Base.{Text, nat_eq, list_eq}
use kafka_flink_click_house.Replay.Player.{Floats}
use kafka_flink_click_house.Cli.{Arguments}
use kafka_flink_click_house.Cli.Disk.{World}
use kafka_flink_click_house.Cli.Host.{Host}
use kafka_flink_click_house.Cli.Commands.{open_invalid}
use kafka_flink_click_house.Cli.Opened.{opened_world, IsReady}

module _ (F : Floats) (host : Host F) (path : Text) (args : Arguments F) (w : World F) where
  module _ (ready : IsReady F host path args w) where
    abbrev after_opening : World F
    after_opening =
        (open_invalid F host args.invalid_output args.force (opened_world F host path args w)).1
