-- ===== src/Cli/Asleep.antt =====
-- cli.py: a sleep leaves the files as they are, and returns if the time may be slept.
use kafka_flink_click_house.Base.{◌≡◌, refl, true, Bool-cases, inl, inr, ok}
use kafka_flink_click_house.Replay.Player.{Floats}
use kafka_flink_click_house.Cli.Disk.{World}
use kafka_flink_click_house.Cli.Host.{Host}
use kafka_flink_click_house.Cli.Commands.{sleep}

module _ (F : Floats) (host : Host F) where
  pub sleep-files : (delay : F.Float) (w : World F) → (sleep F host delay w).1.files ≡ w.files
  unfolding sleep
  sleep-files delay w = elim (Bool-cases (host.can_sleep delay)) [
    | inl may ↦ rw may refl
    | inr not_may ↦ rw not_may refl
  ]

  pub sleep-ok :
      (delay : F.Float) (w : World F)
      → host.can_sleep delay ≡ true
      → (sleep F host delay w).0 ≡ ok tt
  unfolding sleep
  sleep-ok delay w may = rw may refl
