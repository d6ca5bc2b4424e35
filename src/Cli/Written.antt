-- ===== src/Cli/Written.antt =====
-- cli.py: the files that the command `replay` writes.
use kafka_flink_click_house.Base.{
  ◌⊎◌, Bool, true, false, not, not-true, and_iff, ◌&&◌, ◌≡◌, refl, sym, ap, ◌∙◌, Option, none, some,
  List, [], ◌∷◌, ◌++◌, append-nil, map, Text, codes, ◌==◌, nat_eq, list_eq, Result, ok, ℕ, ◌<◌, pos,
}
use kafka_flink_click_house.Base.Dict.{get, put, get-put_self}
use kafka_flink_click_house.Kafka.Settings.{truthy}
use kafka_flink_click_house.Replay.Reader.{ParseIssue, iter_source_rows}
use kafka_flink_click_house.Replay.Reader.Batches.{accepted, rejected}
use kafka_flink_click_house.Replay.Player.{Floats, ReplayStats}
use kafka_flink_click_house.Replay.Player.Returns.{IsTotal, replay_file_returns}
use kafka_flink_click_house.Replay.Player.Timing.{IsPaceable, IsClocked}
use kafka_flink_click_house.Replay.Player.Observed.{
  flat-map, replay_file-events, replay_file-issues,
}
use kafka_flink_click_house.Cli.{Arguments}
use kafka_flink_click_house.Cli.Disk.{
  Line, accepted_line, rejected_line, Names, World, Handle, standard_output, file, content_of,
  exists, open_output, write,
}
use kafka_flink_click_house.Cli.Errors.{CliError, of_replay, raise_as-ok}
use kafka_flink_click_house.Cli.Paths.{names_file}
use kafka_flink_click_house.Cli.Handles.{Apart, write-Apart}
use kafka_flink_click_house.Cli.Host.{Host}
use kafka_flink_click_house.Cli.Asleep.{sleep-files, sleep-ok}
use kafka_flink_click_house.Cli.Commands.{emit_to, reject, callbacks, run_replay, monotonic, sleep}

module _ (F : Floats) (names : Names) where
  abbrev pub content : Text → World F → List Line
  content key w = content_of (get w.files key)

  content-write :
      (key : Text) (line : Line) (w : World F)
      → content key (write F names (file key) line w) ≡ content key w ++ (line ∷ [])
  unfolding write
  content-write key line w = ap content_of (get-put_self w.files key _)

  content-Apart :
      (key : Text) (handle : Handle) (line : Line) (w : World F)
      → Apart key handle
      → content key (write F names handle line w) ≡ content key w ++ []
  content-Apart key handle line w apart =
      ap content_of (write-Apart F names key handle line w apart) ∙ sym (append-nil (content key w))

  pub open_output-standard_output :
      (path : Text) (force : Bool) (w : World F)
      → (path == codes "-") ≡ true
      → open_output F names path force w ≡ (ok standard_output, w)
  unfolding open_output
  open_output-standard_output path force w std = rw std refl

  -- A named file that may be written is opened and emptied.
  pub open_output-file :
      (path : Text) (force : Bool) (w : World F)
      → names_file path ≡ true
      → names.is_writable path ≡ true
      → (force ≡ false → exists F names path w ≡ false)
      → open_output F names path force w
        ≡ (ok (file (names.resolve path)), record w { files = put w.files (names.resolve path) [] })
  unfolding open_output
  open_output-file path force w named writable fresh =
      let (_, other) = (and_iff (truthy path) _).0 named in
      rw (not-true _ other, free force (exists F names path w) fresh, writable) refl
    where
      free : (force there : Bool) → (force ≡ false → there ≡ false) → (not force && there) ≡ false
      free true there fresh = refl
      free false there fresh = fresh refl

module _ (F : Floats) (host : Host F) where
  -- The rows of the input file, and the issues of those that are no events.
  abbrev pub input_rows : Arguments F → World F → List (List Text)
  input_rows args w = host.csv (content_of (get w.files (host.names.resolve args.input)))

  -- The command has no speed, or the times of the events that it reads may be slept.
  abbrev pub CanPace : Arguments F → World F → Type 0
  CanPace args w =
      (F.is_positive args.speed ≡ false)
      ⊎ IsPaceable F args.speed ℕ host.now host.can_sleep
          (accepted host.sha256 args.run_id (iter_source_rows (input_rows args w)))

  files-IsClocked :
      (output : Handle) (invalid : Option Handle) (speed : F.Float)
      → IsClocked F CliError
          (Unit {0} × World F)
          (callbacks F host (emit_to F host output) invalid)
          speed
          ℕ
          host.now
          host.can_sleep
  unfolding monotonic
  files-IsClocked output invalid speed = record {
    clock = λ s. (s.1.readings, refl);
    sleeps = λ delay s may. sleep-ok F host delay s.1 may;
  }

  emit_to-rejects-IsTotal :
      (output : Handle) (invalid : Option Handle)
      → IsTotal F CliError
          (Unit {0} × World F)
          (callbacks F host (emit_to F host output) invalid)
          (reject F host invalid)
  unfolding emit_to reject
  emit_to-rejects-IsTotal output invalid = record {
    emits = λ event s. refl;
    rejects = rejects invalid;
    on_invalid = refl;
  }
    where
      rejects :
          (invalid : Option Handle) (issue : ParseIssue) (s : Unit {0} × World F)
          → (reject F host invalid issue s).0 ≡ ok tt
      rejects none issue s = refl
      rejects (some h) issue s = refl

  -- Behind the opening of its files, a replay that writes to files returns, and each file has its
  -- lines: one for each event, or one for each issue, in the order of the input.
  module _ (args : Arguments F) (size : ℕ) (w : World F) where
    abbrev EventsFile : Text → World F → Type 0
    EventsFile key w' =
        content F host.names key w'
        ≡ content F host.names key w
          ++ map accepted_line
              (accepted host.sha256 args.run_id (iter_source_rows (input_rows args w)))

    abbrev IssuesFile : Text → World F → Type 0
    IssuesFile key w' =
        content F host.names key w'
        ≡ content F host.names key w
          ++ map rejected_line
              (rejected host.sha256 args.run_id (iter_source_rows (input_rows args w)))

    abbrev ran : Handle → Option Handle → Result CliError ReplayStats × (Unit {0} × World F)
    ran output invalid = run_replay F host args (emit_to F host output) invalid (tt, w)

    pub run_replay-ok :
        (output : Handle) (invalid : Option Handle)
        → args.batch_size ≡ pos size
        → 0 < size
        → F.is_negative args.speed ≡ false
        → CanPace args w
        → (stats : ReplayStats) × ((ran output invalid).0 ≡ ok stats)
    unfolding run_replay
    run_replay-ok output invalid sized positive fine paceable =
        let (stats, h) =
          replay_file_returns F CliError (Unit × World F)
            (callbacks F host (emit_to F host output) invalid) args.speed (reject F host invalid)
            (emit_to-rejects-IsTotal output invalid) host.sha256 args.run_id (input_rows args w)
            size (tt, w) ℕ host.now host.can_sleep (files-IsClocked output invalid args.speed)
            positive fine paceable in
        (stats, rw (sized, h) refl)

    pub run_replay-events :
        (key : Text) (invalid : Option Handle) (stats : ReplayStats)
        → ((h : Handle) → invalid ≡ some h → Apart key h)
        → (ran (file key) invalid).0 ≡ ok stats
        → EventsFile key (ran (file key) invalid).1.1
    unfolding run_replay emit_to reject monotonic sleep
    run_replay-events key invalid stats apart h =
        replay_file-events F CliError (Unit × World F) Line
          (callbacks F host (emit_to F host (file key)) invalid) args.speed (reject F host invalid)
          (λ s. content F host.names key s.1) (λ e. accepted_line e ∷ []) (λ i. [])
          (record {
            emits = λ event s _. content-write F host.names key (accepted_line event) s.1;
            rejects = λ issue s _. rejects invalid apart issue s;
            on_invalid = refl;
            clock = λ s. refl;
            rest =
                λ delay s. ap (λ files. content_of (get files key)) (sleep-files F host delay s.1);
          })
          host.sha256 args.run_id (input_rows args w) args.batch_size (tt, w) stats
          (raise_as-ok of_replay _ stats h) (λ i. refl)
        ∙ ap (λ l. content F host.names key w ++ l) (flat-map accepted_line _)
      where
        rejects :
            (handle : Option Handle)
            → ((h : Handle) → handle ≡ some h → Apart key h)
            → (issue : ParseIssue) (s : Unit {0} × World F)
            → content F host.names key (reject F host handle issue s).1.1
              ≡ content F host.names key s.1 ++ []
        rejects none apart issue s = sym (append-nil (content F host.names key s.1))
        rejects (some h) apart issue s =
            content-Apart F host.names key h (rejected_line issue) s.1 (apart h refl)

    pub run_replay-issues :
        (key : Text) (output : Handle) (stats : ReplayStats)
        → Apart key output
        → (ran output (some (file key))).0 ≡ ok stats
        → IssuesFile key (ran output (some (file key))).1.1
    unfolding run_replay emit_to reject monotonic sleep
    run_replay-issues key output stats apart h =
        replay_file-issues F CliError (Unit × World F) Line
          (callbacks F host (emit_to F host output) (some (file key))) args.speed
          (reject F host (some (file key))) (λ s. content F host.names key s.1) (λ e. [])
          (λ i. rejected_line i ∷ [])
          (record {
            emits =
                λ event s _. content-Apart F host.names key output (accepted_line event) s.1 apart;
            rejects = λ issue s _. content-write F host.names key (rejected_line issue) s.1;
            on_invalid = refl;
            clock = λ s. refl;
            rest =
                λ delay s. ap (λ files. content_of (get files key)) (sleep-files F host delay s.1);
          })
          host.sha256 args.run_id (input_rows args w) args.batch_size (tt, w) stats
          (raise_as-ok of_replay _ stats h) (λ e. refl)
        ∙ ap (λ l. content F host.names key w ++ l) (flat-map rejected_line _)
