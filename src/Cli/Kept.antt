-- ===== src/Cli/Kept.antt =====
-- cli.py: a delivery leaves a file as it was that is not its invalid output.
use kafka_flink_click_house.Base.{
  Bool, false, ◌≡◌, ◌≢◌, refl, subst, sym, ap, ◌∙◌, Option, none, some, List, [], ◌∷◌, map, Text,
  nat_eq, list_eq, Result, ok, err, >>=-eq-ok, All,
}
use kafka_flink_click_house.Base.Dict.{get}
use kafka_flink_click_house.Base.Exec.{Exec}
use kafka_flink_click_house.Events.{UserBehaviorEvent}
use kafka_flink_click_house.Replay.Reader.{ParseIssue}
use kafka_flink_click_house.Replay.Player.{Floats}
use kafka_flink_click_house.Replay.Player.Kept.{continue_keeps, replay_file-K}
use kafka_flink_click_house.Cli.{Arguments}
use kafka_flink_click_house.Cli.Disk.{Line, World, Handle}
use kafka_flink_click_house.Cli.Errors.{CliError, opening, raise_as-ok}
use kafka_flink_click_house.Cli.Paths.{requested, validate_input}
use kafka_flink_click_house.Cli.Listed.{validate_outputs-IsListed}
use kafka_flink_click_house.Cli.Handles.{
  Apart, All-requested, All-map, IsApart, open_output-Apart, write-Apart,
}
use kafka_flink_click_house.Cli.Host.{Host}
use kafka_flink_click_house.Cli.Checks.{validate}
use kafka_flink_click_house.Cli.Commands.{
  handle_of, open_invalid, reject, callbacks, run_replay, deliver, monotonic, sleep,
}
use kafka_flink_click_house.Cli.Asleep.{sleep-files}

handle_of-ok : (r : Result CliError Handle) (h : Handle) → handle_of r ≡ ok (some h) → r ≡ ok h
handle_of-ok (ok g) h e = cc
handle_of-ok (err x) h e = cc

module _ (F : Floats) (host : Host F) (cwd : host.names.is_writable [] ≡ false) (key : Text)
    (content : Option (List Line)) where
  -- What a command has at a step: the file is as it was.
  abbrev pub Keeps : {Q : Type 0} → Q × World F → Type 0
  Keeps s = get s.1.files key ≡ content

  abbrev pub ApartOption : Option Handle → Type 0
  ApartOption handle = (h : Handle) → handle ≡ some h → Apart key h

  pub open_invalid-Apart :
      (invalid : Option Text) (force : Bool) (w : World F)
      → ((path : Text) → invalid ≡ some path → IsApart F host.names key path)
      → let (opened, w') = open_invalid F host invalid force w in
        (get w'.files key ≡ get w.files key)
        × ((handle : Option Handle) → opened ≡ ok handle → ApartOption handle)
  unfolding open_invalid
  open_invalid-Apart none force w apart = (refl, λ handle e h f. cc)
  open_invalid-Apart (some []) force w apart = (refl, λ handle e h f. cc)
  open_invalid-Apart (some (c ∷ path)) force w apart =
      let (same, handles) =
        open_output-Apart F host.names key (c ∷ path) force w cwd (apart (c ∷ path) refl) in
      (same, λ handle e h f. handles h (raise_as-ok opening _ h (handle_of-ok _ h (e ∙ ap ok f))))

  module _ {Q : Type 0} where
    reject-Keeps :
        (handle : Option Handle) (issue : ParseIssue) (s : Q × World F)
        → ApartOption handle
        → Keeps s
        → Keeps (reject F host handle issue s).1
    unfolding reject
    reject-Keeps none issue s apart k = k
    reject-Keeps (some h) issue s apart k = write-Apart F host.names key h _ s.1 (apart h refl) ∙ k

    module _ (emit : UserBehaviorEvent → Exec CliError (Q × World F) (Unit {0}))
        (emits : (event : UserBehaviorEvent) (s : Q × World F)
          → Keeps s
          → Keeps (emit event s).1) where
      pub run_replay-Keeps :
          (args : Arguments F) (handle : Option Handle) (s : Q × World F)
          → ApartOption handle
          → Keeps s
          → Keeps (run_replay F host args emit handle s).1
      unfolding run_replay monotonic sleep
      run_replay-Keeps args handle s apart k =
          replay_file-K F CliError (Q × World F) (callbacks F host emit handle) args.speed Keeps
            (reject F host handle)
            (record {
              emits = emits;
              rejects = λ issue s' k'. reject-Keeps handle issue s' apart k';
              on_invalid = refl;
              clock = λ s' k'. k';
              rest =
                  λ delay s' k'. ap (λ files. get files key) (sleep-files F host delay s'.1) ∙ k';
            })
            host.sha256 args.run_id _ args.batch_size s k

      pub deliver-Keeps :
          (close_publisher : Exec CliError (Q × World F) (Unit {0}))
          → ((s : Q × World F) → Keeps s → Keeps (close_publisher s).1)
          → (args : Arguments F) (s : Q × World F)
          → ((path : Text) → args.invalid_output ≡ some path → IsApart F host.names key path)
          → Keeps s
          → Keeps (deliver F host emit close_publisher args s).1
      unfolding deliver
      deliver-Keeps close_publisher closes args s apart k =
          let (same, handles) = open_invalid-Apart args.invalid_output args.force s.1 apart in
          let (opened, w) = open_invalid F host args.invalid_output args.force s.1 in
          let s₁ : Q × World F = (s.0, w) in
          let k₁ : Keeps s₁ = same ∙ k in
          continue_keeps Keeps opened s₁ _ k₁ λ handle e.
            let (played, s₂) = run_replay F host args emit handle s₁ in
            let k₂ : Keeps s₂ = run_replay-Keeps args handle s₁ (handles handle e) k₁ in
            continue_keeps Keeps played s₂ _ k₂ λ stats _.
              let (closed, s₃) = close_publisher s₂ in
              continue_keeps Keeps closed s₃ (λ _ t. (ok stats, t)) (closes s₂ k₂)
                λ _ _. closes s₂ k₂

  pub validate-IsApart :
      (args : Arguments F) (output : Text) (w : World F)
      → key ≡ host.names.resolve args.input
      → validate F host args output w ≡ ok tt
      → IsApart F host.names key output
        × ((path : Text) → args.invalid_output ≡ some path → IsApart F host.names key path)
  unfolding validate
  validate-IsApart args output w is_key h =
      let (_, _, outputs) = >>=-eq-ok (validate_input F host.names args.input w) _ h in
      let acceptable =
        (validate_outputs-IsListed F host.names args.input output args.invalid_output args.force
            w).0
          outputs in
      All-requested (λ path. key ≢ host.names.resolve path) output args.invalid_output
        (All-map (λ k. key ≢ k) host.names.resolve (requested output args.invalid_output)
          (subst
            (λ k. All (λ x. k ≢ x) (map host.names.resolve (requested output args.invalid_output)))
            (sym is_key) acceptable.apart))
