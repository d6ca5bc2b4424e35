-- ===== src/Cli/Opened.antt =====
-- cli.py: how the command `replay` opens its files.
use kafka_flink_click_house.Base.{
  true, false, Bool-cases, not, ◌||◌, ◌≡◌, ◌≢◌, refl, sym, ap, subst, ◌∙◌, inl, inr, Option, none,
  some, [], ◌∷◌, map, Text, codes, ◌==◌, nat_eq, list_eq, ok, >>=-eq-ok, ℕ, ◌<◌, pos,
}
use kafka_flink_click_house.Base.Dict.{get, put, get-put_self}
use kafka_flink_click_house.Base.Exec.{continue, continue_ok}
use kafka_flink_click_house.Replay.Player.{Floats}
use kafka_flink_click_house.Cli.{Arguments}
use kafka_flink_click_house.Cli.Disk.{
  World, Handle, standard_output, file, content_of, exists, is_file, is_there, open_output,
}
use kafka_flink_click_house.Cli.Paths.{requested, names_file, validate_input}
use kafka_flink_click_house.Cli.Listed.{Distinct, IsListed, validate_outputs-IsListed}
use kafka_flink_click_house.Cli.Handles.{of_some, All-requested, put_apart}
use kafka_flink_click_house.Cli.Host.{Host}
use kafka_flink_click_house.Cli.Checks.{validate}
use kafka_flink_click_house.Cli.Commands.{
  open_invalid, open_accepted, emit_to, run_replay, replay_command,
}
use kafka_flink_click_house.Cli.Written.{
  CanPace, content, open_output-file, open_output-standard_output,
}

requested_two :
    (output invalid : Text)
    → names_file output ≡ true
    → names_file invalid ≡ true
    → requested output (some invalid) ≡ output ∷ invalid ∷ []
unfolding requested
requested_two output invalid a b = rw (a, b) refl

module _ (F : Floats) (host : Host F) (path : Text) (args : Arguments F) (w : World F) where
  abbrev pub output_key : Text
  output_key = host.names.resolve path

  abbrev pub opened_world : World F
  opened_world = record w { files = put w.files output_key [] }

  -- The command line is acceptable, and what it names can be written.
  pub record IsReady : Type 0 where
    pub valid : validate F host args path w ≡ ok tt
    pub named : names_file path ≡ true
    pub cwd : host.names.is_writable [] ≡ false
    pub writable : host.names.is_writable path ≡ true
    pub invalid_writable :
        (p : Text)
        → args.invalid_output ≡ some p
        → names_file p ≡ true
        → host.names.is_writable p ≡ true
    pub batches : (size : ℕ) × (args.batch_size ≡ pos size) × (0 < size)
    pub speed : F.is_negative args.speed ≡ false
    pub pace : CanPace F host args w

  module _ (ready : IsReady) where
    pub acceptable : IsListed F host.names args.input path args.invalid_output args.force w
    unfolding validate
    acceptable =
        let (_, _, outputs) = >>=-eq-ok (validate_input F host.names args.input w) _ ready.valid in
        (validate_outputs-IsListed F host.names args.input path args.invalid_output args.force w).0
          outputs

    opens_output : open_accepted F host path args.force w ≡ (ok (file output_key), opened_world)
    unfolding open_accepted
    opens_output =
        rw
          (open_output-file F host.names path args.force w ready.named ready.writable (λ off.
            (All-requested (λ p. exists F host.names p w ≡ false) path args.invalid_output
                (acceptable.fresh off)).0
              ready.named))
          refl

    -- The two files differ, so the invalid output is as it was when it is opened.
    pub invalid_apart :
        (p : Text)
        → args.invalid_output ≡ some p
        → names_file p ≡ true
        → output_key ≢ host.names.resolve p
    invalid_apart p given named =
        let keys =
          subst (λ l. Distinct (map host.names.resolve l))
            (ap (requested path) given ∙ requested_two path p ready.named named)
            acceptable.distinct in
        keys.0.0

    invalid_fresh :
        (p : Text)
        → args.invalid_output ≡ some p
        → names_file p ≡ true
        → args.force ≡ false
        → exists F host.names p opened_world ≡ false
    unfolding exists is_file
    invalid_fresh p given named off =
        let before =
          (All-requested (λ x. exists F host.names x w ≡ false) path args.invalid_output
              (acceptable.fresh off)).1
            p given named in
        let same =
          put_apart F host.names (host.names.resolve p) output_key [] w
            (λ e. invalid_apart p given named (sym e)) in
        ap (λ c. is_there c || host.names.is_directory p) same ∙ before

    opens_named :
        (p : Text)
        → args.invalid_output ≡ some p
        → names_file p ≡ true
        → open_output F host.names p args.force opened_world ≡ (
          ok (file (host.names.resolve p)),
          record opened_world { files = put opened_world.files (host.names.resolve p) [] },
        )
    opens_named p given named =
        open_output-file F host.names p args.force opened_world named
          (ready.invalid_writable p given named) (invalid_fresh p given named)

    -- A handle of the file of a path, which is empty.
    abbrev pub Emptied : Option Handle → Text → World F → Type 0
    Emptied handle p w' =
        (handle ≡ some (file (host.names.resolve p)))
        × (content F host.names (host.names.resolve p) w' ≡ [])

    -- How the invalid output is opened: a file, if it names one, is empty.
    abbrev pub Opened : Option Text → Option Handle → Type 0
    Opened invalid handle =
        ((open_invalid F host invalid args.force opened_world).0 ≡ ok handle)
        × ((p : Text)
            → invalid ≡ some p
            → names_file p ≡ true
            → Emptied handle p (open_invalid F host invalid args.force opened_world).1)

    pub opens_invalid :
        (invalid : Option Text)
        → args.invalid_output ≡ invalid
        → (handle : Option Handle) × Opened invalid handle
    unfolding open_invalid
    opens_invalid none given = (none, (refl, λ p e n. cc))
    opens_invalid (some []) given =
        (none, (refl, of_some (λ p. Emptied none p opened_world) [] (λ n. cc)))
    opens_invalid (some (c ∷ s)) given =
        let after = (open_output F host.names (c ∷ s) args.force opened_world).1 in
        let key = host.names.resolve (c ∷ s) in
        elim (Bool-cases ((c ∷ s) == codes "-")) [
          | inl std ↦
              let opening_it =
                open_output-standard_output F host.names (c ∷ s) args.force opened_world std in
              (
                some standard_output,
                (
                  rw opening_it refl,
                  of_some (λ p. Emptied (some standard_output) p after) (c ∷ s)
                      (λ n. let clash : false ≡ true = sym (ap not std) ∙ n in cc),
                ),
              )
          | inr other ↦
              let opening_it = opens_named (c ∷ s) given (rw other refl) in
              (
                some (file key),
                (
                  rw opening_it refl,
                  of_some (λ p. Emptied (some (file key)) p after) (c ∷ s)
                      (λ n. (
                        refl,
                        ap content_of (
                            ap (λ x. get x.1.files key) opening_it
                            ∙ get-put_self opened_world.files key []),
                      )),
                ),
              )
        ]

    -- Both files are open: what is left of the command is the replay.
    pub replay_command-run :
        (handle : Option Handle)
        → (open_invalid F host args.invalid_output args.force opened_world).0 ≡ ok handle
        → replay_command F host path args (tt, w)
          ≡ run_replay F host args
              (emit_to F host (file output_key))
              handle
              (tt, (open_invalid F host args.invalid_output args.force opened_world).1)
    unfolding replay_command
    replay_command-run handle opens =
        let (opened, w₂) = open_invalid F host args.invalid_output args.force opened_world in
        continue_ok (validate F host args path w) (tt, w) _ tt ready.valid
        ∙ ap
            (λ r.
              continue r.0 (tt, r.1)
                λ output s.
                  let (o, w') = open_invalid F host args.invalid_output args.force s.1 in
                  continue o (s.0, w')
                    λ invalid. run_replay F host args (emit_to F host output) invalid)
            opens_output
        ∙ continue_ok opened (tt, w₂) _ handle opens
