-- ===== src/Flink/Job/Submission.antt =====
-- job.py: when the job is submitted, and what PyFlink was told before that.
use kafka_flink_click_house.Base.{
  ℕ, ◌+◌, ◌≡◌, refl, sym, ap, ◌∙◌, Option, none, some, List, [], ◌∷◌, ◌++◌, append_assoc,
  append-nil, Text, codes, ◌==◌, nat_eq, list_eq, Result, ok, err, arith, if◌then◌else◌,
}
use kafka_flink_click_house.Base.Exec.{Exec, continue, continue-either, continue_returns, ◌>>◌}
use kafka_flink_click_house.Kafka.Settings.{get_or}
use kafka_flink_click_house.Flink.Config.{PipelineConfig, ConfigError, from_environment}
use kafka_flink_click_house.Flink.Job.{
  Call, set_string, set_integer, set_boolean, execute_sql, create_statement_set, add_insert_sql,
  explain, execute, JobError, Files, settings_before, settings_of, jar_calls, table_ddl,
  transformation_ddl, insert_statements, of_config, call_all, executed, inserted, build_job, submit,
}

-- How often a job is submitted or explained in a trace of calls.
abbrev submissions : Call → ℕ
submissions explain = 1
submissions execute = 1
submissions (set_string name value) = 0
submissions (set_integer name value) = 0
submissions (set_boolean name value) = 0
submissions (execute_sql statement) = 0
submissions create_statement_set = 0
submissions (add_insert_sql statement) = 0

unfoldable pub count_submissions : List Call → ℕ
count_submissions [] = 0
count_submissions (c ∷ calls) = submissions c + count_submissions calls

-- A trace in which no job is submitted or explained.
abbrev pub IsQuiet : List Call → Type 0
IsQuiet calls = count_submissions calls ≡ 0

IsQuiet-append : (xs ys : List Call) → IsQuiet xs → IsQuiet ys → IsQuiet (xs ++ ys)
unfolding count_submissions
IsQuiet-append [] ys h k = k
IsQuiet-append (x ∷ xs) ys h k =
    let rest = IsQuiet-append xs ys (omega (arith, h)) k in omega (arith, h, rest)

settings_of-IsQuiet : (files : Files) (config : PipelineConfig) → IsQuiet (settings_of files config)
unfolding settings_of count_submissions
settings_of-IsQuiet files config =
    IsQuiet-append (settings_before config) (jar_calls files config.connector_jar) refl
      (go config.connector_jar)
  where
    go : (jar : Option Text) → IsQuiet (jar_calls files jar)
    go none = refl
    go (some jar) = refl

module _ (X : Type 0) (answer : Call → Result (JobError X) (Unit {0})) (files : Files) where
  -- PyFlink answers each call, or raises. The state is the calls that it was given.
  abbrev pub record_call : Call → Exec (JobError X) (List Call) (Unit {0})
  record_call call calls = (answer call, calls ++ (call ∷ []))

  call_all-append :
      (calls before : List Call)
      → (call_all X (List Call) record_call files calls before).0 ≡ ok tt
      → (call_all X (List Call) record_call files calls before).1 ≡ before ++ calls
  unfolding call_all
  call_all-append [] before h = sym (append-nil before)
  call_all-append (c ∷ calls) before h =
      let (_, _, k, same) =
        continue_returns (answer c) (before ++ (c ∷ []))
          (λ _. call_all X (List Call) record_call files calls) tt h in
      ap (λ p. p.1) same
      ∙ call_all-append calls (before ++ (c ∷ [])) k
      ∙ append_assoc before (c ∷ []) calls

  call_all-IsQuiet :
      (calls before : List Call)
      → IsQuiet calls
      → IsQuiet before
      → IsQuiet (call_all X (List Call) record_call files calls before).1
  unfolding call_all count_submissions
  call_all-IsQuiet [] before h k = k
  call_all-IsQuiet (c ∷ calls) before h k =
      let after = IsQuiet-append before (c ∷ []) k (omega (arith, h)) in
      continue-either (λ (r, s). IsQuiet s) (answer c) (before ++ (c ∷ []))
        (λ _. call_all X (List Call) record_call files calls) (λ e. after)
        (λ _ _. call_all-IsQuiet calls (before ++ (c ∷ [])) (omega (arith, h)) after)

  executed-IsQuiet :
      (statements : List Text) → IsQuiet (executed X (List Call) record_call files statements)
  unfolding count_submissions
  executed-IsQuiet [] = refl
  executed-IsQuiet (s ∷ statements) = omega (arith, executed-IsQuiet statements)

  inserted-IsQuiet :
      (statements : List Text) → IsQuiet (inserted X (List Call) record_call files statements)
  unfolding count_submissions
  inserted-IsQuiet [] = refl
  inserted-IsQuiet (s ∷ statements) = omega (arith, inserted-IsQuiet statements)

  -- The calls that build the job: the settings, the statements of the tables and the
  -- transformations, and the set of the insert statements.
  pub record Built (config : PipelineConfig) (trace : List Call) : Type 0 where
    pub tables : List Text
    pub transformations : List Text
    pub inserts : List Text
    pub split_tables : table_ddl {X = X} files config ≡ ok tables
    pub split_transformations : transformation_ddl {X = X} files ≡ ok transformations
    pub split_inserts : insert_statements {X = X} files ≡ ok inserts
    pub calls :
        trace
        ≡ (((settings_of files config ++ executed X (List Call) record_call files tables)
              ++ executed X (List Call) record_call files transformations)
            ++ (create_statement_set ∷ []))
          ++ inserted X (List Call) record_call files inserts

  -- No job is submitted while it is built, and a build that returns has made all its calls.
  abbrev Building : PipelineConfig → Result (JobError X) (Unit {0}) × List Call → Type 0
  Building config (ok _, trace) = IsQuiet trace × Built config trace
  Building config (err e, trace) = IsQuiet trace

  abbrev after_all : List Call → List Call → List Call
  after_all calls before = (call_all X (List Call) record_call files calls before).1

  built :
      (config : PipelineConfig) (end : Result (JobError X) (Unit {0}) × List Call)
      → IsQuiet end.1
      → (end.0 ≡ ok tt → Built config end.1)
      → Building config end
  built config (ok _, trace) quiet h = (quiet, h refl)
  built config (err e, trace) quiet h = quiet

  build_job-Building :
      (config : PipelineConfig)
      → Building config (build_job X (List Call) record_call files config [])
  unfolding build_job count_submissions
  build_job-Building config =
      let settings = settings_of files config in
      let quiet_settings = call_all-IsQuiet settings [] (settings_of-IsQuiet files config) refl in
      continue-either (Building config) _ _ _ (λ e. quiet_settings)
        λ _ done_settings.
          continue-either (Building config) _ _ _ (λ e. quiet_settings)
            λ tables split_tables.
              let s₁ = after_all settings [] in
              let quiet_tables = call_all-IsQuiet _ s₁ (executed-IsQuiet tables) quiet_settings in
              continue-either (Building config) _ _ _ (λ e. quiet_tables)
                λ _ done_tables.
                  continue-either (Building config) _ _ _ (λ e. quiet_tables)
                    λ transformations split_transformations.
                      let s₂ = after_all (executed X (List Call) record_call files tables) s₁ in
                      let quiet =
                        call_all-IsQuiet _ s₂ (executed-IsQuiet transformations) quiet_tables in
                      continue-either (Building config) _ _ _ (λ e. quiet)
                        λ _ done_transformations.
                          let s₃ =
                            after_all (executed X (List Call) record_call files transformations)
                              s₂ in
                          let quiet_set =
                            IsQuiet-append s₃ (create_statement_set ∷ []) quiet refl in
                          let s₄ = s₃ ++ (create_statement_set ∷ []) in
                          let adding = λ (inserts : List Text).
                            call_all X (List Call) record_call files
                              (inserted X (List Call) record_call files inserts) in
                          let insert_sql = insert_statements {X = X} files in
                          continue-either (Building config) (answer create_statement_set) s₄
                            (λ _ s. continue insert_sql s adding) (λ e. quiet_set)
                            λ _ _.
                              continue-either (Building config) insert_sql s₄ adding
                                (λ e. quiet_set)
                                λ inserts split_inserts.
                                  built config
                                    (call_all X (List Call) record_call files
                                      (inserted X (List Call) record_call files inserts) s₄)
                                    (call_all-IsQuiet _ s₄ (inserted-IsQuiet inserts) quiet_set)
                                    λ done_inserts.
                                      let e₁ = call_all-append settings [] done_settings in
                                      let e₂ =
                                        call_all-append
                                          (executed X (List Call) record_call files tables) s₁
                                          done_tables in
                                      let e₃ =
                                        call_all-append
                                          (executed X (List Call) record_call files transformations)
                                          s₂ done_transformations in
                                      let e₄ =
                                        call_all-append
                                          (inserted X (List Call) record_call files inserts) s₄
                                          done_inserts in
                                      record {
                                        tables = tables;
                                        transformations = transformations;
                                        inserts = inserts;
                                        split_tables = split_tables;
                                        split_transformations = split_transformations;
                                        split_inserts = split_inserts;
                                        calls = cc;
                                      }

  -- The last call of `main`.
  abbrev pub last_call : (Text → Text) → (Text → Option Text) → Call
  last_call lower environment =
      if lower (get_or environment (codes "FLINK_PLAN_ONLY") (codes "false")) == codes "true"
      then explain
      else execute

  -- How `main` ends: it raised before any job was submitted; or the job of a configuration was built
  -- as a whole, none was submitted until then, and the last call was made.
  pub data Submitted (upper lower : Text → Text) (environment : Text → Option Text)
      : Result (JobError X) (Unit {0}) × List Call → Type 0 where
    never :
        {e : JobError X} {trace : List Call}
        → IsQuiet trace
        → Submitted upper lower environment (err e, trace)
    at_last :
        {config : PipelineConfig} {trace : List Call}
        → from_environment upper lower environment ≡ ok config
        → IsQuiet trace
        → Built config trace
        → Submitted upper lower environment
            (answer (last_call lower environment), trace ++ (last_call lower environment ∷ []))

  -- Whatever PyFlink answers or raises, `main` submits or explains at most one job, as its last call:
  -- either it raised before, with none submitted; or the environment gave a configuration, the
  -- statements of all three files could be split, PyFlink was told every setting and every statement
  -- in the order of the files, and then to explain the job if FLINK_PLAN_ONLY, in lower case, is
  -- "true", and to execute it otherwise.
  pub submit-Submitted :
      (upper lower : Text → Text) (environment : Text → Option Text)
      → Submitted upper lower environment
          (submit X (List Call) record_call files upper lower environment [])
  unfolding submit count_submissions
  submit-Submitted upper lower environment = start (from_environment upper lower environment) refl
    where
      S : Result (JobError X) (Unit {0}) × List Call → Type 0
      S = Submitted upper lower environment

      call_last : Exec (JobError X) (List Call) (Unit {0})
      call_last = record_call (last_call lower environment)

      end :
          (config : PipelineConfig)
          → from_environment upper lower environment ≡ ok config
          → (r : Result (JobError X) (Unit {0}) × List Call) → Building config r
          → S (continue r.0 r.1 (λ _. call_last))
      end config same (ok _, trace) (quiet, whole) = at_last same quiet whole
      end config same (err e, trace) quiet = never quiet

      start :
          (c : Result ConfigError PipelineConfig)
          → from_environment upper lower environment ≡ c
          → S (
              continue
                (of_config {X = X} c)
                []
                (λ config. build_job X (List Call) record_call files config >> call_last))
      start (err e) same = never refl
      start (ok config) same = end config same _ (build_job-Building config)
