-- ===== src/Flink/Job.antt =====
-- job.py: the calls of PyFlink that configure, build and submit the job. A call that PyFlink makes is
-- an argument: it may change a state, and raise.
pub mod Submission
use kafka_flink_click_house.Base.{
  Bool, true, false, Option, none, some, List, [], ◌∷◌, ◌++◌, Text, codes, ◌==◌, nat_eq, list_eq, ℤ,
  pos, Result, ok, err, if◌then◌else◌,
}
use kafka_flink_click_house.Base.Exec.{Exec, continue, ◌>>=◌, ◌>>◌, pure}
use kafka_flink_click_house.Text.{str}
use kafka_flink_click_house.Kafka.Settings.{get_or}
use kafka_flink_click_house.Flink.Config.{PipelineConfig, ConfigError, from_environment}
use kafka_flink_click_house.Flink.Sql.{split_statements}
use kafka_flink_click_house.Flink.Sql.Tables.{RenderError, render_tables}

-- The calls of the configuration, of the table environment and of the statement set.
pub data Call : Type 0 where
  set_string : Text → Text → Call
  set_integer : Text → ℤ → Call
  set_boolean : Text → Bool → Call
  execute_sql : Text → Call
  create_statement_set : Call
  add_insert_sql : Text → Call
  explain execute : Call

pub data JobError (X : Type 0) : Type 0 where
  configuring : ConfigError → JobError X
  rendering : RenderError → JobError X
  -- "SQL file has an unterminated statement", a `ValueError`.
  unterminated : JobError X
  -- What PyFlink raises.
  calling : X → JobError X

-- The files of the SQL directory, `str.splitlines`, and the URI of a resolved path.
pub record Files : Type 0 where
  pub tables_template : Text
  pub transformations : Text
  pub inserts : Text
  pub splitlines : Text → List Text
  pub as_uri : Text → Text

abbrev pub jar_calls : Files → Option Text → List Call
jar_calls files none = []
jar_calls files (some jar) = set_string (codes "pipeline.jars") (files.as_uri jar) ∷ []

-- The calls of `_configure` that every configuration makes, in order.
abbrev pub settings_before : PipelineConfig → List Call
settings_before config =
    set_string (codes "pipeline.name") (codes "Taobao SQL Streaming Platform")
    ∷ set_integer (codes "parallelism.default") (pos 1)
    ∷ set_string (codes "table.local-time-zone") (codes "UTC")
    ∷ set_string (codes "table.exec.state.ttl") (str config.dedup_retention_hours ++ codes " h")
    ∷ set_string (codes "state.backend.type") (codes "rocksdb")
    ∷ set_boolean (codes "execution.checkpointing.incremental") true
    ∷ set_string (codes "execution.checkpointing.mode") (codes "EXACTLY_ONCE")
    ∷ set_string (codes "execution.checkpointing.interval")
        (str config.checkpoint_interval_ms ++ codes " ms")
    ∷ set_string (codes "execution.checkpointing.storage") (codes "filesystem")
    ∷ set_string (codes "execution.checkpointing.dir") config.checkpoint_dir
    ∷ set_string (codes "execution.checkpointing.externalized-checkpoint-retention")
        (codes "RETAIN_ON_CANCELLATION")
    ∷ set_string (codes "restart-strategy.type") (codes "fixed-delay")
    ∷ set_integer (codes "restart-strategy.fixed-delay.attempts") config.restart_attempts
    ∷ set_string (codes "restart-strategy.fixed-delay.delay")
        (str config.restart_delay_ms ++ codes " ms")
    ∷ set_string (codes "table.exec.uid.generation") (codes "ALWAYS")
    ∷ set_string (codes "table.exec.uid.format") (codes "taobao_<id>_<type>_<transformation>")
    ∷ []

-- The calls of `_configure`.
unfoldable pub settings_of : Files → PipelineConfig → List Call
settings_of files config = settings_before config ++ jar_calls files config.connector_jar

module _ {X : Type 0} where
  abbrev pub or_unterminated : Option (List Text) → Result (JobError X) (List Text)
  or_unterminated none = err unterminated
  or_unterminated (some statements) = ok statements

  abbrev pub split_rendered : Files → Result RenderError Text → Result (JobError X) (List Text)
  split_rendered files (err e) = err (rendering e)
  split_rendered files (ok sql) = or_unterminated (split_statements (files.splitlines sql))

  unfoldable pub table_ddl : Files → PipelineConfig → Result (JobError X) (List Text)
  unfolding split_statements render_tables
  table_ddl files config = split_rendered files (render_tables config files.tables_template)

  unfoldable pub transformation_ddl : Files → Result (JobError X) (List Text)
  unfolding split_statements
  transformation_ddl files =
      or_unterminated (split_statements (files.splitlines files.transformations))

  unfoldable pub insert_statements : Files → Result (JobError X) (List Text)
  unfolding split_statements
  insert_statements files = or_unterminated (split_statements (files.splitlines files.inserts))

  abbrev pub of_config : {A : Type 0} → Result ConfigError A → Result (JobError X) A
  of_config (ok a) = ok a
  of_config (err e) = err (configuring e)

-- A value that was computed, or what its computation raised.
abbrev pub given : {E S A : Type 0} → Result E A → Exec E S A
given result s = (result, s)

module _ (X S : Type 0) (pyflink : Call → Exec (JobError X) S (Unit {0})) (files : Files) where
  -- The calls of a loop.
  unfoldable pub call_all : List Call → Exec (JobError X) S (Unit {0})
  call_all [] = pure tt
  call_all (call ∷ calls) = do pyflink call; call_all calls

  abbrev pub executed : List Text → List Call
  executed [] = []
  executed (statement ∷ statements) = execute_sql statement ∷ executed statements

  abbrev pub inserted : List Text → List Call
  inserted [] = []
  inserted (statement ∷ statements) = add_insert_sql statement ∷ inserted statements

  unfoldable pub build_job : PipelineConfig → Exec (JobError X) S (Unit {0})
  unfolding settings_of call_all table_ddl transformation_ddl insert_statements
  build_job config = do
    call_all (settings_of files config)
    tables ← given (table_ddl files config)
    call_all (executed tables)
    transformations ← given (transformation_ddl files)
    call_all (executed transformations)
    pyflink create_statement_set
    inserts ← given (insert_statements files)
    call_all (inserted inserts)

  -- `main`, where the first arguments are `str.upper`, `str.lower` and the environment.
  unfoldable pub submit :
      (Text → Text) → (Text → Text) → (Text → Option Text) → Exec (JobError X) S (Unit {0})
  unfolding build_job from_environment
  submit upper lower environment = do
    config ← given (of_config (from_environment upper lower environment))
    build_job config
    pyflink (
        if lower (get_or environment (codes "FLINK_PLAN_ONLY") (codes "false")) == codes "true"
        then explain
        else execute)
