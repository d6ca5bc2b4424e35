-- ===== src/Tests/Submitting.antt =====
-- The SQL text of the tables, and runs of the Flink job against a PyFlink that accepts every call, or
-- refuses a statement.
use kafka_flink_click_house.Base.{
  ◌≡◌, refl, none, some, Option, if◌then◌else◌, List, [], ◌∷◌, ◌++◌, Text, codes, ◌==◌, nat_eq,
  list_eq, ok, err, Result,
}
use kafka_flink_click_house.Base.Dict.{Dict, get}
use kafka_flink_click_house.Text.{strip, int, str_nat, is_blank, rstrip_by, join}
use kafka_flink_click_house.Flink.Config.{PipelineConfig, from_environment, positive_int}
use kafka_flink_click_house.Flink.Sql.{escape, split_statements}
use kafka_flink_click_house.Flink.Sql.Tables.{
  unknown_placeholder, escape_jaas, jaas_of, render_options, options_of, security_fragment,
  seconds_text, name_before_braces, placeholder_at, substitute, has_placeholder, value_of,
  render_tables,
}
use kafka_flink_click_house.Flink.Job.{
  Call, execute, execute_sql, create_statement_set, add_insert_sql, JobError, Files, settings_of,
  table_ddl, transformation_ddl, insert_statements, call_all, build_job, submit,
}
use kafka_flink_click_house.Flink.Job.Submission.{Submitted, record_call, submit-Submitted}

abbrev same : Text → Text
same t = t

abbrev environment : Text → Option Text
environment name =
    if name == codes "FLINK_CHECKPOINT_DIR"
    then some (codes "s3://c ")
    else if name == codes "KAFKA_SECURITY_PROTOCOL"
    then some (codes "SASL_SSL")
    else if name == codes "KAFKA_SASL_MECHANISM"
    then some (codes "PLAIN")
    else if name == codes "KAFKA_SASL_USERNAME"
    then some (codes "it's")
    else if name == codes "KAFKA_SASL_PASSWORD"
    then some (codes "a\"b")
    else none

abbrev files : Files
files = record {
  tables_template = codes "use {{RAW_TOPIC}};";
  transformations = codes "view;";
  inserts = codes "one;";
  splitlines = λ t. t ∷ [];
  as_uri = same;
}

abbrev answer : Call → Result (JobError Text) (Unit {0})
answer call = ok tt

started : (c : PipelineConfig) × (from_environment same same environment ≡ ok c)
unfolding from_environment positive_int strip int str_nat
started = (_, refl)

-- "a\"b" in the options, and the quote of "it's" doubled.
abbrev login_text : Text
login_text =
    codes
      ",\n    'properties.security.protocol' = 'SASL_SSL',\n    'properties.sasl.mechanism' = 'PLAIN',\n    'properties.sasl.jaas.config' = 'org.apache.kafka.common.security.plain.PlainLoginModule required username=\"it''s\" password=\"a\\\"b\";'"

rendered :
    render_tables started.0 (codes "{{RAW_TOPIC}} {{{WATERMARK_DELAY_SECONDS}} {{x}} {{}}")
    ≡ ok (codes "taobao-raw-events {5 {{x}} {{}}")
unfolding started from_environment positive_int strip int str_nat security_fragment options_of
    jaas_of escape_jaas render_options escape is_blank render_tables substitute has_placeholder
    value_of placeholder_at name_before_braces seconds_text rstrip_by get
rendered = refl

unknown : render_tables started.0 (codes "{{RAW}}") ≡ err unknown_placeholder
unfolding started from_environment positive_int strip int str_nat security_fragment options_of
    jaas_of escape_jaas render_options escape is_blank render_tables substitute has_placeholder
    value_of placeholder_at name_before_braces seconds_text rstrip_by get
unknown = refl

submitted :
    submit Text (List Call) (record_call Text answer files) files same same environment [] ≡ (
      ok tt,
      settings_of files started.0
          ++ (execute_sql (codes "use taobao-raw-events;")
              ∷ execute_sql (codes "view;")
              ∷ create_statement_set
              ∷ add_insert_sql (codes "one;")
              ∷ execute
              ∷ []),
    )
unfolding started from_environment positive_int strip int str_nat security_fragment options_of
    jaas_of escape_jaas render_options escape is_blank render_tables substitute has_placeholder
    value_of placeholder_at name_before_braces seconds_text rstrip_by get submit build_job call_all
    settings_of table_ddl transformation_ddl insert_statements split_statements join
submitted = refl

submit-Submitted_example :
    Submitted Text answer files same same environment
      (submit Text (List Call) (record_call Text answer files) files same same environment [])
submit-Submitted_example = submit-Submitted Text answer files same same environment
