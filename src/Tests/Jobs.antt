-- ===== src/Tests/Jobs.antt =====
-- The configuration and the SQL text of the Flink job.
use kafka_flink_click_house.Base.{
  ◌≡◌, refl, none, some, Option, if◌then◌else◌, List, [], ◌∷◌, ◌++◌, Text, codes, ◌==◌, nat_eq,
  list_eq, ok, err, Result,
}
use kafka_flink_click_house.Text.{strip, int, str_nat, is_blank, rstrip_by, join}
use kafka_flink_click_house.Flink.Config.{
  PipelineConfig, ConfigError, from_environment, positive_int, no_checkpoint_dir,
}
use kafka_flink_click_house.Flink.Config.Guards.{IsRunnable, from_environment-IsRunnable}
use kafka_flink_click_house.Flink.Sql.{escape, quote, split_statements}
use kafka_flink_click_house.Flink.Sql.Literals.{read_literal, read_literal-escape}
use kafka_flink_click_house.Flink.Sql.Statements.{IsWithout, IsCut, split_statements-IsCut}

abbrev same : Text → Text
same t = t

abbrev environment : Text → Option Text
environment name = if name == codes "FLINK_CHECKPOINT_DIR" then some (codes "s3://c ") else none

nothing_set : from_environment same same (λ name. none) ≡ err no_checkpoint_dir
unfolding from_environment strip
nothing_set = refl

abbrev value_or : Result ConfigError PipelineConfig → PipelineConfig → PipelineConfig
value_or (ok c) d = c
value_or (err e) d = d

defaults : (c : PipelineConfig) × (from_environment same same environment ≡ ok c)
unfolding from_environment positive_int strip int str_nat
defaults = (_, refl)

from_environment-IsRunnable_example : IsRunnable defaults.0
from_environment-IsRunnable_example =
    from_environment-IsRunnable same same environment defaults.0 defaults.1

escaped_text : escape (codes "a'b") ≡ some (codes "a''b")
unfolding escape is_blank
escaped_text = refl

read_literal-escape_example :
    read_literal (codes "a''b" ++ (quote ∷ codes ", x")) ≡ some (codes "a'b", codes ", x")
read_literal-escape_example =
    read_literal-escape (codes "a'b") (codes "a''b") (codes ", x") escaped_text (λ e. cc)

abbrev lines : List Text
lines = codes "-- one" ∷ codes "select" ∷ codes "1; " ∷ codes "" ∷ codes "x;" ∷ [] ∷ []

two_statements : split_statements lines ≡ some (codes "select\n1;" ∷ codes "x;" ∷ [])
unfolding split_statements strip is_blank rstrip_by join
two_statements = refl

split_statements-IsCut_example :
    (others : List Text) × IsWithout lines others
    × IsCut others (codes "select\n1;" ∷ codes "x;" ∷ [])
split_statements-IsCut_example =
    split_statements-IsCut lines (codes "select\n1;" ∷ codes "x;" ∷ []) two_statements
