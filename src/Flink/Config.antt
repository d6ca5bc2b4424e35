-- ===== src/Flink/Config.antt =====
-- config.py: the settings of the job from the environment.
pub mod Guards
use kafka_flink_click_house.Base.{
  ℕ, Bool, true, false, not, ◌&&◌, Option, none, some, [], ◌∷◌, Text, codes, ◌==◌, nat_eq, list_eq,
  ℤ, pos, ltb_ℤ, Result, ok, err, ◌>>=◌, ◌>>◌, raise_if, or_raise,
}
use kafka_flink_click_house.Text.{strip, int, str_nat}
use kafka_flink_click_house.Kafka.Settings.{get_or, truthy}

-- The `ValueError`s.
pub data ConfigError : Type 0 where
  no_checkpoint_dir bad_protocol no_credentials : ConfigError
  not_integer not_positive : Text → ConfigError

-- `_positive_int`
unfoldable pub positive_int : (Text → Option Text) → Text → ℕ → Result ConfigError ℤ
positive_int environment name default = do
  value ← or_raise (int (get_or environment name (str_nat default))) (not_integer name)
  raise_if (not (ltb_ℤ (pos 0) value)) (not_positive name)
  ok value

pub record PipelineConfig : Type 0 where
  pub kafka_bootstrap_servers : Text
  pub kafka_security_protocol : Text
  pub kafka_sasl_mechanism : Text
  pub kafka_sasl_username : Text
  pub kafka_sasl_password : Text
  pub schema_registry_url : Text
  pub schema_registry_basic_auth : Text
  pub behavior_topic : Text
  pub raw_topic : Text
  pub metrics_topic : Text
  pub user_features_topic : Text
  pub quality_topic : Text
  pub cart_mutation_topic : Text
  pub consumer_group : Text
  pub checkpoint_dir : Text
  pub checkpoint_interval_ms : ℤ
  pub restart_attempts : ℤ
  pub restart_delay_ms : ℤ
  pub dedup_retention_hours : ℤ
  pub max_out_of_orderness_ms : ℤ
  pub bounded : Bool
  pub connector_jar : Option Text

-- `Path(connector) if connector else None`
abbrev pub path_of : Text → Option Text
path_of [] = none
path_of (c ∷ s) = some (c ∷ s)

-- The parameters are `str.upper` and `str.lower`, tables of Unicode, and the environment.
module _ (upper lower : Text → Text) (environment : Text → Option Text) where
  unfoldable pub from_environment : Result ConfigError PipelineConfig
  unfolding positive_int
  from_environment = do
    let checkpoint_dir = strip (get_or environment (codes "FLINK_CHECKPOINT_DIR") [])
    raise_if (not (truthy checkpoint_dir)) no_checkpoint_dir
    let protocol = upper (get_or environment (codes "KAFKA_SECURITY_PROTOCOL") (codes "PLAINTEXT"))
    raise_if (not (protocol == codes "PLAINTEXT") && not (protocol == codes "SASL_SSL"))
        bad_protocol
    let mechanism = get_or environment (codes "KAFKA_SASL_MECHANISM") []
    let username = get_or environment (codes "KAFKA_SASL_USERNAME") []
    let password = get_or environment (codes "KAFKA_SASL_PASSWORD") []
    raise_if
        (protocol == codes "SASL_SSL"
          && not (truthy mechanism && truthy username && truthy password))
        no_credentials
    interval ← positive_int environment (codes "FLINK_CHECKPOINT_INTERVAL_MS") 60000
    attempts ← positive_int environment (codes "FLINK_RESTART_ATTEMPTS") 3
    delay ← positive_int environment (codes "FLINK_RESTART_DELAY_MS") 10000
    retention ← positive_int environment (codes "FLINK_DEDUP_RETENTION_HOURS") 168
    disorder ← positive_int environment (codes "FLINK_MAX_OUT_OF_ORDERNESS_MS") 5000
    ok (record {
      kafka_bootstrap_servers =
          get_or environment (codes "KAFKA_BOOTSTRAP_SERVERS") (codes "kafka:29092");
      kafka_security_protocol = protocol;
      kafka_sasl_mechanism = mechanism;
      kafka_sasl_username = username;
      kafka_sasl_password = password;
      schema_registry_url =
          get_or environment (codes "SCHEMA_REGISTRY_URL") (codes "http://schema-registry:8081");
      schema_registry_basic_auth =
          get_or environment (codes "SCHEMA_REGISTRY_BASIC_AUTH_USER_INFO") [];
      behavior_topic = get_or environment (codes "KAFKA_TOPIC") (codes "user-behavior-events");
      raw_topic = get_or environment (codes "KAFKA_RAW_OUTPUT_TOPIC") (codes "taobao-raw-events");
      metrics_topic =
          get_or environment (codes "KAFKA_METRICS_OUTPUT_TOPIC") (codes "taobao-item-metrics-1m");
      user_features_topic =
          get_or environment (codes "KAFKA_USER_FEATURES_TOPIC") (codes "taobao-user-features-1m");
      quality_topic =
          get_or environment (codes "KAFKA_QUALITY_OUTPUT_TOPIC") (codes "taobao-quality-events");
      cart_mutation_topic =
          get_or environment (codes "KAFKA_CART_MUTATION_TOPIC")
            (codes "taobao-active-cart-mutations");
      consumer_group =
          get_or environment (codes "KAFKA_CONSUMER_GROUP") (codes "taobao-table-sql-features-v1");
      checkpoint_dir = checkpoint_dir;
      checkpoint_interval_ms = interval;
      restart_attempts = attempts;
      restart_delay_ms = delay;
      dedup_retention_hours = retention;
      max_out_of_orderness_ms = disorder;
      bounded =
          lower (get_or environment (codes "KAFKA_SOURCE_BOUNDED") (codes "true")) == codes "true";
      connector_jar = path_of (strip (get_or environment (codes "FLINK_CONNECTOR_JAR") []));
    })
