-- ===== src/Consumer/Startup.antt =====
-- What `main` of the two materializers takes from the environment before its loop. `from_environment`
-- of serving.py connects to Redis with the same variables.
pub mod Manual
use kafka_flink_click_house.Base.{
  Bool, true, false, Option, none, some, List, [], ◌∷◌, Text, codes, ◌==◌, nat_eq, list_eq, ℤ,
  Result, ok, err, ◌>>=◌, or_raise,
}
use kafka_flink_click_house.Base.Dict.{Dict, update}
use kafka_flink_click_house.Text.{int}
use kafka_flink_click_house.Kafka.Settings.{SettingsError, kafka_security_options, get_or}
use kafka_flink_click_house.Consumer.{TtlError, read_ttl}

pub data StartupError : Type 0 where
  -- The `ValueError`s of the time to live, of the port, and of the security options.
  bad_ttl : TtlError → StartupError
  bad_port : StartupError
  bad_security : SettingsError → StartupError

-- The arguments of `Redis`.
pub record RedisSettings : Type 0 where
  pub host : Text
  pub port : ℤ
  pub username : Option Text
  pub password : Option Text
  pub ssl : Bool
  pub decode_responses : Bool

-- A value of the consumer's configuration.
pub data ConsumerSetting : Type 0 where
  text : Text → ConsumerSetting
  flag : Bool → ConsumerSetting

-- The names and the defaults in which the two scripts differ.
pub record Names : Type 0 where
  pub ttl : Text
  pub default_ttl : Text
  pub group : Text
  pub default_group : Text
  pub topic : Text
  pub default_topic : Text

abbrev pub cart_names : Names
cart_names = record {
  ttl = codes "REDIS_CART_TTL_SECONDS";
  default_ttl = codes "604800";
  group = codes "REDIS_CART_CONSUMER_GROUP";
  default_group = codes "redis-cart-materializer-v1";
  topic = codes "KAFKA_CART_MUTATION_TOPIC";
  default_topic = codes "taobao-active-cart-mutations";
}

abbrev pub feature_names : Names
feature_names = record {
  ttl = codes "REDIS_FEATURE_TTL_SECONDS";
  default_ttl = codes "86400";
  group = codes "REDIS_FEATURE_CONSUMER_GROUP";
  default_group = codes "redis-feature-materializer-v1";
  topic = codes "KAFKA_USER_FEATURES_TOPIC";
  default_topic = codes "taobao-user-features-1m";
}

-- `value or None`
abbrev pub or_none : Option Text → Option Text
or_none none = none
or_none (some []) = none
or_none (some (c ∷ s)) = some (c ∷ s)

abbrev pub of_ttl : {A : Type 0} → Result TtlError A → Result StartupError A
of_ttl (ok a) = ok a
of_ttl (err e) = err (bad_ttl e)

abbrev pub of_security : {A : Type 0} → Result SettingsError A → Result StartupError A
of_security (ok a) = ok a
of_security (err e) = err (bad_security e)

-- `consumer_config.update(…)` takes texts.
abbrev pub text_settings : Dict Text Text → Dict Text ConsumerSetting
text_settings [] = []
text_settings ((name, value) ∷ options) = (name, text value) ∷ text_settings options

unfoldable pub consumer_config : Text → Text → Dict Text Text → Dict Text ConsumerSetting
unfolding update
consumer_config bootstrap_servers group options =
    update
      ((codes "bootstrap.servers", text bootstrap_servers)
        ∷ (codes "group.id", text group)
        ∷ (codes "auto.offset.reset", text (codes "earliest"))
        ∷ (codes "enable.auto.commit", flag false)
        ∷ [])
      (text_settings options)

-- What the clients are created with, and what the loop is given.
pub record Startup : Type 0 where
  pub ttl_seconds : ℤ
  pub redis : RedisSettings
  pub consumer : Dict Text ConsumerSetting
  pub topics : List Text

-- The first arguments are `str.upper`, `str.lower` and the environment.
module _ (upper lower : Text → Text) (environment : Text → Option Text) where
  unfoldable pub redis_settings : Text → Result StartupError RedisSettings
  redis_settings default_host = do
    port ← or_raise (int (get_or environment (codes "REDIS_PORT") (codes "6379"))) bad_port
    ok (record {
      host = get_or environment (codes "REDIS_HOST") default_host;
      port = port;
      username = or_none (environment (codes "REDIS_USERNAME"));
      password = or_none (environment (codes "REDIS_PASSWORD"));
      ssl = lower (get_or environment (codes "REDIS_TLS") (codes "false")) == codes "true";
      decode_responses = true;
    })

  -- `main` as far as its loop.
  unfoldable pub start : Names → Result StartupError Startup
  unfolding read_ttl redis_settings consumer_config kafka_security_options
  start names = do
    ttl_seconds ← of_ttl (read_ttl (environment names.ttl) names.default_ttl)
    redis ← redis_settings (codes "redis")
    options ← of_security (kafka_security_options upper environment)
    ok (record {
      ttl_seconds = ttl_seconds;
      redis = redis;
      consumer =
          consumer_config
            (get_or environment (codes "KAFKA_BOOTSTRAP_SERVERS") (codes "kafka:29092"))
            (get_or environment names.group names.default_group) options;
      topics = get_or environment names.topic names.default_topic ∷ [];
    })
