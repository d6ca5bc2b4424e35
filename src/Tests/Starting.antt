-- ===== src/Tests/Starting.antt =====
-- The start of the materializers in an environment with a login.
use kafka_flink_click_house.Base.{
  ◌≡◌, refl, none, some, Option, [], ◌∷◌, Text, codes, ◌==◌, nat_eq, list_eq, if◌then◌else◌, pos,
  ◌≤ℤ◌, ok, err,
}
use kafka_flink_click_house.Base.Dict.{get}
use kafka_flink_click_house.Text.{int, strip}
use kafka_flink_click_house.Kafka.Settings.{kafka_security_options}
use kafka_flink_click_house.Consumer.{read_ttl, not_positive}
use kafka_flink_click_house.Consumer.Startup.{
  bad_ttl, text, cart_names, feature_names, redis_settings, consumer_config, Startup, start,
}
use kafka_flink_click_house.Consumer.Startup.Manual.{IsManual, start-IsManual}

abbrev same : Text → Text
same t = t

abbrev environment : Text → Option Text
environment name =
    if name == codes "KAFKA_SECURITY_PROTOCOL"
    then some (codes "SASL_SSL")
    else if name == codes "KAFKA_SASL_MECHANISM"
    then some (codes "PLAIN")
    else if name == codes "KAFKA_SASL_USERNAME"
    then some (codes "user")
    else if name == codes "KAFKA_SASL_PASSWORD"
    then some (codes " secret")
    else if name == codes "REDIS_FEATURE_TTL_SECONDS"
    then some (codes "0")
    else none

started : (s : Startup) × (start same same environment cart_names ≡ ok s)
unfolding start read_ttl int redis_settings kafka_security_options strip
started = (_, refl)

password : get (started.0.consumer) (codes "sasl.password") ≡ some (text (codes "secret"))
unfolding started start read_ttl int redis_settings kafka_security_options strip consumer_config get
password = refl

-- The features' time to live is zero.
not_started : start same same environment feature_names ≡ err (bad_ttl not_positive)
unfolding start read_ttl int
not_started = refl

start-IsManual_example :
    (pos 1 ≤ℤ started.0.ttl_seconds)
    × (started.0.topics ≡ codes "taobao-active-cart-mutations" ∷ [])
    × IsManual (codes "kafka:29092") (codes "redis-cart-materializer-v1") started.0.consumer
start-IsManual_example = start-IsManual same same environment cart_names started.0 started.1
