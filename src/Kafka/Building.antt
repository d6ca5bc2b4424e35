-- ===== src/Kafka/Building.antt =====
-- `build_schema_registry_producer`: the guards, and what the classes of the client library are given.
pub mod Config
use kafka_flink_click_house.Base.{
  true, false, Bool, Option, none, some, List, [], ◌∷◌, Text, codes, Result, ok, err, ◌>>=◌, ◌>>◌,
  raise_if, list_eq, nat_eq,
}
use kafka_flink_click_house.Base.Dict.{Dict, update, put}
use kafka_flink_click_house.Text.{strip, is_blank}
use kafka_flink_click_house.Json.{Json}
use kafka_flink_click_house.Kafka.Settings.{SettingsError, kafka_security_options, get_or, truthy}
use kafka_flink_click_house.Kafka.Publisher.{ExceptionClass}

pub data BuildError : Type 0 where
  -- The `ValueError`s.
  blank_servers blank_registry : BuildError
  bad_settings : SettingsError → BuildError
  -- What reading the schema raises: an `OSError` or a `ValueError`.
  bad_schema : ExceptionClass → BuildError
  -- The `RuntimeError` that asks for the optional dependency.
  no_dependency : BuildError
  -- What the client library raises.
  client_error : ExceptionClass → BuildError

-- A value of the producer's configuration.
pub data Setting (Serializer : Type 0) : Type 0 where
  text : Text → Setting Serializer
  flag : Bool → Setting Serializer
  serializer : Serializer → Setting Serializer

-- The classes of confluent_kafka: `SchemaRegistryClient`, `AvroSerializer` with the schema and its
-- `conf`, `StringSerializer`, and `SerializingProducer`.
pub record ClientLibrary (Producing : Type 0) : Type 1 where
  pub Registry : Type 0
  pub Serializer : Type 0
  pub registry_type : Dict Text Text → Result ExceptionClass Registry
  pub avro_serializer_type : Registry → Json → Dict Text Bool → Result ExceptionClass Serializer
  pub string_serializer_type : Text → Result ExceptionClass Serializer
  pub producer_type : Dict Text (Setting Serializer) → Result ExceptionClass Producing

-- An exception of the client library.
abbrev pub of_client : {A : Type 0} → Result ExceptionClass A → Result BuildError A
of_client (ok a) = ok a
of_client (err x) = err (client_error x)

abbrev pub of_settings : {A : Type 0} → Result SettingsError A → Result BuildError A
of_settings (ok a) = ok a
of_settings (err x) = err (bad_settings x)

abbrev pub of_schema : Result ExceptionClass Json → Result BuildError Json
of_schema (ok schema) = ok schema
of_schema (err x) = err (bad_schema x)

abbrev pub loaded : {A : Type 1} → Option A → Result BuildError A
loaded none = err no_dependency
loaded (some library) = ok library

-- The configuration of the registry's client: with the credentials, if they are set.
unfoldable pub registry_config : (Text → Option Text) → Text → Dict Text Text
registry_config environment url =
    let registry_auth =
      strip (get_or environment (codes "SCHEMA_REGISTRY_BASIC_AUTH_USER_INFO") []) in
    elim (truthy registry_auth) [
      | true ↦ put ((codes "url", url) ∷ []) (codes "basic.auth.user.info") registry_auth
      | false ↦ (codes "url", url) ∷ []
    ]

module _ {Producing : Type 0} (L : ClientLibrary Producing) where
  abbrev pub text_settings : Dict Text Text → Dict Text (Setting L.Serializer)
  text_settings [] = []
  text_settings ((name, value) ∷ options) = (name, text value) ∷ text_settings options

  -- `producer_config`, after its update.
  unfoldable pub producer_config :
      Text → L.Serializer → L.Serializer → Dict Text Text → Dict Text (Setting L.Serializer)
  unfolding update
  producer_config bootstrap_servers key_serializer value_serializer options =
      update
        ((codes "bootstrap.servers", text bootstrap_servers)
          ∷ (codes "key.serializer", serializer key_serializer)
          ∷ (codes "value.serializer", serializer value_serializer)
          ∷ (codes "enable.idempotence", flag true)
          ∷ (codes "acks", text (codes "all"))
          ∷ [])
        (text_settings options)

  -- What is built of the library's classes.
  unfoldable pub build_from :
      (Text → Text) → (Text → Option Text) → Text → Text → Json → Result BuildError Producing
  unfolding registry_config producer_config kafka_security_options
  build_from upper environment bootstrap_servers schema_registry_url schema = do
    registry ← of_client (L.registry_type (registry_config environment schema_registry_url))
    value_serializer ←
        of_client
          (L.avro_serializer_type registry schema ((codes "auto.register.schemas", false) ∷ []))
    key_serializer ← of_client (L.string_serializer_type (codes "utf_8"))
    options ← of_settings (kafka_security_options upper environment)
    of_client (
        L.producer_type (producer_config bootstrap_servers key_serializer value_serializer options))

module _ {Producing : Type 0} (library : Option (ClientLibrary Producing)) where
  unfoldable pub build_schema_registry_producer :
      (Text → Text)
      → (Text → Option Text)
      → Text
      → Text
      → Result ExceptionClass Json
      → Result BuildError Producing
  unfolding build_from
  build_schema_registry_producer upper environment bootstrap_servers schema_registry_url schema = do
    raise_if (is_blank bootstrap_servers) blank_servers
    raise_if (is_blank schema_registry_url) blank_registry
    contract ← of_schema schema
    classes ← loaded library
    build_from classes upper environment bootstrap_servers schema_registry_url contract
