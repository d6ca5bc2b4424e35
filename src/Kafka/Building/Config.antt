-- ===== src/Kafka/Building/Config.antt =====
-- The configuration that the producer is built with.
use kafka_flink_click_house.Base.{
  Bool, ◌≡◌, ◌⊎◌, inl, inr, refl, true, false, Option, none, some, [], ◌∷◌, Text, codes, nat_eq,
  list_eq, Result, ok, err, >>=-eq-ok, raise_if,
}
use kafka_flink_click_house.Base.Dict.{Dict, get, put, update}
use kafka_flink_click_house.Text.{is_blank}
use kafka_flink_click_house.Json.{Json}
use kafka_flink_click_house.Kafka.Settings.{SettingsError, kafka_security_options}
use kafka_flink_click_house.Kafka.Settings.Laws.{jaas_option, kafka_security_options_iff}
use kafka_flink_click_house.Kafka.Publisher.{ExceptionClass}
use kafka_flink_click_house.Kafka.Building.{
  BuildError, Setting, text, flag, ClientLibrary, of_client, of_settings, of_schema, loaded,
  producer_config, build_from, build_schema_registry_producer,
}

module _ {Serializer : Type 0} (servers : Text) (config : Dict Text (Setting Serializer)) where
  -- Each message is acknowledged by all replicas and written once, and the connection is in one of
  -- the two protocols that are allowed.
  pub record IsDurable : Type 0 where
    pub bootstrap : get config (codes "bootstrap.servers") ≡ some (text servers)
    pub acks : get config (codes "acks") ≡ some (text (codes "all"))
    pub idempotence : get config (codes "enable.idempotence") ≡ some (flag true)
    pub protocol :
        (get config (codes "security.protocol") ≡ some (text (codes "PLAINTEXT")))
        ⊎ (get config (codes "security.protocol") ≡ some (text (codes "SASL_SSL")))

module _ {Producing : Type 0} (L : ClientLibrary Producing) (servers : Text)
    (k v : L.Serializer) where
  plain-IsDurable :
      IsDurable servers
        (producer_config L servers k v ((codes "security.protocol", codes "PLAINTEXT") ∷ []))
  unfolding producer_config update put get
  plain-IsDurable = record {
    bootstrap = refl;
    acks = refl;
    idempotence = refl;
    protocol = inl refl;
  }

  login-IsDurable :
      (mechanism username password jaas : Text)
      → IsDurable servers (
          producer_config L servers k v (
            (codes "security.protocol", codes "SASL_SSL")
            ∷ (codes "sasl.mechanism", mechanism)
            ∷ (codes "sasl.username", username)
            ∷ (codes "sasl.password", password)
            ∷ jaas_option jaas))
  unfolding producer_config update put get
  login-IsDurable mechanism username password [] = record {
    bootstrap = refl;
    acks = refl;
    idempotence = refl;
    protocol = inr refl;
  }
  login-IsDurable mechanism username password (c ∷ s) = record {
    bootstrap = refl;
    acks = refl;
    idempotence = refl;
    protocol = inr refl;
  }

  jaas-IsDurable :
      (mechanism jaas : Text)
      → IsDurable servers (
          producer_config L servers k v (
            (codes "security.protocol", codes "SASL_SSL")
            ∷ (codes "sasl.mechanism", mechanism)
            ∷ (codes "sasl.jaas.config", jaas)
            ∷ []))
  unfolding producer_config update put get
  jaas-IsDurable mechanism jaas = record {
    bootstrap = refl;
    acks = refl;
    idempotence = refl;
    protocol = inr refl;
  }

  options-IsDurable :
      (upper : Text → Text) (environment : Text → Option Text) (options : Dict Text Text)
      → kafka_security_options upper environment ≡ ok options
      → IsDurable servers (producer_config L servers k v options)
  options-IsDurable upper environment options h =
      elim ((kafka_security_options_iff upper environment options).0 h) [
        | inl plain ↦ rw (plain.options) plain-IsDurable
        | inr (inl login) ↦ rw (login.options) (login-IsDurable _ _ _ _)
        | inr (inr jaas) ↦ rw (jaas.options) (jaas-IsDurable _ _)
      ]

of_client-ok : {A : Type 0} (r : Result ExceptionClass A) (a : A) → of_client r ≡ ok a → r ≡ ok a
of_client-ok (ok b) a h = cc
of_client-ok (err x) a h = cc

of_settings-ok : {A : Type 0} (r : Result SettingsError A) (a : A) → of_settings r ≡ ok a → r ≡ ok a
of_settings-ok (ok b) a h = cc
of_settings-ok (err x) a h = cc

loaded-ok : {A : Type 1} (o : Option A) (a : A) → loaded o ≡ ok a → o ≡ some a
loaded-ok none a h = cc
loaded-ok (some b) a h = cc

raise_if-false : (b : Bool) (e : BuildError) (u : Unit {0}) → raise_if b e ≡ ok u → b ≡ false
raise_if-false true e u h = cc
raise_if-false false e u h = refl

module _ {Producing : Type 0} (library : Option (ClientLibrary Producing)) where
  -- The producer is what the client library makes of a configuration in which every message is
  -- acknowledged by all replicas and written once, in an allowed protocol, at servers that are named.
  -- The settings of the environment override none of that.
  pub build-IsDurable :
      (upper : Text → Text) (environment : Text → Option Text) (servers url : Text)
      (schema : Result ExceptionClass Json) (producing : Producing)
      → build_schema_registry_producer library upper environment servers url schema ≡ ok producing
      → (L : ClientLibrary Producing) × (config : Dict Text (Setting L.Serializer)) × (library
          ≡ some L)
        × (L.producer_type config ≡ ok producing)
        × (is_blank servers ≡ false)
        × IsDurable servers config
  unfolding build_schema_registry_producer build_from
  build-IsDurable upper environment servers url schema producing h =
      let (_, named, h₁) = >>=-eq-ok (raise_if (is_blank servers) _) _ h in
      let (_, _, h₂) = >>=-eq-ok (raise_if (is_blank url) _) _ h₁ in
      let (contract, _, h₃) = >>=-eq-ok (of_schema schema) _ h₂ in
      let (L, load, h₄) = >>=-eq-ok (loaded library) _ h₃ in
      let (registry, _, h₅) = >>=-eq-ok (of_client (L.registry_type _)) _ h₄ in
      let (v, _, h₆) = >>=-eq-ok (of_client (L.avro_serializer_type registry contract _)) _ h₅ in
      let (k, _, h₇) = >>=-eq-ok (of_client (L.string_serializer_type _)) _ h₆ in
      let (options, secured, h₈) =
        >>=-eq-ok (of_settings (kafka_security_options upper environment)) _ h₇ in
      (
        L,
        producer_config L servers k v options,
        loaded-ok library L load,
        of_client-ok _ producing h₈,
        raise_if-false (is_blank servers) _ _ named,
        options-IsDurable L servers k v upper environment options
            (of_settings-ok _ options secured),
      )
