-- ===== src/Consumer/Startup/Manual.antt =====
-- A materializer commits its offsets itself, and reads a topic from its start.
use kafka_flink_click_house.Base.{
  ◌≡◌, ◌⊎◌, inl, inr, refl, subst, false, Option, some, [], ◌∷◌, Text, codes, nat_eq, list_eq, ℤ,
  pos, ◌≤ℤ◌, Result, ok, err, ok_injective, >>=-eq-ok, arith,
}
use kafka_flink_click_house.Base.Dict.{Dict, get, put, update}
use kafka_flink_click_house.Kafka.Settings.{SettingsError, kafka_security_options, get_or}
use kafka_flink_click_house.Kafka.Settings.Laws.{jaas_option, kafka_security_options_iff}
use kafka_flink_click_house.Consumer.{TtlError, read_ttl}
use kafka_flink_click_house.Consumer.Startup.{
  ConsumerSetting, text, flag, Names, of_ttl, of_security, consumer_config, Startup, redis_settings,
  start,
}

-- What is processed is committed by the loop only; a group without a committed offset begins at the
-- start; and the connection is in an allowed protocol.
pub record IsManual (servers group : Text) (config : Dict Text ConsumerSetting) : Type 0 where
  pub bootstrap : get config (codes "bootstrap.servers") ≡ some (text servers)
  pub group_id : get config (codes "group.id") ≡ some (text group)
  pub reset : get config (codes "auto.offset.reset") ≡ some (text (codes "earliest"))
  pub commit : get config (codes "enable.auto.commit") ≡ some (flag false)
  pub protocol :
      (get config (codes "security.protocol") ≡ some (text (codes "PLAINTEXT")))
      ⊎ (get config (codes "security.protocol") ≡ some (text (codes "SASL_SSL")))

module _ (servers group : Text) where
  abbrev Manual : Dict Text Text → Type 0
  Manual options = IsManual servers group (consumer_config servers group options)

  plain-IsManual : Manual ((codes "security.protocol", codes "PLAINTEXT") ∷ [])
  unfolding consumer_config update put get
  plain-IsManual = record {
    bootstrap = refl;
    group_id = refl;
    reset = refl;
    commit = refl;
    protocol = inl refl;
  }

  login-IsManual :
      (mechanism username password jaas : Text)
      → Manual (
          (codes "security.protocol", codes "SASL_SSL")
          ∷ (codes "sasl.mechanism", mechanism)
          ∷ (codes "sasl.username", username)
          ∷ (codes "sasl.password", password)
          ∷ jaas_option jaas)
  unfolding consumer_config update put get
  login-IsManual mechanism username password [] = record {
    bootstrap = refl;
    group_id = refl;
    reset = refl;
    commit = refl;
    protocol = inr refl;
  }
  login-IsManual mechanism username password (c ∷ s) = record {
    bootstrap = refl;
    group_id = refl;
    reset = refl;
    commit = refl;
    protocol = inr refl;
  }

  jaas-IsManual :
      (mechanism jaas : Text)
      → Manual (
          (codes "security.protocol", codes "SASL_SSL")
          ∷ (codes "sasl.mechanism", mechanism)
          ∷ (codes "sasl.jaas.config", jaas)
          ∷ [])
  unfolding consumer_config update put get
  jaas-IsManual mechanism jaas = record {
    bootstrap = refl;
    group_id = refl;
    reset = refl;
    commit = refl;
    protocol = inr refl;
  }

  options-IsManual :
      (upper : Text → Text) (environment : Text → Option Text) (options : Dict Text Text)
      → kafka_security_options upper environment ≡ ok options
      → Manual options
  options-IsManual upper environment options h =
      elim ((kafka_security_options_iff upper environment options).0 h) [
        | inl plain ↦ rw (plain.options) plain-IsManual
        | inr (inl login) ↦ rw (login.options) (login-IsManual _ _ _ _)
        | inr (inr jaas) ↦ rw (jaas.options) (jaas-IsManual _ _)
      ]

of_ttl-ok : {A : Type 0} (r : Result TtlError A) (a : A) → of_ttl r ≡ ok a → r ≡ ok a
of_ttl-ok (ok b) a h = cc
of_ttl-ok (err e) a h = cc

of_security-ok : {A : Type 0} (r : Result SettingsError A) (a : A) → of_security r ≡ ok a → r ≡ ok a
of_security-ok (ok b) a h = cc
of_security-ok (err e) a h = cc

read_ttl-Positive :
    (setting : Option Text) (default : Text) (ttl_seconds : ℤ)
    → read_ttl setting default ≡ ok ttl_seconds
    → pos 1 ≤ℤ ttl_seconds
unfolding read_ttl
read_ttl-Positive setting default ttl_seconds h = ground arith

-- A materializer that gets to its loop keeps what it writes for a positive time, reads the one topic
-- that is configured, and is a consumer of the configured group that commits nothing by itself and
-- begins at the start of the topic. The security settings of the environment override none of that.
pub start-IsManual :
    (upper lower : Text → Text) (environment : Text → Option Text) (names : Names) (s : Startup)
    → start upper lower environment names ≡ ok s
    → (pos 1 ≤ℤ s.ttl_seconds)
      × (s.topics ≡ get_or environment names.topic names.default_topic ∷ [])
      × IsManual
          (get_or environment (codes "KAFKA_BOOTSTRAP_SERVERS") (codes "kafka:29092"))
          (get_or environment names.group names.default_group)
          s.consumer
unfolding start
start-IsManual upper lower environment names s h =
    let (ttl, lives, h₁) =
      >>=-eq-ok (of_ttl (read_ttl (environment names.ttl) names.default_ttl)) _ h in
    let (redis, _, h₂) = >>=-eq-ok (redis_settings upper lower environment (codes "redis")) _ h₁ in
    let (options, secured, h₃) =
      >>=-eq-ok (of_security (kafka_security_options upper environment)) _ h₂ in
    subst
      (λ s.
        (pos 1 ≤ℤ s.ttl_seconds)
        × (s.topics ≡ get_or environment names.topic names.default_topic ∷ [])
        × IsManual (get_or environment (codes "KAFKA_BOOTSTRAP_SERVERS") (codes "kafka:29092"))
            (get_or environment names.group names.default_group) s.consumer)
      (ok_injective _ s h₃)
      (
        read_ttl-Positive (environment names.ttl) names.default_ttl ttl (of_ttl-ok _ ttl lives),
        refl,
        options-IsManual _ _ upper environment options (of_security-ok _ options secured),
      )
