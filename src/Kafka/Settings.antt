-- ===== src/Kafka/Settings.antt =====
-- `kafka_security_options`: the client settings from the environment.
pub mod Laws
use kafka_flink_click_house.Base.{
  true, false, not, ◌&&◌, ◌||◌, Bool, Option, none, some, List, [], ◌∷◌, ◌++◌, Text, codes, ◌==◌,
  nat_eq, list_eq, if◌then◌else◌, Result, ok, err, ◌>>=◌, ◌>>◌, raise_if,
}
use kafka_flink_click_house.Base.Dict.{Dict}
use kafka_flink_click_house.Text.{strip, is_blank}

-- The `ValueError`s.
pub data SettingsError : Type 0 where
  bad_protocol sasl_without_ssl no_mechanism half_a_login no_credentials : SettingsError

-- `environment.get(name, default)`
abbrev pub get_or : (Text → Option Text) → Text → Text → Text
get_or environment name default = elim (environment name) [ none ↦ default | some v ↦ v ]

-- The settings that the function reads, stripped. The parameter is `str.upper`, a table of Unicode.
pub record Settings : Type 0 where
  pub protocol : Text
  pub mechanism : Text
  pub username : Text
  pub password : Text
  pub jaas_config : Text

unfoldable pub settings : (Text → Text) → (Text → Option Text) → Settings
settings upper environment = record {
  protocol =
      upper (strip (get_or environment (codes "KAFKA_SECURITY_PROTOCOL") (codes "PLAINTEXT")));
  mechanism = strip (get_or environment (codes "KAFKA_SASL_MECHANISM") []);
  username = strip (get_or environment (codes "KAFKA_SASL_USERNAME") []);
  password = strip (get_or environment (codes "KAFKA_SASL_PASSWORD") []);
  jaas_config = strip (get_or environment (codes "KAFKA_SASL_JAAS_CONFIG") []);
}

-- Python's `bool(text)`.
abbrev pub truthy : Text → Bool
truthy [] = false
truthy (c ∷ s) = true

-- Python's `==` of two Booleans.
abbrev pub same : Bool → Bool → Bool
same true b = b
same false b = not b

-- An entry that is set if its test passes. The names of the options all differ, so a new one stands
-- behind those that are there.
abbrev pub entry : Bool → Text → Text → Dict Text Text → Dict Text Text
entry true name value options = options ++ ((name, value) ∷ [])
entry false name value options = options

abbrev pub protocol_entry : Settings → Dict Text Text
protocol_entry s = entry true (codes "security.protocol") s.protocol []

unfoldable pub plain_options : Settings → Result SettingsError (Dict Text Text)
plain_options s = do
  raise_if (truthy s.mechanism || truthy s.username || truthy s.password || truthy s.jaas_config)
      sasl_without_ssl
  ok (protocol_entry s)

unfoldable pub sasl_options : Settings → Result SettingsError (Dict Text Text)
sasl_options s = do
  raise_if (not (truthy s.mechanism)) no_mechanism
  let has_user_password = truthy s.username && truthy s.password
  raise_if (not (same (truthy s.username) (truthy s.password))) half_a_login
  raise_if (not has_user_password && not (truthy s.jaas_config)) no_credentials
  ok (
      entry (truthy s.jaas_config) (codes "sasl.jaas.config") s.jaas_config (
        entry has_user_password (codes "sasl.password") s.password (
          entry has_user_password (codes "sasl.username") s.username
            (entry true (codes "sasl.mechanism") s.mechanism (protocol_entry s)))))

unfoldable pub security_options : Settings → Result SettingsError (Dict Text Text)
unfolding plain_options sasl_options
security_options s = do
  raise_if (not (s.protocol == codes "PLAINTEXT") && not (s.protocol == codes "SASL_SSL"))
      bad_protocol
  if s.protocol == codes "PLAINTEXT" then plain_options s else sasl_options s

unfoldable pub kafka_security_options :
    (Text → Text) → (Text → Option Text) → Result SettingsError (Dict Text Text)
unfolding security_options settings
kafka_security_options upper environment = security_options (settings upper environment)
