-- ===== src/Flink/Sql/Tables.antt =====
-- sql.py: the security options of the Kafka tables, and the rendering of the template of the tables.
use kafka_flink_click_house.Base.{
  ℕ, zero, suc, ◌+◌, ◌/◌, ◌%◌, Bool, true, false, ◌||◌, ◌&&◌, Option, none, some, [], ◌∷◌, ◌++◌,
  Text, codes, ◌==◌, nat_eq, list_eq, if◌then◌else◌, leb, ℤ, pos, negsuc, length, Result, ok, err,
  ◌>>=◌, ◌>>◌, raise_if, or_raise,
}
use kafka_flink_click_house.Base.Dict.{Dict, get}
use kafka_flink_click_house.Text.{str_nat, rstrip_by}
use kafka_flink_click_house.Kafka.Settings.{truthy}
use kafka_flink_click_house.Flink.Config.{PipelineConfig}
use kafka_flink_click_house.Flink.Sql.{replace_char, escape}

pub data RenderError : Type 0 where
  -- The `ValueError` of `_escape`.
  blank_value : RenderError
  -- The `KeyError` of a placeholder that no value has.
  unknown_placeholder : RenderError
  -- "unresolved SQL placeholders: …", a `ValueError`.
  unresolved : RenderError

abbrev pub backslash : ℕ
backslash = 0x5c

abbrev pub double_quote : ℕ
double_quote = 0x22

-- `value.replace("\\", "\\\\").replace('"', '\\"')`
unfoldable pub escape_jaas : Text → Text
unfolding replace_char
escape_jaas value =
    replace_char double_quote (backslash ∷ double_quote ∷ [])
      (replace_char backslash (backslash ∷ backslash ∷ []) value)

unfoldable pub jaas_of : Text → Text → Text
unfolding escape_jaas
jaas_of username password =
    codes "org.apache.kafka.common.security.plain.PlainLoginModule required username=\""
    ++ (escape_jaas username ++ (codes "\" password=\"" ++ (escape_jaas password ++ codes "\";")))

abbrev pub sasl_entries : PipelineConfig → Dict Text Text
sasl_entries config =
    (codes "properties.security.protocol", codes "SASL_SSL")
    ∷ (codes "properties.sasl.mechanism", config.kafka_sasl_mechanism)
    ∷ (
      codes "properties.sasl.jaas.config",
      jaas_of config.kafka_sasl_username config.kafka_sasl_password,
    )
    ∷ []

abbrev pub registry_entries : PipelineConfig → Dict Text Text
registry_entries config =
    (codes "value.avro-confluent.basic-auth.credentials-source", codes "USER_INFO")
    ∷ (codes "value.avro-confluent.basic-auth.user-info", config.schema_registry_basic_auth)
    ∷ []

-- `f",\n    '{key}' = '{_escape(value)}'"` of each option, joined.
unfoldable pub render_options : Dict Text Text → Result RenderError Text
unfolding escape
render_options [] = ok []
render_options ((key, value) ∷ options) = do
  escaped ← or_raise (escape value) blank_value
  rest ← render_options options
  ok (codes ",\n    '" ++ (key ++ (codes "' = '" ++ (escaped ++ (codes "'" ++ rest)))))

-- The options that a table is given: those of the login, and those of the schema registry.
unfoldable pub options_of : PipelineConfig → Bool → Dict Text Text
unfolding jaas_of
options_of config schema_registry =
    (if config.kafka_security_protocol == codes "SASL_SSL" then sasl_entries config else [])
    ++ (if schema_registry && truthy config.schema_registry_basic_auth
        then registry_entries config
        else [])

-- `_kafka_security_options`
unfoldable pub security_fragment : PipelineConfig → Bool → Result RenderError Text
unfolding options_of render_options
security_fragment config schema_registry = render_options (options_of config schema_registry)

-- The last three of a number of thousandths.
abbrev pub three_digits : ℕ → Text
three_digits n = (b'0' + n / 100 % 10) ∷ (b'0' + n / 10 % 10) ∷ (b'0' + n % 10) ∷ []

-- `f"{ms / 1_000:.3f}".rstrip("0").rstrip(".")`. Below 2^52 the quotient, rounded to three places,
-- is exact.
unfoldable pub seconds_text : ℕ → Text
seconds_text ms =
    rstrip_by (λ c. c == b'.')
      (rstrip_by (λ c. c == b'0') (str_nat (ms / 1000) ++ (b'.' ∷ three_digits (ms % 1000))))

abbrev pub watermark_seconds : ℤ → Text
watermark_seconds (pos ms) = seconds_text ms
watermark_seconds (negsuc ms) = b'-' ∷ seconds_text (suc ms)

-- A character of `[A-Z0-9_]`.
abbrev pub is_name_char : ℕ → Bool
is_name_char c = (leb b'A' c && leb c b'Z') || (leb b'0' c && leb c b'9') || c == b'_'

-- The longest name at the start of a text, if two closing braces stand behind it.
unfoldable pub name_before_braces : Text → Option Text
name_before_braces [] = none
name_before_braces (c ∷ []) = none
name_before_braces (c ∷ d ∷ s) =
    let behind = name_before_braces (d ∷ s) in
    if is_name_char c
    then elim behind [ none ↦ none | some name ↦ some (c ∷ name) ]
    else if c == b'}' && d == b'}'
    then some []
    else none

abbrev pub nonempty : Option Text → Option Text
nonempty none = none
nonempty (some []) = none
nonempty (some (c ∷ name)) = some (c ∷ name)

-- The match of `\{\{([A-Z0-9_]+)\}\}` at the start of a text: its name.
unfoldable pub placeholder_at : Text → Option Text
unfolding name_before_braces
placeholder_at (c ∷ d ∷ s) =
    if c == b'{' && d == b'{' then nonempty (name_before_braces s) else none
placeholder_at _ = none

abbrev pub onto : Text → Result RenderError Text → Result RenderError Text
onto text (ok rest) = ok (text ++ rest)
onto text (err e) = err e

-- `PLACEHOLDER.sub(…)`, from how many characters of a match are still to be passed over.
unfoldable pub substitute : (Text → Result RenderError Text) → Text → ℕ → Result RenderError Text
unfolding placeholder_at
substitute value_of [] skip = ok []
substitute value_of (c ∷ s) (suc skip) = substitute value_of s skip
substitute value_of (c ∷ s) zero = elim (placeholder_at (c ∷ s)) [
  | none ↦ onto (c ∷ []) (substitute value_of s zero)
  | some name ↦ elim (value_of name) [
    | err e ↦ err e
    | ok value ↦ onto value (substitute value_of s (length name + 3))
  ]
]

-- Whether `PLACEHOLDER.findall` finds any.
unfoldable pub has_placeholder : Text → Bool
unfolding placeholder_at
has_placeholder [] = false
has_placeholder (c ∷ s) =
    let behind = has_placeholder s in
    elim (placeholder_at (c ∷ s)) [ none ↦ behind | some name ↦ true ]

abbrev pub bounded_option : Bool → Text
bounded_option true = codes "'scan.bounded.mode' = 'latest-offset',"
bounded_option false = []

-- The values that are escaped.
abbrev pub escaped_values : PipelineConfig → Dict Text Text
escaped_values config =
    (codes "KAFKA_BOOTSTRAP_SERVERS", config.kafka_bootstrap_servers)
    ∷ (codes "SCHEMA_REGISTRY_URL", config.schema_registry_url)
    ∷ (codes "BEHAVIOR_TOPIC", config.behavior_topic)
    ∷ (codes "RAW_TOPIC", config.raw_topic)
    ∷ (codes "METRICS_TOPIC", config.metrics_topic)
    ∷ (codes "USER_FEATURES_TOPIC", config.user_features_topic)
    ∷ (codes "QUALITY_TOPIC", config.quality_topic)
    ∷ (codes "CART_MUTATION_TOPIC", config.cart_mutation_topic)
    ∷ (codes "CONSUMER_GROUP", config.consumer_group)
    ∷ []

-- `raw_fragments`, with the two security fragments.
abbrev pub raw_values : PipelineConfig → Text → Text → Dict Text Text
raw_values config source_security kafka_security =
    (codes "WATERMARK_DELAY_SECONDS", watermark_seconds config.max_out_of_orderness_ms)
    ∷ (codes "BEHAVIOR_BOUNDED_OPTION", bounded_option config.bounded)
    ∷ (codes "SOURCE_SECURITY_OPTIONS", source_security)
    ∷ (codes "KAFKA_SECURITY_OPTIONS", kafka_security)
    ∷ []

-- The function that replaces a placeholder.
unfoldable pub value_of : PipelineConfig → Text → Text → Text → Result RenderError Text
unfolding seconds_text escape
value_of config source_security kafka_security name =
    elim (get (raw_values config source_security kafka_security) name) [
      | some fragment ↦ ok fragment
      | none ↦ elim (get (escaped_values config) name) [
        | some value ↦ or_raise (escape value) blank_value
        | none ↦ err unknown_placeholder
      ]
    ]

-- `render_tables`, on the text of the template.
unfoldable pub render_tables : PipelineConfig → Text → Result RenderError Text
unfolding security_fragment substitute has_placeholder value_of
render_tables config template = do
  source_security ← security_fragment config true
  kafka_security ← security_fragment config false
  rendered ← substitute (value_of config source_security kafka_security) template 0
  raise_if (has_placeholder rendered) unresolved
  ok rendered
