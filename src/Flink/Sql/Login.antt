-- ===== src/Flink/Sql/Login.antt =====
-- sql.py: the options that `_kafka_security_options` returns, read through both of their escapes.
use kafka_flink_click_house.Base.{
  ℕ, ◌≡◌, refl, sym, ap, ◌∙◌, Bool, true, false, Bool-cases, inl, inr, Option, none, some, [], ◌∷◌,
  ◌++◌, Text, codes, ◌==◌, nat_eq, list_eq, if◌then◌else◌, eq-of-beq, ◌≢◌, ◌⊎◌,
}
use kafka_flink_click_house.Base.Dict.{Dict, get}
use kafka_flink_click_house.Flink.Config.{PipelineConfig}
use kafka_flink_click_house.Flink.Sql.{replace_char}
use kafka_flink_click_house.Flink.Sql.Literals.{read_literal, push, doubled}
use kafka_flink_click_house.Flink.Sql.Tables.{
  backslash, double_quote, escape_jaas, sasl_entries, registry_entries,
}

-- How JAAS reads on behind an opening quote: a backslash makes the next character one of the text,
-- and a quote ends it. The result is the text, and what stands behind it.
unfoldable pub read_quoted : Text → Option (Text × Text)
read_quoted [] = none
read_quoted (c ∷ []) = if c == double_quote then some ([], []) else none
read_quoted (c ∷ d ∷ s) =
    let escaped = push d (read_quoted s) in
    let plain = push c (read_quoted (d ∷ s)) in
    if c == backslash then escaped else if c == double_quote then some ([], d ∷ s) else plain

read_quoted_plain :
    (c : ℕ) (s : Text)
    → (c == backslash) ≡ false
    → (c == double_quote) ≡ false
    → read_quoted (c ∷ s) ≡ push c (read_quoted s)
unfolding read_quoted
read_quoted_plain c [] h k = rw k refl
read_quoted_plain c (d ∷ s) h k = rw (h, k) refl

read_quoted_end : (rest : Text) → read_quoted (double_quote ∷ rest) ≡ some ([], rest)
unfolding read_quoted
read_quoted_end [] = refl
read_quoted_end (d ∷ s) = refl

pub read_quoted-escape_jaas :
    (s rest : Text) → read_quoted (escape_jaas s ++ (double_quote ∷ rest)) ≡ some (s, rest)
unfolding escape_jaas replace_char read_quoted
read_quoted-escape_jaas [] rest = read_quoted_end rest
read_quoted-escape_jaas (c ∷ s) rest = elim (Bool-cases (c == backslash)) [
  | inl slash ↦
      rw (slash, read_quoted-escape_jaas s rest)
        (ap (λ d. some (d ∷ s, rest)) (sym (eq-of-beq c backslash slash)))
  | inr other ↦ elim (Bool-cases (c == double_quote)) [
    | inl quoted ↦
        rw (other, quoted, read_quoted-escape_jaas s rest)
          (ap (λ d. some (d ∷ s, rest)) (sym (eq-of-beq c double_quote quoted)))
    | inr plain ↦
        rw (other, plain)
          (read_quoted_plain c (escape_jaas s ++ (double_quote ∷ rest)) other plain
            ∙ ap (push c) (read_quoted-escape_jaas s rest))
  ]
]

-- What stands behind a prefix.
unfoldable pub drop_prefix : Text → Text → Option Text
drop_prefix [] s = some s
drop_prefix (p ∷ prefix) [] = none
drop_prefix (p ∷ prefix) (c ∷ s) = if c == p then drop_prefix prefix s else none

-- SQL reads a text as these options and no other, each a literal of its key, an equals sign and a
-- literal of its value.
abbrev pub IsRead : Dict Text Text → Text → Type 0
IsRead [] text = text ≡ []
IsRead ((key, value) ∷ options) text =
    (a b c rest : Text) × (drop_prefix (codes ",\n    '") text ≡ some a)
    × (read_literal a ≡ some (key, b))
    × (drop_prefix (codes " = '") b ≡ some c)
    × (read_literal c ≡ some (value, rest))
    × IsRead options rest

-- A key without quotes.
abbrev IsPlain : Text × Text → Type 0
IsPlain (key, value) = doubled key ≡ key

abbrev option_text : Text → Text → Text → Text
option_text key escaped rest =
    codes ",\n    '" ++ (key ++ (codes "' = '" ++ (escaped ++ (codes "'" ++ rest))))

-- JAAS reads a text as the plain login of this username and password.
abbrev pub IsLogin : Text → Text → Text → Type 0
IsLogin username password text =
    (a b c : Text) × (drop_prefix
        (codes "org.apache.kafka.common.security.plain.PlainLoginModule required username=\"") text
      ≡ some a)
    × (read_quoted a ≡ some (username, b))
    × (drop_prefix (codes " password=\"") b ≡ some c)
    × (read_quoted c ≡ some (password, codes ";"))

abbrev security_name : Text
security_name = codes "properties.security.protocol"

abbrev mechanism_name : Text
mechanism_name = codes "properties.sasl.mechanism"

abbrev jaas_name : Text
jaas_name = codes "properties.sasl.jaas.config"

abbrev source_name : Text
source_name = codes "value.avro-confluent.basic-auth.credentials-source"

abbrev user_name : Text
user_name = codes "value.avro-confluent.basic-auth.user-info"

-- Options as they are configured. With SASL_SSL there are the mechanism and a login that JAAS reads
-- as the username and the password, and with another protocol there is none of the three; the
-- credentials of the schema registry are there if they are asked for and set, and not otherwise.
pub record IsSecured (config : PipelineConfig) (schema_registry : Bool) (options : Dict Text Text)
    : Type 0 where
  pub login :
      config.kafka_security_protocol ≡ codes "SASL_SSL"
      → (jaas : Text) × (get options jaas_name ≡ some jaas)
        × IsLogin config.kafka_sasl_username config.kafka_sasl_password jaas
        × (get options security_name ≡ some (codes "SASL_SSL"))
        × (get options mechanism_name ≡ some config.kafka_sasl_mechanism)
  pub no_login :
      config.kafka_security_protocol ≢ codes "SASL_SSL"
      → (get options jaas_name ≡ none)
        × (get options security_name ≡ none)
        × (get options mechanism_name ≡ none)
  pub credentials :
      schema_registry ≡ true
      → config.schema_registry_basic_auth ≢ []
      → (get options source_name ≡ some (codes "USER_INFO"))
        × (get options user_name ≡ some config.schema_registry_basic_auth)
  pub no_credentials :
      (schema_registry ≡ false) ⊎ (config.schema_registry_basic_auth ≡ [])
      → (get options source_name ≡ none) × (get options user_name ≡ none)

-- The entries that the two tests choose.
abbrev chosen : PipelineConfig → Bool → Bool → Dict Text Text
chosen config sasl registry =
    (if sasl then sasl_entries config else []) ++ (if registry then registry_entries config else [])
