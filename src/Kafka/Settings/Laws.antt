-- ===== src/Kafka/Settings/Laws.antt =====
-- Which settings are accepted, and the options of them.
use kafka_flink_click_house.Base.{
  ◌≡◌, ◌≢◌, ◌↔◌, ◌⊎◌, inl, inr, ◌∙◌, Option, false, [], ◌∷◌, Text, codes, arith, ◌==◌, nat_eq,
  list_eq, list_beq_iff, Bool-cases, ok,
}
use kafka_flink_click_house.Base.Dict.{Dict}
use kafka_flink_click_house.Kafka.Settings.{
  Settings, settings, kafka_security_options, security_options, plain_options, sasl_options,
}

-- Without encryption: no SASL setting at all.
pub record IsPlain (s : Settings) (o : Dict Text Text) : Type 0 where
  pub protocol : s.protocol ≡ codes "PLAINTEXT"
  pub mechanism : s.mechanism ≡ []
  pub username : s.username ≡ []
  pub password : s.password ≡ []
  pub jaas_config : s.jaas_config ≡ []
  pub options : o ≡ (codes "security.protocol", codes "PLAINTEXT") ∷ []

-- The option of a JAAS text, if there is one.
abbrev pub jaas_option : Text → Dict Text Text
jaas_option [] = []
jaas_option (c ∷ s) = (codes "sasl.jaas.config", c ∷ s) ∷ []

-- A whole login, with or without a JAAS text.
pub record IsLogin (s : Settings) (o : Dict Text Text) : Type 0 where
  pub protocol : s.protocol ≡ codes "SASL_SSL"
  pub mechanism : s.mechanism ≢ []
  pub username : s.username ≢ []
  pub password : s.password ≢ []
  pub options :
      o
      ≡ (codes "security.protocol", codes "SASL_SSL")
        ∷ (codes "sasl.mechanism", s.mechanism)
        ∷ (codes "sasl.username", s.username)
        ∷ (codes "sasl.password", s.password)
        ∷ jaas_option s.jaas_config

-- No login at all, but a JAAS text.
pub record IsJaas (s : Settings) (o : Dict Text Text) : Type 0 where
  pub protocol : s.protocol ≡ codes "SASL_SSL"
  pub mechanism : s.mechanism ≢ []
  pub username : s.username ≡ []
  pub password : s.password ≡ []
  pub jaas_config : s.jaas_config ≢ []
  pub options :
      o
      ≡ (codes "security.protocol", codes "SASL_SSL")
        ∷ (codes "sasl.mechanism", s.mechanism)
        ∷ (codes "sasl.jaas.config", s.jaas_config)
        ∷ []

plain_options_iff :
    (s : Settings) (o : Dict Text Text)
    → s.protocol ≡ codes "PLAINTEXT"
    → (plain_options s ≡ ok o) ↔ IsPlain s o
unfolding plain_options
plain_options_iff s o p = (λ h. ground arith, λ h. ground arith)

sasl_options_sound :
    (s : Settings) (o : Dict Text Text)
    → s.protocol ≡ codes "SASL_SSL"
    → sasl_options s ≡ ok o
    → IsLogin s o ⊎ IsJaas s o
unfolding sasl_options
sasl_options_sound s o p h = ground arith

sasl_options-IsLogin : (s : Settings) (o : Dict Text Text) → IsLogin s o → sasl_options s ≡ ok o
unfolding sasl_options
sasl_options-IsLogin s o h = ground arith

sasl_options-IsJaas : (s : Settings) (o : Dict Text Text) → IsJaas s o → sasl_options s ≡ ok o
unfolding sasl_options
sasl_options-IsJaas s o h = ground arith

security_options_sound :
    (s : Settings) (o : Dict Text Text)
    → security_options s ≡ ok o
    → IsPlain s o ⊎ IsLogin s o ⊎ IsJaas s o
unfolding security_options
security_options_sound s o h = elim (Bool-cases (s.protocol == codes "PLAINTEXT")) [
  | inl plain ↦
      let p = (list_beq_iff s.protocol (codes "PLAINTEXT")).0 plain in
      inl ((plain_options_iff s o p).0 (rw plain at h))
  | inr other ↦ elim (Bool-cases (s.protocol == codes "SASL_SSL")) [
    | inl sasl ↦
        let p = (list_beq_iff s.protocol (codes "SASL_SSL")).0 sasl in
        inr (sasl_options_sound s o p (rw (other, sasl) at h))
    | inr neither ↦ absurd (refused other neither h)
  ]
]
  where
    refused :
        (s.protocol == codes "PLAINTEXT") ≡ false
        → (s.protocol == codes "SASL_SSL") ≡ false
        → security_options s ≡ ok o
        → ⊥
    refused a b h = ground arith

security_options-IsPlain :
    (s : Settings) (o : Dict Text Text) → IsPlain s o → security_options s ≡ ok o
unfolding security_options
security_options-IsPlain s o h =
    rw ((list_beq_iff s.protocol (codes "PLAINTEXT")).1 h.protocol)
      ((plain_options_iff s o h.protocol).1 h)

security_options_of_sasl :
    (s : Settings) → s.protocol ≡ codes "SASL_SSL" → security_options s ≡ sasl_options s
unfolding security_options
security_options_of_sasl s p = rw p

security_options_complete :
    (s : Settings) (o : Dict Text Text)
    → IsPlain s o ⊎ IsLogin s o ⊎ IsJaas s o
    → security_options s ≡ ok o
security_options_complete s o (inl h) = security_options-IsPlain s o h
security_options_complete s o (inr (inl h)) =
    security_options_of_sasl s h.protocol ∙ sasl_options-IsLogin s o h
security_options_complete s o (inr (inr h)) =
    security_options_of_sasl s h.protocol ∙ sasl_options-IsJaas s o h

-- The settings are accepted exactly in three cases: PLAINTEXT with no SASL setting; SASL_SSL with a
-- mechanism, a username and a password, with or without a JAAS text; SASL_SSL with a mechanism and
-- a JAAS text and neither username nor password. In each the options are the stripped settings
-- that are not blank, and no others.
pub kafka_security_options_iff :
    (upper : Text → Text) (environment : Text → Option Text) (o : Dict Text Text)
    → let s = settings upper environment in
      (kafka_security_options upper environment ≡ ok o) ↔ (IsPlain s o ⊎ IsLogin s o ⊎ IsJaas s o)
unfolding kafka_security_options
kafka_security_options_iff upper environment o =
    let s = settings upper environment in
    (security_options_sound s o, security_options_complete s o)
