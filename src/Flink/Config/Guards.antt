-- ===== src/Flink/Config/Guards.antt =====
-- What a configuration that was accepted is known to have.
use kafka_flink_click_house.Base.{
  ◌≡◌, ◌≢◌, ◌⊎◌, inl, inr, Option, true, false, Bool, Bool-cases, not, ◌&&◌, [], ◌∷◌, Text, codes,
  ◌==◌, nat_eq, list_eq, list_beq_iff, ℕ, ℤ, pos, ◌≤ℤ◌, ok, arith,
}
use kafka_flink_click_house.Kafka.Settings.{truthy}
use kafka_flink_click_house.Flink.Config.{PipelineConfig, positive_int, from_environment}

-- A configuration that the job can start with.
pub record IsRunnable (c : PipelineConfig) : Type 0 where
  pub checkpoints : c.checkpoint_dir ≢ []
  pub protocol :
      (c.kafka_security_protocol ≡ codes "PLAINTEXT")
      ⊎ ((c.kafka_security_protocol ≡ codes "SASL_SSL")
          × (c.kafka_sasl_mechanism ≢ [])
          × (c.kafka_sasl_username ≢ [])
          × (c.kafka_sasl_password ≢ []))
  pub interval : pos 1 ≤ℤ c.checkpoint_interval_ms
  pub attempts : pos 1 ≤ℤ c.restart_attempts
  pub delay : pos 1 ≤ℤ c.restart_delay_ms
  pub retention : pos 1 ≤ℤ c.dedup_retention_hours
  pub disorder : pos 1 ≤ℤ c.max_out_of_orderness_ms

truthy-ne : (s : Text) → truthy s ≡ true → s ≢ []
truthy-ne [] h = cc
truthy-ne (c ∷ s) h = λ e. cc

positive_int-le :
    (environment : Text → Option Text) (name : Text) (default : ℕ) (z : ℤ)
    → positive_int environment name default ≡ ok z
    → pos 1 ≤ℤ z
unfolding positive_int
positive_int-le environment name default z h = ground arith

abbrev IsProtected : Text → Text → Text → Text → Type 0
IsProtected p m u w =
    (p ≡ codes "PLAINTEXT") ⊎ ((p ≡ codes "SASL_SSL") × (m ≢ []) × (u ≢ []) × (w ≢ []))

all_true :
    (a b c : Bool) → (true && not (a && b && c)) ≡ false → (a ≡ true) × (b ≡ true) × (c ≡ true)
all_true a b c h = ground arith

neither : (a b : Bool) → (not a && not b) ≡ false → a ≡ false → b ≡ true
neither a b h k = ground arith

guarded :
    (p m u w : Text)
    → (not (p == codes "PLAINTEXT") && not (p == codes "SASL_SSL")) ≡ false
    → (p == codes "SASL_SSL" && not (truthy m && truthy u && truthy w)) ≡ false
    → IsProtected p m u w
guarded p m u w h k = elim (Bool-cases (p == codes "PLAINTEXT")) [
  | inl plain ↦ inl ((list_beq_iff p (codes "PLAINTEXT")).0 plain)
  | inr other ↦
      let sasl = neither (p == codes "PLAINTEXT") (p == codes "SASL_SSL") h other in
      let (x, y, z) = all_true (truthy m) (truthy u) (truthy w) (with_sasl _ _ sasl k) in
      inr ((list_beq_iff p (codes "SASL_SSL")).0 sasl, truthy-ne m x, truthy-ne u y, truthy-ne w z)
]
  where
    with_sasl : (a b : Bool) → a ≡ true → (a && b) ≡ false → (true && b) ≡ false
    with_sasl a b e f = ground arith

-- A configuration that `from_environment` returns has a directory for checkpoints, a known protocol,
-- with SASL_SSL all three credentials, and positive numbers.
pub from_environment-IsRunnable :
    (upper lower : Text → Text) (environment : Text → Option Text) (c : PipelineConfig)
    → from_environment upper lower environment ≡ ok c
    → IsRunnable c
unfolding from_environment
from_environment-IsRunnable upper lower environment c h = record {
  checkpoints = truthy-ne c.checkpoint_dir (ground arith);
  protocol =
      guarded c.kafka_security_protocol c.kafka_sasl_mechanism c.kafka_sasl_username
        c.kafka_sasl_password (ground arith) (ground arith);
  interval = ground arith;
  attempts = ground arith;
  delay = ground arith;
  retention = ground arith;
  disorder = ground arith;
}
