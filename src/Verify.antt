-- ===== src/Verify.antt =====
-- scripts/verify.py: the checks of `main`, on what it has gathered.
pub mod Sorting
pub mod Verdict
pub mod Rows
pub mod Services
pub mod Gathering
use kafka_flink_click_house.Base.{
  ℕ, Bool, true, false, not, ◌&&◌, ◌||◌, Option, none, some, List, [], ◌∷◌, ◌++◌, map, Text, codes,
  ◌==◌, nat_eq, list_eq, int_eq, if◌then◌else◌, all_of, ℤ, pos, negsuc, ltb_ℤ, Result, ok, err,
  ◌>>=◌, ◌>>◌, raise_if, or_raise,
}
use kafka_flink_click_house.Base.Dict.{Dict}
use kafka_flink_click_house.Text.{int, str}
use kafka_flink_click_house.Kafka.Settings.{get_or}
use kafka_flink_click_house.Json.{
  Json, number, array, object, Elements, no_elements, element, Members, no_members, member,
}
use kafka_flink_click_house.Json.Equality.{json_eq}
use kafka_flink_click_house.Accounting.{Accounting, replay_run_ids}

pub data VerifyError : Type 0 where
  -- "verification mismatch", a `RuntimeError`, of a section.
  mismatch : Text → VerifyError
  -- The `ValueError` of a limit that is no number.
  bad_limit : Text → VerifyError
  -- The `RuntimeError`s of the times to live.
  bad_cart_ttl bad_feature_ttl : VerifyError

-- The order in which Python sorts texts: that of their code points.
unfoldable pub text_ltb : Text → Text → Bool
text_ltb s [] = false
text_ltb [] (c ∷ t) = true
text_ltb (c ∷ s) (d ∷ t) = ltb_ℤ (pos c) (pos d) || (c == d && text_ltb s t)

-- `sorted(expected["quality"], key=lambda row: row["quality_event_id"])`, of the rows beside their keys.
unfoldable pub insert_row : Text × Json → List (Text × Json) → List (Text × Json)
unfolding text_ltb
insert_row (key, row) [] = (key, row) ∷ []
insert_row (key, row) ((k, r) ∷ rows) =
    let behind = (k, r) ∷ insert_row (key, row) rows in
    if text_ltb k key then behind else (key, row) ∷ (k, r) ∷ rows

unfoldable pub sort_rows : List (Text × Json) → List (Text × Json)
unfolding insert_row
sort_rows [] = []
sort_rows (row ∷ rows) = insert_row row (sort_rows rows)

abbrev pub elements_of : List (Text × Json) → Elements
elements_of [] = no_elements
elements_of ((key, row) ∷ rows) = element row (elements_of rows)

-- The decoded `golden_outputs.json`.
pub record Expected : Type 0 where
  pub accounting : Json
  pub canonical_raw : Json
  pub metrics : Json
  pub user_features : Json
  pub quality : List (Text × Json)
  pub redis_active_carts : Members
  pub redis_user_features : Members

-- `actual`, with the times to live. The catalog is there with `--with-catalog`.
pub record Gathered : Type 0 where
  pub accounting : Accounting
  pub canonical_raw : Json
  pub metrics : Json
  pub user_features : Json
  pub quality : Json
  pub redis_active_carts : Members
  pub redis_user_features : Members
  pub cart_ttls : Dict Text ℤ
  pub feature_ttls : Dict Text ℤ
  pub product_catalog : Option Json

abbrev pub count : ℕ → Json
count n = number (str (pos n))

abbrev pub whole : ℤ → Json
whole z = number (str z)

-- What `reconcile_accounting` returns, where four names stand for two numbers.
abbrev pub accounting_members : Accounting → Members
accounting_members a = member (codes "replay_attempts") (count a.replay_attempts) (
    member (codes "source_rows") (count a.source_rows) (
      member (codes "decoded") (count a.decoded) (
        member (codes "invalid") (count a.invalid) (
          member (codes "valid") (whole a.valid) (
            member (codes "duplicate") (whole a.duplicate) (
              member (codes "accepted_unique") (count a.accepted_unique) (
                member (codes "on_time") (whole a.on_time) (
                  member (codes "late_for_aggregation") (count a.late_for_aggregation) (
                    member (codes "canonical_raw") (count a.accepted_unique) (
                      member (codes "metrics_input") (whole a.on_time) (
                        member (codes "producer_rejected") (count a.producer_rejected)
                          no_members)))))))))))

unfoldable pub accounting_of : Accounting → Json
accounting_of a = object (accounting_members a)

-- A section of the comparison: its label, what was gathered, and what is expected.
abbrev pub Section : Type 0
Section = Text × Json × Json

abbrev pub catalog_section : Json → Option Json → List Section
catalog_section expected none = []
catalog_section expected (some catalog) = (codes "product_catalog", catalog, expected) ∷ []

unfoldable pub sections : Json → Expected → Gathered → List Section
unfolding accounting_of sort_rows
sections catalog expected actual =
    catalog_section catalog actual.product_catalog
    ++ ((codes "accounting", accounting_of actual.accounting, expected.accounting)
        ∷ (codes "canonical_raw", actual.canonical_raw, expected.canonical_raw)
        ∷ (codes "metrics", actual.metrics, expected.metrics)
        ∷ (codes "user_features", actual.user_features, expected.user_features)
        ∷ (codes "quality", actual.quality, array (elements_of (sort_rows expected.quality)))
        ∷ (
          codes "redis_active_carts",
          object actual.redis_active_carts,
          object expected.redis_active_carts,
        )
        ∷ (
          codes "redis_user_features",
          object actual.redis_user_features,
          object expected.redis_user_features,
        )
        ∷ [])

-- `0 < ttl <= limit`
abbrev pub lives : ℤ → ℤ → Bool
lives limit ttl = ltb_ℤ (pos 0) ttl && not (ltb_ℤ limit ttl)

-- A cart may be empty, in which case Redis has no key and the time to live is -2.
abbrev pub cart_lives : ℤ → ℤ → Bool
cart_lives limit ttl = ttl == negsuc 1 || lives limit ttl

module _ (number_eq : Text → Text → Bool) where
  unfoldable pub require_equal : Section → Result VerifyError (Unit {0})
  unfolding json_eq
  require_equal (label, actual, expected) =
      raise_if (not (json_eq number_eq actual expected)) (mismatch label)

  unfoldable pub require_all : List Section → Result VerifyError (Unit {0})
  unfolding require_equal
  require_all [] = ok tt
  require_all (section ∷ rest) = do require_equal section; require_all rest

  -- The part of `main` behind the queries, in the environment and with the expected catalog.
  unfoldable pub judge :
      (Text → Option Text) → Bool → Json → Expected → Gathered → Result VerifyError (Unit {0})
  unfolding sections require_all
  judge environment snapshot_only catalog expected actual = do
    if snapshot_only then ok tt else require_all (sections catalog expected actual)
    ttl_limit ←
        or_raise (int (get_or environment (codes "REDIS_CART_TTL_SECONDS") (codes "604800")))
          (bad_limit (codes "REDIS_CART_TTL_SECONDS"))
    raise_if (not (all_of (λ (user, ttl). cart_lives ttl_limit ttl) actual.cart_ttls)) bad_cart_ttl
    feature_ttl_limit ←
        or_raise (int (get_or environment (codes "REDIS_FEATURE_TTL_SECONDS") (codes "86400")))
          (bad_limit (codes "REDIS_FEATURE_TTL_SECONDS"))
    raise_if (not (all_of (λ (user, ttl). lives feature_ttl_limit ttl) actual.feature_ttls))
        bad_feature_ttl
