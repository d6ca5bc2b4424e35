-- ===== src/Verify/Gathering/Passing.antt =====
-- verify.py: what holds of the pipeline when `main` returns.
use kafka_flink_click_house.Base.{
  ◌≡◌, Bool, [], ◌∷◌, codes, Option, none, some, List, Text, Result, ok, err, refl, length,
  or_raise, ok_injective, >>=-eq-ok, subst,
}
use kafka_flink_click_house.Base.Exec.{continue-eq-ok}
use kafka_flink_click_house.Json.{Json, Members, no_members}
use kafka_flink_click_house.Accounting.{Accounting}
use kafka_flink_click_house.Accounting.Balance.{IsBalanced, reconcile_accounting-IsBalanced}
use kafka_flink_click_house.Verify.{VerifyError, Expected, Gathered, judge}
use kafka_flink_click_house.Verify.Verdict.{IsVerified, judge_iff}
use kafka_flink_click_house.Verify.Rows.{RunError, quality_types, account, of_check, unbalanced}
use kafka_flink_click_house.Verify.Services.{Services}
use kafka_flink_click_house.Verify.Gathering.{
  raw_sql, raw_fields, metrics_sql, metrics_fields, features_sql, features_fields, quality_sql,
  cart_key_of, features_key_of, rows_of, rows_json, read_hashes, read_catalog, gather, main,
}

or_raise-ok :
    {X A : Type 0} (o : Option A) (e : RunError X) (a : A) → or_raise o e ≡ ok a → o ≡ some a
or_raise-ok none e a h = cc
or_raise-ok (some b) e a h = cc

module _ {X S : Type 0} (services : Services X S) (environment : Text → Option Text)
    (sha256 : Text → Text) (fixture : List (List Text)) where
  -- The two replays of the fixture balance against the rows that were gathered: the canonical events
  -- are the rows of the raw table, and the invalid and the late ones are counted in the column of
  -- quality types.
  abbrev pub IsGathered : Gathered → Type 0
  IsGathered actual =
      (raw : List Members) × (quality : List Members) × (types : List Text) × (actual.canonical_raw
        ≡ rows_json raw)
      × (actual.quality ≡ rows_json quality)
      × (quality_types {X = X} quality ≡ ok types)
      × IsBalanced sha256 fixture (length raw) types actual.accounting

  account-IsBalanced :
      (raw quality : List Members) (a : Accounting)
      → account {X = X} sha256 fixture raw quality ≡ ok a
      → (types : List Text) × (quality_types {X = X} quality ≡ ok types)
        × IsBalanced sha256 fixture (length raw) types a
  unfolding account
  account-IsBalanced raw quality a h =
      let (types, read, k) = >>=-eq-ok (quality_types quality) _ h in
      (
        types,
        read,
        reconcile_accounting-IsBalanced sha256 fixture (length raw) types a
            (or_raise-ok _ unbalanced a k),
      )

  gather-IsGathered :
      (with_catalog : Bool) (expected : Expected) (s : S) (actual : Gathered)
      → (gather services environment sha256 fixture with_catalog expected s).0 ≡ ok actual
      → IsGathered actual
  unfolding gather
  gather-IsGathered with_catalog expected s actual h =
      let ask = rows_of services environment in
      let read = read_hashes services environment in
      let m₁ = ask raw_sql raw_fields s in
      let (raw, _, h₁) = continue-eq-ok m₁.0 m₁.1 _ actual h in
      let m₂ = ask metrics_sql metrics_fields m₁.1 in
      let (metrics, _, h₂) = continue-eq-ok m₂.0 m₂.1 _ actual h₁ in
      let m₃ = ask features_sql features_fields m₂.1 in
      let (features, _, h₃) = continue-eq-ok m₃.0 m₃.1 _ actual h₂ in
      let m₄ = ask quality_sql (codes "source_sequence" ∷ []) m₃.1 in
      let (quality, _, h₄) = continue-eq-ok m₄.0 m₄.1 _ actual h₃ in
      let m₅ = read cart_key_of expected.redis_active_carts (no_members, []) m₄.1 in
      let (carts, _, h₅) = continue-eq-ok m₅.0 m₅.1 _ actual h₄ in
      let m₆ = read features_key_of expected.redis_user_features (no_members, []) m₅.1 in
      let (hashes, _, h₆) = continue-eq-ok m₆.0 m₆.1 _ actual h₅ in
      let accounts = account sha256 fixture raw quality in
      let (accounting, balanced, h₇) = continue-eq-ok accounts m₆.1 _ actual h₆ in
      let m₈ = read_catalog services environment with_catalog m₆.1 in
      let (catalog, _, h₈) = continue-eq-ok m₈.0 m₈.1 _ actual h₇ in
      let (types, read_types, balances) = account-IsBalanced raw quality accounting balanced in
      subst IsGathered (ok_injective _ actual h₈)
        (raw, quality, types, refl, refl, read_types, balances)

  of_check-ok :
      (r : Result VerifyError (Unit {0})) (u : Unit {0}) → of_check {X = X} r ≡ ok u → r ≡ ok tt
  of_check-ok (ok _) u h = refl
  of_check-ok (err e) u h = cc

  module _ (number_eq : Text → Text → Bool) (with_catalog snapshot_only : Bool) (catalog : Json)
      (expected : Expected) where
    -- `main` returns only if, unless only a snapshot is taken, what it gathered is what is expected,
    -- and if the times to live are within their limits. Then the accounting is that of two replays of
    -- the fixture: each row was read in each, the canonical events are as many as the rows of the raw
    -- table, and the invalid and the late ones as many as the quality rows of these types; and the
    -- remainders that are returned as duplicates and as on time are not negative.
    pub main-IsVerified :
        (s : S) (actual : Gathered)
        → (main services environment sha256 fixture number_eq with_catalog snapshot_only catalog
            expected s).0
          ≡ ok actual
        → IsGathered actual × IsVerified number_eq environment snapshot_only catalog expected actual
    unfolding main
    main-IsVerified s actual h =
        let m = gather services environment sha256 fixture with_catalog expected s in
        let (found, gathered, rest) = continue-eq-ok m.0 m.1 _ actual h in
        let check = judge number_eq environment snapshot_only catalog expected found in
        let (u, judged, returned) = continue-eq-ok (of_check check) m.1 _ actual rest in
        subst
          (λ g. IsGathered g × IsVerified number_eq environment snapshot_only catalog expected g)
          (ok_injective found actual returned)
          (
            gather-IsGathered with_catalog expected s found gathered,
            (judge_iff number_eq environment snapshot_only catalog expected found).0
                (of_check-ok check u judged),
          )
