-- ===== src/Verify/Verdict.antt =====
-- verify.py: when the checks of `main` pass.
use mathlib.Core.List.{Perm}
use kafka_flink_click_house.Base.{
  subst, All-split, All-append, ◌≡◌, ◌↔◌, ◌⊎◌, inl, inr, refl, Bool, true, false, not, ◌||◌, Option,
  none, some, List, [], ◌∷◌, Text, codes, ◌==◌, nat_eq, list_eq, int_eq, if◌then◌else◌, all_of, All,
  ℤ, pos, negsuc, ◌≤ℤ◌, Result, ok, err, ◌>>◌, ◌>>=◌, raise_if, raise_if-ok, or_raise, and_iff,
  arith,
}
use kafka_flink_click_house.Base.Dict.{Dict}
use kafka_flink_click_house.Text.{int, str}
use kafka_flink_click_house.Kafka.Settings.{get_or}
use kafka_flink_click_house.Json.{Json, null, boolean, number, string, array, object, Members, find}
use kafka_flink_click_house.Json.Same.{IsSame, AreIn, json_eq_iff}
use kafka_flink_click_house.Accounting.{Accounting}
use kafka_flink_click_house.Verify.Sorting.{IsSorted, sort_rows-IsSorted, sort_rows-Perm}
use kafka_flink_click_house.Json.Equality.{count_members, json_eq}
use kafka_flink_click_house.Verify.{
  catalog_section, accounting_members, accounting_of, sort_rows, elements_of, VerifyError, mismatch,
  bad_limit, bad_cart_ttl, bad_feature_ttl, Expected, Gathered, Section, sections, lives,
  cart_lives, require_all, judge,
}

-- A time to live of a key that is there.
abbrev pub IsAlive : ℤ → ℤ → Type 0
IsAlive limit ttl = (pos 1 ≤ℤ ttl) × (ttl ≤ℤ limit)

lives_iff : (limit ttl : ℤ) → (lives limit ttl ≡ true) ↔ IsAlive limit ttl
lives_iff limit ttl = (λ h. ground arith, λ h. ground arith)

or_iff : (a b : Bool) → ((a || b) ≡ true) ↔ ((a ≡ true) ⊎ (b ≡ true))
or_iff true b = (λ h. inl refl, λ h. refl)
or_iff false b = (λ h. inr h, λ h. elim h [ inl a ↦ cc | inr c ↦ c ])

cart_lives_iff :
    (limit ttl : ℤ) → (cart_lives limit ttl ≡ true) ↔ ((ttl ≡ negsuc 1) ⊎ IsAlive limit ttl)
cart_lives_iff limit ttl =
    let either = or_iff (ttl == negsuc 1) (lives limit ttl) in
    let same = int_eq.decides ttl (negsuc 1) in
    let alive = lives_iff limit ttl in
    (
      λ h. elim (either.0 h) [ inl a ↦ inl (same.0 a) | inr b ↦ inr (alive.0 b) ],
      λ h. elim h [ inl a ↦ either.1 (inl (same.1 a)) | inr b ↦ either.1 (inr (alive.1 b)) ],
    )

all_of_iff {ℓ} :
    {A : Type ℓ} (p : A → Bool) (P : A → Type 0)
    → ((a : A) → (p a ≡ true) ↔ P a)
    → (xs : List A) → (all_of p xs ≡ true) ↔ All P xs
all_of_iff p P h [] = (λ _. tt, λ _. refl)
all_of_iff p P h (x ∷ xs) =
    let both = and_iff (p x) (all_of p xs) in
    let rest = all_of_iff p P h xs in
    (λ k. let (a, b) = both.0 k in ((h x).0 a, rest.0 b), λ (a, b). both.1 ((h x).1 a, rest.1 b))

-- Two checks, one behind the other.
>>-ok :
    (check rest : Result VerifyError (Unit {0}))
    → ((check >> rest) ≡ ok tt) ↔ ((check ≡ ok tt) × (rest ≡ ok tt))
>>-ok (ok _) rest = (λ h. (refl, h), λ h. h.1)
>>-ok (err e) rest = (λ h. cc, λ h. cc (h.0))

-- A limit that is read, and the check with it.
or_raise-ok :
    (limit : Option ℤ) (e : VerifyError) (check : ℤ → Result VerifyError (Unit {0}))
    → ((or_raise limit e >>= check) ≡ ok tt) ↔ ((z : ℤ) × (limit ≡ some z) × (check z ≡ ok tt))
or_raise-ok none e check = (λ h. cc, λ h. cc (h.1))
or_raise-ok (some z) e check = (λ h. (z, refl, h), λ h. ground (arith, h.1, h.2))

-- A check that is the last.
raise_if_last : (b : Bool) (e : VerifyError) → (raise_if (not b) e ≡ ok tt) ↔ (b ≡ true)
raise_if_last true e = (λ h. refl, λ h. refl)
raise_if_last false e = (λ h. cc, λ h. cc)

-- A check that an option skips.
skipped_if :
    (skip : Bool) (check : Result VerifyError (Unit {0}))
    → ((if skip then ok tt else check) ≡ ok tt) ↔ (skip ≡ false → check ≡ ok tt)
skipped_if true check = (λ h k. cc, λ h. refl)
skipped_if false check = (λ h k. h, λ h. h refl)

not-false : (b : Bool) → (not b ≡ false) ↔ (b ≡ true)
not-false b = (λ h. ground arith, λ h. ground arith)

features_pass :
    (limit : ℤ) (ttls : Dict Text ℤ)
    → (raise_if (not (all_of (λ (user, ttl). lives limit ttl) ttls)) bad_feature_ttl ≡ ok tt)
      ↔ All (λ (user, ttl). IsAlive limit ttl) ttls
features_pass limit ttls =
    let last = raise_if_last (all_of (λ (user, ttl). lives limit ttl) ttls) bad_feature_ttl in
    let each = all_of_iff _ _ (λ (user, ttl). lives_iff limit ttl) ttls in
    (λ h. each.0 (last.0 h), λ h. last.1 (each.1 h))

carts_pass :
    (limit : ℤ) (ttls : Dict Text ℤ) (rest : Result VerifyError (Unit {0}))
    → ((raise_if (not (all_of (λ (user, ttl). cart_lives limit ttl) ttls)) bad_cart_ttl >> rest)
        ≡ ok tt)
      ↔ (All (λ (user, ttl). (ttl ≡ negsuc 1) ⊎ IsAlive limit ttl) ttls × (rest ≡ ok tt))
carts_pass limit ttls rest =
    let passes = all_of (λ (user, ttl). cart_lives limit ttl) ttls in
    let guard = raise_if-ok (not passes) bad_cart_ttl rest in
    let each = all_of_iff _ _ (λ (user, ttl). cart_lives_iff limit ttl) ttls in
    (
      λ h. let (a, b) = guard.0 h in (each.0 ((not-false passes).0 a), b),
      λ (a, b). guard.1 ((not-false passes).1 (each.1 a), b),
    )

-- The names of the accounting, with what each stands for.
abbrev pub accounting_names : Accounting → List (Text × ℤ)
accounting_names a =
    (codes "replay_attempts", pos a.replay_attempts)
    ∷ (codes "source_rows", pos a.source_rows)
    ∷ (codes "decoded", pos a.decoded)
    ∷ (codes "invalid", pos a.invalid)
    ∷ (codes "valid", a.valid)
    ∷ (codes "duplicate", a.duplicate)
    ∷ (codes "accepted_unique", pos a.accepted_unique)
    ∷ (codes "on_time", a.on_time)
    ∷ (codes "late_for_aggregation", pos a.late_for_aggregation)
    ∷ (codes "canonical_raw", pos a.accepted_unique)
    ∷ (codes "metrics_input", a.on_time)
    ∷ (codes "producer_rejected", pos a.producer_rejected)
    ∷ []

module _ (number_eq : Text → Text → Bool) where
  -- The accounting is an object of the twelve names with their numbers, and no other.
  abbrev pub IsAccounted : Accounting → Json → Type 0
  IsAccounted a expected =
      (fields : Members) × (expected ≡ object fields)
      × (12 ≡ count_members fields)
      × All
          (λ (name, z).
            (v : Json) × (find fields name ≡ some v) × IsSame number_eq (number (str z)) v)
          (accounting_names a)

  object-IsSame :
      (xs : Members) (y : Json)
      → IsSame number_eq (object xs) y ↔ (
          (ys : Members) × (y ≡ object ys)
          × (count_members xs ≡ count_members ys)
          × AreIn number_eq xs ys)
  unfolding IsSame
  object-IsSame xs null = (λ h. elim h [ ], λ (_, e, _, _). cc)
  object-IsSame xs (boolean b) = (λ h. elim h [ ], λ (_, e, _, _). cc)
  object-IsSame xs (number n) = (λ h. elim h [ ], λ (_, e, _, _). cc)
  object-IsSame xs (string t) = (λ h. elim h [ ], λ (_, e, _, _). cc)
  object-IsSame xs (array ys) = (λ h. elim h [ ], λ (_, e, _, _). cc)
  object-IsSame xs (object ys) = (
    λ (n, h). (ys, refl, n, h),
    λ (zs, e, n, h).
        let same : zs ≡ ys = cc in
        subst (λ m. (count_members xs ≡ count_members m) × AreIn number_eq xs m) same (n, h),
  )

  accounting_of-IsSame :
      (a : Accounting) (expected : Json)
      → IsSame number_eq (accounting_of a) expected ↔ IsAccounted a expected
  unfolding accounting_of IsSame
  accounting_of-IsSame a expected = object-IsSame (accounting_members a) expected

  -- What was gathered is what is expected: the catalog, if it was asked for; each number of the
  -- accounting; the rows of the four tables, of which the expected quality rows are taken in the
  -- order of their identifiers; and the hashes of the carts and of the features.
  pub record IsAsExpected (catalog : Json) (expected : Expected) (actual : Gathered) : Type 0 where
    pub product_catalog :
        (rows : Json) → actual.product_catalog ≡ some rows → IsSame number_eq rows catalog
    pub accounting : IsAccounted actual.accounting expected.accounting
    pub canonical_raw : IsSame number_eq actual.canonical_raw expected.canonical_raw
    pub metrics : IsSame number_eq actual.metrics expected.metrics
    pub user_features : IsSame number_eq actual.user_features expected.user_features
    pub quality : IsSame number_eq actual.quality (array (elements_of (sort_rows expected.quality)))
    pub sorted : IsSorted (sort_rows expected.quality)
    pub rearranged : Perm (sort_rows expected.quality) expected.quality
    pub redis_active_carts :
        IsSame number_eq (object actual.redis_active_carts) (object expected.redis_active_carts)
    pub redis_user_features :
        IsSame number_eq (object actual.redis_user_features) (object expected.redis_user_features)

  -- A section of the comparison whose two sides are the same.
  abbrev IsEqual : Section → Type 0
  IsEqual (label, actual, expected) = IsSame number_eq actual expected

  require_all_iff : (list : List Section) → (require_all number_eq list ≡ ok tt) ↔ All IsEqual list
  unfolding require_all
  require_all_iff [] = (λ _. tt, λ _. refl)
  require_all_iff ((label, actual, expected) ∷ list) =
      let equal = json_eq number_eq actual expected in
      let first = raise_if-ok (not equal) (mismatch label) (require_all number_eq list) in
      let same = json_eq_iff number_eq actual expected in
      let rest = require_all_iff list in
      (
        λ h. let (a, b) = first.0 h in (same.0 ((not-false equal).0 a), rest.0 b),
        λ (a, b). first.1 ((not-false equal).1 (same.1 a), rest.1 b),
      )

  catalog_iff :
      (catalog : Json) (found : Option Json)
      → All IsEqual (catalog_section catalog found)
        ↔ ((rows : Json) → found ≡ some rows → IsSame number_eq rows catalog)
  catalog_iff catalog none = (λ h rows e. cc, λ h. tt)
  catalog_iff catalog (some found) = (
    λ h rows e. let same : found ≡ rows = cc in subst (λ r. IsSame number_eq r catalog) same h.0,
    λ h. (h found refl, tt),
  )

  sections_iff :
      (catalog : Json) (expected : Expected) (actual : Gathered)
      → All IsEqual (sections catalog expected actual) ↔ IsAsExpected catalog expected actual
  unfolding sections
  sections_iff catalog expected actual =
      let list = catalog_section catalog actual.product_catalog in
      let found = catalog_iff catalog actual.product_catalog in
      let accounts = accounting_of-IsSame actual.accounting expected.accounting in
      (
        λ h.
            let (c, (a, (r, (m, (u, (q, (k, (f, _)))))))) = All-split IsEqual list _ h in
            record {
              product_catalog = found.0 c;
              accounting = accounts.0 a;
              canonical_raw = r;
              metrics = m;
              user_features = u;
              quality = q;
              sorted = sort_rows-IsSorted expected.quality;
              rearranged = sort_rows-Perm expected.quality;
              redis_active_carts = k;
              redis_user_features = f;
            },
        λ e. All-append IsEqual list _ (found.1 e.product_catalog) (
          accounts.1 e.accounting,
          (
            e.canonical_raw,
            (
              e.metrics,
              (e.user_features, (e.quality, (e.redis_active_carts, (e.redis_user_features, tt)))),
            ),
          ),
        ),
      )

  -- What was gathered is expected, unless only a snapshot is taken; and each key lives for no longer
  -- than it may, where a cart may have no key.
  pub record IsVerified (environment : Text → Option Text) (snapshot_only : Bool) (catalog : Json)
      (expected : Expected) (actual : Gathered) : Type 0 where
    pub compared : snapshot_only ≡ false → IsAsExpected catalog expected actual
    pub ttl_limit : ℤ
    pub reads_ttl :
        int (get_or environment (codes "REDIS_CART_TTL_SECONDS") (codes "604800")) ≡ some ttl_limit
    pub carts : All (λ (user, ttl). (ttl ≡ negsuc 1) ⊎ IsAlive ttl_limit ttl) actual.cart_ttls
    pub feature_ttl_limit : ℤ
    pub reads_feature_ttl :
        int (get_or environment (codes "REDIS_FEATURE_TTL_SECONDS") (codes "86400"))
        ≡ some feature_ttl_limit
    pub features : All (λ (user, ttl). IsAlive feature_ttl_limit ttl) actual.feature_ttls

  -- The checks pass exactly if, unless only a snapshot is taken, the catalog, if it was asked for,
  -- the twelve numbers of the accounting, the rows of the four tables and the hashes of the carts and
  -- the features are the expected ones; the two limits are numbers; each cart has no key or one that
  -- lives for a positive time within the limit; and so does each feature key. Values of JSON are equal
  -- if they are of one kind and have equal parts, where a Boolean counts as the number 0 or 1.
  pub judge_iff :
      (environment : Text → Option Text) (snapshot_only : Bool) (catalog : Json)
      (expected : Expected) (actual : Gathered)
      → (judge number_eq environment snapshot_only catalog expected actual ≡ ok tt)
        ↔ IsVerified environment snapshot_only catalog expected actual
  unfolding judge
  judge_iff environment snapshot_only catalog expected actual =
      let cart_text = get_or environment (codes "REDIS_CART_TTL_SECONDS") (codes "604800") in
      let feature_text = get_or environment (codes "REDIS_FEATURE_TTL_SECONDS") (codes "86400") in
      let list = sections catalog expected actual in
      let check = >>-ok (if snapshot_only then ok tt else require_all number_eq list) _ in
      let skipped = skipped_if snapshot_only (require_all number_eq list) in
      let all = require_all_iff list in
      let same = sections_iff catalog expected actual in
      let cart = or_raise-ok (int cart_text) (bad_limit (codes "REDIS_CART_TTL_SECONDS")) _ in
      let feature =
        or_raise-ok (int feature_text) (bad_limit (codes "REDIS_FEATURE_TTL_SECONDS")) _ in
      (
        λ h.
            let (compared, h₁) = check.0 h in
            let (limit, reads, h₂) = cart.0 h₁ in
            let (carts, h₃) = (carts_pass limit actual.cart_ttls _).0 h₂ in
            let (feature_limit, feature_reads, h₄) = feature.0 h₃ in
            record {
              compared = λ k. same.0 (all.0 (skipped.0 compared k));
              ttl_limit = limit;
              reads_ttl = reads;
              carts = carts;
              feature_ttl_limit = feature_limit;
              reads_feature_ttl = feature_reads;
              features = (features_pass feature_limit actual.feature_ttls).0 h₄;
            },
        λ v. check.1 (
          skipped.1 (λ k. all.1 (same.1 (v.compared k))),
          cart.1 (
            v.ttl_limit,
            v.reads_ttl,
            (carts_pass v.ttl_limit actual.cart_ttls _).1 (
              v.carts,
              feature.1 (
                v.feature_ttl_limit,
                v.reads_feature_ttl,
                (features_pass v.feature_ttl_limit actual.feature_ttls).1 v.features,
              ),
            ),
          ),
        ),
      )
