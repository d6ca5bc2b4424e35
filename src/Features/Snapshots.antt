-- ===== src/Features/Snapshots.antt =====
-- What the guards of `apply_feature_snapshot` let through to Redis.
use kafka_flink_click_house.Base.{
  ◌≡◌, ◌≢◌, refl, sym, ap, ◌∙◌, true, false, ◌||◌, Bool, Option, none, some, [], ◌∷◌, ◌++◌, Text,
  codes, int_eq, arith, ℤ, pos, ltb_ℤ, ◌≤ℤ◌, Result, ok, err, Result-cases, ◌⊎◌, inl, inr,
}
use kafka_flink_click_house.Base.Int.{int_beq_iff}
use kafka_flink_click_house.Base.Dict.{Dict}
use kafka_flink_click_house.Text.{str, strip}
use kafka_flink_click_house.Text.Strip.{strip_idem}
use kafka_flink_click_house.Redis.{Redis, Lua, Json, field, str_of}
use kafka_flink_click_house.Features.{
  SnapshotError, feature_key, Counts, behavior_total, blank, check_counts, Snapshot, write_snapshot,
  finish, apply_feature, is_current, prepare, apply_prepared, apply_feature_snapshot,
}

-- The key of a user.
abbrev pub key_of : ℤ → Text
key_of user_id = codes "taobao:features:user:{" ++ (str user_id ++ codes "}")

-- The counts of one window.
pub record IsBalanced (c : Counts) : Type 0 where
  pub events : pos 0 ≤ℤ c.event_count
  pub pvs : pos 0 ≤ℤ c.pv_count
  pub carts : pos 0 ≤ℤ c.cart_count
  pub favs : pos 0 ≤ℤ c.fav_count
  pub buys : pos 0 ≤ℤ c.buy_count
  pub items : pos 0 ≤ℤ c.distinct_items
  pub total : c.event_count ≡ behavior_total c
  pub bounded : c.distinct_items ≤ℤ c.event_count

pub record IsConsistent (p : Snapshot) : Type 0 where
  pub lives : pos 1 ≤ℤ p.ttl_seconds
  pub user : pos 1 ≤ℤ p.user_id
  pub version : pos 1 ≤ℤ p.version
  pub key : p.key ≡ key_of p.user_id
  pub named : p.feature_id ≢ []
  pub stripped : strip p.feature_id ≡ p.feature_id
  pub balanced : IsBalanced p.counts

or-eq-false : (a b : Bool) → (a || b) ≡ false → (a ≡ false) × (b ≡ false)
or-eq-false a b h = ground arith

ltb_ℤ-le : (a b : ℤ) → ltb_ℤ a b ≡ false → b ≤ℤ a
ltb_ℤ-le a b h = ground arith

check_counts-IsBalanced : (c : Counts) → check_counts c ≡ ok tt → IsBalanced c
unfolding check_counts
check_counts-IsBalanced c h = record {
  events = ground arith;
  pvs = ground arith;
  carts = ground arith;
  favs = ground arith;
  buys = ground arith;
  items = ground arith;
  total = (int_beq_iff c.event_count (behavior_total c)).0 (ground arith);
  bounded = ground arith;
}

feature_key_lem :
    (user_id : ℤ) (key : Text)
    → feature_key user_id ≡ ok key
    → (pos 1 ≤ℤ user_id) × (key ≡ key_of user_id)
unfolding feature_key
feature_key_lem user_id key h = ground arith

blank-eq-false : (s : Text) → blank s ≡ false → s ≢ []
blank-eq-false [] h = cc
blank-eq-false (c ∷ s) h = λ e. cc

pub prepare-IsConsistent :
    (snapshot : Dict Text Json) (ttl_seconds : ℤ) (p : Snapshot)
    → prepare snapshot ttl_seconds ≡ ok p
    → IsConsistent p
unfolding prepare
prepare-IsConsistent snapshot ttl_seconds p h = record {
  lives = ground arith;
  user = ground (arith, feature_key_lem p.user_id p.key);
  version = ground arith;
  key = ground (arith, feature_key_lem p.user_id p.key);
  named = blank-eq-false p.feature_id (ground arith);
  stripped = elim (Result-cases (field snapshot (codes "feature_id"))) [
    | inl (v, e) ↦
        let read : p.feature_id ≡ strip (str_of v) = ground arith in
        ap strip read ∙ strip_idem (str_of v) ∙ sym read
    | inr (x, e) ↦ absurd (ground arith)
  ];
  balanced = check_counts-IsBalanced p.counts (ground arith);
}

module _ (R : Redis) (L : Lua) where
  Guarded : Result SnapshotError Snapshot → Result SnapshotError Bool × R.State → R.State → Type 0
  Guarded prepared r s =
      ((r.0 ≢ ok true) × (r.1 ≡ s))
      ⊎ ((p : Snapshot) × (prepared ≡ ok p) × (r.0 ≡ ok true) × (r.1 ≡ write_snapshot R p s))

  finish-Guarded :
      (o : Option Bool) (p : Snapshot) (s : R.State) → Guarded (ok p) (finish R L o p s) s
  unfolding finish Guarded
  finish-Guarded none p s = inl (λ h. cc, refl)
  finish-Guarded (some true) p s = inl (λ h. cc, refl)
  finish-Guarded (some false) p s = inr (p, refl, refl, refl)

  apply_prepared-Guarded :
      (r : Result SnapshotError Snapshot) (s : R.State) → Guarded r (apply_prepared R L r s) s
  unfolding apply_prepared apply_feature
  apply_prepared-Guarded (err e) s = unfold Guarded in inl (λ h. cc, refl)
  apply_prepared-Guarded (ok p) s =
      finish-Guarded (is_current R L (R.hget s p.key (codes "feature_version")) (str p.version)) p s

  -- A message that is not answered with `True`, for whatever reason, changes nothing. One that is
  -- so answered passed every guard: the ten fields of a consistent snapshot are written under its
  -- user's key, and the key's time to live is set.
  pub apply_feature_snapshot_guards :
      (snapshot : Dict Text Json) (ttl_seconds : ℤ) (s : R.State)
      → ((apply_feature_snapshot R L snapshot ttl_seconds s).0 ≢ ok true)
          × ((apply_feature_snapshot R L snapshot ttl_seconds s).1 ≡ s)
        ⊎ ((p : Snapshot) × IsConsistent p
            × (prepare snapshot ttl_seconds ≡ ok p)
            × ((apply_feature_snapshot R L snapshot ttl_seconds s).0 ≡ ok true)
            × ((apply_feature_snapshot R L snapshot ttl_seconds s).1 ≡ write_snapshot R p s))
  unfolding apply_feature_snapshot Guarded
  apply_feature_snapshot_guards snapshot ttl_seconds s =
      elim (apply_prepared-Guarded (prepare snapshot ttl_seconds) s) [
        | inl h ↦ inl h
        | inr (p, e, answer, written) ↦
            inr (p, prepare-IsConsistent snapshot ttl_seconds p e, e, answer, written)
      ]
