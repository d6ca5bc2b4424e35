-- ===== src/Features/Cells.antt =====
-- What Redis holds of each user is the snapshot of the greatest version, in whatever order and
-- however often the snapshots arrive.
use kafka_flink_click_house.Base.{
  and_iff, not-true, ℕ, ◌<◌, ◌^◌, ◌≡◌, ◌≢◌, refl, sym, ap, subst, ◌∙◌, true, false, not, ◌&&◌, Bool,
  Option, none, some, [], ◌∷◌, Text, codes, ◌==◌, nat_eq, list_eq, eq_self, beq_of_ne, leb,
  if◌then◌else◌, pos, negsuc, ◌≤ℤ◌, ok, Bool-cases, inl, inr,
}
use kafka_flink_click_house.Base.Dict.{Dict}
use kafka_flink_click_house.Text.{str}
use kafka_flink_click_house.Redis.{Redis, IsLawful, Lua}
use kafka_flink_click_house.Features.{
  Snapshot, hash_of, hset_all, write_snapshot, finish, is_current, apply_feature,
}

-- The version of a snapshot, a number of milliseconds, fits a double.
pub record IsTimed (p : Snapshot) : Type 0 where
  pub number : ℕ
  pub version : p.version ≡ pos number
  pub fits : number < 2 ^ 53
  pub lives : pos 1 ≤ℤ p.ttl_seconds

abbrev pub version_of : Snapshot → ℕ
version_of p = elim p.version [ pos n ↦ n | negsuc n ↦ 0 ]

-- Whether a cell has a version that is at least that of the snapshot.
abbrev pub is_stale : Option Snapshot → Snapshot → Bool
is_stale none p = false
is_stale (some q) p = leb (version_of p) (version_of q)

-- The specification: a cell that takes a snapshot only if its version is greater.
abbrev pub newer : Option Snapshot → Snapshot → Option Snapshot
newer c p = if is_stale c p then c else some p

-- A name that a dict does not have, and a dict with no name twice.
abbrev is_absent : Text → Dict Text Text → Bool
is_absent f [] = true
is_absent f ((g, v) ∷ d) = not (f == g) && is_absent f d

abbrev is_distinct : Dict Text Text → Bool
is_distinct [] = true
is_distinct ((f, v) ∷ d) = is_absent f d && is_distinct d

hash_of-distinct : (p : Snapshot) → is_distinct (hash_of p) ≡ true
unfolding hash_of
hash_of-distinct p = refl

module _ (R : Redis) where
  -- Under a key the server has the fields of a dict.
  abbrev pub HasFields : R.State → Text → Dict Text Text → Type 0
  HasFields s k [] = Unit
  HasFields s k ((f, v) ∷ d) = (R.hget s k f ≡ some v) × HasFields s k d

  -- What the server holds under a key: nothing, or the fields of a snapshot.
  abbrev pub Holds : R.State → Text → Option Snapshot → Type 0
  Holds s k none = R.hget s k (codes "feature_version") ≡ none
  Holds s k (some p) = HasFields s k (hash_of p)

module _ (R : Redis) (laws : IsLawful R) where
  hget-hset_all_ne :
      (d : Dict Text Text) (s : R.State) (key k f : Text)
      → k ≢ key
      → R.hget (hset_all R s key d) k f ≡ R.hget s k f
  unfolding hset_all
  hget-hset_all_ne [] s key k f h = refl
  hget-hset_all_ne ((g, v) ∷ d) s key k f h =
      hget-hset_all_ne d (R.hset s key g v) key k f h
      ∙ laws.hget-hset s key g v k f
      ∙ rw (beq_of_ne k key h)

  hget-hset_all_absent :
      (d : Dict Text Text) (s : R.State) (k f : Text)
      → is_absent f d ≡ true
      → R.hget (hset_all R s k d) k f ≡ R.hget s k f
  unfolding hset_all
  hget-hset_all_absent [] s k f h = refl
  hget-hset_all_absent ((g, v) ∷ d) s k f h =
      let (differs, rest) = (and_iff (not (f == g)) (is_absent f d)).0 h in
      hget-hset_all_absent d (R.hset s k g v) k f rest
      ∙ laws.hget-hset s k g v k f
      ∙ rw (not-true (f == g) differs, eq_self k)

  hset_all-HasFields :
      (d : Dict Text Text) (s : R.State) (k : Text)
      → is_distinct d ≡ true
      → HasFields R (hset_all R s k d) k d
  unfolding hset_all
  hset_all-HasFields [] s k h = tt
  hset_all-HasFields ((f, v) ∷ d) s k h =
      let (absent, rest) = (and_iff (is_absent f d) (is_distinct d)).0 h in
      (
        hget-hset_all_absent d (R.hset s k f v) k f absent
            ∙ laws.hget-hset s k f v k f
            ∙ rw (eq_self k, eq_self f),
        hset_all-HasFields d (R.hset s k f v) k rest,
      )

  HasFields-same :
      (d : Dict Text Text) (s t : R.State) (k : Text)
      → ((f : Text) → R.hget t k f ≡ R.hget s k f)
      → HasFields R s k d
      → HasFields R t k d
  HasFields-same [] s t k same h = tt
  HasFields-same ((f, v) ∷ d) s t k same h = (same f ∙ h.0, HasFields-same d s t k same h.1)

  pub Holds-same :
      (c : Option Snapshot) (s t : R.State) (k : Text)
      → ((f : Text) → R.hget t k f ≡ R.hget s k f)
      → Holds R s k c
      → Holds R t k c
  Holds-same none s t k same h = same _ ∙ h
  Holds-same (some p) s t k same h = HasFields-same (hash_of p) s t k same h

  write_snapshot-Holds :
      (p : Snapshot) (s : R.State)
      → pos 1 ≤ℤ p.ttl_seconds
      → Holds R (write_snapshot R p s) p.key (some p)
  unfolding write_snapshot
  write_snapshot-Holds p s lives =
      let written = hset_all R s p.key (hash_of p) in
      HasFields-same (hash_of p) written (R.expire written p.key p.ttl_seconds) p.key
        (λ f. laws.hget-expire written p.key p.ttl_seconds p.key f lives)
        (hset_all-HasFields (hash_of p) s p.key (hash_of-distinct p))

  write_snapshot-other :
      (p : Snapshot) (s : R.State) (k f : Text)
      → pos 1 ≤ℤ p.ttl_seconds
      → k ≢ p.key
      → R.hget (write_snapshot R p s) k f ≡ R.hget s k f
  unfolding write_snapshot
  write_snapshot-other p s k f lives h =
      laws.hget-expire _ p.key p.ttl_seconds k f lives ∙ hget-hset_all_ne (hash_of p) s p.key k f h

-- The cell of a key holds a snapshot whose version fits a double.
abbrev pub IsTimedCell : Option Snapshot → Type 0
IsTimedCell none = Unit
IsTimedCell (some p) = IsTimed p

pub newer-IsTimedCell :
    (c : Option Snapshot) (p : Snapshot) → IsTimedCell c → IsTimed p → IsTimedCell (newer c p)
newer-IsTimedCell none p hc hp = hp
newer-IsTimedCell (some q) p hc hp = elim (Bool-cases (leb (version_of p) (version_of q))) [
  | inl e ↦ rw e hc
  | inr e ↦ rw e hp
]

module _ (R : Redis) (laws : IsLawful R) (L : Lua) where
  is_current-stored :
      (q p : Snapshot)
      → IsTimed q
      → IsTimed p
      → is_current R L (some (str q.version)) (str p.version)
        ≡ some (leb (version_of p) (version_of q))
  unfolding is_current str
  is_current-stored q p tq tp =
      rw (tq.version, tp.version) (L.number_ge-str_nat tq.number tp.number tq.fits tp.fits)

  -- The script's test tells whether the cell's version is at least the snapshot's.
  apply_feature_lem :
      (c : Option Snapshot) (p : Snapshot) (s : R.State)
      → IsTimedCell c
      → IsTimed p
      → Holds R s p.key c
      → apply_feature R L p s ≡ finish R L (some (is_stale c p)) p s
  unfolding apply_feature hash_of
  apply_feature_lem none p s tc tp h =
      ap (λ o. finish R L o p s) (ap (λ v. is_current R L v (str p.version)) h ∙ none_current p)
    where
      none_current : (p : Snapshot) → is_current R L none (str p.version) ≡ some false
      none_current p = refl
  apply_feature_lem (some q) p s tc tp h =
      ap (λ o. finish R L o p s)
        (ap (λ v. is_current R L v (str p.version)) h.0 ∙ is_current-stored q p tc tp)

  finish-newer :
      (c : Option Snapshot) (p : Snapshot) (s : R.State) (stale : Bool)
      → IsTimed p
      → Holds R s p.key c
      → Holds R (finish R L (some stale) p s).1 p.key (if stale then c else some p)
  unfolding finish
  finish-newer c p s true tp h = h
  finish-newer c p s false tp h = write_snapshot-Holds R laws p s tp.lives

  finish-other :
      (p : Snapshot) (s : R.State) (stale : Bool) (k f : Text)
      → IsTimed p
      → k ≢ p.key
      → R.hget (finish R L (some stale) p s).1 k f ≡ R.hget s k f
  unfolding finish
  finish-other p s true k f tp h = refl
  finish-other p s false k f tp h = write_snapshot-other R laws p s k f tp.lives h

  finish-answer :
      (p : Snapshot) (s : R.State) (stale : Bool) → (finish R L (some stale) p s).0 ≡ ok (not stale)
  unfolding finish
  finish-answer p s true = refl
  finish-answer p s false = refl

  -- A call of the script that finds a snapshot `c` of the key, or none, leaves there the newer of
  -- it and the argument, the old one if the versions are equal. It answers whether it wrote, and
  -- changes no field of any other key. The versions are not negative and below 2^53, the time to live is positive.
  pub apply_feature-newer :
      (c : Option Snapshot) (p : Snapshot) (s : R.State)
      → IsTimedCell c
      → IsTimed p
      → Holds R s p.key c
      → Holds R (apply_feature R L p s).1 p.key (newer c p)
        × ((apply_feature R L p s).0 ≡ ok (not (is_stale c p)))
        × ((k f : Text) → k ≢ p.key → R.hget (apply_feature R L p s).1 k f ≡ R.hget s k f)
  apply_feature-newer c p s tc tp h =
      let e = apply_feature_lem c p s tc tp h in
      (
        subst (λ r. Holds R r.1 p.key (newer c p)) (sym e) (finish-newer c p s (is_stale c p) tp h),
        ap (λ r. r.0) e ∙ finish-answer p s (is_stale c p),
        λ k f other. ap (λ r. R.hget r.1 k f) e ∙ finish-other p s (is_stale c p) k f tp other,
      )
