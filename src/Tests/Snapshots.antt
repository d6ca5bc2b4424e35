-- ===== src/Tests/Snapshots.antt =====
-- Feature snapshots over the server in memory.
use kafka_flink_click_house.Base.{
  ◌≡◌, All, some, ◌≢◌, ◌⊎◌, inl, inr, refl, sym, true, not, none, Option, List, [], ◌∷◌, Text,
  codes, pos, ◌+ℤ◌, ok, arith,
}
use kafka_flink_click_house.Base.Dict.{Dict}
use kafka_flink_click_house.Text.{strip, str, int}
use kafka_flink_click_house.Redis.{Json, num, text, int_field, str_of}
use kafka_flink_click_house.Redis.Memory.{memory, memory-IsLawful, exact, empty, run_memory}
use kafka_flink_click_house.Features.{
  Snapshot, Counts, apply_feature, apply_feature_snapshot, prepare, write_snapshot, read_counts,
  check_counts, feature_key,
}
use kafka_flink_click_house.Consumer.{iterate}
use kafka_flink_click_house.Consumer.Runs.{System, starts, goes_on, handles}
use kafka_flink_click_house.Features.Topic.{snapshots}
use kafka_flink_click_house.Features.Restarts.{Reaches, Reaches-IsBest}
use kafka_flink_click_house.Features.Snapshots.{IsConsistent, apply_feature_snapshot_guards}
use kafka_flink_click_house.Features.Cells.{
  IsTimed, version_of, Holds, newer, is_stale, apply_feature-newer,
}
use kafka_flink_click_house.Features.Convergence.{
  In, IsBest, SameMembers, IsVersioned, apply_all, apply_all-converges,
}

abbrev counts : Counts
counts = record {
  event_count = pos 3;
  pv_count = pos 2;
  cart_count = pos 1;
  fav_count = pos 0;
  buy_count = pos 0;
  distinct_items = pos 2;
}

abbrev key : Text
key = codes "taobao:features:user:{7}"

abbrev old : Snapshot
old = record {
  user_id = pos 7;
  key = key;
  version = pos 60000;
  feature_id = codes "a";
  window_start = codes "s";
  window_end = codes "e";
  counts = counts;
  ttl_seconds = pos 100;
}

abbrev new : Snapshot
new = record old { version = pos 120000; feature_id = codes "b" }

old-IsTimed : IsTimed old
old-IsTimed = record { number = 60000; version = refl; fits = omega arith; lives = omega arith }

new-IsTimed : IsTimed new
new-IsTimed = record { number = 120000; version = refl; fits = omega arith; lives = omega arith }

no_features : (k : Text) → Holds memory empty k none
unfolding run_memory
no_features k = refl

newer_snapshot :
    Holds memory (apply_feature memory exact new empty).1 key (newer none new)
    × ((apply_feature memory exact new empty).0 ≡ ok (not (is_stale none new)))
    × ((k f : Text)
        → k ≢ key
        → memory.hget (apply_feature memory exact new empty).1 k f ≡ memory.hget empty k f)
newer_snapshot =
    apply_feature-newer memory memory-IsLawful exact none new empty tt new-IsTimed (no_features key)

abbrev in_order : List Snapshot
in_order = old ∷ new ∷ []

-- The older snapshot comes late, and again.
abbrev late : List Snapshot
late = new ∷ old ∷ old ∷ []

same_snapshots : SameMembers in_order late
same_snapshots p = (
  λ i. elim i [ inl o ↦ inr (inl o) | inr (inl n) ↦ inl n | inr (inr x) ↦ absurd x ],
  λ i. elim i [
    | inl n ↦ inr (inl n)
    | inr (inl o) ↦ inl o
    | inr (inr (inl o)) ↦ inl o
    | inr (inr (inr x)) ↦ absurd x
  ],
)

versions_differ : version_of old ≢ version_of new
versions_differ h = omega arith

in_order-IsVersioned : IsVersioned in_order
in_order-IsVersioned p q (inl a) (inl b) k v = cc
in_order-IsVersioned p q (inl a) (inr (inl b)) k v = absurd (versions_differ (rw (a, b) at v))
in_order-IsVersioned p q (inr (inl a)) (inl b) k v = absurd (versions_differ (sym (rw (a, b) at v)))
in_order-IsVersioned p q (inr (inl a)) (inr (inl b)) k v = cc
in_order-IsVersioned p q (inr (inr a)) b k v = absurd a
in_order-IsVersioned p q (inl a) (inr (inr b)) k v = absurd b
in_order-IsVersioned p q (inr (inl a)) (inr (inr b)) k v = absurd b

apply_all-converges_example :
    (c : Option Snapshot) × IsBest key (λ p. In p in_order) c
    × Holds memory (apply_all memory memory-IsLawful exact empty in_order) key c
    × Holds memory (apply_all memory memory-IsLawful exact empty late) key c
apply_all-converges_example =
    apply_all-converges memory memory-IsLawful exact in_order late empty key same_snapshots
      in_order-IsVersioned (old-IsTimed, (new-IsTimed, tt))
      (new-IsTimed, (old-IsTimed, (old-IsTimed, tt))) no_features

abbrev message : Dict Text Json
message =
    (codes "user_id", num (pos 7))
    ∷ (codes "feature_version", num (pos 60000))
    ∷ (codes "feature_id", text (codes " a "))
    ∷ (codes "window_start", text (codes "s"))
    ∷ (codes "window_end", text (codes "e"))
    ∷ (codes "event_count", num (pos 3))
    ∷ (codes "pv_count", num (pos 2))
    ∷ (codes "cart_count", text (codes "1"))
    ∷ (codes "fav_count", num (pos 0))
    ∷ (codes "buy_count", num (pos 0))
    ∷ (codes "distinct_items", num (pos 2))
    ∷ []

written_snapshot :
    apply_feature_snapshot memory exact message (pos 100) empty
    ≡ (ok true, write_snapshot memory old empty)
unfolding apply_feature_snapshot prepare run_memory strip str int_field str_of read_counts int
    check_counts ◌+ℤ◌ feature_key
written_snapshot = refl

apply_feature_snapshot_guards_example :
    ((apply_feature_snapshot memory exact message (pos 100) empty).0 ≢ ok true)
      × ((apply_feature_snapshot memory exact message (pos 100) empty).1 ≡ empty)
    ⊎ ((p : Snapshot) × IsConsistent p
        × (prepare message (pos 100) ≡ ok p)
        × ((apply_feature_snapshot memory exact message (pos 100) empty).0 ≡ ok true)
        × ((apply_feature_snapshot memory exact message (pos 100) empty).1
            ≡ write_snapshot memory p empty))
apply_feature_snapshot_guards_example =
    apply_feature_snapshot_guards memory exact message (pos 100) empty

-- A topic of a tombstone and one message, read to its end.
abbrev loads : Text → Option (Dict Text Json)
loads value = some message

abbrev topic : List (Option Text)
topic = none ∷ some (codes "m") ∷ []

abbrev finished : System memory.State
finished = record {
  process = record { store = write_snapshot memory old empty; committed = 2 };
  seen = topic;
  rest = [];
}

finished-Reaches : Reaches memory memory-IsLawful exact loads (pos 100) empty topic finished
unfolding iterate apply_feature_snapshot prepare run_memory strip str int_field str_of read_counts
    int check_counts ◌+ℤ◌ feature_key
finished-Reaches =
    goes_on (goes_on starts (handles none (some (codes "m") ∷ []) refl refl))
      (handles (some (codes "m")) [] refl refl)

topic-IsTimed : All IsTimed (snapshots loads (pos 100) topic)
unfolding prepare strip str int_field str_of read_counts int check_counts ◌+ℤ◌ feature_key
    run_memory
topic-IsTimed = (old-IsTimed, tt)

Reaches-IsBest_example :
    (c : Option Snapshot) × IsBest key (λ p. In p (snapshots loads (pos 100) topic)) c
    × Holds memory (write_snapshot memory old empty) key c
Reaches-IsBest_example =
    Reaches-IsBest memory memory-IsLawful exact loads (pos 100) empty topic finished key
      topic-IsTimed no_features finished-Reaches refl
