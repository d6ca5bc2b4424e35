-- ===== src/Features/Restarts.antt =====
-- The feature materializer with restarts, `main` in redis_features.py: the topic decides what Redis
-- holds, and the messages that come again do no harm.
use kafka_flink_click_house.Base.{
  ◌≡◌, refl, sym, ap, ◌∙◌, subst, true, Bool, inl, inr, Option, none, some, List, [], ◌∷◌, ◌++◌,
  Text, nat_eq, list_eq, ℤ, Result, ok, err, length, All, ℕ, append-nil,
}
use kafka_flink_click_house.Base.Dict.{Dict}
use kafka_flink_click_house.Redis.{Redis, IsLawful, Lua, Json}
use kafka_flink_click_house.Consumer.{
  Process, ConsumerError, commit, applied, write_message, write, then_commit, iterate, received,
}
use kafka_flink_click_house.Consumer.Runs.{
  System, Step, waits, handles, stops, restarts, Reach, starts, goes_on,
}
use kafka_flink_click_house.Consumer.Progress.{Reach-IsOn}
use kafka_flink_click_house.Features.{
  Snapshot, SnapshotError, prepare, apply_feature, apply_prepared, apply_feature_snapshot,
}
use kafka_flink_click_house.Features.Cells.{IsTimed, IsTimedCell, Holds}
use kafka_flink_click_house.Features.Convergence.{
  In, cell_after, IsBest, IsBest-iff, from_start, Refines, absorb-Refines,
}
use kafka_flink_click_house.Features.Topic.{
  kept, snapshot_in, snapshot_of, keep, snapshots, snapshots-append, In-left, In-right, In-append,
  All-In, cell_after-append,
}

module _ (R : Redis) (laws : IsLawful R) (L : Lua) (loads : Text → Option (Dict Text Json))
    (ttl_seconds : ℤ) (store : R.State) where
  abbrev apply : Dict Text Json → R.State → Result SnapshotError Bool × R.State
  apply message s = apply_feature_snapshot R L message ttl_seconds s

  abbrev Moves : System R.State → System R.State → Type 0
  Moves = Step SnapshotError R.State Bool loads apply true

  -- The states of the materializer of a topic, which commits tombstones too.
  abbrev pub Reaches : List (Option Text) → System R.State → Type 0
  Reaches = Reach SnapshotError R.State Bool loads apply true store

  abbrev stored : Option Snapshot → R.State → R.State
  stored none s = s
  stored (some p) s = (apply_feature R L p s).1

  applied-store :
      (r : Result SnapshotError Bool × R.State)
      → (applied SnapshotError R.State Bool loads apply r).1 ≡ r.1
  applied-store (ok b, s) = refl
  applied-store (err e, s) = refl

  apply_prepared-store :
      (r : Result SnapshotError Snapshot) (s : R.State)
      → (apply_prepared R L r s).1 ≡ stored (kept r) s
  unfolding apply_prepared
  apply_prepared-store (ok p) s = refl
  apply_prepared-store (err e) s = refl

  abbrev written : Text → R.State → Result (ConsumerError SnapshotError) (Unit {0}) × R.State
  written = write SnapshotError R.State Bool loads apply

  write_message-store :
      (o : Option (Dict Text Json)) (s : R.State)
      → (write_message SnapshotError R.State Bool loads apply o s).1
        ≡ stored (snapshot_in loads ttl_seconds o) s
  unfolding apply_feature_snapshot
  write_message-store none s = refl
  write_message-store (some message) s =
      applied-store (apply_feature_snapshot R L message ttl_seconds s)
      ∙ apply_prepared-store (prepare message ttl_seconds) s

  write-store :
      (value : Text) (s : R.State)
      → (written value s).1 ≡ stored (snapshot_of loads ttl_seconds (some value)) s
  unfolding write
  write-store value s = write_message-store (loads value) s

  then_commit-store :
      (offset : ℕ) (r : Result (ConsumerError SnapshotError) (Unit {0}) × R.State)
      (p : Process R.State)
      → (then_commit SnapshotError R.State Bool loads apply offset r p).1.store ≡ r.1
  unfolding commit
  then_commit-store offset (ok _, s) p = refl
  then_commit-store offset (err e, s) p = refl

  iterate-store :
      (offset : ℕ) (message : Option Text) (p : Process R.State)
      → (iterate SnapshotError R.State Bool loads apply true (received offset message) p).1.store
        ≡ stored (snapshot_of loads ttl_seconds message) p.store
  unfolding iterate commit
  iterate-store offset none p = refl
  iterate-store offset (some value) p =
      then_commit-store offset (written value p.store) p ∙ write-store value p.store

  -- The server holds what some snapshots of the topic make of it, among them all that are seen.
  record IsFed (topic seen : List (Option Text)) (s : R.State) : Type 0 where
    delivered : List Snapshot
    refines : Refines R laws L s (λ k. cell_after k none delivered)
    covers : (p : Snapshot) → In p (snapshots loads ttl_seconds seen) → In p delivered
    drawn : (p : Snapshot) → In p delivered → In p (snapshots loads ttl_seconds topic)

  Refines-same :
      (s : R.State) (t u : Text → Option Snapshot)
      → ((k : Text) → t k ≡ u k)
      → Refines R laws L s t
      → Refines R laws L s u
  unfolding Refines
  Refines-same s t u e h k = subst (λ c. Holds R s k c × IsTimedCell c) (e k) (h k)

  In-seen :
      (xs ys : List (Option Text)) (p : Snapshot)
      → In p (snapshots loads ttl_seconds xs)
      → In p (snapshots loads ttl_seconds (xs ++ ys))
  In-seen xs ys p i =
      subst (In p) (sym (snapshots-append loads ttl_seconds xs ys))
        (In-left p (snapshots loads ttl_seconds xs) (snapshots loads ttl_seconds ys) i)

  Refines-append :
      (ps : List Snapshot) (o : Option Snapshot) (s : R.State)
      → ((p : Snapshot) → o ≡ some p → IsTimed p)
      → Refines R laws L s (λ k. cell_after k none ps)
      → Refines R laws L (stored o s) (λ k. cell_after k none (ps ++ keep loads ttl_seconds o []))
  Refines-append ps none s timed h =
      Refines-same s _ _ (λ k. sym (cell_after-append k ps [] none)) h
  Refines-append ps (some p) s timed h =
      Refines-same (apply_feature R L p s).1 _ _ (λ k. sym (cell_after-append k ps (p ∷ []) none))
        (absorb-Refines R laws L (λ k. cell_after k none ps) p s (timed p refl) h)

  -- What a message adds to them.
  IsFed-next :
      (topic seen rest : List (Option Text)) (message : Option Text) (s : R.State)
      → All IsTimed (snapshots loads ttl_seconds topic)
      → seen ++ (message ∷ rest) ≡ topic
      → IsFed topic seen s
      → IsFed topic (seen ++ (message ∷ [])) (stored (snapshot_of loads ttl_seconds message) s)
  IsFed-next topic seen rest message s timed whole h =
      let o = snapshot_of loads ttl_seconds message in
      let news = keep loads ttl_seconds o [] in
      record {
        delivered = h.delivered ++ news;
        refines =
            Refines-append h.delivered o s
              (λ p e.
                All-In p _ timed
                  (in_topic p (subst (λ x. In p (keep loads ttl_seconds x [])) (sym e) (inl refl))))
              h.refines;
        covers = λ p i.
            elim (In-append p (snapshots loads ttl_seconds seen) news
              (subst (In p) (snapshots-append loads ttl_seconds seen (message ∷ [])) i)) [
                | inl old ↦ In-left p h.delivered news (h.covers p old)
                | inr new ↦ In-right p h.delivered news new
              ];
        drawn = λ p i. elim (In-append p h.delivered news i) [
          | inl old ↦ h.drawn p old
          | inr new ↦ in_topic p new
        ];
      }
    where
      in_topic :
          (p : Snapshot)
          → In p (keep loads ttl_seconds (snapshot_of loads ttl_seconds message) [])
          → In p (snapshots loads ttl_seconds topic)
      in_topic p i =
          subst (λ l. In p (snapshots loads ttl_seconds l)) whole
            (subst (In p) (sym (snapshots-append loads ttl_seconds seen (message ∷ rest))) (
              In-right p (snapshots loads ttl_seconds seen) _ (
                subst (In p) (sym (snapshots-append loads ttl_seconds (message ∷ []) rest))
                  (In-left p _ (snapshots loads ttl_seconds rest) i))))

  Moves-IsFed :
      (topic : List (Option Text)) (s t : System R.State)
      → All IsTimed (snapshots loads ttl_seconds topic)
      → s.seen ++ s.rest ≡ topic
      → Moves s t
      → IsFed topic s.seen s.process.store
      → IsFed topic t.seen t.process.store
  unfolding iterate
  Moves-IsFed topic s t timed whole waits h = h
  Moves-IsFed topic s t timed whole (handles message rest e fine) h =
      subst (IsFed topic (s.seen ++ (message ∷ [])))
        (sym (iterate-store (length s.seen) message s.process))
        (IsFed-next topic s.seen rest message s.process.store timed
          (sym (ap (λ l. s.seen ++ l) e) ∙ whole) h)
  Moves-IsFed topic s t timed whole (stops value rest e fine) h =
      let next =
        IsFed-next topic s.seen rest (some value) s.process.store timed
          (sym (ap (λ l. s.seen ++ l) e) ∙ whole) h in
      subst (IsFed topic s.seen) (sym (write-store value s.process.store)) (record {
        delivered = next.delivered;
        refines = next.refines;
        covers = λ p i. next.covers p (In-seen s.seen (some value ∷ []) p i);
        drawn = next.drawn;
      })
  Moves-IsFed topic s t timed whole (restarts seen again e k) h = record {
    delivered = h.delivered;
    refines = h.refines;
    covers = λ p i.
        h.covers p
          (subst (λ l. In p (snapshots loads ttl_seconds l)) (sym e) (In-seen seen again p i));
    drawn = h.drawn;
  }

  Reaches-IsFed :
      (topic : List (Option Text)) (t : System R.State)
      → All IsTimed (snapshots loads ttl_seconds topic)
      → ((k : Text) → Holds R store k none)
      → Reaches topic t
      → IsFed topic t.seen t.process.store
  unfolding Refines
  Reaches-IsFed topic t timed start starts = record {
    delivered = [];
    refines = λ k. (start k, tt);
    covers = λ p i. i;
    drawn = λ p i. absurd i;
  }
  Reaches-IsFed topic t timed start (goes_on {s} r step) =
      Moves-IsFed topic s t timed
        (Reach-IsOn SnapshotError R.State Bool loads apply true store topic s r).whole step
        (Reaches-IsFed topic s timed start r)

  -- Whenever the materializer has caught up with its topic, however often it stopped between a write
  -- and its commit and was started again at an offset it had committed, Redis holds under every key
  -- the snapshot of the greatest version that the topic has for it, or none if it has none. The
  -- server starts with no features, and the versions of the snapshots that pass the guards are
  -- below 2^53, and no key expires on the way.
  pub Reaches-IsBest :
      (topic : List (Option Text)) (t : System R.State) (k : Text)
      → All IsTimed (snapshots loads ttl_seconds topic)
      → ((j : Text) → Holds R store j none)
      → Reaches topic t
      → t.rest ≡ []
      → (c : Option Snapshot) × IsBest k (λ p. In p (snapshots loads ttl_seconds topic)) c
        × Holds R t.process.store k c
  unfolding Refines
  Reaches-IsBest topic t k timed start r caught_up =
      let h = Reaches-IsFed topic t timed start r in
      let on = Reach-IsOn SnapshotError R.State Bool loads apply true store topic t r in
      let whole = sym (append-nil t.seen) ∙ ap (λ l. t.seen ++ l) (sym caught_up) ∙ on.whole in
      (
        cell_after k none h.delivered,
        IsBest-iff k (λ p. In p h.delivered) (λ p. In p (snapshots loads ttl_seconds topic)) _
            h.drawn
            (λ p i. h.covers p (subst (λ l. In p (snapshots loads ttl_seconds l)) (sym whole) i))
            (from_start k h.delivered),
        (h.refines k).0,
      )
