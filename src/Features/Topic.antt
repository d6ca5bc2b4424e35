-- ===== src/Features/Topic.antt =====
-- The snapshots of the messages of a topic.
use kafka_flink_click_house.Base.{
  ◌≡◌, refl, sym, ap, ◌∙◌, subst, ◌⊎◌, inl, inr, Option, none, some, List, [], ◌∷◌, ◌++◌, Text,
  ◌==◌, nat_eq, list_eq, if◌then◌else◌, ℤ, Result, ok, err, All,
}
use kafka_flink_click_house.Base.Dict.{Dict}
use kafka_flink_click_house.Redis.{Json}
use kafka_flink_click_house.Features.{Snapshot, SnapshotError, prepare}
use kafka_flink_click_house.Features.Cells.{IsTimed, newer}
use kafka_flink_click_house.Features.Convergence.{In, cell_after}

abbrev pub kept : Result SnapshotError Snapshot → Option Snapshot
kept (ok p) = some p
kept (err e) = none

module _ (loads : Text → Option (Dict Text Json)) (ttl_seconds : ℤ) where
  abbrev pub snapshot_in : Option (Dict Text Json) → Option Snapshot
  snapshot_in none = none
  snapshot_in (some message) = kept (prepare message ttl_seconds)

  -- The snapshot of a message that passes the guards.
  abbrev pub snapshot_of : Option Text → Option Snapshot
  snapshot_of none = none
  snapshot_of (some value) = snapshot_in (loads value)

  abbrev pub keep : Option Snapshot → List Snapshot → List Snapshot
  keep none ps = ps
  keep (some p) ps = p ∷ ps

  abbrev pub snapshots : List (Option Text) → List Snapshot
  snapshots [] = []
  snapshots (message ∷ topic) = keep (snapshot_of message) (snapshots topic)

  keep-append : (o : Option Snapshot) (ps qs : List Snapshot) → keep o (ps ++ qs) ≡ keep o ps ++ qs
  keep-append none ps qs = refl
  keep-append (some p) ps qs = refl

  pub snapshots-append :
      (xs ys : List (Option Text)) → snapshots (xs ++ ys) ≡ snapshots xs ++ snapshots ys
  snapshots-append [] ys = refl
  snapshots-append (x ∷ xs) ys =
      ap (keep (snapshot_of x)) (snapshots-append xs ys)
      ∙ keep-append (snapshot_of x) (snapshots xs) (snapshots ys)

pub In-left : (p : Snapshot) (xs ys : List Snapshot) → In p xs → In p (xs ++ ys)
In-left p [] ys i = absurd i
In-left p (x ∷ xs) ys (inl e) = inl e
In-left p (x ∷ xs) ys (inr i) = inr (In-left p xs ys i)

pub In-right : (p : Snapshot) (xs ys : List Snapshot) → In p ys → In p (xs ++ ys)
In-right p [] ys i = i
In-right p (x ∷ xs) ys i = inr (In-right p xs ys i)

pub In-append : (p : Snapshot) (xs ys : List Snapshot) → In p (xs ++ ys) → In p xs ⊎ In p ys
In-append p [] ys i = inr i
In-append p (x ∷ xs) ys (inl e) = inl (inl e)
In-append p (x ∷ xs) ys (inr i) = elim (In-append p xs ys i) [ inl j ↦ inl (inr j) | inr j ↦ inr j ]

pub All-In : (p : Snapshot) (ps : List Snapshot) → All IsTimed ps → In p ps → IsTimed p
All-In p [] h i = absurd i
All-In p (q ∷ ps) h (inl e) = subst IsTimed (sym e) h.0
All-In p (q ∷ ps) h (inr i) = All-In p ps h.1 i

pub cell_after-append :
    (k : Text) (ps qs : List Snapshot) (c : Option Snapshot)
    → cell_after k c (ps ++ qs) ≡ cell_after k (cell_after k c ps) qs
cell_after-append k [] qs c = refl
cell_after-append k (p ∷ ps) qs c = cell_after-append k ps qs (if k == p.key then newer c p else c)
