-- ===== src/Features/Convergence.antt =====
-- Delivery of the snapshot topic at least once and in any order: Redis converges to the greatest
-- version of each user.
use kafka_flink_click_house.Base.{
  ℕ, ◌≤◌, ◌≡◌, ◌≢◌, ◌↔◌, ◌⊎◌, inl, inr, refl, sym, ap, ◌∙◌, subst, true, false, Bool, Bool-cases,
  Option, none, some, List, [], ◌∷◌, Text, ◌==◌, nat_eq, list_eq, ne_of_beq, eq-of-beq, arith, All,
  leb, if◌then◌else◌,
}
use kafka_flink_click_house.Redis.{Redis, IsLawful, Lua}
use kafka_flink_click_house.Features.{Snapshot, apply_feature}
use kafka_flink_click_house.Features.Cells.{
  Holds, Holds-same, IsTimed, IsTimedCell, newer-IsTimedCell, version_of, newer,
  apply_feature-newer,
}

abbrev pub In : Snapshot → List Snapshot → Type 0
In p [] = ⊥
In p (q ∷ ps) = (p ≡ q) ⊎ In p ps

-- The cell of a key behind a list of snapshots.
abbrev pub cell_after : Text → Option Snapshot → List Snapshot → Option Snapshot
cell_after k c [] = c
cell_after k c (p ∷ ps) = cell_after k (if k == p.key then newer c p else c) ps

-- The greatest version of a key among the snapshots that `S` tells, if there is one.
abbrev pub IsBest : Text → (Snapshot → Type 0) → Option Snapshot → Type 0
IsBest k S none = (q : Snapshot) → S q → q.key ≢ k
IsBest k S (some p) =
    S p × (p.key ≡ k) × ((q : Snapshot) → S q → q.key ≡ k → version_of q ≤ version_of p)

pub IsBest-iff :
    (k : Text) (S T : Snapshot → Type 0) (c : Option Snapshot)
    → ((q : Snapshot) → S q → T q)
    → ((q : Snapshot) → T q → S q)
    → IsBest k S c
    → IsBest k T c
IsBest-iff k S T none to from h = λ q t. h q (from q t)
IsBest-iff k S T (some p) to from h = (to p h.0, h.1, λ q t e. h.2 q (from q t) e)

newer-IsBest :
    (k : Text) (S : Snapshot → Type 0) (c : Option Snapshot) (p : Snapshot)
    → p.key ≡ k
    → IsBest k S c
    → IsBest k (λ q. S q ⊎ (q ≡ p)) (newer c p)
newer-IsBest k S none p e h =
    (inr refl, e, λ q m same. elim m [ inl s ↦ absurd (h q s same) | inr r ↦ rw r (omega arith) ])
newer-IsBest k S (some b) p e h = elim (Bool-cases (leb (version_of p) (version_of b))) [
  | inl old ↦
      rw old
        (inl h.0, h.1, λ q m same. elim m [ inl s ↦ h.2 q s same | inr r ↦ rw r (ground arith) ])
  | inr new ↦ rw new (
    inr refl,
    e,
    λ q m same. elim m [
      | inl s ↦ omega (arith, h.2 q s same, leb-false (version_of p) (version_of b) new)
      | inr r ↦ rw r (omega arith)
    ],
  )
]
  where
    leb-false : (m n : ℕ) → leb m n ≡ false → n ≤ m
    leb-false m n h = ground arith

step-IsBest :
    (k : Text) (S : Snapshot → Type 0) (c : Option Snapshot) (p : Snapshot)
    → IsBest k S c
    → IsBest k (λ q. S q ⊎ (q ≡ p)) (if k == p.key then newer c p else c)
step-IsBest k S c p h = elim (Bool-cases (k == p.key)) [
  | inl e ↦ rw e (newer-IsBest k S c p (sym (eq-of-beq k p.key e)) h)
  | inr e ↦ rw e (skip c h (λ same. ne_of_beq k p.key e (sym same)))
]
  where
    skip : (c : Option Snapshot) → IsBest k S c → p.key ≢ k → IsBest k (λ q. S q ⊎ (q ≡ p)) c
    skip none h other = λ q m. elim m [ inl s ↦ h q s | inr r ↦ rw r other ]
    skip (some b) h other = (
      inl h.0,
      h.1,
      λ q m same. elim m [
        | inl s ↦ h.2 q s same
        | inr r ↦ absurd (other (subst (λ x. x.key ≡ k) r same))
      ],
    )

cell_after-IsBest :
    (ps : List Snapshot) (k : Text) (S : Snapshot → Type 0) (c : Option Snapshot)
    → IsBest k S c
    → IsBest k (λ q. S q ⊎ In q ps) (cell_after k c ps)
cell_after-IsBest [] k S c h =
    IsBest-iff k S (λ q. S q ⊎ ⊥) c (λ q s. inl s) (λ q m. elim m [ inl s ↦ s | inr x ↦ absurd x ])
      h
cell_after-IsBest (p ∷ ps) k S c h =
    IsBest-iff k (λ q. (S q ⊎ (q ≡ p)) ⊎ In q ps) (λ q. S q ⊎ ((q ≡ p) ⊎ In q ps)) _
      (λ q m. elim m [ inl (inl s) ↦ inl s | inl (inr e) ↦ inr (inl e) | inr i ↦ inr (inr i) ])
      (λ q m. elim m [ inl s ↦ inl (inl s) | inr (inl e) ↦ inl (inr e) | inr (inr i) ↦ inr i ])
      (cell_after-IsBest ps k (λ q. S q ⊎ (q ≡ p)) _ (step-IsBest k S c p h))

-- Two lists hold the same snapshots, in any order and as often as they like.
abbrev pub SameMembers : List Snapshot → List Snapshot → Type 0
SameMembers ps qs = (p : Snapshot) → In p ps ↔ In p qs

-- A version names one snapshot of a user.
abbrev pub IsVersioned : List Snapshot → Type 0
IsVersioned ps =
    (p q : Snapshot) → In p ps → In q ps → p.key ≡ q.key → version_of p ≡ version_of q → p ≡ q

best_unique :
    (k : Text) (ps qs : List Snapshot) (c d : Option Snapshot)
    → SameMembers ps qs
    → IsVersioned ps
    → IsBest k (λ q. In q ps) c
    → IsBest k (λ q. In q qs) d
    → c ≡ d
best_unique k ps qs none none same v h g = refl
best_unique k ps qs none (some d) same v h g = absurd (h d ((same d).1 g.0) g.1)
best_unique k ps qs (some c) none same v h g = absurd (g c ((same c).0 h.0) h.1)
best_unique k ps qs (some c) (some d) same v h g =
    let d_in = (same d).1 g.0 in
    let below = h.2 d d_in g.1 in
    let above = g.2 c ((same c).0 h.0) h.1 in ap some (v c d h.0 d_in (h.1 ∙ sym g.1) (omega arith))

pub from_start : (k : Text) (ps : List Snapshot) → IsBest k (λ q. In q ps) (cell_after k none ps)
from_start k ps =
    IsBest-iff k (λ q. ⊥ ⊎ In q ps) (λ q. In q ps) _
      (λ q m. elim m [ inl x ↦ absurd x | inr i ↦ i ]) (λ q i. inr i)
      (cell_after-IsBest ps k (λ q. ⊥) none (λ q x. absurd x))

pub cell_after-SameMembers :
    (k : Text) (ps qs : List Snapshot)
    → SameMembers ps qs
    → IsVersioned ps
    → cell_after k none ps ≡ cell_after k none qs
cell_after-SameMembers k ps qs same v =
    best_unique k ps qs _ _ same v (from_start k ps) (from_start k qs)

module _ (R : Redis) (laws : IsLawful R) (L : Lua) where
  -- The server behind the calls of the script for a list of snapshots.
  abbrev pub apply_all : R.State → List Snapshot → R.State
  apply_all s [] = s
  apply_all s (p ∷ ps) = apply_all (apply_feature R L p s).1 ps

  Holds-step :
      (k : Text) (c d : Option Snapshot) (p : Snapshot) (s : R.State)
      → (k ≡ p.key → c ≡ d)
      → IsTimedCell d
      → IsTimed p
      → Holds R s k c
      → Holds R s p.key d
      → Holds R (apply_feature R L p s).1 k (if k == p.key then newer c p else c)
  Holds-step k c d p s agree td tp h g =
      let (written, answer, others) = apply_feature-newer R laws L d p s td tp g in
      elim (Bool-cases (k == p.key)) [
        | inl e ↦
            let same = eq-of-beq k p.key e in
            rw (e, agree same)
              (subst (λ j. Holds R (apply_feature R L p s).1 j (newer d p)) (sym same) written)
        | inr e ↦ rw e (
            Holds-same R laws c s (apply_feature R L p s).1 k
              (λ f. others k f (ne_of_beq k p.key e)) h)
      ]

  -- What the server holds is what the specification holds, key by key.
  unfoldable pub Refines : R.State → (Text → Option Snapshot) → Type 0
  Refines s t = (k : Text) → Holds R s k (t k) × IsTimedCell (t k)

  abbrev pub absorb : (Text → Option Snapshot) → Snapshot → Text → Option Snapshot
  absorb t p k = if k == p.key then newer (t k) p else t k

  pub absorb-Refines :
      (t : Text → Option Snapshot) (p : Snapshot) (s : R.State)
      → IsTimed p
      → Refines s t
      → Refines (apply_feature R L p s).1 (absorb t p)
  unfolding Refines
  absorb-Refines t p s tp r k = (
    Holds-step k (t k) (t p.key) p s (λ e. ap t e) (r p.key).1 tp (r k).0 (r p.key).0,
    timed (k == p.key),
  )
    where
      timed : (b : Bool) → IsTimedCell (if b then newer (t k) p else t k)
      timed true = newer-IsTimedCell (t k) p (r k).1 tp
      timed false = (r k).1

  apply_all-cell_after :
      (ps : List Snapshot) (t : Text → Option Snapshot) (s : R.State) (k : Text)
      → All IsTimed ps
      → Refines s t
      → Holds R (apply_all s ps) k (cell_after k (t k) ps)
  apply_all-cell_after [] t s k timed r = unfold Refines in (r k).0
  apply_all-cell_after (p ∷ ps) t s k timed r =
      apply_all-cell_after ps (absorb t p) (apply_feature R L p s).1 k timed.1
        (absorb-Refines t p s timed.0 r)

  -- Redis converges. Let two deliveries hold the same snapshots, each any number of times and in
  -- any order, let a version name one snapshot of a user, and let versions be numbers
  -- not negative and below 2^53 with positive times to live. From a server with no features both
  -- leave under every key the same ten fields: those of the greatest version that was delivered
  -- for it, or none if none was.
  pub apply_all-converges :
      (ps qs : List Snapshot) (s : R.State) (k : Text)
      → SameMembers ps qs
      → IsVersioned ps
      → All IsTimed ps
      → All IsTimed qs
      → ((j : Text) → Holds R s j none)
      → (c : Option Snapshot) × IsBest k (λ p. In p ps) c
        × Holds R (apply_all s ps) k c
        × Holds R (apply_all s qs) k c
  unfolding Refines
  apply_all-converges ps qs s k same v tp tq start =
      let t : Text → Option Snapshot = λ j. none in
      let r : Refines s t = λ j. (start j, tt) in
      (
        cell_after k none ps,
        from_start k ps,
        apply_all-cell_after ps t s k tp r,
        subst (Holds R (apply_all s qs) k) (sym (cell_after-SameMembers k ps qs same v))
            (apply_all-cell_after qs t s k tq r),
      )
