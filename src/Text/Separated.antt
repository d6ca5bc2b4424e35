-- ===== src/Text/Separated.antt =====
-- `join` and `split` at one separator: what was joined can be taken apart in one way only.
use kafka_flink_click_house.Base.{
  ℕ, ◌≡◌, refl, ap, ◌∙◌, ◌≢◌, List, [], ◌∷◌, ◌++◌, Text, All, nat_eq, eq_self, beq_of_ne,
}
use kafka_flink_click_house.Text.{join, split}

-- The separator does not stand in the text.
abbrev pub Free : ℕ → Text → Type 0
Free sep = All (λ c. c ≢ sep)

-- Two texts cut at their first separator: the parts agree.
pub cut_first :
    (sep : ℕ) (xs ys : Text) {r s : Text}
    → Free sep xs
    → Free sep ys
    → xs ++ (sep ∷ r) ≡ ys ++ (sep ∷ s)
    → (xs ≡ ys) × (r ≡ s)
cut_first sep [] [] hx hy e = (refl, cc)
cut_first sep [] (y ∷ ys) hx hy e = absurd (hy.0 (cc))
cut_first sep (x ∷ xs) [] hx hy e = absurd (hx.0 (cc))
cut_first sep (x ∷ xs) (y ∷ ys) {r} {s} hx hy e =
    let tails : xs ++ (sep ∷ r) ≡ ys ++ (sep ∷ s) = cc in
    let (p, q) = cut_first sep xs ys hx.1 hy.1 tails in (cc, q)

Free-of_cut : (sep : ℕ) (xs r s : Text) → Free sep s → s ≡ xs ++ (sep ∷ r) → ⊥
Free-of_cut sep [] r [] h e = cc
Free-of_cut sep [] r (c ∷ s) h e = h.0 (cc)
Free-of_cut sep (x ∷ xs) r [] h e = cc
Free-of_cut sep (x ∷ xs) r (c ∷ s) h e = Free-of_cut sep xs r s h.1 (cc)

-- Two texts cut at their last separator: the parts agree.
pub cut_last :
    (sep : ℕ) (xs ys : Text) {r s : Text}
    → Free sep r
    → Free sep s
    → xs ++ (sep ∷ r) ≡ ys ++ (sep ∷ s)
    → (xs ≡ ys) × (r ≡ s)
cut_last sep [] [] hr hs e = (refl, cc)
cut_last sep [] (y ∷ ys) {r} {s} hr hs e = absurd (Free-of_cut sep ys s r hr (cc))
cut_last sep (x ∷ xs) [] {r} {s} hr hs e = absurd (Free-of_cut sep xs r s hs (cc))
cut_last sep (x ∷ xs) (y ∷ ys) {r} {s} hr hs e =
    let tails : xs ++ (sep ∷ r) ≡ ys ++ (sep ∷ s) = cc in
    let (p, q) = cut_last sep xs ys hr hs tails in (cc, q)

split-Free : (sep : ℕ) (p : Text) → Free sep p → split sep p ≡ p ∷ []
unfolding split
split-Free sep [] h = refl
split-Free sep (c ∷ p) h = rw (beq_of_ne c sep h.0, split-Free sep p h.1)

split-append : (sep : ℕ) (p s : Text) → Free sep p → split sep (p ++ (sep ∷ s)) ≡ p ∷ split sep s
unfolding split
split-append sep [] s h = rw (eq_self sep)
split-append sep (c ∷ p) s h = rw (beq_of_ne c sep h.0, split-append sep p s h.1)

-- `split` undoes `join` of one or more parts in which the separator does not stand.
pub split-join :
    (sep : ℕ) (p : Text) (ps : List Text)
    → Free sep p
    → All (Free sep) ps
    → split sep (join sep (p ∷ ps)) ≡ p ∷ ps
unfolding join
split-join sep p [] h hs = split-Free sep p h
split-join sep p (q ∷ ps) h hs =
    split-append sep p (join sep (q ∷ ps)) h ∙ ap (◌∷◌ p) (split-join sep q ps hs.0 hs.1)
