-- ===== src/Text/Strip.antt =====
-- Laws of `strip`: what is left has no space at its ends, and stripping it again changes nothing.
use kafka_flink_click_house.Base.{
  ℕ, ◌≡◌, refl, ap, ◌∙◌, Bool, true, false, inl, inr, Bool-cases, [], ◌∷◌, ◌++◌, Text, All,
}
use kafka_flink_click_house.Text.{lstrip_by, rstrip_by, strip_by, before, is_space, strip}

module _ (p : ℕ → Bool) where
  -- No character at the front is one that `p` tells.
  abbrev pub Bare : Text → Type 0
  Bare [] = Unit
  Bare (c ∷ s) = p c ≡ false

  lstrip_by-Bare : (s : Text) → Bare (lstrip_by p s)
  unfolding lstrip_by
  lstrip_by-Bare [] = tt
  lstrip_by-Bare (c ∷ s) = elim (Bool-cases (p c)) [
    | inl h ↦ rw h (lstrip_by-Bare s)
    | inr h ↦ rw h h
  ]

  pub lstrip_by_of_Bare : (s : Text) → Bare s → lstrip_by p s ≡ s
  unfolding lstrip_by
  lstrip_by_of_Bare [] h = refl
  lstrip_by_of_Bare (c ∷ s) h = rw h

  before-Bare : (c : ℕ) (s : Text) → p c ≡ false → Bare (before p c s)
  before-Bare c [] h = rw h h
  before-Bare c (d ∷ s) h = h

  rstrip_by-Bare : (s : Text) → Bare s → Bare (rstrip_by p s)
  unfolding rstrip_by
  rstrip_by-Bare [] h = tt
  rstrip_by-Bare (c ∷ s) h = before-Bare c (rstrip_by p s) h

  before-before : (c : ℕ) (s : Text) → rstrip_by p s ≡ s → rstrip_by p (before p c s) ≡ before p c s
  unfolding rstrip_by
  before-before c [] h = elim (Bool-cases (p c)) [ inl e ↦ rw e | inr e ↦ rw e (rw e) ]
  before-before c (d ∷ s) h = ap (before p c) h

  rstrip_by_idem : (s : Text) → rstrip_by p (rstrip_by p s) ≡ rstrip_by p s
  unfolding rstrip_by
  rstrip_by_idem [] = refl
  rstrip_by_idem (c ∷ s) = before-before c (rstrip_by p s) (rstrip_by_idem s)

  pub strip_by_idem : (s : Text) → strip_by p (strip_by p s) ≡ strip_by p s
  unfolding strip_by
  strip_by_idem s =
      ap (rstrip_by p) (
        lstrip_by_of_Bare (rstrip_by p (lstrip_by p s))
          (rstrip_by-Bare (lstrip_by p s) (lstrip_by-Bare s)))
      ∙ rstrip_by_idem (lstrip_by p s)

  -- A text with none of the characters is left as it is.
  rstrip_by_none : (s : Text) → All (λ c. p c ≡ false) s → rstrip_by p s ≡ s
  unfolding rstrip_by
  rstrip_by_none [] h = refl
  rstrip_by_none (c ∷ []) h = rw h.0
  rstrip_by_none (c ∷ d ∷ s) h = ap (before p c) (rstrip_by_none (d ∷ s) h.1)

  All-Bare : (s : Text) → All (λ c. p c ≡ false) s → Bare s
  All-Bare [] h = tt
  All-Bare (c ∷ s) h = h.0

  pub strip_by_none : (s : Text) → All (λ c. p c ≡ false) s → strip_by p s ≡ s
  unfolding strip_by
  strip_by_none s h = ap (rstrip_by p) (lstrip_by_of_Bare s (All-Bare s h)) ∙ rstrip_by_none s h

  lstrip_by-append : (w s : Text) → All (λ c. p c ≡ true) w → lstrip_by p (w ++ s) ≡ lstrip_by p s
  unfolding lstrip_by
  lstrip_by-append [] s h = refl
  lstrip_by-append (c ∷ w) s h = rw h.0 (lstrip_by-append w s h.1)

  rstrip_by-All : (w : Text) → All (λ c. p c ≡ true) w → rstrip_by p w ≡ []
  unfolding rstrip_by
  rstrip_by-All [] h = refl
  rstrip_by-All (c ∷ w) h = rw (rstrip_by-All w h.1, before, h.0)

  rstrip_by-append : (s w : Text) → All (λ c. p c ≡ true) w → rstrip_by p (s ++ w) ≡ rstrip_by p s
  unfolding rstrip_by
  rstrip_by-append [] w h = rstrip_by-All w h
  rstrip_by-append (c ∷ s) w h = ap (before p c) (rstrip_by-append s w h)

  lstrip_by-All : (w : Text) → All (λ c. p c ≡ true) w → lstrip_by p w ≡ []
  unfolding lstrip_by
  lstrip_by-All [] h = refl
  lstrip_by-All (c ∷ w) h = rw h.0 (lstrip_by-All w h.1)

  strip_by-append : (s w : Text) → All (λ c. p c ≡ true) w → strip_by p (s ++ w) ≡ strip_by p s
  unfolding strip_by lstrip_by
  strip_by-append [] w h = ap (rstrip_by p) (lstrip_by-All w h)
  strip_by-append (c ∷ s) w h = elim (Bool-cases (p c)) [
    | inl e ↦ rw e (strip_by-append s w h)
    | inr e ↦ rw e (rstrip_by-append (c ∷ s) w h)
  ]

-- White space in front of a text and behind it is taken off.
pub strip_padded :
    (v w s : Text)
    → All (λ c. is_space c ≡ true) v
    → All (λ c. is_space c ≡ true) w
    → strip (v ++ (s ++ w)) ≡ strip s
unfolding strip
strip_padded v w s hv hw =
    ap (rstrip_by is_space) (lstrip_by-append is_space v (s ++ w) hv)
    ∙ strip_by-append is_space s w hw

pub strip_idem : (s : Text) → strip (strip s) ≡ strip s
unfolding strip
strip_idem = strip_by_idem is_space

pub strip_none : (s : Text) → All (λ c. is_space c ≡ false) s → strip s ≡ s
unfolding strip
strip_none = strip_by_none is_space
