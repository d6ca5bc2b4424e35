-- ===== src/Base/Dict.antt =====
-- Python's `dict`, in insertion order. Proofs elsewhere go by the laws.
use mathlib.Core.Path.{◌≡◌, refl}
use mathlib.Core.Option.{Option, none, some}
use mathlib.Core.List.{List, [], ◌∷◌}
use native.Mathlib.Omega.{arith}
use kafka_flink_click_house.Base.Tests.{if◌then◌else◌}
use kafka_flink_click_house.Base.Equality.{Comparable, eq_self, ◌==◌}

abbrev pub Dict {ℓ κ} : Type ℓ → Type κ → Type (ℓ ⊔ κ)
Dict K V = List (K × V)

module _ {ℓ κ} {K : Type ℓ} {V : Type κ} ⦃e : Comparable K⦄ where
  -- `d.get(k)`
  unfoldable pub get : Dict K V → K → Option V
  get [] k = none
  get ((j, v) ∷ d) k = if k == j then some v else get d k

  -- `d[k] = v`
  unfoldable pub put : Dict K V → K → V → Dict K V
  put [] k v = (k, v) ∷ []
  put ((j, w) ∷ d) k v = if k == j then (j, v) ∷ d else (j, w) ∷ put d k v

  -- `d.pop(k, None)`
  unfoldable pub remove : Dict K V → K → Dict K V
  remove [] k = []
  remove ((j, w) ∷ d) k = let rest = remove d k in if k == j then rest else (j, w) ∷ rest

  pub get-put :
      (d : Dict K V) (k j : K) (v : V) → get (put d k v) j ≡ (if j == k then some v else get d j)
  unfolding get put
  get-put [] k j v = refl
  get-put ((i, w) ∷ d) k j v =
      ground (arith, e.decides k i, e.decides j i, e.decides j k, get-put d k j v)

  pub get-put_self : (d : Dict K V) (k : K) (v : V) → get (put d k v) k ≡ some v
  get-put_self d k v = ground (arith, get-put d k k v, eq_self k)

  pub get-remove :
      (d : Dict K V) (k j : K) → get (remove d k) j ≡ (if j == k then none else get d j)
  unfolding get remove
  get-remove [] k j = ground arith
  get-remove ((i, w) ∷ d) k j =
      ground (arith, e.decides k i, e.decides j i, e.decides j k, get-remove d k j)

  pub get-nil : (k : K) → get [] k ≡ none
  unfolding get
  get-nil k = refl

  -- `d.update(entries)`
  unfoldable pub update : Dict K V → Dict K V → Dict K V
  unfolding put
  update d [] = d
  update d ((k, v) ∷ entries) = update (put d k v) entries

  -- The value of a key after an update: the last entry's, if one has the key.
  unfoldable pub last_of : Dict K V → K → Option V
  last_of [] k = none
  last_of ((j, v) ∷ entries) k = elim (last_of entries k) [
    | none ↦ if k == j then some v else none
    | some w ↦ some w
  ]

  pub get-update :
      (d entries : Dict K V) (k : K)
      → get (update d entries) k ≡ elim (last_of entries k) [ none ↦ get d k | some v ↦ some v ]
  unfolding update last_of
  get-update d [] k = refl
  get-update d ((j, v) ∷ entries) k =
      ground (arith, get-update (put d j v) entries k, get-put d j k v)
