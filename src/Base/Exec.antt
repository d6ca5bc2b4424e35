-- ===== src/Base/Exec.antt =====
-- Calls that change a state and may raise. What was done before a raise stays done, so the state
-- comes back beside the exception too.
use mathlib.Core.Path.{◌≡◌, refl}
use mathlib.Core.Logic.{◌↔◌}
use kafka_flink_click_house.Base.Raising.{Result, ok, err}

abbrev pub Exec : Type 0 → Type 0 → Type 0 → Type 0
Exec E S A = S → Result E A × S

module _ {E S A B : Type 0} where
  abbrev pub continue : Result E A → S → (A → Exec E S B) → Result E B × S
  continue (ok a) s f = f a s
  continue (err e) s f = (err e, s)

  infixl 5 ◌>>=◌ ◌>>◌
  abbrev pub ◌>>=◌ : Exec E S A → (A → Exec E S B) → Exec E S B
  ◌>>=◌ m f s = continue (m s).0 (m s).1 f

  abbrev pub ◌>>◌ : Exec E S A → Exec E S B → Exec E S B
  m >> k = m >>= λ _. k

module _ {E S A : Type 0} where
  abbrev pub pure : A → Exec E S A
  pure a s = (ok a, s)

  abbrev pub raise : E → Exec E S A
  raise e s = (err e, s)

  -- A call that only changes the state, and returns a value.
  abbrev pub lift : (S → A × S) → Exec E S A
  lift f s = (ok (f s).0, (f s).1)

-- A chain of calls that returns: its first call returned, and so did the rest.
pub continue-eq-ok :
    {E S A B : Type 0} (r : Result E A) (s : S) (f : A → Exec E S B) (b : B)
    → (continue r s f).0 ≡ ok b
    → (a : A) × (r ≡ ok a) × ((f a s).0 ≡ ok b)
continue-eq-ok (ok a) s f b h = (a, refl, h)
continue-eq-ok (err e) s f b h = cc

-- Two calls, one behind the other, return exactly if both do.
pub >>_iff :
    {E S B : Type 0} (m : Exec E S (Unit {0})) (k : Exec E S B) (s : S) (b : B)
    → (((m >> k) s).0 ≡ ok b) ↔ (((m s).0 ≡ ok tt) × ((k (m s).1).0 ≡ ok b))
>>_iff {E} {S} {B} m k s b = go (m s).0
  where
    go :
        (r : Result E (Unit {0}))
        → ((continue r (m s).1 (λ _. k)).0 ≡ ok b) ↔ ((r ≡ ok tt) × ((k (m s).1).0 ≡ ok b))
    go (ok a) = (λ h. (refl, h), λ (_, h). h)
    go (err e) = (λ h. cc, λ (p, _). cc)

-- A chain of calls that returns is its rest, behind a first call that returned.
pub continue_returns :
    {E S A B : Type 0} (r : Result E A) (s : S) (f : A → Exec E S B) (b : B)
    → (continue r s f).0 ≡ ok b
    → (a : A) × (r ≡ ok a) × ((f a s).0 ≡ ok b) × (continue r s f ≡ f a s)
continue_returns (ok a) s f b h = (a, refl, h, refl)
continue_returns (err e) s f b h = cc

-- A property of a chain of two calls: of what the first raised, or of the rest behind its value.
pub continue-either :
    {E S A B : Type 0} (P : Result E B × S → Type 0) (r : Result E A) (s : S) (f : A → Exec E S B)
    → ((e : E) → P (err e, s))
    → ((a : A) → r ≡ ok a → P (f a s))
    → P (continue r s f)
continue-either P (ok a) s f h k = k a refl
continue-either P (err e) s f h k = h e

pub continue_ok :
    {E S A B : Type 0} (r : Result E A) (s : S) (f : A → Exec E S B) (a : A)
    → r ≡ ok a
    → continue r s f ≡ f a s
continue_ok r s f a h = rw h refl
