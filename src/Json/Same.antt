-- ===== src/Json/Same.antt =====
-- When two decoded values are equal, independent of how they are compared.
use kafka_flink_click_house.Base.{
  ◌≡◌, ◌↔◌, refl, Bool, true, false, none, some, Option, Text, ◌==◌, nat_eq, list_eq, nat_beq_iff,
  list_beq_iff, and_iff, ◌&&◌, subst,
}
use kafka_flink_click_house.Json.{
  Json, null, boolean, number, string, array, object, Elements, no_elements, element, Members,
  no_members, member, find,
}
use kafka_flink_click_house.Json.Equality.{digit, count_members, json_eq, elements_eq, members_in}

module _ (number_eq : Text → Text → Bool) where
  -- Two values of the same kind with equal parts, where a Boolean is a number too. Of two objects,
  -- both have as many keys, and each of the first is in the second, with the same value.
  unfoldable mutual
    pub IsSame : Json → Json → Type 0
    IsSame null null = Unit {0}
    IsSame (boolean a) (boolean b) = a ≡ b
    IsSame (boolean a) (number n) = number_eq (digit a) n ≡ true
    IsSame (number m) (boolean b) = number_eq m (digit b) ≡ true
    IsSame (number m) (number n) = number_eq m n ≡ true
    IsSame (string s) (string t) = s ≡ t
    IsSame (array xs) (array ys) = AreSame xs ys
    IsSame (object xs) (object ys) = (count_members xs ≡ count_members ys) × AreIn xs ys
    IsSame _ _ = ⊥

    pub AreSame : Elements → Elements → Type 0
    AreSame no_elements no_elements = Unit {0}
    AreSame no_elements (element y ys) = ⊥
    AreSame (element x xs) no_elements = ⊥
    AreSame (element x xs) (element y ys) = IsSame x y × AreSame xs ys

    pub AreIn : Members → Members → Type 0
    AreIn no_members ys = Unit {0}
    AreIn (member key x xs) ys = ((y : Json) × (find ys key ≡ some y) × IsSame x y) × AreIn xs ys

  digit_iff : (a b : Bool) → ((digit a == digit b) ≡ true) ↔ (a ≡ b)
  digit_iff true true = (λ h. refl, λ h. refl)
  digit_iff true false = (λ h. cc, λ h. cc)
  digit_iff false true = (λ h. cc, λ h. cc)
  digit_iff false false = (λ h. refl, λ h. refl)

  in_step :
      (o : Option Json) (S : Json → Type 0) (T : Type 0) (p : Json → Bool) (b : Bool)
      → ((y : Json) → (p y ≡ true) ↔ S y)
      → (b ≡ true) ↔ T
      → ((elim o [ none ↦ false | some y ↦ p y && b ]) ≡ true)
        ↔ (((y : Json) × (o ≡ some y) × S y) × T)
  in_step none S T p b h k = (λ e. cc, λ ((y, e, _), _). cc)
  in_step (some y) S T p b h k =
      let both = and_iff (p y) b in
      (
        λ e. let (a, c) = both.0 e in ((y, refl, (h y).0 a), k.0 c),
        λ ((z, e, s), t). let same : z ≡ y = cc in both.1 ((h y).1 (subst S same s), k.1 t),
      )

  mutual
    unfolding json_eq IsSame

    pub json_eq_iff : (x y : Json) → (json_eq number_eq x y ≡ true) ↔ IsSame x y
    json_eq_iff null null = (λ h. tt, λ h. refl)
    json_eq_iff null (boolean b) = (λ h. cc, λ h. elim h [ ])
    json_eq_iff null (number n) = (λ h. cc, λ h. elim h [ ])
    json_eq_iff null (string t) = (λ h. cc, λ h. elim h [ ])
    json_eq_iff null (array ys) = (λ h. cc, λ h. elim h [ ])
    json_eq_iff null (object ys) = (λ h. cc, λ h. elim h [ ])
    json_eq_iff (boolean a) null = (λ h. cc, λ h. elim h [ ])
    json_eq_iff (boolean a) (boolean b) = digit_iff a b
    json_eq_iff (boolean a) (number n) = (λ h. h, λ h. h)
    json_eq_iff (boolean a) (string t) = (λ h. cc, λ h. elim h [ ])
    json_eq_iff (boolean a) (array ys) = (λ h. cc, λ h. elim h [ ])
    json_eq_iff (boolean a) (object ys) = (λ h. cc, λ h. elim h [ ])
    json_eq_iff (number m) null = (λ h. cc, λ h. elim h [ ])
    json_eq_iff (number m) (boolean b) = (λ h. h, λ h. h)
    json_eq_iff (number m) (number n) = (λ h. h, λ h. h)
    json_eq_iff (number m) (string t) = (λ h. cc, λ h. elim h [ ])
    json_eq_iff (number m) (array ys) = (λ h. cc, λ h. elim h [ ])
    json_eq_iff (number m) (object ys) = (λ h. cc, λ h. elim h [ ])
    json_eq_iff (string s) null = (λ h. cc, λ h. elim h [ ])
    json_eq_iff (string s) (boolean b) = (λ h. cc, λ h. elim h [ ])
    json_eq_iff (string s) (number n) = (λ h. cc, λ h. elim h [ ])
    json_eq_iff (string s) (string t) = list_beq_iff s t
    json_eq_iff (string s) (array ys) = (λ h. cc, λ h. elim h [ ])
    json_eq_iff (string s) (object ys) = (λ h. cc, λ h. elim h [ ])
    json_eq_iff (array xs) null = (λ h. cc, λ h. elim h [ ])
    json_eq_iff (array xs) (boolean b) = (λ h. cc, λ h. elim h [ ])
    json_eq_iff (array xs) (number n) = (λ h. cc, λ h. elim h [ ])
    json_eq_iff (array xs) (string t) = (λ h. cc, λ h. elim h [ ])
    json_eq_iff (array xs) (array ys) = elements_eq_iff xs ys
    json_eq_iff (array xs) (object ys) = (λ h. cc, λ h. elim h [ ])
    json_eq_iff (object xs) null = (λ h. cc, λ h. elim h [ ])
    json_eq_iff (object xs) (boolean b) = (λ h. cc, λ h. elim h [ ])
    json_eq_iff (object xs) (number n) = (λ h. cc, λ h. elim h [ ])
    json_eq_iff (object xs) (string t) = (λ h. cc, λ h. elim h [ ])
    json_eq_iff (object xs) (array ys) = (λ h. cc, λ h. elim h [ ])
    json_eq_iff (object xs) (object ys) =
        let both = and_iff (count_members xs == count_members ys) (members_in number_eq xs ys) in
        let count = nat_beq_iff (count_members xs) (count_members ys) in
        let within = members_in_iff xs ys in
        (
          λ h. let (a, b) = both.0 h in (count.0 a, within.0 b),
          λ (a, b). both.1 (count.1 a, within.1 b),
        )

    elements_eq_iff : (xs ys : Elements) → (elements_eq number_eq xs ys ≡ true) ↔ AreSame xs ys
    elements_eq_iff no_elements no_elements = (λ h. tt, λ h. refl)
    elements_eq_iff no_elements (element y ys) = (λ h. cc, λ h. elim h [ ])
    elements_eq_iff (element x xs) no_elements = (λ h. cc, λ h. elim h [ ])
    elements_eq_iff (element x xs) (element y ys) =
        let both = and_iff (json_eq number_eq x y) (elements_eq number_eq xs ys) in
        let first = json_eq_iff x y in
        let rest = elements_eq_iff xs ys in
        (
          λ h. let (a, b) = both.0 h in (first.0 a, rest.0 b),
          λ (a, b). both.1 (first.1 a, rest.1 b),
        )

    members_in_iff : (xs ys : Members) → (members_in number_eq xs ys ≡ true) ↔ AreIn xs ys
    members_in_iff no_members ys = (λ h. tt, λ h. refl)
    members_in_iff (member key x xs) ys =
        in_step (find ys key) (IsSame x) (AreIn xs ys) (json_eq number_eq x)
          (members_in number_eq xs ys) (λ y. json_eq_iff x y) (members_in_iff xs ys)
