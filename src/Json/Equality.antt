-- ===== src/Json/Equality.antt =====
-- Python's `==` of decoded JSON. Objects are equal whatever the order of their keys is, and `True` and
-- `False` are the numbers 1 and 0.
use kafka_flink_click_house.Base.{
  ℕ, ◌+◌, Bool, true, false, ◌&&◌, none, some, Text, codes, ◌==◌, nat_eq, list_eq,
}
use kafka_flink_click_house.Json.{
  Json, null, boolean, number, string, array, object, Elements, no_elements, element, Members,
  no_members, member, find,
}

abbrev pub digit : Bool → Text
digit true = codes "1"
digit false = codes "0"

abbrev pub count_members : Members → ℕ
count_members no_members = 0
count_members (member key value members) = count_members members + 1

-- The equality of two numbers, which are integers or floats, is an argument.
module _ (number_eq : Text → Text → Bool) where
  unfoldable mutual
    unfolding find

    pub json_eq : Json → Json → Bool
    json_eq null null = true
    json_eq (boolean a) (boolean b) = digit a == digit b
    json_eq (boolean a) (number n) = number_eq (digit a) n
    json_eq (number m) (boolean b) = number_eq m (digit b)
    json_eq (number m) (number n) = number_eq m n
    json_eq (string s) (string t) = s == t
    json_eq (array xs) (array ys) = elements_eq xs ys
    json_eq (object xs) (object ys) = count_members xs == count_members ys && members_in xs ys
    json_eq _ _ = false

    pub elements_eq : Elements → Elements → Bool
    elements_eq no_elements no_elements = true
    elements_eq no_elements (element y ys) = false
    elements_eq (element x xs) no_elements = false
    elements_eq (element x xs) (element y ys) = json_eq x y && elements_eq xs ys

    -- Each key of the first object is in the second, with an equal value.
    pub members_in : Members → Members → Bool
    members_in no_members ys = true
    members_in (member key x xs) ys =
        let rest = members_in xs ys in
        elim (find ys key) [ none ↦ false | some y ↦ json_eq x y && rest ]
