-- ===== src/Json.antt =====
-- Decoded JSON, as `json.load` returns it, and how the program takes it apart.
pub mod Equality
pub mod Same
use kafka_flink_click_house.Base.{
  false, Bool, Option, none, some, List, [], ◌∷◌, Text, ◌==◌, nat_eq, list_eq, if◌then◌else◌,
  Result, ok, err,
}

mutual
  pub data Json : Type 0 where
    null : Json
    boolean : Bool → Json
    -- A number, as it is written.
    number : Text → Json
    string : Text → Json
    array : Elements → Json
    object : Members → Json

  pub data Elements : Type 0 where
    no_elements : Elements
    element : Json → Elements → Elements

  -- The keys differ: a `dict` holds the last value of each.
  pub data Members : Type 0 where
    no_members : Members
    member : Text → Json → Members → Members

-- What Python raises of a value of another type.
pub data TypeMismatch : Type 0 where
  attribute_error type_error : TypeMismatch

unfoldable pub find : Members → Text → Option Json
find no_members key = none
find (member name value members) key = if key == name then some value else find members key

-- `d[key] = value`
unfoldable pub set_member : Members → Text → Json → Members
set_member no_members key value = member key value no_members
set_member (member name old members) key value =
    if key == name
    then member name value members
    else member name old (set_member members key value)

abbrev pub or_else : Option Json → Json → Json
or_else none default = default
or_else (some value) default = value

-- `value.get(key, default)`, which only a `dict` has.
unfoldable pub get_member : Json → Text → Json → Result TypeMismatch Json
unfolding find
get_member (object fields) key default = ok (or_else (find fields key) default)
get_member null key default = err attribute_error
get_member (boolean b) key default = err attribute_error
get_member (number n) key default = err attribute_error
get_member (string s) key default = err attribute_error
get_member (array _) key default = err attribute_error

abbrev list_of : Elements → List Json
list_of no_elements = []
list_of (element value elements) = value ∷ list_of elements

abbrev characters : Text → List Json
characters [] = []
characters (c ∷ s) = string (c ∷ []) ∷ characters s

abbrev keys : Members → List Json
keys no_members = []
keys (member name value members) = string name ∷ keys members

-- `for … in value`
unfoldable pub iterate : Json → Result TypeMismatch (List Json)
iterate (array items) = ok (list_of items)
iterate (string s) = ok (characters s)
iterate (object members) = ok (keys members)
iterate null = err type_error
iterate (boolean b) = err type_error
iterate (number n) = err type_error

-- `value == "text"`
abbrev pub is_string : Json → Text → Bool
is_string (string s) text = s == text
is_string null text = false
is_string (boolean b) text = false
is_string (number n) text = false
is_string (array _) text = false
is_string (object _) text = false
