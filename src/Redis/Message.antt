-- ===== src/Redis/Message.antt =====
-- The values of a decoded JSON message, and what `int` and `str` make of them. The topics hold no
-- fractional numbers and no nested values, so those are left out.
use kafka_flink_click_house.Base.{
  Bool, true, false, none, some, Text, codes, ℤ, pos, Result, ok, err, ◌>>=◌, nat_eq, list_eq,
}
use kafka_flink_click_house.Base.Dict
use kafka_flink_click_house.Base.Dict.{Dict}
use kafka_flink_click_house.Text

pub data Json : Type 0 where
  num : ℤ → Json
  text : Text → Json
  bool : Bool → Json
  null : Json

-- The exceptions of `int(message[name])`.
pub data FieldError : Type 0 where
  key_error value_error type_error : Text → FieldError

-- `message[name]`
unfoldable pub field : Dict Text Json → Text → Result FieldError Json
field message name = elim (Dict.get message name) [ none ↦ err (key_error name) | some v ↦ ok v ]

-- `int(value)`
unfoldable pub int_of : Text → Json → Result FieldError ℤ
int_of name (num z) = ok z
int_of name (text s) = elim (Text.int s) [ none ↦ err (value_error name) | some z ↦ ok z ]
int_of name (bool true) = ok (pos 1)
int_of name (bool false) = ok (pos 0)
int_of name null = err (type_error name)

-- `str(value)`
unfoldable pub str_of : Json → Text
str_of (num z) = Text.str z
str_of (text s) = s
str_of (bool true) = codes "True"
str_of (bool false) = codes "False"
str_of null = codes "None"

unfoldable pub int_field : Dict Text Json → Text → Result FieldError ℤ
unfolding field int_of
int_field message name = do value ← field message name; int_of name value
